-- ===== src/Constraint/Cubes.antt =====
-- What the cubes of the `assume` loops of src/pme/util/cardinality_constraint.cpp say of the
-- outputs.
use pme.Base.{ℕ, suc, ◌≤◌, ◌<◌, List, length, arith, ◌⊎◌, inl, inr}
use pme.Literal.{PmeId}
use pme.Cnf.{Valuation, SatCube}
use pme.Network.Prefix.{TruePrefix, FalseFrom}
use pme.Constraint.{assume_loop, eq_body, leq_body, lt_body, geq_body, gt_body}
use pme.Constraint.Assume.{
  Fits, assume_loop-TruePrefix, assume_loop-FalseFrom, assume_loop-Sat_whole, FalseFrom-length,
}
use pme.Constraint.Bodies.{
  pushed_true, pushed_false, push_true, push_false, push_nothing, eq_below, eq_from, leq_below,
  leq_from, lt_below, lt_from, geq_below, geq_from, gt_below, gt_from,
}

lt_or_ge : (i n : ℕ) → (i < n) ⊎ (n ≤ i)
lt_or_ge i n = omega arith

module _ (v : Valuation) (n : ℕ) (xs : List PmeId) (fits : Fits xs) where
  pub eq_cube-means :
      n ≤ length xs
      → SatCube v (assume_loop (eq_body n) 0 xs)
      → TruePrefix v n xs × FalseFrom v n xs
  eq_cube-means l s = (
    assume_loop-TruePrefix v (eq_body n) n
        (λ i lit h. pushed_true v lit (eq_body n i lit) (eq_below n i lit h)) 0 n xs (omega arith) l
        fits s,
    assume_loop-FalseFrom v (eq_body n) n
        (λ i lit h. pushed_false v lit (eq_body n i lit) (eq_from n i lit h)) 0 n xs (omega arith)
        fits s,
  )

  pub eq_cube-holds :
      TruePrefix v n xs → FalseFrom v n xs → SatCube v (assume_loop (eq_body n) 0 xs)
  eq_cube-holds =
      assume_loop-Sat_whole v (eq_body n) n n
        (λ i lit t f. elim (lt_or_ge i n) [
          | inl l ↦ push_true v lit (eq_body n i lit) (eq_below n i lit l) (t l)
          | inr l ↦ push_false v lit (eq_body n i lit) (eq_from n i lit l) (f l)
        ])
        xs fits

  pub leq_cube-means : SatCube v (assume_loop (leq_body n) 0 xs) → FalseFrom v n xs
  leq_cube-means =
      assume_loop-FalseFrom v (leq_body n) n
        (λ i lit h. pushed_false v lit (leq_body n i lit) (leq_from n i lit h)) 0 n xs (omega arith)
        fits

  pub leq_cube-holds : FalseFrom v n xs → SatCube v (assume_loop (leq_body n) 0 xs)
  leq_cube-holds =
      assume_loop-Sat_whole v (leq_body n) 0 n
        (λ i lit t f. elim (lt_or_ge i n) [
          | inl l ↦ push_nothing v lit (leq_body n i lit) (leq_below n i lit l)
          | inr l ↦ push_false v lit (leq_body n i lit) (leq_from n i lit l) (f l)
        ])
        xs fits tt

  pub lt_cube-means : SatCube v (assume_loop (lt_body (suc n)) 0 xs) → FalseFrom v n xs
  lt_cube-means =
      assume_loop-FalseFrom v (lt_body (suc n)) n
        (λ i lit h. pushed_false v lit (lt_body (suc n) i lit) (lt_from n i lit h)) 0 n xs
        (omega arith) fits

  pub lt_cube-holds : FalseFrom v n xs → SatCube v (assume_loop (lt_body (suc n)) 0 xs)
  lt_cube-holds =
      assume_loop-Sat_whole v (lt_body (suc n)) 0 n
        (λ i lit t f. elim (lt_or_ge i n) [
          | inl l ↦ push_nothing v lit (lt_body (suc n) i lit) (lt_below n i lit l)
          | inr l ↦ push_false v lit (lt_body (suc n) i lit) (lt_from n i lit l) (f l)
        ])
        xs fits tt

  pub geq_cube-means : n ≤ length xs → SatCube v (assume_loop (geq_body n) 0 xs) → TruePrefix v n xs
  geq_cube-means l =
      assume_loop-TruePrefix v (geq_body n) n
        (λ i lit h. pushed_true v lit (geq_body n i lit) (geq_below n i lit h)) 0 n xs (omega arith)
        l fits

  pub geq_cube-holds : TruePrefix v n xs → SatCube v (assume_loop (geq_body n) 0 xs)
  geq_cube-holds h =
      assume_loop-Sat_whole v (geq_body n) n (length xs)
        (λ i lit t f. elim (lt_or_ge i n) [
          | inl l ↦ push_true v lit (geq_body n i lit) (geq_below n i lit l) (t l)
          | inr l ↦ push_nothing v lit (geq_body n i lit) (geq_from n i lit l)
        ])
        xs fits h (FalseFrom-length v xs)

  pub gt_cube-means :
      suc n ≤ length xs → SatCube v (assume_loop (gt_body n) 0 xs) → TruePrefix v (suc n) xs
  gt_cube-means l =
      assume_loop-TruePrefix v (gt_body n) (suc n)
        (λ i lit h. pushed_true v lit (gt_body n i lit) (gt_below n i lit h)) 0 (suc n) xs
        (omega arith) l fits

  pub gt_cube-holds : TruePrefix v (suc n) xs → SatCube v (assume_loop (gt_body n) 0 xs)
  gt_cube-holds h =
      assume_loop-Sat_whole v (gt_body n) (suc n) (length xs)
        (λ i lit t f. elim (lt_or_ge i (suc n)) [
          | inl l ↦ push_true v lit (gt_body n i lit) (gt_below n i lit l) (t l)
          | inr l ↦ push_nothing v lit (gt_body n i lit) (gt_from n i lit l)
        ])
        xs fits h (FalseFrom-length v xs)
