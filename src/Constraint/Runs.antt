-- ===== src/Constraint/Runs.antt =====
-- Which branch the `assume` functions of src/pme/util/cardinality_constraint.cpp take.
use pme.Base.{
  ap, ℕ, suc, ◌^◌, ◌<◌, ◌≡◌, refl, true, false, ltb, leb, ◌==◌, List, [], length, min, ok, arith,
}
use pme.Literal.{PmeId}
use pme.Constraint.{
  SortingConstraint, CardinalityConstraint, to_unsigned, assume_loop, eq_body, leq_body, lt_body,
  geq_body, gt_body, is_full, assume_eq, assume_leq, assume_lt, assume_geq, assume_gt, get_outputs,
  as_constraint, sorting_assume_eq, sorting_assume_leq, sorting_assume_lt, sorting_assume_geq,
  sorting_assume_gt,
}

-- The branch that runs the loop, and the branch for a constraint whose outputs count all inputs.
module _ (k : CardinalityConstraint) (n : ℕ) (outs : List PmeId) (e : k.outputs ≡ ok outs)
    (h : n < k.output_cardinality) where
  in_range : (is_full k n ≡ false) × (leb k.output_cardinality n ≡ false)
  unfolding is_full
  in_range = (ground arith, ground arith)

  pub eq_loop : assume_eq k n ≡ ok (assume_loop (eq_body n) 0 outs)
  unfolding assume_eq
  eq_loop = rw (in_range.0, in_range.1, e) refl

  pub leq_loop : assume_leq k n ≡ ok (assume_loop (leq_body n) 0 outs)
  unfolding assume_leq
  leq_loop = rw (in_range.0, in_range.1, e) refl

  pub geq_loop : assume_geq k n ≡ ok (assume_loop (geq_body n) 0 outs)
  unfolding assume_geq
  geq_loop = rw (in_range.0, in_range.1, e) refl

  pub gt_loop : assume_gt k n ≡ ok (assume_loop (gt_body n) 0 outs)
  unfolding assume_gt
  gt_loop = rw (in_range.1, e) refl

  pub lt_loop : assume_lt k (suc n) ≡ ok (assume_loop (lt_body (suc n)) 0 outs)
  unfolding assume_lt
  lt_loop =
      let t : (suc n == 0) ≡ false = ground arith in
      let t' : ltb k.output_cardinality (suc n) ≡ false = ground arith in rw (t, t', e) refl

module _ (k : CardinalityConstraint) (n : ℕ) (ins : List PmeId) (e : k.inputs ≡ ins)
    (h : n ≡ k.input_cardinality) (g : n ≡ k.output_cardinality) where
  full_range : is_full k n ≡ true
  unfolding is_full
  full_range = ground arith

  pub eq_full : assume_eq k n ≡ ok ins
  unfolding assume_eq
  eq_full = rw full_range (ap (λ xs. ok xs) e)

  pub leq_full : assume_leq k n ≡ ok []
  unfolding assume_leq
  leq_full = rw full_range refl

  pub geq_full : assume_geq k n ≡ ok ins
  unfolding assume_geq
  geq_full = rw full_range (ap (λ xs. ok xs) e)

module _ (c : SortingConstraint) (made : c.cnfized ≡ true) (few : length c.inputs < 2 ^ 32) where
  pub as_constraint_fields :
      ((as_constraint c).outputs ≡ ok c.outputs)
      × ((as_constraint c).input_cardinality ≡ length c.inputs)
      × ((as_constraint c).output_cardinality ≡ min c.cardinality_bound (length c.inputs))
  unfolding as_constraint get_outputs to_unsigned
  as_constraint_fields = (rw made refl, omega arith, omega arith)

  pub as_constraint_inputs : (as_constraint c).inputs ≡ c.inputs
  unfolding as_constraint
  as_constraint_inputs = refl

  pub eq_shown :
      (n : ℕ) → c.le ≡ true → c.ge ≡ true → sorting_assume_eq c n ≡ assume_eq (as_constraint c) n
  unfolding sorting_assume_eq
  eq_shown n le ge = rw (le, ge) refl

  pub leq_shown : (n : ℕ) → c.le ≡ true → sorting_assume_leq c n ≡ assume_leq (as_constraint c) n
  unfolding sorting_assume_leq
  leq_shown n le = rw le refl

  pub lt_shown : (n : ℕ) → c.le ≡ true → sorting_assume_lt c n ≡ assume_lt (as_constraint c) n
  unfolding sorting_assume_lt
  lt_shown n le = rw le refl

  pub geq_shown : (n : ℕ) → c.ge ≡ true → sorting_assume_geq c n ≡ assume_geq (as_constraint c) n
  unfolding sorting_assume_geq
  geq_shown n ge = rw ge refl

  pub gt_shown : (n : ℕ) → c.ge ≡ true → sorting_assume_gt c n ≡ assume_gt (as_constraint c) n
  unfolding sorting_assume_gt
  gt_shown n ge = rw ge refl
