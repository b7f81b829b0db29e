-- ===== src/MapSolver/Exact.antt =====
-- What the clauses of `blockUp` and `blockDown` of src/pme/util/map_solver.cpp exclude.
use pme.Base.{
  ◌≡◌, refl, sym, ap, ◌∙◌, ◌↔◌, Bool, true, false, not, ◌&&◌, ◌||◌, List, [], ◌∷◌, Returns, All,
  Bool-cases, inl, inr,
}
use pme.Literal.{PmeId, Clause, is_negated, negate, id_false}
use pme.Cnf.{Valuation, lit_value, clause_value, SatCube, lit_value-negate}
use pme.MapSolver.{Seed, in_seed, down_clause, up_clause, or_false, block_up, block_down, seed_cube}

-- The ids as the map has them, without a sign.
abbrev pub IsPositive : List PmeId → Type 0
IsPositive ids = All (λ id. is_negated id ≡ false) ids

-- A valuation takes all of the seed; it takes no id outside the seed.
abbrev pub takes_all : Valuation → Seed → Bool
takes_all v [] = true
takes_all v (id ∷ seed) = lit_value v id && takes_all v seed

abbrev pub takes_only : Valuation → List PmeId → Seed → Bool
takes_only v [] seed = true
takes_only v (id ∷ ids) seed = (not (lit_value v id) || in_seed id seed) && takes_only v ids seed

not-and : (a b : Bool) → (not a || not b) ≡ not (a && b)
not-and true b = refl
not-and false b = refl

kept : (a b : Bool) → not b ≡ not ((not a || true) && b)
kept true b = refl
kept false b = refl

blocked : (a b : Bool) → (a || not b) ≡ not ((not a || false) && b)
blocked true b = refl
blocked false b = refl

not-true : (b : Bool) → not b ≡ true → b ≡ false
not-true true h = sym h
not-true false h = refl

module _ (v : Valuation) where
  clause_value-or_false :
      lit_value v id_false ≡ false
      → (cls : Clause) → clause_value v (or_false cls) ≡ clause_value v cls
  unfolding or_false
  clause_value-or_false h [] = rw h refl
  clause_value-or_false h (x ∷ xs) = refl

  up_clause-exact :
      (seed : Seed)
      → IsPositive seed
      → Returns (up_clause seed) (λ cls. clause_value v cls ≡ not (takes_all v seed))
  unfolding up_clause
  up_clause-exact [] p = ([], refl, refl)
  up_clause-exact (id ∷ seed) p =
      let (cls, run, e) = up_clause-exact seed p.1 in
      (
        negate id ∷ cls,
        rw (p.0, run) refl,
        rw (lit_value-negate v id, e) (not-and (lit_value v id) (takes_all v seed)),
      )

  down_clause-exact :
      (ids : List PmeId) (seed : Seed)
      → IsPositive ids
      → Returns (down_clause ids seed) (λ cls. clause_value v cls ≡ not (takes_only v ids seed))
  unfolding down_clause
  down_clause-exact [] seed p = ([], refl, refl)
  down_clause-exact (id ∷ ids) seed p =
      let (cls, run, e) = down_clause-exact ids seed p.1 in
      elim (Bool-cases (in_seed id seed)) [
        | inl s ↦
            (cls, rw (p.0, run, s) refl, e ∙ rw s (kept (lit_value v id) (takes_only v ids seed)))
        | inr s ↦ (
          id ∷ cls,
          rw (p.0, run, s) refl,
          rw (e, s) (blocked (lit_value v id) (takes_only v ids seed)),
        )
      ]

-- The clause that `blockUp` adds for a seed of ids without a sign is false in just the valuations
-- that take all of the seed.
pub block_up-exact :
    (v : Valuation) (seed : Seed)
    → lit_value v id_false ≡ false
    → IsPositive seed
    → Returns (block_up seed) (λ cls. clause_value v cls ≡ not (takes_all v seed))
unfolding block_up
block_up-exact v seed h p =
    let (cls, run, e) = up_clause-exact v seed p in
    (or_false cls, rw run refl, clause_value-or_false v h cls ∙ e)

-- The clause that `blockDown` adds for a seed is false in just the valuations that take no id of
-- the map outside the seed, for a map of ids without a sign.
pub block_down-exact :
    (v : Valuation) (ids : List PmeId) (seed : Seed)
    → lit_value v id_false ≡ false
    → IsPositive ids
    → Returns (block_down ids seed) (λ cls. clause_value v cls ≡ not (takes_only v ids seed))
unfolding block_down
block_down-exact v ids seed h p =
    let (cls, run, e) = down_clause-exact v ids seed p in
    (or_false cls, rw run refl, clause_value-or_false v h cls ∙ e)

-- The cube of `checkSeed` holds in just the valuations that take exactly the seed's part of the map.
pub seed_cube-exact :
    (v : Valuation) (ids : List PmeId) (seed : Seed)
    → SatCube v (seed_cube ids seed) ↔ All (λ id. lit_value v id ≡ in_seed id seed) ids
unfolding seed_cube
seed_cube-exact v [] seed = (λ s. tt, λ s. tt)
seed_cube-exact v (id ∷ ids) seed =
    let (to, from) = seed_cube-exact v ids seed in
    elim (Bool-cases (in_seed id seed)) [
      | inl s ↦ rw s (λ t. (t.0, to t.1), λ t. (t.0, from t.1))
      | inr s ↦
          rw (s, lit_value-negate v id)
            (λ t. (not-true (lit_value v id) t.0, to t.1), λ t. (ap not t.0, from t.1))
    ]
