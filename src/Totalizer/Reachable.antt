-- ===== src/Totalizer/Reachable.antt =====
-- What `addInput` and `setCardinality` of the totalizer of src/pme/util/cardinality_constraint.cpp
-- make of a new constraint, in any order.
use pme.Base.{
  ℕ, ◌<◌, ◌≡◌, refl, ap, sym, leb, List, length, min, Option, none, some, Bool-cases, inl, inr,
  arith,
}
use pme.Literal.{PmeId}
use pme.Variables.{VariableManager}
use pme.Totalizer.{
  TotalizerTree, TotalizerConstraint, output_size, new_totalizer, update_cached_outputs,
  totalizer_set_cardinality, totalizer_add_input, totalizer_output_cardinality,
}
use pme.Totalizer.Sizes.{
  output_size-leaves, RootIsSized, ConstraintIsSized, raised-IsSized, extended-IsSized,
}

-- The constraints that adding inputs and setting cardinalities, in any order, make from a new one.
pub data Reached : TotalizerConstraint → Type 0 where
  start : Reached new_totalizer
  input :
      (id : PmeId) (c : TotalizerConstraint) (vm : VariableManager)
      → Reached c
      → Reached (totalizer_add_input id c vm).0
  raise :
      (n : ℕ) (c : TotalizerConstraint) (vm : VariableManager)
      → Reached c
      → Reached (totalizer_set_cardinality n c vm).0

set_cardinality-IsSized :
    (n : ℕ) (c : TotalizerConstraint) (vm : VariableManager)
    → ConstraintIsSized c
    → ConstraintIsSized (totalizer_set_cardinality n c vm).0
unfolding totalizer_set_cardinality
set_cardinality-IsSized n c vm s = elim (Bool-cases (leb n c.cardinality_bound)) [
  | inl h ↦ rw h s
  | inr h ↦ raised-IsSized c.cardinality_bound n c.root c.outputs c.inputs vm (ground arith) s
]

add_input-IsSized :
    (id : PmeId) (c : TotalizerConstraint) (vm : VariableManager)
    → ConstraintIsSized c
    → ConstraintIsSized (totalizer_add_input id c vm).0
unfolding totalizer_add_input update_cached_outputs
add_input-IsSized id c vm s = extended-IsSized c.cardinality_bound id c.root c.outputs c.inputs vm s

Reached-IsSized : (c : TotalizerConstraint) → Reached c → ConstraintIsSized c
unfolding new_totalizer
Reached-IsSized c start = (refl, refl)
Reached-IsSized c (input id d vm r) = add_input-IsSized id d vm (Reached-IsSized d r)
Reached-IsSized c (raise n d vm r) = set_cardinality-IsSized n d vm (Reached-IsSized d r)

sized_outputs :
    (m : ℕ) (root : Option TotalizerTree) (outs ins : List PmeId)
    → 0 < m
    → RootIsSized m root outs ins
    → length outs ≡ min m (length ins)
unfolding output_size
sized_outputs m none outs ins h s = omega (arith, ap (λ (xs : List PmeId). length xs) s.0, s.1)
sized_outputs m (some tree) outs ins h s =
    omega (arith, ap (λ (xs : List PmeId). length xs) s.1, s.2, output_size-leaves m tree h s.0)

output_cardinality-cached :
    (m : ℕ) (root : Option TotalizerTree) (outs ins : List PmeId)
    → RootIsSized m root outs ins
    → totalizer_output_cardinality
        (record { root = root; cardinality_bound = m; outputs = outs; inputs = ins })
      ≡ length outs
unfolding totalizer_output_cardinality output_size
output_cardinality-cached m none outs ins s = sym (ap (λ (xs : List PmeId). length xs) s.0)
output_cardinality-cached m (some tree) outs ins s = sym (ap (λ (xs : List PmeId). length xs) s.1)

-- After inputs are added and cardinalities set in any order, a totalizer of positive cardinality
-- has as many outputs as inputs, at most its cardinality, and `getOutputCardinality` is their
-- number.
pub Reached-outputs :
    (c : TotalizerConstraint)
    → Reached c
    → 0 < c.cardinality_bound
    → (length c.outputs ≡ min c.cardinality_bound (length c.inputs))
      × (totalizer_output_cardinality c ≡ length c.outputs)
Reached-outputs c r h =
    let s = Reached-IsSized c r in
    (
      sized_outputs c.cardinality_bound c.root c.outputs c.inputs h s,
      output_cardinality-cached c.cardinality_bound c.root c.outputs c.inputs s,
    )
