-- ===== src/Network/Simplified.antt =====
-- The networks of src/pme/util/sorting_network.cpp that stop at a bound: simplified merge networks
-- and cardinality networks.
use pme.Base.{
  ℕ, zero, suc, ◌+◌, ◌-◌, ◌/◌, ◌%◌, Bool, ◌||◌, if◌then◌else◌, ltb, leb, ◌==◌, List, [], ◌∷◌, ◌++◌,
  length, take, drop, min, Result, ok, fault, out_of_range, out_of_fuel, ◌>>=◌, ◌>>◌, check,
}
use pme.Literal.{PmeId}
use pme.Variables.{VariableManager, fresh}
use pme.Network.{take_odd, take_even, back, partial_comp}
use pme.Network.Build.{Built, wires, comparator, join, uncons, merge, sort}

-- Both loops of `simpMergeNetwork`: `n` entries of the even side, from its second on, are compared
-- with the entries of the odd side.
unfoldable pub compare_zip :
    ℕ → List PmeId → List PmeId → Bool → Bool → VariableManager → Result Built
compare_zip zero even odd le ge vm = ok (wires [], vm)
compare_zip (suc n) [] odd le ge vm = fault out_of_range
compare_zip (suc n) (e ∷ even) [] le ge vm = fault out_of_range
compare_zip (suc n) (e ∷ even) (o ∷ odd) le ge vm = do
  (pair, vm₁) ← comparator e o le ge vm
  (rest, vm₂) ← compare_zip n even odd le ge vm₁
  ok (join pair rest, vm₂)

-- One fresh output, the disjunction of two inputs.
unfoldable pub disjunction : PmeId → PmeId → Bool → Bool → VariableManager → Result Built
disjunction x₁ x₂ le ge vm = do
  let y = (fresh vm).0
  cnf ← partial_comp x₁ x₂ y le ge
  ok (record { outputs = y ∷ []; clauses = cnf }, (fresh vm).1)

-- What follows the two recursive calls, for an even bound `c`.
unfoldable pub zip_even_bound :
    ℕ → List PmeId → List PmeId → Bool → Bool → VariableManager → Result Built
zip_even_bound c z_even z_odd le ge vm = do
  (z₀, even) ← uncons z_even
  check (length z_even == c / 2 + 1)
  check (length z_odd == c / 2)
  (pairs, vm₁) ← compare_zip (c / 2 - 1) even z_odd le ge vm
  last_even ← back z_even
  last_odd ← back z_odd
  (last, vm₂) ← disjunction last_even last_odd le ge vm₁
  ok (join (wires (z₀ ∷ [])) (join pairs last), vm₂)

-- The same for an odd bound.
unfoldable pub zip_odd_bound :
    ℕ → List PmeId → List PmeId → Bool → Bool → VariableManager → Result Built
zip_odd_bound c z_even z_odd le ge vm = do
  (z₀, even) ← uncons z_even
  check (length z_odd == (c - 1) / 2)
  check (length z_even == (c + 1) / 2)
  (pairs, vm₁) ← compare_zip ((c - 1) / 2) even z_odd le ge vm
  ok (join (wires (z₀ ∷ [])) pairs, vm₁)

abbrev pub SimpMerge : Type 0
SimpMerge = List PmeId → List PmeId → ℕ → Bool → Bool → VariableManager → Result Built

-- The recursive case of `simpMergeNetwork`: more inputs than the bound `c`, but neither side alone.
unfoldable pub simp_merge_halves : SimpMerge → SimpMerge
simp_merge_halves simp_merge a_vec b_vec c le ge vm = do
  let is_even = c % 2 == 0
  let odd_size = if is_even then c / 2 else (c - 1) / 2
  let even_size = if is_even then c / 2 + 1 else (c + 1) / 2
  (odd, vm₁) ← simp_merge (take_odd a_vec) (take_odd b_vec) odd_size le ge vm
  (even, vm₂) ← simp_merge (take_even a_vec) (take_even b_vec) even_size le ge vm₁
  (net, vm₃) ←
      if is_even
      then zip_even_bound c even.outputs odd.outputs le ge vm₂
      else zip_odd_bound c even.outputs odd.outputs le ge vm₂
  ok (record { outputs = net.outputs; clauses = odd.clauses ++ even.clauses ++ net.clauses }, vm₃)

-- The cases after the first, in the order of the code.
unfoldable pub simp_merge_cases : SimpMerge → SimpMerge
simp_merge_cases simp_merge [] b_vec c le ge vm = ok (wires b_vec, vm)
simp_merge_cases simp_merge (x ∷ []) (y ∷ []) (suc zero) le ge vm = disjunction x y le ge vm
simp_merge_cases simp_merge (x ∷ a_vec) b_vec c le ge vm =
    if leb (length (x ∷ a_vec) + length b_vec) c
    then merge (x ∷ a_vec) b_vec le ge vm
    else simp_merge_halves simp_merge (x ∷ a_vec) b_vec c le ge vm

-- Both vectors are cut to `c` entries.
unfoldable pub simp_merge_ordered : SimpMerge → SimpMerge
simp_merge_ordered simp_merge xs ys c le ge vm = do
  let a_vec = take c xs
  let b_vec = take c ys
  check (leb (length a_vec) (length b_vec))
  check (leb (length b_vec) c)
  check (le || ge)
  simp_merge_cases simp_merge a_vec b_vec c le ge vm

unfoldable pub simp_merge_network : ℕ → SimpMerge
simp_merge_network zero a b c le ge vm = fault out_of_fuel
simp_merge_network (suc fuel) a b c le ge vm =
    if leb (length a) (length b)
    then simp_merge_ordered (simp_merge_network fuel) a b c le ge vm
    else simp_merge_ordered (simp_merge_network fuel) b a c le ge vm

-- `simpMergeNetwork` itself, with fuel for all its inputs.
unfoldable pub simp_merge : SimpMerge
simp_merge a b = simp_merge_network (length a + length b + 1) a b

unfoldable pub cardinality_network :
    ℕ → List PmeId → ℕ → Bool → Bool → VariableManager → Result Built
cardinality_network zero inputs m le ge vm = fault out_of_fuel
cardinality_network (suc fuel) inputs m le ge vm = do
  check (ltb 0 (length inputs))
  check (ltb 0 m)
  let l = length inputs / 2
  let rest = do
    (left, vm₁) ← cardinality_network fuel (take l inputs) m le ge vm
    (right, vm₂) ← cardinality_network fuel (drop l inputs) m le ge vm₁
    check (length left.outputs == min l m)
    check (length right.outputs == min (length inputs - l) m)
    (merged, vm₃) ← simp_merge left.outputs right.outputs m le ge vm₂
    ok (
      record {
        outputs = merged.outputs;
        clauses = left.clauses ++ right.clauses ++ merged.clauses;
      },
      vm₃,
    )
  if leb (length inputs) m then sort inputs le ge vm else rest

-- `cardinalityNetwork` itself.
unfoldable pub cardinality : List PmeId → ℕ → Bool → Bool → VariableManager → Result Built
cardinality inputs = cardinality_network (length inputs) inputs
