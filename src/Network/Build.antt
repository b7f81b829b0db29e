-- ===== src/Network/Build.antt =====
-- The networks of src/pme/util/sorting_network.cpp, from the comparators of the parent. A network
-- that calls itself takes fuel: the number of its inputs is enough.
use pme.Base.{
  ℕ, zero, suc, ◌+◌, ◌-◌, ◌/◌, ◌%◌, Bool, ◌||◌, if◌then◌else◌, leb, ◌==◌, List, [], ◌∷◌, ◌++◌,
  length, take, drop, Result, ok, fault, assertion_failed, out_of_range, out_of_fuel, ◌>>=◌, ◌>>◌,
  check,
}
use pme.Literal.{PmeId}
use pme.Variables.{VariableManager, fresh}
use pme.Network.{CnfNetwork, take_odd, take_even, back, comp, zipper_merge}

-- A network, and the manager that made its variables.
abbrev pub Built : Type 0
Built = CnfNetwork × VariableManager

abbrev pub wires : List PmeId → CnfNetwork
wires xs = record { outputs = xs; clauses = [] }

-- Two fresh outputs, compared.
unfoldable pub comparator : PmeId → PmeId → Bool → Bool → VariableManager → Result Built
comparator x₁ x₂ le ge vm = do
  let y₁ = (fresh vm).0
  let vm₁ = (fresh vm).1
  let y₂ = (fresh vm₁).0
  let vm₂ = (fresh vm₁).1
  cnf ← comp x₁ x₂ y₁ y₂ le ge
  ok (record { outputs = y₁ ∷ y₂ ∷ []; clauses = cnf }, vm₂)

unfoldable pub join : CnfNetwork → CnfNetwork → CnfNetwork
join a b = record { outputs = a.outputs ++ b.outputs; clauses = a.clauses ++ b.clauses }

-- The loop of `mergeNetwork`, over the entries of `z` after the first. An entry with no partner is
-- left alone.
unfoldable pub compare_pairs : List PmeId → Bool → Bool → VariableManager → Result Built
compare_pairs [] le ge vm = ok (wires [], vm)
compare_pairs (z₁ ∷ []) le ge vm = ok (wires [], vm)
compare_pairs (z₁ ∷ z₂ ∷ zs) le ge vm = do
  (pair, vm₁) ← comparator z₁ z₂ le ge vm
  (rest, vm₂) ← compare_pairs zs le ge vm₁
  ok (join pair rest, vm₂)

abbrev pub Merge : Type 0
Merge = List PmeId → List PmeId → Bool → Bool → VariableManager → Result Built

-- `z.at(0)`, and the entries after it
unfoldable pub uncons : List PmeId → Result (PmeId × List PmeId)
uncons [] = fault out_of_range
uncons (x ∷ xs) = ok (x, xs)

-- The end of `mergeNetwork`: with an even number of inputs the last entry of `z` is passed on.
unfoldable pub finish : ℕ → List PmeId → CnfNetwork → Result CnfNetwork
finish total z net =
    if total % 2 == 0
    then (do
      check (length net.outputs == total - 1)
      last ← back z
      ok (record net { outputs = net.outputs ++ last ∷ [] }))
    else ok net

-- The recursive case of `mergeNetwork`.
unfoldable pub merge_halves : Merge → Merge
merge_halves merge a_vec b_vec le ge vm = do
  (odd, vm₁) ← merge (take_odd a_vec) (take_odd b_vec) le ge vm
  (even, vm₂) ← merge (take_even a_vec) (take_even b_vec) le ge vm₁
  z ← zipper_merge even.outputs odd.outputs (length a_vec) (length b_vec)
  (z₀, zs) ← uncons z
  (pairs, vm₃) ← compare_pairs zs le ge vm₂
  net ← finish (length a_vec + length b_vec) z (record {
    outputs = z₀ ∷ pairs.outputs;
    clauses = odd.clauses ++ even.clauses ++ pairs.clauses;
  })
  ok (net, vm₃)

-- The three cases of `mergeNetwork`, on vectors of which the first is no longer than the second.
unfoldable pub merge_cases : Merge → Merge
merge_cases merge (x ∷ []) (y ∷ []) le ge vm = comparator x y le ge vm
merge_cases merge [] b_vec le ge vm = ok (wires b_vec, vm)
merge_cases merge (x ∷ a_vec) b_vec le ge vm = merge_halves merge (x ∷ a_vec) b_vec le ge vm

unfoldable pub merge_ordered : Merge → Merge
merge_ordered merge a_vec b_vec le ge vm = do
  check (leb (length a_vec) (length b_vec))
  check (le || ge)
  merge_cases merge a_vec b_vec le ge vm

unfoldable pub merge_network : ℕ → Merge
merge_network zero a b le ge vm = fault out_of_fuel
merge_network (suc fuel) a b le ge vm =
    if leb (length a) (length b)
    then merge_ordered (merge_network fuel) a b le ge vm
    else merge_ordered (merge_network fuel) b a le ge vm

-- `mergeNetwork` itself, with fuel for all its inputs.
unfoldable pub merge : Merge
merge a b = merge_network (length a + length b + 1) a b

unfoldable pub sorting_network : ℕ → List PmeId → Bool → Bool → VariableManager → Result Built
sorting_network zero inputs le ge vm = fault out_of_fuel
sorting_network (suc fuel) [] le ge vm = fault assertion_failed
sorting_network (suc fuel) (x ∷ []) le ge vm = ok (wires (x ∷ []), vm)
sorting_network (suc fuel) (x ∷ y ∷ []) le ge vm = merge (x ∷ []) (y ∷ []) le ge vm
sorting_network (suc fuel) (x ∷ y ∷ w ∷ inputs) le ge vm = do
  let all = x ∷ y ∷ w ∷ inputs
  let l = length all / 2
  (left, vm₁) ← sorting_network fuel (take l all) le ge vm
  (right, vm₂) ← sorting_network fuel (drop l all) le ge vm₁
  (merged, vm₃) ← merge left.outputs right.outputs le ge vm₂
  ok (
    record { outputs = merged.outputs; clauses = left.clauses ++ right.clauses ++ merged.clauses },
    vm₃,
  )

-- `sortingNetwork` itself.
unfoldable pub sort : List PmeId → Bool → Bool → VariableManager → Result Built
sort inputs = sorting_network (length inputs) inputs
