-- ===== src/Network/Tests.antt =====
-- Runs of the networks of src/pme/util/sorting_network.cpp, and their theorems at concrete inputs.
use pme.Base.{◌≡◌, refl, true, false, List, [], ◌∷◌, arith, Result, ok, fault, Returns}
use pme.Literal.{PmeId, negate}
use pme.Variables.{VariableManager, fresh}
use pme.Network.{
  take_odd, take_even, back, or_clauses, comp_clauses, comp, partial_comp, zipper_merge,
}
use pme.Network.Build.{
  Built, comparator, join, compare_pairs, uncons, finish, merge_halves, merge_cases, merge_ordered,
  merge_network, merge, sorting_network, sort,
}
use pme.Network.Simplified.{
  compare_zip, disjunction, zip_even_bound, zip_odd_bound, simp_merge_halves, simp_merge_cases,
  simp_merge_ordered, simp_merge_network, simp_merge, cardinality_network, cardinality,
}
use pme.Variables.{get_new_id}
use pme.Literal.{negate}
use pme.Network.Halves.{IsMerge}
use pme.Network.MergeSound.{merge-IsMerge}
use pme.Network.SortSound.{IsSort, sort-IsSort}

unfoldable pub program : Unit {0}
unfolding negate fresh get_new_id take_odd take_even back or_clauses comp_clauses comp partial_comp
    zipper_merge comparator join compare_pairs uncons finish merge_halves merge_cases merge_ordered
    merge_network merge sorting_network sort compare_zip disjunction zip_even_bound zip_odd_bound
    simp_merge_halves simp_merge_cases simp_merge_ordered simp_merge_network simp_merge
    cardinality_network cardinality
program = tt

-- A manager that has handed out the variables 4 to 12.
abbrev manager : VariableManager
manager = record { next_id = 14; vars = []; internal_to_external = []; external_to_internal = [] }

abbrev outputs_of : Result Built → List PmeId
outputs_of (ok r) = r.0.outputs
outputs_of (fault e) = []

-- One comparator, with the clauses of both directions.
one_comparator :
    merge (4 ∷ []) (6 ∷ []) true true manager
    ≡ ok (
      record {
        outputs = 14 ∷ 16 ∷ [];
        clauses =
            (5 ∷ 14 ∷ [])
            ∷ (7 ∷ 14 ∷ [])
            ∷ (5 ∷ 7 ∷ 16 ∷ [])
            ∷ (4 ∷ 17 ∷ [])
            ∷ (6 ∷ 17 ∷ [])
            ∷ (4 ∷ 6 ∷ 15 ∷ [])
            ∷ [];
      },
      (fresh (fresh manager).1).1,
    )
unfolding program
one_comparator = refl

-- Both sides odd: the case where the zipper takes two even entries in a row.
split_case :
    outputs_of (merge (4 ∷ []) (6 ∷ 8 ∷ 10 ∷ []) true false manager) ≡ 14 ∷ 22 ∷ 24 ∷ 20 ∷ []
unfolding program
split_case = refl

abbrev five : List PmeId
five = 4 ∷ 6 ∷ 8 ∷ 10 ∷ 12 ∷ []

merge-IsMerge_example :
    Returns
      (merge (4 ∷ 6 ∷ 8 ∷ []) (10 ∷ 12 ∷ []) true false manager)
      (λ r. IsMerge (4 ∷ 6 ∷ 8 ∷ []) (10 ∷ 12 ∷ []) true false r.0)
merge-IsMerge_example = merge-IsMerge true false (4 ∷ 6 ∷ 8 ∷ []) (10 ∷ 12 ∷ []) manager refl

sort-IsSort_example : Returns (sort five true true manager) (λ r. IsSort five true true r.0)
sort-IsSort_example = sort-IsSort true true five manager refl (omega arith)
