-- ===== src/Hitting/Tests.antt =====
-- Runs of src/pme/util/hitting_set_finder.cpp and `subsumes` of src/pme/pme.cpp on small sets, and the theorems at them.
use pme.Base.{
  ◌≡◌, refl, true, [], ◌∷◌, Returns, member, Within, ok, fault, assertion_failed, arith, ◌↔◌,
}
use pme.Base.Sorting.{sorted_list, insert_sorted}
use pme.Base.Distinct.{set_insert, Distinct}
use pme.Literal.{negate, negate_vec, is_negated}
use pme.Cnf.{Valuation, Sat}
use pme.Hitting.{
  HittingSetFinder, new_finder, is_sorted, scan, subsumes, subsumption_loop, check_subsumption,
  add_var, add_vars, add_set, block_solution, renew,
}
use pme.Hitting.Subsumes.{subsumes-Within}
use pme.Hitting.Sets.{IsSynced, renew-same}

hitting_program : Unit {0}
unfolding sorted_list insert_sorted set_insert member negate negate_vec is_negated new_finder
    is_sorted scan subsumes subsumption_loop check_subsumption add_var add_vars add_set
    block_solution renew
hitting_program = tt

abbrev one : HittingSetFinder
one = record {
  known = 4 ∷ 6 ∷ [];
  sets = (4 ∷ 6 ∷ []) ∷ [];
  blocked = [];
  soft = 5 ∷ 7 ∷ [];
  hard = (4 ∷ 6 ∷ []) ∷ [];
}

first : add_set (4 ∷ 6 ∷ []) new_finder ≡ ok one
unfolding hitting_program
first = refl

-- A smaller set takes the place of a larger one, whose clause stays.
replaced :
    add_set (6 ∷ []) one
    ≡ ok (record one { sets = (6 ∷ []) ∷ []; hard = (4 ∷ 6 ∷ []) ∷ (6 ∷ []) ∷ [] })
unfolding hitting_program
replaced = refl

ignored : add_set (4 ∷ 6 ∷ 8 ∷ []) one ≡ ok one
unfolding hitting_program
ignored = refl

unsorted : add_set (6 ∷ 4 ∷ []) one ≡ fault assertion_failed
unfolding hitting_program
unsorted = refl

renewed : (renew (block_solution (6 ∷ []) one)).hard ≡ (4 ∷ 6 ∷ []) ∷ (7 ∷ []) ∷ []
unfolding hitting_program
renewed = refl

one-IsSynced : IsSynced one
one-IsSynced = record {
  sorted = (((omega arith, tt), (tt, tt)), tt);
  hard = λ v. (λ h. (h, tt), λ h. h.0);
}

renew-same_example :
    IsSynced (renew one) × ((v : Valuation) → Sat v (renew one).hard ↔ Sat v one.hard)
renew-same_example = renew-same one one-IsSynced

subsumes-Within_example : Returns (subsumes (6 ∷ []) (4 ∷ 6 ∷ [])) (λ r.
    (r ≡ true → Within (6 ∷ []) (4 ∷ 6 ∷ []))
    × (Distinct (6 ∷ []) → Within (6 ∷ []) (4 ∷ 6 ∷ []) → r ≡ true))
subsumes-Within_example =
    subsumes-Within (6 ∷ []) (4 ∷ 6 ∷ []) (tt, tt) ((omega arith, tt), (tt, tt))
