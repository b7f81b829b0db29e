-- ===== src/Mis/Tests.antt =====
-- Runs of src/pme/util/find_safe_mis.cpp over the chain of latches, and its theorems at them.
use pme.Base.{◌≡◌, refl, true, false, List, [], ◌∷◌, Returns, member, All-member, ok}
use pme.Base.Sorting.{insert_sorted, sorted_list, lower_bound, erase_one}
use pme.Literal.{ClauseId, prime, nprimes, negate, is_negated, strip}
use pme.Checker.{AllKnown, value_of, flip}
use pme.Checker.Chain.{chain, in_chain}
use pme.Mis.{
  contains_all_of, negcp_sat, is_inductive_loop, is_inductive, is_safe_inductive,
  remove_sat_clauses, remove_failed, mis_pass, mis_loop, find_safe_mis,
}
use pme.Mis.Sound.{IsMis}
use pme.Mis.Find.{find_safe_mis-IsMis}

unfoldable pub mis_program : Unit {0}
unfolding prime nprimes negate is_negated strip member insert_sorted sorted_list lower_bound
    erase_one contains_all_of negcp_sat value_of flip is_inductive_loop is_inductive
    is_safe_inductive remove_sat_clauses remove_failed mis_pass mis_loop find_safe_mis
mis_program = tt

abbrev gap : List ClauseId
gap = 3 ∷ 1 ∷ 0 ∷ 5 ∷ []

gap-known : AllKnown chain gap
gap-known id h = All-member (λ x. in_chain x ≡ true) id gap (refl, (refl, (refl, (refl, tt)))) h

-- A clause without its predecessor goes, the others stay in order.
found : find_safe_mis chain gap (1 ∷ []) 0 ≡ ok (true, 0 ∷ 1 ∷ [], 6)
unfolding mis_program
found = refl

lost : find_safe_mis chain gap (5 ∷ []) 0 ≡ ok (false, 0 ∷ 1 ∷ [], 4)
unfolding mis_program
lost = refl

missing : find_safe_mis chain gap (2 ∷ []) 0 ≡ ok (false, gap, 0)
unfolding mis_program
missing = refl

empty : find_safe_mis chain [] [] 0 ≡ ok (true, [], 0)
unfolding mis_program
empty = refl

inductive : is_inductive chain (0 ∷ 1 ∷ []) 0 ≡ (true, 2)
unfolding mis_program
inductive = refl

not_inductive : is_inductive chain gap 0 ≡ (false, 1)
unfolding mis_program
not_inductive = refl

find_safe_mis-IsMis_example :
    Returns (find_safe_mis chain gap (1 ∷ []) 0) (λ r. IsMis chain gap (1 ∷ []) r)
find_safe_mis-IsMis_example = find_safe_mis-IsMis chain gap (1 ∷ []) 0 gap-known
