-- ===== src/Sisi/Tests.antt =====
-- Runs of src/pme/minimization/sisi.cpp over the chain of latches, and its theorems at them.
use pme.Base.{◌≡◌, refl, true, false, [], ◌∷◌, ◌↔◌, Returns, Within, All-member, ok}
use pme.Base.Sorting.{without}
use pme.Base.Distinct.{set_insert, Distinct}
use pme.Checker.{AllKnown, IsInductive}
use pme.Checker.Chain.{chain, in_chain}
use pme.Mis.Sound.{is_inductive-exact, contains_all_of-Within}
use pme.Mis.Tests.{mis_program}
use pme.Sisi.{
  Sisi, new_sisi, add_to_feas, add_to_nec, add_sisi_clause, is_empty_set, find_sis, refine_nec_loop,
  refine_nec, brute_force_loop, brute_force_minimize, is_minimal_loop, is_minimal,
}
use pme.Sisi.Kept.{IsMsis}
use pme.Sisi.Minimize.{brute_force_minimize-IsMsis}
use pme.Sisi.Minimal.{AllRequired, is_minimal-exact}
use pme.Sisi.Refine.{IsRefined, refine_nec-IsRefined}

unfoldable pub sisi_program : Unit {0}
unfolding mis_program without set_insert new_sisi add_to_feas add_to_nec add_sisi_clause
    is_empty_set find_sis refine_nec_loop refine_nec brute_force_loop brute_force_minimize
    is_minimal_loop is_minimal
sisi_program = tt

abbrev proof : Sisi
proof = record { nec = 1 ∷ []; feas = 0 ∷ 1 ∷ 2 ∷ []; all_clauses = 0 ∷ 1 ∷ 2 ∷ [] }

built :
    add_to_nec 1 (add_to_feas 2 (add_to_feas 0 (add_to_feas 1 (add_to_feas 2 new_sisi))))
    ≡ record proof { all_clauses = [] }
unfolding sisi_program
built = refl

-- The last latch is not needed, the first two are.
minimized : brute_force_minimize chain proof 0 ≡ ok (0 ∷ 1 ∷ [], 4)
unfolding sisi_program
minimized = refl

not_minimal : is_minimal chain proof 0 ≡ ok (false, 4)
unfolding sisi_program
not_minimal = refl

refined : refine_nec chain proof 0 ≡ ok (record proof { nec = 0 ∷ 1 ∷ [] }, 4)
unfolding sisi_program
refined = refl

proof-known : AllKnown chain proof.feas
proof-known id h = All-member (λ x. in_chain x ≡ true) id proof.feas (refl, (refl, (refl, tt))) h

proof-Distinct : Distinct proof.feas
unfolding sisi_program
proof-Distinct = (refl, (refl, (refl, tt)))

nec-Distinct : Distinct proof.nec
unfolding sisi_program
nec-Distinct = (refl, tt)

proof-IsInductive : IsInductive chain proof.feas
unfolding sisi_program
proof-IsInductive = (is_inductive-exact chain proof.feas 0 proof-known).0 refl

nec-Within : Within proof.nec proof.feas
unfolding sisi_program
nec-Within = (contains_all_of-Within proof.feas proof.nec).0 refl

brute_force_minimize-IsMsis_example :
    Returns (brute_force_minimize chain proof 0) (λ r. IsMsis chain proof.nec proof.feas r.0)
brute_force_minimize-IsMsis_example =
    brute_force_minimize-IsMsis chain proof 0 proof-known proof-Distinct proof-IsInductive
      nec-Distinct nec-Within

is_minimal-exact_example :
    Returns (is_minimal chain proof 0) (λ r. (r.0 ≡ true) ↔ AllRequired chain proof.nec proof.feas)
is_minimal-exact_example =
    is_minimal-exact chain proof 0 proof-known proof-Distinct nec-Distinct nec-Within

proof-some : is_empty_set proof.feas ≡ false
unfolding sisi_program
proof-some = refl

refine_nec-IsRefined_example : Returns (refine_nec chain proof 0) (λ r. IsRefined chain proof r.0)
refine_nec-IsRefined_example = refine_nec-IsRefined chain proof 0 proof-known proof-some
