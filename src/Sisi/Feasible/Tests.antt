-- ===== src/Sisi/Feasible/Tests.antt =====
-- Runs of `refineFEAS` and the steps of the minimizer of src/pme/minimization/sisi.cpp over the chain of latches.
use pme.Base.{◌≡◌, refl, true, false, [], ◌∷◌, Returns, Within, All-member, ok}
use pme.Base.Distinct.{Distinct}
use pme.Checker.{AllKnown, IsInductive}
use pme.Checker.Chain.{chain, in_chain}
use pme.Mis.Sound.{is_inductive-exact, contains_all_of-Within}
use pme.Support.Tests.{support_program}
use pme.Sisi.Tests.{sisi_program}
use pme.Sisi.{Sisi, is_empty_set}
use pme.Sisi.Kept.{IsMsis}
use pme.Sisi.Feasible.{
  insert_all, tail_of, written, minimize_support, new_feas, feas_pass, feas_loop, refine_feas,
  sisi_minimize,
}
use pme.Sisi.Feasible.Fixpoint.{IsFeasible, refine_feas-IsFeasible}
use pme.Sisi.Feasible.Compose.{IsReady, sisi_minimize-IsMsis}

unfoldable pub feasible_program : Unit {0}
unfolding sisi_program support_program insert_all tail_of written minimize_support new_feas
    feas_pass feas_loop refine_feas sisi_minimize
feasible_program = tt

abbrev start : Sisi
start = record { nec = 1 ∷ []; feas = 0 ∷ 1 ∷ 2 ∷ []; all_clauses = 0 ∷ 1 ∷ 2 ∷ [] }

-- The second latch needs the first.
refined : refine_feas chain start 0 ≡ ok (record start { feas = 0 ∷ 1 ∷ [] }, 4)
unfolding feasible_program
refined = refl

minimized : sisi_minimize chain start 0 ≡ ok (0 ∷ 1 ∷ [], 6)
unfolding feasible_program
minimized = refl

start-AllKnown : AllKnown chain start.all_clauses
start-AllKnown id h =
    All-member (λ x. in_chain x ≡ true) id (0 ∷ 1 ∷ 2 ∷ []) (refl, (refl, (refl, tt))) h

start-Distinct : Distinct start.all_clauses
unfolding feasible_program
start-Distinct = (refl, (refl, (refl, tt)))

start-IsInductive : IsInductive chain start.all_clauses
unfolding feasible_program
start-IsInductive = (is_inductive-exact chain start.all_clauses 0 start-AllKnown).0 refl

nec-Distinct : Distinct start.nec
unfolding feasible_program
nec-Distinct = (refl, tt)

nec-Within : Within start.nec start.all_clauses
unfolding feasible_program
nec-Within = (contains_all_of-Within start.all_clauses start.nec).0 refl

some_nec : is_empty_set start.nec ≡ false
unfolding feasible_program
some_nec = refl

start-IsReady : IsReady chain start
unfolding feasible_program
start-IsReady = record {
  known = start-AllKnown;
  all_distinct = start-Distinct;
  inductive = start-IsInductive;
  to = λ x h. h;
  from = λ x h. h;
  nec_distinct = nec-Distinct;
  nec_within = nec-Within;
  property = 1;
  has_property = refl;
}

refine_feas-IsFeasible_example :
    Returns (refine_feas chain start 0) (λ r. IsFeasible chain start r.0)
refine_feas-IsFeasible_example =
    refine_feas-IsFeasible chain start 0 start-AllKnown start-Distinct start-IsInductive
      nec-Distinct nec-Within some_nec

sisi_minimize-IsMsis_example :
    Returns (sisi_minimize chain start 0) (λ r. IsMsis chain start.nec start.feas r.0)
sisi_minimize-IsMsis_example = sisi_minimize-IsMsis chain start 0 start-IsReady
