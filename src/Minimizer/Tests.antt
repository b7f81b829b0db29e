-- ===== src/Minimizer/Tests.antt =====
-- Runs of src/pme/minimization/brute_force.cpp and minimization.cpp over the chain of latches, and their theorems
-- at them.
use pme.Base.{◌≡◌, refl, true, [], ◌∷◌, Returns, All-member, ok, fault, assertion_failed, arith}
use pme.Literal.{ClauseVec, negate}
use pme.Checker.{AllKnown, IsInductive}
use pme.Checker.Chain.{chain, in_chain}
use pme.Mis.Sound.{is_inductive-exact}
use pme.Sisi.Feasible.Tests.{feasible_program}
use pme.Minimizer.{
  ProofMinimizer, new_stats, clause_eq, find_clause, add_property_if_missing, new_minimizer, at,
  num_clauses, clause_of, property_clause, add_minimal_proof, set_minimum_proof, num_proofs,
  get_clauses, get_proof, minimum_proof_known, get_minimum_proof, ids_from, count_clauses,
  dummy_minimize, add_all, init_sisi, brute_force, proof_is_minimal, sisi_proof,
}
use pme.Minimizer.Results.{IsValid, IsAdded, add_minimal_proof-IsAdded}
use pme.Minimizer.Property.{HasProperty, add_property_if_missing-HasProperty}
use pme.Minimizer.Sets.{all_ids, IsMinimized}
use pme.Minimizer.BruteForce.{brute_force-IsMinimized, sisi_proof-IsMinimized}

unfoldable pub minimizer_program : Unit {0}
unfolding feasible_program new_stats clause_eq find_clause add_property_if_missing new_minimizer at
    num_clauses clause_of property_clause add_minimal_proof set_minimum_proof num_proofs get_clauses
    get_proof minimum_proof_known get_minimum_proof ids_from count_clauses dummy_minimize add_all
    init_sisi brute_force proof_is_minimal sisi_proof
minimizer_program = tt

-- The clauses of the first three latches; the property is the second one's.
abbrev latches : ClauseVec
latches = (4 ∷ []) ∷ (6 ∷ []) ∷ (8 ∷ []) ∷ []

abbrev start : ProofMinimizer
start = record {
  proof = latches;
  property = 1;
  minimal_proofs = [];
  minimum_proof = [];
  stats = record {
    num_clauses = 0;
    num_msis_found = 0;
    smallest_msis_size = 18446744073709551615;
    largest_msis_size = 0;
  };
}

constructed : new_minimizer 7 latches new_stats ≡ start
unfolding minimizer_program
constructed = refl

-- Without it, the property comes to the end.
appended : add_property_if_missing 13 latches ≡ ((4 ∷ []) ∷ (6 ∷ []) ∷ (8 ∷ []) ∷ (12 ∷ []) ∷ [], 3)
unfolding minimizer_program
appended = refl

abbrev done : ProofMinimizer
done = record start {
  minimal_proofs = (0 ∷ 1 ∷ []) ∷ [];
  stats = record {
    num_clauses = 3;
    num_msis_found = 1;
    smallest_msis_size = 2;
    largest_msis_size = 2;
  };
}

minimized : brute_force chain start 0 ≡ ok (done, 4)
unfolding minimizer_program
minimized = refl

returned : get_proof 0 done ≡ ok ((4 ∷ []) ∷ (6 ∷ []) ∷ [])
unfolding minimizer_program
returned = refl

no_proof : get_proof 1 done ≡ fault assertion_failed
unfolding minimizer_program
no_proof = refl

all_kept : get_proof 0 (dummy_minimize start) ≡ ok latches
unfolding minimizer_program
all_kept = refl

start-IsValid : IsValid start
start-IsValid = record { property_in = omega arith; proofs_in = tt }

add_minimal_proof-IsAdded_example :
    IsAdded (2 ∷ 0 ∷ []) start (add_minimal_proof (2 ∷ 0 ∷ []) start)
add_minimal_proof-IsAdded_example =
    add_minimal_proof-IsAdded (2 ∷ 0 ∷ []) start start-IsValid (omega arith, (omega arith, tt))

add_property_if_missing-HasProperty_example :
    HasProperty (negate 13 ∷ []) latches (add_property_if_missing 13 latches)
add_property_if_missing-HasProperty_example = add_property_if_missing-HasProperty 13 latches

start-known : AllKnown chain (all_ids start)
unfolding minimizer_program
start-known id h =
    All-member (λ x. in_chain x ≡ true) id (0 ∷ 1 ∷ 2 ∷ []) (refl, (refl, (refl, tt))) h

start-IsInductive : IsInductive chain (all_ids start)
unfolding minimizer_program
start-IsInductive = (is_inductive-exact chain (all_ids start) 0 start-known).0 refl

brute_force-IsMinimized_example :
    Returns (brute_force chain start 0) (λ r. IsMinimized chain start r.0)
brute_force-IsMinimized_example =
    brute_force-IsMinimized chain start 0 start-IsValid start-known start-IsInductive

sisi_proof-IsMinimized_example :
    Returns (sisi_proof chain start 0) (λ r. IsMinimized chain start r.0)
sisi_proof-IsMinimized_example =
    sisi_proof-IsMinimized chain start 0 start-IsValid start-known start-IsInductive
