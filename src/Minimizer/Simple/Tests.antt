-- ===== src/Minimizer/Simple/Tests.antt =====
-- Runs of src/pme/minimization/simple.cpp over the chain of latches, and its theorem at them.
use pme.Base.{◌≡◌, refl, true, false, [], ◌∷◌, Returns, All-member, ok, arith}
use pme.Checker.{AllKnown, IsInductive}
use pme.Checker.Chain.{chain, in_chain}
use pme.Mis.Sound.{is_inductive-exact}
use pme.Minimizer.{ProofMinimizer}
use pme.Minimizer.Tests.{minimizer_program}
use pme.Minimizer.Results.{IsValid}
use pme.Minimizer.Sets.{all_ids}
use pme.Minimizer.Simple.{push_support, compute_support, simple_loop, simple_proof}
use pme.Minimizer.Simple.Sound.{IsReduced, simple_proof-IsReduced}

simple_program : Unit {0}
unfolding minimizer_program push_support compute_support simple_loop simple_proof
simple_program = tt

-- The clauses of the first three latches; the property is the second one's.
abbrev start : ProofMinimizer
start = record {
  proof = (4 ∷ []) ∷ (6 ∷ []) ∷ (8 ∷ []) ∷ [];
  property = 1;
  minimal_proofs = [];
  minimum_proof = [];
  stats = record {
    num_clauses = 0;
    num_msis_found = 0;
    smallest_msis_size = 3;
    largest_msis_size = 0;
  };
}

abbrev done : ProofMinimizer
done = record start {
  minimal_proofs = (0 ∷ 1 ∷ []) ∷ [];
  stats = record {
    num_clauses = 3;
    num_msis_found = 1;
    smallest_msis_size = 2;
    largest_msis_size = 2;
  };
}

reduced : simple_proof chain false start 0 ≡ ok (done, 2)
unfolding simple_program
reduced = refl

start-IsValid : IsValid start
start-IsValid = record { property_in = omega arith; proofs_in = tt }

start-AllKnown : AllKnown chain (all_ids start)
unfolding simple_program
start-AllKnown id h =
    All-member (λ x. in_chain x ≡ true) id (0 ∷ 1 ∷ 2 ∷ []) (refl, (refl, (refl, tt))) h

start-IsInductive : IsInductive chain (all_ids start)
unfolding simple_program
start-IsInductive = (is_inductive-exact chain (all_ids start) 0 start-AllKnown).0 refl

simple_proof-IsReduced_example :
    Returns (simple_proof chain true start 0) (λ r. IsReduced chain start r.0)
simple_proof-IsReduced_example =
    simple_proof-IsReduced chain true start 0 start-IsValid start-AllKnown start-IsInductive
