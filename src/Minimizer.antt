-- ===== src/Minimizer.antt =====
-- The proof minimizers of src/pme/minimization: the state that `ProofMinimizer` keeps (minimization.h and .cpp),
-- `DummyMinimizer`, `BruteForceMinimizer` (brute_force.cpp) and `SISIMinimizer` (sisi.cpp). The log and the timer are left out; of the
-- statistics (src/pme/engine/global_state.h), those which are written here.
pub mod Property
pub mod Results
pub mod Sets
pub mod Start
pub mod BruteForce
pub mod Simple
pub mod Tests
use pme.Base.{
  ℕ, zero, suc, ◌+◌, ◌-◌, min, max, Bool, true, false, not, if◌then◌else◌, ◌&&◌, ◌==◌, ltb, List,
  [], ◌∷◌, ◌++◌, Option, none, some, length, get_elem?, Result, ok, fault, out_of_range, ◌>>=◌,
  ◌>>◌, check,
}
use pme.Base.Sorting.{sorted_list}
use pme.Literal.{PmeId, ClauseId, Clause, ClauseVec, negate, word_mod}
use pme.Checker.{Checker}
use pme.Sisi.Feasible.{sisi_minimize}
use pme.Sisi.{
  Sisi, new_sisi, add_to_feas, add_to_nec, add_sisi_clause, is_empty_set, brute_force_minimize,
  is_minimal,
}

pub record MsisStats : Type 0 where
  pub num_clauses : ℕ
  pub num_msis_found : ℕ
  pub smallest_msis_size : ℕ
  pub largest_msis_size : ℕ

unfoldable pub new_stats : MsisStats
new_stats = record {
  num_clauses = 0;
  num_msis_found = 0;
  smallest_msis_size = word_mod - 1;
  largest_msis_size = 0;
}

pub record ProofMinimizer : Type 0 where
  pub proof : ClauseVec
  pub property : ClauseId
  pub minimal_proofs : List (List ClauseId)
  pub minimum_proof : List ClauseId
  pub stats : MsisStats

unfoldable pub clause_eq : Clause → Clause → Bool
clause_eq [] [] = true
clause_eq [] (y ∷ ys) = false
clause_eq (x ∷ xs) [] = false
clause_eq (x ∷ xs) (y ∷ ys) = x == y && clause_eq xs ys

-- The first clause of the vector that is the one given, counted from `id` on.
unfoldable pub find_clause : Clause → ClauseId → ClauseVec → Option ClauseId
find_clause cls id [] = none
find_clause cls id (c ∷ cs) =
    let rest = find_clause cls (id + 1) cs in if clause_eq c cls then some id else rest

unfoldable pub add_property_if_missing : PmeId → ClauseVec → ClauseVec × ClauseId
add_property_if_missing bad proof = elim (find_clause (negate bad ∷ []) 0 proof) [
  | none ↦ (proof ++ (negate bad ∷ []) ∷ [], length proof)
  | some id ↦ (proof, id)
]

unfoldable pub new_minimizer : PmeId → ClauseVec → MsisStats → ProofMinimizer
new_minimizer bad proof stats = record {
  proof = (add_property_if_missing bad proof).0;
  property = (add_property_if_missing bad proof).1;
  minimal_proofs = [];
  minimum_proof = [];
  stats = stats;
}

unfoldable pub at {ℓ} : {A : Type ℓ} → List A → ℕ → Result A
at xs i = elim (get_elem? xs i) [ none ↦ fault out_of_range | some a ↦ ok a ]

unfoldable pub num_clauses : ProofMinimizer → ℕ
num_clauses p = length p.proof

unfoldable pub clause_of : ClauseId → ProofMinimizer → Result Clause
clause_of id p = do check (ltb id (num_clauses p)); at p.proof id

unfoldable pub property_clause : ProofMinimizer → Result Clause
property_clause p = clause_of p.property p

unfoldable pub add_minimal_proof : List ClauseId → ProofMinimizer → ProofMinimizer
add_minimal_proof ids p = record p {
  minimal_proofs = p.minimal_proofs ++ sorted_list ids ∷ [];
  stats = record p.stats {
    num_msis_found = p.stats.num_msis_found + 1;
    smallest_msis_size = min p.stats.smallest_msis_size (length ids);
    largest_msis_size = max p.stats.largest_msis_size (length ids);
  };
}

unfoldable pub set_minimum_proof : List ClauseId → ProofMinimizer → Result ProofMinimizer
set_minimum_proof ids p = do
  check (is_empty_set p.minimum_proof)
  ok (record p { minimum_proof = ids })

unfoldable pub num_proofs : ProofMinimizer → ℕ
num_proofs p = length p.minimal_proofs

-- The loop of `getProof` and `getMinimumProof`
unfoldable pub get_clauses : ClauseVec → List ClauseId → Result ClauseVec
get_clauses proof [] = ok []
get_clauses proof (id ∷ ids) = do cls ← at proof id; rest ← get_clauses proof ids; ok (cls ∷ rest)

unfoldable pub get_proof : ℕ → ProofMinimizer → Result ClauseVec
get_proof i p = do
  check (ltb i (num_proofs p))
  ids ← at p.minimal_proofs i
  get_clauses p.proof ids

unfoldable pub minimum_proof_known : ProofMinimizer → Bool
minimum_proof_known p = not (is_empty_set p.minimum_proof)

unfoldable pub get_minimum_proof : ProofMinimizer → Result ClauseVec
get_minimum_proof p = get_clauses p.proof p.minimum_proof

-- The numbers of the clauses, as the loops over them meet them.
unfoldable pub ids_from : ClauseId → ℕ → List ClauseId
ids_from id zero = []
ids_from id (suc n) = id ∷ ids_from (id + 1) n

-- What `minimize` does before it calls `doMinimize`
unfoldable pub count_clauses : ProofMinimizer → ProofMinimizer
count_clauses p = record p { stats = record p.stats { num_clauses = num_clauses p } }

-- `DummyMinimizer::doMinimize`
unfoldable pub dummy_minimize : ProofMinimizer → ProofMinimizer
dummy_minimize p = add_minimal_proof (ids_from 0 (num_clauses p)) (count_clauses p)

-- The loop of `initSISI`
unfoldable pub add_all : List ClauseId → Sisi → Sisi
add_all [] x = x
add_all (id ∷ ids) x = add_all ids (add_sisi_clause id (add_to_feas id x))

unfoldable pub init_sisi : ProofMinimizer → Sisi → Sisi
init_sisi p x = add_to_nec p.property (add_all (ids_from 0 (num_clauses p)) x)

module _ (c : Checker) where
  -- `BruteForceMinimizer`, from `minimize` on
  unfoldable pub brute_force : ProofMinimizer → c.State → Result (ProofMinimizer × c.State)
  brute_force p s = do
    r ← brute_force_minimize c (init_sisi (count_clauses p) new_sisi) s
    ok (add_minimal_proof r.0 (count_clauses p), r.1)

  -- `BruteForceMinimizer::isMinimal`
  unfoldable pub proof_is_minimal : ProofMinimizer → c.State → Result (Bool × c.State)
  proof_is_minimal p s = is_minimal c (init_sisi p new_sisi) s

  -- `SISIMinimizer`, from `minimize` on
  unfoldable pub sisi_proof : ProofMinimizer → c.State → Result (ProofMinimizer × c.State)
  sisi_proof p s = do
    r ← sisi_minimize c (init_sisi (count_clauses p) new_sisi) s
    ok (add_minimal_proof r.0 (count_clauses p), r.1)
