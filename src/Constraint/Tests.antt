-- ===== src/Constraint/Tests.antt =====
-- Runs of the constraints of src/pme/util/cardinality_constraint.cpp, and their theorems at
-- concrete inputs.
use pme.Base.{
  ◌≤◌, ◌<◌, ◌≡◌, refl, sym, ap, ◌∙◌, subst, true, false, [], ◌∷◌, arith, Result, ok, fault,
  invalid_argument, runtime_error, assertion_failed, Returns, ◌↔◌, inl,
}
use pme.Literal.{ClauseVec}
use pme.Cnf.{Valuation, Sat, SatCube, count_true}
use pme.Variables.{VariableManager}
use pme.Network.Tests.{program}
use pme.Constraint.{
  SortingConstraint, to_unsigned, assume_loop, eq_body, leq_body, lt_body, geq_body, gt_body,
  is_full, assume_eq, assume_leq, assume_lt, assume_geq, assume_gt, new_sorting_constraint,
  add_input, add_inputs, set_cardinality, get_outputs, as_constraint, cnfize, sorting_assume_eq,
  sorting_assume_leq, sorting_assume_lt, sorting_assume_geq, sorting_assume_gt,
}
use pme.Constraint.Encoded.{Encodes, encode_inputs, cnfize-Encodes}
use pme.Constraint.Exact.{
  assume_eq-exact, assume_leq-exact, assume_lt-exact, assume_geq-exact, assume_gt-exact,
}

constraint_program : Unit {0}
unfolding program to_unsigned assume_loop eq_body leq_body lt_body geq_body gt_body is_full
    assume_eq assume_leq assume_lt assume_geq assume_gt new_sorting_constraint add_input add_inputs
    set_cardinality get_outputs as_constraint cnfize sorting_assume_eq sorting_assume_leq
    sorting_assume_lt sorting_assume_geq sorting_assume_gt
constraint_program = tt

-- A manager that has handed out the variables 4 to 12.
abbrev manager : VariableManager
manager = record { next_id = 14; vars = []; internal_to_external = []; external_to_internal = [] }

abbrev empty_constraint : SortingConstraint
empty_constraint = record {
  cardinality_bound = 0;
  outputs = [];
  inputs = [];
  cnfized = false;
  le = true;
  ge = true;
}

abbrev two_inputs : SortingConstraint
two_inputs = record empty_constraint { cardinality_bound = 2; inputs = 4 ∷ 6 ∷ [] }

abbrev made : SortingConstraint
made = record two_inputs { cnfized = true; outputs = 14 ∷ 16 ∷ [] }

abbrev made_clauses : ClauseVec
made_clauses =
    (5 ∷ 14 ∷ [])
    ∷ (7 ∷ 14 ∷ [])
    ∷ (5 ∷ 7 ∷ 16 ∷ [])
    ∷ (4 ∷ 17 ∷ [])
    ∷ (6 ∷ 17 ∷ [])
    ∷ (4 ∷ 6 ∷ 15 ∷ [])
    ∷ []

build : set_cardinality 2 (add_inputs (4 ∷ 6 ∷ []) empty_constraint) ≡ two_inputs
unfolding constraint_program
build = refl

new_constraint : new_sorting_constraint true true ≡ ok empty_constraint
unfolding constraint_program
new_constraint = refl

no_direction : new_sorting_constraint false false ≡ fault assertion_failed
unfolding constraint_program
no_direction = refl

abbrev forget :
    Result (ClauseVec × SortingConstraint × VariableManager) → ClauseVec × SortingConstraint
forget (ok r) = (r.0, r.1)
forget (fault e) = ([], empty_constraint)

run_two : forget (cnfize two_inputs manager) ≡ (made_clauses, made)
unfolding constraint_program
run_two = refl

exactly_one : sorting_assume_eq made 1 ≡ ok (14 ∷ 17 ∷ [])
unfolding constraint_program
exactly_one = refl

too_early : sorting_assume_leq two_inputs 1 ≡ fault assertion_failed
unfolding constraint_program
too_early = refl

too_many : sorting_assume_gt made 2 ≡ fault invalid_argument
unfolding constraint_program
too_many = refl

wrong_direction : sorting_assume_geq (record made { ge = false }) 1 ≡ fault runtime_error
unfolding constraint_program
wrong_direction = refl

-- An output with a prime, `4 | 1 << 48`, loses it in the `unsigned` that holds it.
lost_prime :
    sorting_assume_geq (record made { outputs = 281474976710660 ∷ 16 ∷ [] }) 1 ≡ ok (4 ∷ [])
unfolding constraint_program
lost_prime = refl

run_encode : forget (encode_inputs true true (4 ∷ 6 ∷ []) 2 manager) ≡ (made_clauses, made)
unfolding constraint_program
run_encode = refl

made-Encodes : Encodes made made_clauses
made-Encodes =
    let (r, run, enc) =
      cnfize-Encodes true true (4 ∷ 6 ∷ []) 2 manager refl (omega arith) (omega arith)
        (omega arith) in
    let e : (r.0, r.1) ≡ (made_clauses, made) = sym (ap forget run) ∙ run_encode in
    subst (λ (p : ClauseVec × SortingConstraint). Encodes p.1 p.0) e enc.encodes

assume_eq-exact_example : Returns (sorting_assume_eq made 1) (λ cube.
    (v : Valuation) → Sat v made_clauses → SatCube v cube ↔ (count_true v (4 ∷ 6 ∷ []) ≡ 1))
assume_eq-exact_example =
    assume_eq-exact made made_clauses made-Encodes (omega arith, (omega arith, tt)) (omega arith) 1
      refl refl (inl (omega arith))

assume_leq-exact_example : Returns (sorting_assume_leq made 1) (λ cube.
    (v : Valuation)
    → Sat v made_clauses
    → (SatCube v cube → count_true v (4 ∷ 6 ∷ []) ≤ 1)
      × (true ≡ true → count_true v (4 ∷ 6 ∷ []) ≤ 1 → SatCube v cube))
assume_leq-exact_example =
    assume_leq-exact made made_clauses made-Encodes (omega arith, (omega arith, tt)) (omega arith) 1
      refl (inl (omega arith))

assume_lt-exact_example : Returns (sorting_assume_lt made 2) (λ cube.
    (v : Valuation)
    → Sat v made_clauses
    → (SatCube v cube → count_true v (4 ∷ 6 ∷ []) < 2)
      × (true ≡ true → count_true v (4 ∷ 6 ∷ []) < 2 → SatCube v cube))
assume_lt-exact_example =
    assume_lt-exact made made_clauses made-Encodes (omega arith, (omega arith, tt)) (omega arith) 1
      refl (omega arith)

assume_geq-exact_example : Returns (sorting_assume_geq made 1) (λ cube.
    (v : Valuation)
    → Sat v made_clauses
    → (SatCube v cube → 1 ≤ count_true v (4 ∷ 6 ∷ []))
      × (true ≡ true → 1 ≤ count_true v (4 ∷ 6 ∷ []) → SatCube v cube))
assume_geq-exact_example =
    assume_geq-exact made made_clauses made-Encodes (omega arith, (omega arith, tt)) (omega arith) 1
      refl (inl (omega arith))

assume_gt-exact_example : Returns (sorting_assume_gt made 1) (λ cube.
    (v : Valuation)
    → Sat v made_clauses
    → (SatCube v cube → 1 < count_true v (4 ∷ 6 ∷ []))
      × (true ≡ true → 1 < count_true v (4 ∷ 6 ∷ []) → SatCube v cube))
assume_gt-exact_example =
    assume_gt-exact made made_clauses made-Encodes (omega arith, (omega arith, tt)) (omega arith) 1
      refl (omega arith)
