-- ===== src/Constraint.antt =====
-- src/pme/util/cardinality_constraint.h and .cpp: the class `CardinalityConstraint`, whose `assume`
-- functions give a cube that bounds the number of true inputs, and `SortingConstraint`.
pub mod Assume
pub mod Cubes
pub mod Bodies
pub mod Runs
mod Tests
pub mod Encoded
pub mod Exact
use pme.Base.{
  ℕ, suc, ◌-◌, ◌%◌, ◌^◌, Bool, true, false, not, ◌&&◌, ◌||◌, if◌then◌else◌, ltb, leb, ◌==◌, List,
  [], ◌∷◌, ◌++◌, length, min, Result, ok, fault, invalid_argument, runtime_error, ◌>>=◌, ◌>>◌,
  check,
}
use pme.Literal.{PmeId, Cube, ClauseVec, negate}
use pme.Variables.{VariableManager}
use pme.Network.Simplified.{cardinality}

-- What the `assume` functions read through the virtual functions of the class. `outputs()` may stop.
pub record CardinalityConstraint : Type 0 where
  pub inputs : List PmeId
  pub outputs : Result (List PmeId)
  pub input_cardinality : ℕ
  pub output_cardinality : ℕ

-- A number as an `unsigned`, of 32 bits.
unfoldable pub to_unsigned : ℕ → ℕ
to_unsigned n = n % 2 ^ 32

-- The loop of the `assume` functions over the outputs, from index `i`. `body` gives what it pushes,
-- from the index and the output, which is held in an `unsigned`.
unfoldable pub assume_loop : (ℕ → PmeId → Cube) → ℕ → List PmeId → Cube
assume_loop body i [] = []
assume_loop body i (x ∷ xs) = body i (to_unsigned x) ++ assume_loop body (suc i) xs

unfoldable pub eq_body : ℕ → ℕ → PmeId → Cube
eq_body n i lit = if ltb 0 n && leb i (n - 1) then lit ∷ [] else negate lit ∷ []

unfoldable pub leq_body : ℕ → ℕ → PmeId → Cube
leq_body n i lit = if leb n i then negate lit ∷ [] else []

unfoldable pub lt_body : ℕ → ℕ → PmeId → Cube
lt_body n i lit = if ltb 0 n && leb (n - 1) i then negate lit ∷ [] else []

unfoldable pub geq_body : ℕ → ℕ → PmeId → Cube
geq_body n i lit = if ltb 0 n && leb i (n - 1) then lit ∷ [] else []

unfoldable pub gt_body : ℕ → ℕ → PmeId → Cube
gt_body n i lit = if leb i n then lit ∷ [] else []

-- `n == getInputCardinality() && n == getOutputCardinality()`
unfoldable pub is_full : CardinalityConstraint → ℕ → Bool
is_full c n = n == c.input_cardinality && n == c.output_cardinality

unfoldable pub assume_eq : CardinalityConstraint → ℕ → Result Cube
assume_eq c n =
    if is_full c n
    then ok c.inputs
    else if leb c.output_cardinality n
    then fault invalid_argument
    else (do outs ← c.outputs; ok (assume_loop (eq_body n) 0 outs))

unfoldable pub assume_leq : CardinalityConstraint → ℕ → Result Cube
assume_leq c n =
    if is_full c n
    then ok []
    else if leb c.output_cardinality n
    then fault invalid_argument
    else (do outs ← c.outputs; ok (assume_loop (leq_body n) 0 outs))

unfoldable pub assume_lt : CardinalityConstraint → ℕ → Result Cube
assume_lt c n =
    if n == 0
    then fault invalid_argument
    else if ltb c.output_cardinality n
    then fault invalid_argument
    else (do outs ← c.outputs; ok (assume_loop (lt_body n) 0 outs))

unfoldable pub assume_geq : CardinalityConstraint → ℕ → Result Cube
assume_geq c n =
    if is_full c n
    then ok c.inputs
    else if leb c.output_cardinality n
    then fault invalid_argument
    else (do outs ← c.outputs; ok (assume_loop (geq_body n) 0 outs))

unfoldable pub assume_gt : CardinalityConstraint → ℕ → Result Cube
assume_gt c n =
    if leb c.output_cardinality n
    then fault invalid_argument
    else (do outs ← c.outputs; ok (assume_loop (gt_body n) 0 outs))

pub record SortingConstraint : Type 0 where
  pub cardinality_bound : ℕ
  pub outputs : List PmeId
  pub inputs : List PmeId
  pub cnfized : Bool
  pub le : Bool
  pub ge : Bool

unfoldable pub new_sorting_constraint : Bool → Bool → Result SortingConstraint
new_sorting_constraint le ge = do
  check (le || ge)
  ok (record {
    cardinality_bound = 0;
    outputs = [];
    inputs = [];
    cnfized = false;
    le = le;
    ge = ge;
  })

unfoldable pub add_input : PmeId → SortingConstraint → SortingConstraint
add_input id c = record c { inputs = c.inputs ++ id ∷ [] }

unfoldable pub add_inputs : List PmeId → SortingConstraint → SortingConstraint
add_inputs [] c = c
add_inputs (id ∷ ids) c = add_inputs ids (add_input id c)

unfoldable pub set_cardinality : ℕ → SortingConstraint → SortingConstraint
set_cardinality n c = record c { cardinality_bound = to_unsigned n }

unfoldable pub get_outputs : SortingConstraint → Result (List PmeId)
get_outputs c = do check c.cnfized; ok c.outputs

unfoldable pub as_constraint : SortingConstraint → CardinalityConstraint
as_constraint c = record {
  inputs = c.inputs;
  outputs = get_outputs c;
  input_cardinality = to_unsigned (length c.inputs);
  output_cardinality = to_unsigned (min c.cardinality_bound (length c.inputs));
}

-- The clauses, the constraint with its outputs, and the manager they took their variables from.
unfoldable pub cnfize :
    SortingConstraint → VariableManager → Result (ClauseVec × SortingConstraint × VariableManager)
cnfize c vm = do
  (net, vm₁) ← cardinality c.inputs c.cardinality_bound c.le c.ge vm
  ok (net.clauses, record c { cnfized = true; outputs = net.outputs }, vm₁)

unfoldable pub sorting_assume_eq : SortingConstraint → ℕ → Result Cube
sorting_assume_eq c n =
    if not c.ge || not c.le then fault runtime_error else assume_eq (as_constraint c) n

unfoldable pub sorting_assume_leq : SortingConstraint → ℕ → Result Cube
sorting_assume_leq c n = if not c.le then fault runtime_error else assume_leq (as_constraint c) n

unfoldable pub sorting_assume_lt : SortingConstraint → ℕ → Result Cube
sorting_assume_lt c n = if not c.le then fault runtime_error else assume_lt (as_constraint c) n

unfoldable pub sorting_assume_geq : SortingConstraint → ℕ → Result Cube
sorting_assume_geq c n = if not c.ge then fault runtime_error else assume_geq (as_constraint c) n

unfoldable pub sorting_assume_gt : SortingConstraint → ℕ → Result Cube
sorting_assume_gt c n = if not c.ge then fault runtime_error else assume_gt (as_constraint c) n
