-- ===== src/Totalizer/Tests.antt =====
-- Runs of the totalizer of src/pme/util/cardinality_constraint.cpp, and its theorem at concrete
-- steps.
use pme.Base.{◌<◌, ◌≡◌, refl, [], ◌∷◌, length, min, arith, Result, ok, fault, assertion_failed}
use pme.Literal.{ClauseVec, negate, strip}
use pme.Variables.{VariableManager, get_new_id}
use pme.Totalizer.{
  TotalizerConstraint, new_leaf, tree_outputs, dirty_set, output_size, input_size, is_leaf,
  mark_clean, mark_dirty, is_dirty, is_dirty_id, is_clean, add_output, totalizer_fresh, grow,
  grow_to_target, increase_node_cardinality, new_totalizer, update_cached_outputs, increase_tree,
  totalizer_set_cardinality, increase_cardinality, extend_root, totalizer_add_input,
  totalizer_output_cardinality, is_dirty_clause, if_dirty, round_clauses, at_theta, beta_loop,
  alpha_loop, padded, to_cnf, clear_incrementality, incremental_cnfize, totalizer_cnfize,
}
use pme.Totalizer.Reachable.{start, input, raise, Reached-outputs}

totalizer_program : Unit {0}
unfolding negate strip get_new_id new_leaf tree_outputs dirty_set output_size input_size is_leaf
    mark_clean mark_dirty is_dirty is_dirty_id is_clean add_output totalizer_fresh grow
    grow_to_target increase_node_cardinality new_totalizer update_cached_outputs increase_tree
    totalizer_set_cardinality increase_cardinality extend_root totalizer_add_input
    totalizer_output_cardinality is_dirty_clause if_dirty round_clauses at_theta beta_loop
    alpha_loop padded to_cnf clear_incrementality incremental_cnfize totalizer_cnfize
totalizer_program = tt

-- A manager that has handed out the variables 4 and 6.
abbrev manager : VariableManager
manager = record { next_id = 8; vars = []; internal_to_external = []; external_to_internal = [] }

abbrev raised : TotalizerConstraint × VariableManager
raised = totalizer_set_cardinality 2 new_totalizer manager

abbrev one_input : TotalizerConstraint × VariableManager
one_input = totalizer_add_input 4 raised.0 raised.1

abbrev two_inputs : TotalizerConstraint × VariableManager
two_inputs = totalizer_add_input 6 one_input.0 one_input.1

outputs_of_two : two_inputs.0.outputs ≡ 8 ∷ 10 ∷ []
unfolding totalizer_program
outputs_of_two = refl

abbrev clauses_of : Result (ClauseVec × TotalizerConstraint) → ClauseVec
clauses_of (ok r) = r.0
clauses_of (fault e) = []

abbrev again : Result (ClauseVec × TotalizerConstraint) → Result (ClauseVec × TotalizerConstraint)
again (ok r) = incremental_cnfize r.1
again (fault e) = fault e

clauses_of_two :
    clauses_of (totalizer_cnfize two_inputs.0)
    ≡ (4 ∷ 6 ∷ 9 ∷ [])
      ∷ (2 ∷ 7 ∷ 8 ∷ [])
      ∷ (4 ∷ 2 ∷ 11 ∷ [])
      ∷ (5 ∷ 2 ∷ 8 ∷ [])
      ∷ (2 ∷ 6 ∷ 11 ∷ [])
      ∷ (5 ∷ 7 ∷ 10 ∷ [])
      ∷ []
unfolding totalizer_program
clauses_of_two = refl

-- What is clean is not encoded again.
clean_after : clauses_of (again (totalizer_cnfize two_inputs.0)) ≡ []
unfolding totalizer_program
clean_after = refl

no_root : totalizer_cnfize new_totalizer ≡ fault assertion_failed
unfolding totalizer_program
no_root = refl

positive : 0 < two_inputs.0.cardinality_bound
unfolding totalizer_program
positive = omega arith

Reached-outputs_example :
    (length two_inputs.0.outputs ≡ min two_inputs.0.cardinality_bound (length two_inputs.0.inputs))
    × (totalizer_output_cardinality two_inputs.0 ≡ length two_inputs.0.outputs)
Reached-outputs_example =
    Reached-outputs two_inputs.0
      (input 6 one_input.0 one_input.1
        (input 4 raised.0 raised.1 (raise 2 new_totalizer manager start)))
      positive
