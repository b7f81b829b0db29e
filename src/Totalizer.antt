-- ===== src/Totalizer.antt =====
-- src/pme/util/cardinality_constraint.h and .cpp: `TotalizerTree` and
-- `TotalizerCardinalityConstraint`, a cardinality constraint that can grow.

pub mod Sizes
pub mod Reachable
mod Tests
use pme.Base.{
  ℕ, zero, suc, ◌+◌, ◌-◌, Bool, true, false, not, ◌&&◌, ◌||◌, if◌then◌else◌, ltb, leb, ◌==◌, List,
  [], ◌∷◌, ◌++◌, length, get_elem?, min, Option, none, some, Result, ok, fault, assertion_failed,
  invalid_argument, ◌>>=◌, ◌>>◌, check,
}
use pme.Literal.{PmeId, Clause, ClauseVec, id_true, id_false, negate, strip}
use pme.Variables.{VariableManager, get_new_id, codes}

-- A tree of the two kinds the code makes: a leaf holds its input, which is not `ID_NULL`, and an
-- inner node has both subtrees. Each has its outputs and the set of those that are dirty.
pub data TotalizerTree : Type 0 where
  leaf : PmeId → List PmeId → List PmeId → TotalizerTree
  node : TotalizerTree → TotalizerTree → List PmeId → List PmeId → TotalizerTree

pub record TotalizerConstraint : Type 0 where
  pub root : Option TotalizerTree
  pub cardinality_bound : ℕ
  pub outputs : List PmeId
  pub inputs : List PmeId

unfoldable pub new_leaf : PmeId → TotalizerTree
new_leaf id = leaf id (id ∷ []) []

unfoldable pub tree_outputs : TotalizerTree → List PmeId
tree_outputs (leaf id outs dirty) = outs
tree_outputs (node l r outs dirty) = outs

unfoldable pub dirty_set : TotalizerTree → List PmeId
dirty_set (leaf id outs dirty) = dirty
dirty_set (node l r outs dirty) = dirty

unfoldable pub output_size : TotalizerTree → ℕ
unfolding tree_outputs
output_size tree = length (tree_outputs tree)

unfoldable pub input_size : TotalizerTree → ℕ
input_size (leaf id outs dirty) = 1
input_size (node l r outs dirty) = output_size l + output_size r

unfoldable pub is_leaf : TotalizerTree → Bool
is_leaf (leaf id outs dirty) = true
is_leaf (node l r outs dirty) = false

unfoldable pub mark_clean : TotalizerTree → TotalizerTree
mark_clean (leaf id outs dirty) = leaf id outs []
mark_clean (node l r outs dirty) = node l r outs []

unfoldable pub mark_dirty : TotalizerTree → TotalizerTree
mark_dirty (leaf id outs dirty) = leaf id outs outs
mark_dirty (node l r outs dirty) = node l r outs outs

unfoldable pub is_dirty : TotalizerTree → Bool
is_dirty tree = elim (dirty_set tree) [ [] ↦ false | x ∷ xs ↦ true ]

-- `m_dirty.count(id) > 0`
unfoldable pub is_dirty_id : List PmeId → PmeId → Bool
is_dirty_id [] id = false
is_dirty_id (x ∷ xs) id = x == id || is_dirty_id xs id

unfoldable pub is_clean : TotalizerTree → Bool
is_clean tree = not (is_dirty tree) || is_leaf tree

unfoldable pub add_output : PmeId → TotalizerTree → TotalizerTree
add_output out (leaf id outs dirty) = leaf id (outs ++ out ∷ []) (out ∷ dirty)
add_output out (node l r outs dirty) = node l r (outs ++ out ∷ []) (out ∷ dirty)

unfoldable pub totalizer_fresh : VariableManager → PmeId × VariableManager
totalizer_fresh vm = get_new_id (codes "cardinality_internal") 0 vm

-- The loop that adds outputs while there are fewer than the target, `count` of them.
unfoldable pub grow : ℕ → TotalizerTree → VariableManager → TotalizerTree × VariableManager
grow zero tree vm = (tree, vm)
grow (suc count) tree vm =
    grow count (add_output (totalizer_fresh vm).0 tree) (totalizer_fresh vm).1

unfoldable pub grow_to_target :
    ℕ → TotalizerTree → VariableManager → TotalizerTree × VariableManager
grow_to_target bound tree vm = grow (min bound (input_size tree) - output_size tree) tree vm

-- Subtrees first. In a tree no node is met twice, so the set of visited nodes decides nothing.
unfoldable pub increase_node_cardinality :
    ℕ → TotalizerTree → VariableManager → TotalizerTree × VariableManager
increase_node_cardinality bound (leaf id outs dirty) vm =
    grow_to_target bound (leaf id outs dirty) vm
increase_node_cardinality bound (node l r outs dirty) vm =
    let left = increase_node_cardinality bound l vm in
    let right = increase_node_cardinality bound r left.1 in
    grow_to_target bound (node left.0 right.0 outs dirty) right.1

unfoldable pub new_totalizer : TotalizerConstraint
new_totalizer = record { root = none; cardinality_bound = 0; outputs = []; inputs = [] }

unfoldable pub update_cached_outputs : TotalizerConstraint → TotalizerConstraint
update_cached_outputs c = record c {
  outputs = elim c.root [ none ↦ [] | some tree ↦ tree_outputs tree ];
}

unfoldable pub increase_tree :
    ℕ → Option TotalizerTree → VariableManager → Option TotalizerTree × VariableManager
increase_tree bound none vm = (none, vm)
increase_tree bound (some tree) vm =
    let grown = increase_node_cardinality bound tree vm in (some grown.0, grown.1)

-- Without a root the outputs are not refreshed, and there are none.
unfoldable pub totalizer_set_cardinality :
    ℕ → TotalizerConstraint → VariableManager → TotalizerConstraint × VariableManager
totalizer_set_cardinality n c vm =
    let grown = increase_tree n c.root vm in
    let raised : TotalizerConstraint = record c { root = grown.0; cardinality_bound = n } in
    if leb n c.cardinality_bound then (c, vm) else elim c.root [
      | none ↦ (record c { cardinality_bound = n }, vm)
      | some tree ↦ (update_cached_outputs raised, grown.1)
    ]

unfoldable pub increase_cardinality :
    ℕ → TotalizerConstraint → VariableManager → Result (TotalizerConstraint × VariableManager)
increase_cardinality n c vm =
    if ltb n c.cardinality_bound
    then fault invalid_argument
    else ok (totalizer_set_cardinality n c vm)

-- A new input becomes the right subtree of a new root, with the old root on its left.
unfoldable pub extend_root :
    ℕ → PmeId → Option TotalizerTree → VariableManager → TotalizerTree × VariableManager
extend_root bound id none vm = (new_leaf id, vm)
extend_root bound id (some old) vm = grow_to_target bound (node old (new_leaf id) [] []) vm

unfoldable pub totalizer_add_input :
    PmeId → TotalizerConstraint → VariableManager → TotalizerConstraint × VariableManager
totalizer_add_input id c vm =
    let grown = extend_root c.cardinality_bound id c.root vm in
    (
      update_cached_outputs (record c { inputs = c.inputs ++ id ∷ []; root = some grown.0 }),
      grown.1,
    )

unfoldable pub totalizer_output_cardinality : TotalizerConstraint → ℕ
totalizer_output_cardinality c = elim c.root [ none ↦ 0 | some tree ↦ output_size tree ]

unfoldable pub is_dirty_clause : Clause → List PmeId → Bool
is_dirty_clause [] dirty = false
is_dirty_clause (id ∷ ids) dirty = is_dirty_id dirty (strip id) || is_dirty_clause ids dirty

unfoldable pub if_dirty : Clause → List PmeId → ClauseVec
if_dirty cls dirty = if is_dirty_clause cls dirty then cls ∷ [] else []

-- One round of the two loops: the clauses c1 and c2, for the entries of the three vectors.
unfoldable pub round_clauses :
    List PmeId → PmeId → PmeId → PmeId → PmeId → PmeId → PmeId → ClauseVec
round_clauses dirty a0 a1 b0 b1 r0 r1 =
    (if not (a0 == id_false) && not (b0 == id_false) && not (r0 == id_true)
      then if_dirty (negate a0 ∷ negate b0 ∷ r0 ∷ []) dirty
      else [])
    ++ (if not (a1 == id_true) && not (b1 == id_true) && not (r1 == id_false)
        then if_dirty (a1 ∷ b1 ∷ negate r1 ∷ []) dirty
        else [])

-- Past the end of `r_vec` the round is skipped.
unfoldable pub at_theta :
    List PmeId → PmeId → PmeId → PmeId → PmeId → Option PmeId → Option PmeId → ClauseVec
at_theta dirty a0 a1 b0 b1 (some r0) (some r1) = round_clauses dirty a0 a1 b0 b1 r0 r1
at_theta dirty a0 a1 b0 b1 r0 none = []
at_theta dirty a0 a1 b0 b1 none (some r1) = []

unfoldable pub beta_loop : List PmeId → List PmeId → PmeId → PmeId → ℕ → List PmeId → ClauseVec
beta_loop dirty r_vec a0 a1 theta [] = []
beta_loop dirty r_vec a0 a1 theta (b0 ∷ []) = []
beta_loop dirty r_vec a0 a1 theta (b0 ∷ b1 ∷ bs) =
    at_theta dirty a0 a1 b0 b1 (get_elem? r_vec theta) (get_elem? r_vec (theta + 1))
    ++ beta_loop dirty r_vec a0 a1 (suc theta) (b1 ∷ bs)

unfoldable pub alpha_loop : List PmeId → List PmeId → List PmeId → ℕ → List PmeId → ClauseVec
alpha_loop dirty r_vec b_vec alpha [] = []
alpha_loop dirty r_vec b_vec alpha (a0 ∷ []) = []
alpha_loop dirty r_vec b_vec alpha (a0 ∷ a1 ∷ as_rest) =
    beta_loop dirty r_vec a0 a1 alpha b_vec
    ++ alpha_loop dirty r_vec b_vec (suc alpha) (a1 ∷ as_rest)

-- The outputs between the true and the false constant.
unfoldable pub padded : List PmeId → List PmeId
padded outs = id_true ∷ outs ++ id_false ∷ []

-- The clauses, and the tree with every node it has gone through marked as clean.
unfoldable pub to_cnf : TotalizerTree → Result (ClauseVec × TotalizerTree)
to_cnf (leaf id outs dirty) = ok ([], leaf id outs dirty)
to_cnf (node l r outs dirty) =
    let deep = (do
      (lcnf, l') ← to_cnf l
      (rcnf, r') ← to_cnf r
      let own =
          alpha_loop dirty (padded outs) (padded (tree_outputs r')) 0 (padded (tree_outputs l'))
      ok (lcnf ++ rcnf ++ own, node l' r' outs [])) in
    let clean = (do check (is_clean l); check (is_clean r); ok ([], node l r outs dirty)) in
    if is_clean (node l r outs dirty) then clean else deep

unfoldable pub clear_incrementality : TotalizerTree → TotalizerTree
clear_incrementality (leaf id outs dirty) = leaf id outs outs
clear_incrementality (node l r outs dirty) =
    node (clear_incrementality l) (clear_incrementality r) outs outs

-- `toCNF` asserts that there is a root.
unfoldable pub incremental_cnfize : TotalizerConstraint → Result (ClauseVec × TotalizerConstraint)
incremental_cnfize c = elim c.root [
  | none ↦ fault assertion_failed
  | some tree ↦ (do (cnf, tree') ← to_cnf tree; ok (cnf, record c { root = some tree' }))
]

unfoldable pub totalizer_cnfize : TotalizerConstraint → Result (ClauseVec × TotalizerConstraint)
totalizer_cnfize c =
    incremental_cnfize (record c {
      root = elim c.root [ none ↦ none | some tree ↦ some (clear_incrementality tree) ];
    })
