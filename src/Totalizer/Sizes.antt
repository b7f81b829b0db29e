-- ===== src/Totalizer/Sizes.antt =====
-- How many outputs the nodes of a totalizer of src/pme/util/cardinality_constraint.cpp have, while
-- inputs are added and the cardinality is raised.
use pme.Base.{
  ℕ, zero, suc, ◌+◌, ◌-◌, ◌≤◌, ◌<◌, ◌≡◌, refl, sym, ◌∙◌, subst, leb, List, [], ◌∷◌, ◌++◌, length,
  length-append, min, Option, none, some, Bool-cases, inl, inr, arith,
}
use pme.Literal.{PmeId}
use pme.Variables.{VariableManager}
use pme.Totalizer.{
  TotalizerTree, leaf, node, TotalizerConstraint, new_leaf, tree_outputs, output_size, input_size,
  add_output, totalizer_fresh, grow, grow_to_target, increase_node_cardinality,
  update_cached_outputs, increase_tree, totalizer_set_cardinality, extend_root,
}

-- Each inner node has as many outputs as its subtrees together, at most `m`.
abbrev pub IsSized : ℕ → TotalizerTree → Type 0
IsSized m (leaf id outs dirty) = length outs ≡ 1
IsSized m (node l r outs dirty) =
    IsSized m l × IsSized m r × (length outs ≡ min m (output_size l + output_size r))

unfoldable pub leaves : TotalizerTree → ℕ
leaves (leaf id outs dirty) = 1
leaves (node l r outs dirty) = leaves l + leaves r

pub output_size-leaves :
    (m : ℕ) (tree : TotalizerTree) → 0 < m → IsSized m tree → output_size tree ≡ min m (leaves tree)
unfolding leaves output_size
output_size-leaves m (leaf id outs dirty) h s = omega (arith, s)
output_size-leaves m (node l r outs dirty) h s =
    omega (arith, s.2, output_size-leaves m l h s.0, output_size-leaves m r h s.1)

-- Growing a node adds outputs and keeps its subtrees.
grow-node :
    (count : ℕ) (l r : TotalizerTree) (outs dirty : List PmeId) (vm : VariableManager)
    → (outs' : List PmeId) × (dirty' : List PmeId) × ((grow count (node l r outs dirty) vm).0
        ≡ node l r outs' dirty')
      × (length outs' ≡ length outs + count)
unfolding grow add_output
grow-node zero l r outs dirty vm = (outs, dirty, refl, omega arith)
grow-node (suc count) l r outs dirty vm =
    let out = (totalizer_fresh vm).0 in
    let (outs', dirty', e, size) =
      grow-node count l r (outs ++ out ∷ []) (out ∷ dirty) (totalizer_fresh vm).1 in
    (outs', dirty', e, omega (arith, size, length-append outs (out ∷ [])))

grow_to_target-IsSized :
    (n : ℕ) (l r : TotalizerTree) (outs dirty : List PmeId) (vm : VariableManager)
    → IsSized n l
    → IsSized n r
    → length outs ≤ min n (output_size l + output_size r)
    → IsSized n (grow_to_target n (node l r outs dirty) vm).0
      × (leaves (grow_to_target n (node l r outs dirty) vm).0 ≡ leaves l + leaves r)
      × (length outs ≤ output_size (grow_to_target n (node l r outs dirty) vm).0)
unfolding grow_to_target input_size leaves output_size
grow_to_target-IsSized n l r outs dirty vm sl sr h =
    let (outs', dirty', e, size) =
      grow-node (min n (output_size l + output_size r) - length outs) l r outs dirty vm in
    subst (λ t. IsSized n t × (leaves t ≡ leaves l + leaves r) × (length outs ≤ output_size t))
      (sym e) ((sl, sr, size ∙ omega arith), refl, omega (arith, size))

grow_leaf :
    (n : ℕ) (id : PmeId) (outs dirty : List PmeId) (vm : VariableManager)
    → length outs ≡ 1
    → (grow_to_target n (leaf id outs dirty) vm).0 ≡ leaf id outs dirty
unfolding grow_to_target input_size output_size grow
grow_leaf n id outs dirty vm s =
    let none_missing : min n 1 - length outs ≡ 0 = omega (arith, s) in rw none_missing refl

-- Raising the cardinality keeps the sizes right and the inputs in place, and takes no output away.
pub increase_node_cardinality-IsSized :
    (m n : ℕ) (tree : TotalizerTree) (vm : VariableManager)
    → m ≤ n
    → IsSized m tree
    → IsSized n (increase_node_cardinality n tree vm).0
      × (leaves (increase_node_cardinality n tree vm).0 ≡ leaves tree)
      × (output_size tree ≤ output_size (increase_node_cardinality n tree vm).0)
unfolding increase_node_cardinality leaves output_size
increase_node_cardinality-IsSized m n (leaf id outs dirty) vm h s =
    subst (λ t. IsSized n t × (leaves t ≡ 1) × (length outs ≤ output_size t))
      (sym (grow_leaf n id outs dirty vm s)) (s, refl, omega arith)
increase_node_cardinality-IsSized m n (node l r outs dirty) vm h s =
    let l' = increase_node_cardinality n l vm in
    let r' = increase_node_cardinality n r l'.1 in
    let (sl, kl, gl) = increase_node_cardinality-IsSized m n l vm h s.0 in
    let (sr, kr, gr) = increase_node_cardinality-IsSized m n r l'.1 h s.1 in
    let (sized, kept, grown) =
      grow_to_target-IsSized n l'.0 r'.0 outs dirty r'.1 sl sr (omega (arith, s.2, gl, gr)) in
    (sized, kept ∙ omega (arith, kl, kr), grown)

-- The root has the sizes, a leaf for each input, and its outputs are the cached ones.
abbrev pub RootIsSized : ℕ → Option TotalizerTree → List PmeId → List PmeId → Type 0
RootIsSized m none outs ins = (outs ≡ []) × (length ins ≡ 0)
RootIsSized m (some tree) outs ins =
    IsSized m tree × (outs ≡ tree_outputs tree) × (leaves tree ≡ length ins)

abbrev pub ConstraintIsSized : TotalizerConstraint → Type 0
ConstraintIsSized c = RootIsSized c.cardinality_bound c.root c.outputs c.inputs

pub raised-IsSized :
    (m n : ℕ) (root : Option TotalizerTree) (outs ins : List PmeId) (vm : VariableManager)
    → m ≤ n
    → RootIsSized m root outs ins
    → ConstraintIsSized
        (totalizer_set_cardinality n
          (record { root = root; cardinality_bound = m; outputs = outs; inputs = ins })
          vm).0
unfolding totalizer_set_cardinality update_cached_outputs increase_tree
raised-IsSized m n none outs ins vm h s = elim (Bool-cases (leb n m)) [
  | inl c ↦ rw c s
  | inr c ↦ rw c s
]
raised-IsSized m n (some tree) outs ins vm h s = elim (Bool-cases (leb n m)) [
  | inl c ↦ rw c s
  | inr c ↦
      let (sized, kept, grown) = increase_node_cardinality-IsSized m n tree vm h s.0 in
      rw c (sized, refl, kept ∙ s.2)
]

pub extended-IsSized :
    (m : ℕ) (id : PmeId) (root : Option TotalizerTree) (outs ins : List PmeId)
    (vm : VariableManager)
    → RootIsSized m root outs ins
    → RootIsSized m
        (some (extend_root m id root vm).0)
        (tree_outputs (extend_root m id root vm).0)
        (ins ++ id ∷ [])
unfolding extend_root leaves new_leaf output_size
extended-IsSized m id none outs ins vm s =
    (refl, refl, omega (arith, s.1, length-append ins (id ∷ [])))
extended-IsSized m id (some tree) outs ins vm s =
    let (sized, kept, grown) =
      grow_to_target-IsSized m tree (new_leaf id) [] [] vm s.0 refl (omega arith) in
    (sized, refl, kept ∙ omega (arith, s.2, length-append ins (id ∷ [])))
