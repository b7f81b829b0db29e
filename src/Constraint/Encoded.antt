-- ===== src/Constraint/Encoded.antt =====
-- `SortingConstraint` of src/pme/util/cardinality_constraint.cpp from its construction to `CNFize`.
use pme.Base.{
  ℕ, ◌%◌, ◌^◌, ◌<◌, ◌≡◌, refl, sym, ap, ◌∙◌, Bool, true, false, ◌||◌, List, [], ◌∷◌, ◌++◌, length,
  Result, ok, ◌>>=◌, Returns, arith,
}
use pme.Literal.{PmeId, ClauseVec}
use pme.Variables.{VariableManager}
use pme.Network.SortSound.{IsCounter}
use pme.Network.CardinalitySound.{cardinality-IsCounter}
use pme.Constraint.{
  SortingConstraint, to_unsigned, new_sorting_constraint, add_input, add_inputs, set_cardinality,
  get_outputs, cnfize,
}

-- The state after `CNFize`: the clauses count the inputs in the outputs.
pub record Encodes (c : SortingConstraint) (clauses : ClauseVec) : Type 0 where
  pub made : c.cnfized ≡ true
  pub counts :
      IsCounter c.inputs c.cardinality_bound c.le c.ge
        (record { outputs = c.outputs; clauses = clauses })

-- `CNFize` keeps the constraint but for its outputs, and its clauses then count the inputs in them.
cnfize-Counts :
    (c : SortingConstraint) (vm : VariableManager)
    → (c.le || c.ge) ≡ true
    → 0 < length c.inputs
    → 0 < c.cardinality_bound
    → Returns
        (cnfize c vm)
        (λ r. Encodes r.1 r.0 × (r.1 ≡ record c { cnfized = true; outputs = r.1.outputs }))
unfolding cnfize
cnfize-Counts c vm either pos bound =
    let ((net, vm₁), run, counter) =
      cardinality-IsCounter c.le c.ge c.inputs c.cardinality_bound vm either pos bound in
    (
      (net.clauses, record c { cnfized = true; outputs = net.outputs }, vm₁),
      rw run refl,
      (record { made = refl; counts = counter }, refl),
    )

append-cons : (xs : List PmeId) (y : PmeId) (zs : List PmeId) → (xs ++ y ∷ []) ++ zs ≡ xs ++ y ∷ zs
append-cons [] y zs = refl
append-cons (x ∷ xs) y zs = ap (λ ys. x ∷ ys) (append-cons xs y zs)

append-nil : (xs : List PmeId) → xs ++ [] ≡ xs
append-nil [] = refl
append-nil (x ∷ xs) = ap (λ ys. x ∷ ys) (append-nil xs)

add_inputs-record :
    (ids : List PmeId) (c : SortingConstraint)
    → add_inputs ids c ≡ record c { inputs = c.inputs ++ ids }
unfolding add_inputs add_input
add_inputs-record [] c = ap (λ xs. record c { inputs = xs }) (sym (append-nil c.inputs))
add_inputs-record (id ∷ ids) c =
    add_inputs-record ids (record c { inputs = c.inputs ++ id ∷ [] })
    ∙ ap (λ xs. record c { inputs = xs }) (append-cons c.inputs id ids)

-- A constraint from its construction to its clauses: the calls of a client.
abbrev pub encode_inputs :
    Bool
    → Bool
    → List PmeId
    → ℕ
    → VariableManager
    → Result (ClauseVec × SortingConstraint × VariableManager)
encode_inputs le ge ids n vm = do
  c ← new_sorting_constraint le ge
  cnfize (set_cardinality n (add_inputs ids c)) vm

-- What is left: the clauses encode the constraint, which has the inputs, the bound and the directions given.
pub record IsEncoded (le ge : Bool) (ids : List PmeId) (n : ℕ)
    (r : ClauseVec × SortingConstraint × VariableManager) : Type 0 where
  pub encodes : Encodes r.1 r.0
  pub inputs : r.1.inputs ≡ ids
  pub bound : r.1.cardinality_bound ≡ n
  pub le_kept : r.1.le ≡ le
  pub ge_kept : r.1.ge ≡ ge
  pub visible : get_outputs r.1 ≡ ok r.1.outputs

pub cnfize-Encodes :
    (le ge : Bool) (ids : List PmeId) (n : ℕ) (vm : VariableManager)
    → (le || ge) ≡ true
    → 0 < length ids
    → 0 < n
    → n < 2 ^ 32
    → Returns (encode_inputs le ge ids n vm) (λ r. IsEncoded le ge ids n r)
unfolding new_sorting_constraint set_cardinality to_unsigned get_outputs
cnfize-Encodes le ge ids n vm either pos bound fits =
    let c : SortingConstraint = record {
      cardinality_bound = n;
      outputs = [];
      inputs = ids;
      cnfized = false;
      le = le;
      ge = ge;
    } in
    let small : n % 2 ^ 32 ≡ n = omega arith in
    let (r, run, (enc, same)) = cnfize-Counts c vm either pos bound in
    (
      r,
      rw (either, add_inputs-record ids (record c { cardinality_bound = 0; inputs = [] }), small)
          run,
      record {
        encodes = enc;
        inputs = ap (λ (x : SortingConstraint). x.inputs) same;
        bound = ap (λ (x : SortingConstraint). x.cardinality_bound) same;
        le_kept = ap (λ (x : SortingConstraint). x.le) same;
        ge_kept = ap (λ (x : SortingConstraint). x.ge) same;
        visible = rw enc.made refl;
      },
    )
