-- ===== src/Network/SortSound.antt =====
-- `sortingNetwork` of src/pme/util/sorting_network.cpp: every call on inputs returns, and its
-- outputs count the inputs that are true.
use pme.Base.{
  min, ℕ, zero, suc, ◌+◌, ◌/◌, ◌≤◌, ◌<◌, ◌≡◌, refl, sym, ap, ◌∙◌, subst, Bool, true, ◌||◌, List, [],
  ◌∷◌, ◌++◌, length, length-take, length-drop, take, drop, take-append-drop, arith, ok, Returns,
  All-split, Bool-cases, inl, inr,
}
use pme.Literal.{PmeId}
use pme.Cnf.{Valuation, lit_value, Sat, count_true, count_true-append, count_true-le-length}
use pme.Variables.{VariableManager}
use pme.Network.{CnfNetwork}
use pme.Network.Build.{Built, wires, merge, sorting_network, sort}
use pme.Network.Prefix.{TruePrefix, FalseFrom, TruePrefix-mono}
use pme.Network.Halves.{IsMerge}
use pme.Network.MergeSound.{merge-IsMerge}

-- What a network over one vector promises: an output for each input, at most `m`; with `le`, the
-- first outputs are true, as many as inputs are true; with `ge`, all later ones are false.
pub record IsCounter (inputs : List PmeId) (m : ℕ) (le ge : Bool) (net : CnfNetwork) : Type 0 where
  pub size : length net.outputs ≡ min (length inputs) m
  pub trues :
      le ≡ true
      → (v : Valuation) → Sat v net.clauses
      → TruePrefix v (min (count_true v inputs) m) net.outputs
  pub falses :
      ge ≡ true
      → (v : Valuation) → Sat v net.clauses
      → FalseFrom v (count_true v inputs) net.outputs

abbrev pub IsSort : List PmeId → Bool → Bool → CnfNetwork → Type 0
IsSort inputs le ge net = IsCounter inputs (length inputs) le ge net

module _ (v : Valuation) where
  -- A single literal counts itself.
  pub one_true : (x : PmeId) → TruePrefix v (count_true v (x ∷ [])) (x ∷ [])
  unfolding count_true
  one_true x = elim (Bool-cases (lit_value v x)) [ inl h ↦ rw h (h, tt) | inr h ↦ rw h tt ]

  pub one_false : (x : PmeId) → FalseFrom v (count_true v (x ∷ [])) (x ∷ [])
  unfolding count_true
  one_false x = elim (Bool-cases (lit_value v x)) [ inl h ↦ rw h tt | inr h ↦ rw h (h, tt) ]

  pub count_true-halves :
      (l : ℕ) (xs : List PmeId)
      → count_true v (take l xs) + count_true v (drop l xs) ≡ count_true v xs
  count_true-halves l xs =
      sym (count_true-append v (take l xs) (drop l xs)) ∙ ap (count_true v) (take-append-drop l xs)

module _ (inputs : List PmeId) (l : ℕ) (le ge : Bool) (left right merged : CnfNetwork)
    (m_left : IsSort (take l inputs) le ge left) (m_right : IsSort (drop l inputs) le ge right)
    (m : IsMerge left.outputs right.outputs le ge merged) where
  abbrev joined : CnfNetwork
  joined = record {
    outputs = merged.outputs;
    clauses = left.clauses ++ right.clauses ++ merged.clauses;
  }

  joined_trues :
      le ≡ true
      → (v : Valuation) → Sat v joined.clauses
      → TruePrefix v (min (count_true v inputs) (length inputs)) joined.outputs
  joined_trues d v s =
      let (s', s₃) = All-split _ (left.clauses ++ right.clauses) merged.clauses s in
      let (s₁, s₂) = All-split _ left.clauses right.clauses s' in
      let i = min (count_true v (take l inputs)) (length (take l inputs)) in
      let j = min (count_true v (drop l inputs)) (length (drop l inputs)) in
      let total : min (count_true v inputs) (length inputs) ≡ i + j = omega (
        arith,
        count_true-halves v l inputs,
        count_true-le-length v inputs,
        count_true-le-length v (take l inputs),
        count_true-le-length v (drop l inputs),
      ) in
      rw total (m.trues d v s₃ i j (m_left.trues d v s₁) (m_right.trues d v s₂))

  joined_falses :
      ge ≡ true
      → (v : Valuation) → Sat v joined.clauses
      → FalseFrom v (count_true v inputs) joined.outputs
  joined_falses d v s =
      let (s', s₃) = All-split _ (left.clauses ++ right.clauses) merged.clauses s in
      let (s₁, s₂) = All-split _ left.clauses right.clauses s' in
      subst (λ k. FalseFrom v k merged.outputs) (count_true-halves v l inputs)
        (m.falses d v s₃ (count_true v (take l inputs)) (count_true v (drop l inputs))
          (m_left.falses d v s₁) (m_right.falses d v s₂))

  joined-IsSort : IsSort inputs le ge joined
  joined-IsSort = record {
    size =
        omega
          (arith, m.size, m_left.size, m_right.size, length-take l inputs, length-drop l inputs);
    trues = joined_trues;
    falses = joined_falses;
  }

-- A merge of two inputs sorts them.
pair-IsSort :
    (x y : PmeId) (le ge : Bool) (net : CnfNetwork)
    → IsMerge (x ∷ []) (y ∷ []) le ge net
    → IsSort (x ∷ y ∷ []) le ge net
pair-IsSort x y le ge net m = record {
  size = m.size;
  trues = λ d v s.
      subst (λ k. TruePrefix v k net.outputs)
        (omega (arith, count_true-append v (x ∷ []) (y ∷ []), count_true-le-length v (x ∷ y ∷ [])))
        (m.trues d v s (count_true v (x ∷ [])) (count_true v (y ∷ [])) (one_true v x)
          (one_true v y));
  falses = λ d v s.
      subst (λ k. FalseFrom v k net.outputs) (sym (count_true-append v (x ∷ []) (y ∷ [])))
        (m.falses d v s (count_true v (x ∷ [])) (count_true v (y ∷ [])) (one_false v x)
          (one_false v y));
}

one-IsSort : (x : PmeId) (le ge : Bool) → IsSort (x ∷ []) le ge (wires (x ∷ []))
one-IsSort x le ge = record {
  size = refl;
  trues = λ d v s.
      TruePrefix-mono v (min (count_true v (x ∷ [])) 1) (count_true v (x ∷ [])) (x ∷ [])
        (omega arith) (one_true v x);
  falses = λ d v s. one_false v x;
}

-- The run of the recursive case, from the runs of its parts.
sorting_network-run :
    (fuel : ℕ) (x y w : PmeId) (inputs : List PmeId) (le ge : Bool) (vm : VariableManager)
    (left right merged : Built)
    → sorting_network fuel (take (length (x ∷ y ∷ w ∷ inputs) / 2) (x ∷ y ∷ w ∷ inputs)) le ge vm
      ≡ ok left
    → sorting_network fuel
        (drop (length (x ∷ y ∷ w ∷ inputs) / 2) (x ∷ y ∷ w ∷ inputs))
        le
        ge
        left.1
      ≡ ok right
    → merge left.0.outputs right.0.outputs le ge right.1 ≡ ok merged
    → sorting_network (suc fuel) (x ∷ y ∷ w ∷ inputs) le ge vm
      ≡ ok (
        record {
          outputs = merged.0.outputs;
          clauses = left.0.clauses ++ right.0.clauses ++ merged.0.clauses;
        },
        merged.1,
      )
unfolding sorting_network
sorting_network-run fuel x y w inputs le ge vm left right merged r₁ r₂ r₃ = rw (r₁, r₂, r₃)

module _ (le ge : Bool) (either : (le || ge) ≡ true) where
  sorting_network-IsSort :
      (fuel : ℕ) (inputs : List PmeId) (vm : VariableManager)
      → 0 < length inputs
      → length inputs ≤ fuel
      → Returns (sorting_network fuel inputs le ge vm) (λ r. IsSort inputs le ge r.0)
  unfolding sorting_network
  sorting_network-IsSort zero inputs vm pos h = absurd (omega arith)
  sorting_network-IsSort (suc fuel) [] vm pos h = absurd (omega arith)
  sorting_network-IsSort (suc fuel) (x ∷ []) vm pos h =
      ((wires (x ∷ []), vm), refl, one-IsSort x le ge)
  sorting_network-IsSort (suc fuel) (x ∷ y ∷ []) vm pos h =
      let (r, run, m) = merge-IsMerge le ge (x ∷ []) (y ∷ []) vm either in
      (r, run, pair-IsSort x y le ge r.0 m)
  sorting_network-IsSort (suc fuel) (x ∷ y ∷ w ∷ inputs) vm pos h =
      let all : List PmeId = x ∷ y ∷ w ∷ inputs in
      let l = length all / 2 in
      let (left, r₁, m₁) =
        sorting_network-IsSort fuel (take l all) vm (omega (arith, length-take l all))
          (omega (arith, length-take l all)) in
      let (right, r₂, m₂) =
        sorting_network-IsSort fuel (drop l all) left.1 (omega (arith, length-drop l all))
          (omega (arith, length-drop l all)) in
      let (merged, r₃, m) = merge-IsMerge le ge left.0.outputs right.0.outputs right.1 either in
      (
        (_, merged.1),
        sorting_network-run fuel x y w inputs le ge vm left right merged r₁ r₂ r₃,
        joined-IsSort all l le ge left.0 right.0 merged.0 m₁ m₂ m,
      )

-- With `le` or `ge`, a sorting network is built for any inputs, at least one, with no assertion failing. It has an
-- output for each input. Where a valuation makes `k` inputs true and satisfies the clauses: with
-- `le` the first `k` outputs are true, and with `ge` all the others are false.
pub sort-IsSort :
    (le ge : Bool) (inputs : List PmeId) (vm : VariableManager)
    → (le || ge) ≡ true
    → 0 < length inputs
    → Returns (sort inputs le ge vm) (λ r. IsSort inputs le ge r.0)
unfolding sort
sort-IsSort le ge inputs vm either pos =
    sorting_network-IsSort le ge either (length inputs) inputs vm pos (omega arith)
