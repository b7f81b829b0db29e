-- ===== src/Network/CardinalitySound.antt =====
-- `cardinalityNetwork` of src/pme/util/sorting_network.cpp: every call on inputs with a positive
-- bound returns, and its outputs count the inputs that are true, up to the bound.
use pme.Base.{
  ℕ, zero, suc, ◌+◌, ◌-◌, ◌/◌, ◌≤◌, ◌<◌, ◌≡◌, subst, Bool, true, false, ◌||◌, List, ◌++◌, length,
  length-take, length-drop, take, drop, min, arith, ok, Returns, All-split, Bool-cases, inl, inr,
  ==_iff, leb→le, lt→ltb, leb, ltb, ◌==◌,
}
use pme.Literal.{PmeId}
use pme.Variables.{VariableManager}
use pme.Cnf.{Valuation, Sat, count_true, count_true-le-length}
use pme.Network.{CnfNetwork}
use pme.Network.Build.{Built, sort}
use pme.Network.Simplified.{simp_merge, cardinality_network, cardinality}
use pme.Network.Prefix.{TruePrefix, FalseFrom}
use pme.Network.SortSound.{IsCounter, IsSort, sort-IsSort, count_true-halves}
use pme.Network.SimpHalves.{IsSimpMerge}
use pme.Network.SimpSound.{simp_merge-IsSimpMerge}

-- Without a cut a sorting network counts.
IsSort-IsCounter :
    (inputs : List PmeId) (m : ℕ) (le ge : Bool) (net : CnfNetwork)
    → length inputs ≤ m
    → IsSort inputs le ge net
    → IsCounter inputs m le ge net
IsSort-IsCounter inputs m le ge net h s = record {
  size = omega (arith, s.size);
  trues = λ d v t.
      subst (λ k. TruePrefix v k net.outputs) (omega (arith, count_true-le-length v inputs))
        (s.trues d v t);
  falses = λ d v t. s.falses d v t;
}

module _ (inputs : List PmeId) (l m : ℕ) (le ge : Bool) (left right merged : CnfNetwork)
    (c_left : IsCounter (take l inputs) m le ge left)
    (c_right : IsCounter (drop l inputs) m le ge right)
    (simp_merged : IsSimpMerge left.outputs right.outputs m le ge merged) where
  abbrev joined : CnfNetwork
  joined = record {
    outputs = merged.outputs;
    clauses = left.clauses ++ right.clauses ++ merged.clauses;
  }

  joined_trues :
      le ≡ true
      → (v : Valuation) → Sat v joined.clauses
      → TruePrefix v (min (count_true v inputs) m) joined.outputs
  joined_trues d v s =
      let (s', s₃) = All-split _ (left.clauses ++ right.clauses) merged.clauses s in
      let (s₁, s₂) = All-split _ left.clauses right.clauses s' in
      let i = min (count_true v (take l inputs)) m in
      let j = min (count_true v (drop l inputs)) m in
      let total : min (count_true v inputs) m ≡ min (i + j) m =
        omega (arith, count_true-halves v l inputs) in
      rw total (simp_merged.trues d v s₃ i j (c_left.trues d v s₁) (c_right.trues d v s₂))

  joined_falses :
      ge ≡ true
      → (v : Valuation) → Sat v joined.clauses
      → FalseFrom v (count_true v inputs) joined.outputs
  joined_falses d v s =
      let (s', s₃) = All-split _ (left.clauses ++ right.clauses) merged.clauses s in
      let (s₁, s₂) = All-split _ left.clauses right.clauses s' in
      subst (λ k. FalseFrom v k merged.outputs) (count_true-halves v l inputs)
        (simp_merged.falses d v s₃ (count_true v (take l inputs)) (count_true v (drop l inputs))
          (c_left.falses d v s₁) (c_right.falses d v s₂))

  joined-IsCounter : IsCounter inputs m le ge joined
  joined-IsCounter = record {
    size = omega (
      arith,
      simp_merged.size,
      c_left.size,
      c_right.size,
      length-take l inputs,
      length-drop l inputs,
    );
    trues = joined_trues;
    falses = joined_falses;
  }

cardinality_network-small :
    (fuel : ℕ) (inputs : List PmeId) (m : ℕ) (le ge : Bool) (vm : VariableManager) (r : Built)
    → ltb 0 (length inputs) ≡ true
    → ltb 0 m ≡ true
    → leb (length inputs) m ≡ true
    → sort inputs le ge vm ≡ ok r
    → cardinality_network (suc fuel) inputs m le ge vm ≡ ok r
unfolding cardinality_network
cardinality_network-small fuel inputs m le ge vm r t₁ t₂ t₃ run = rw (t₁, t₂, t₃, run)

-- The run of the recursive case, from the runs of its parts.
cardinality_network-run :
    (fuel : ℕ) (inputs : List PmeId) (m : ℕ) (le ge : Bool) (vm : VariableManager)
    (left right merged : Built)
    → ltb 0 (length inputs) ≡ true
    → ltb 0 m ≡ true
    → leb (length inputs) m ≡ false
    → cardinality_network fuel (take (length inputs / 2) inputs) m le ge vm ≡ ok left
    → cardinality_network fuel (drop (length inputs / 2) inputs) m le ge left.1 ≡ ok right
    → (length left.0.outputs == min (length inputs / 2) m) ≡ true
    → (length right.0.outputs == min (length inputs - length inputs / 2) m) ≡ true
    → simp_merge left.0.outputs right.0.outputs m le ge right.1 ≡ ok merged
    → cardinality_network (suc fuel) inputs m le ge vm
      ≡ ok (
        record {
          outputs = merged.0.outputs;
          clauses = left.0.clauses ++ right.0.clauses ++ merged.0.clauses;
        },
        merged.1,
      )
unfolding cardinality_network
cardinality_network-run fuel inputs m le ge vm left right merged t₁ t₂ t₃ r₁ r₂ t₄ t₅ r₃ =
    rw (t₁, t₂, t₃, r₁, r₂, t₄, t₅, r₃)

module _ (le ge : Bool) (either : (le || ge) ≡ true) (m : ℕ) (bound : 0 < m) where
  cardinality_network-IsCounter :
      (fuel : ℕ) (inputs : List PmeId) (vm : VariableManager)
      → 0 < length inputs
      → length inputs ≤ fuel
      → Returns (cardinality_network fuel inputs m le ge vm) (λ r. IsCounter inputs m le ge r.0)
  cardinality_network-IsCounter zero inputs vm pos h = absurd (omega arith)
  cardinality_network-IsCounter (suc fuel) inputs vm pos h =
      elim (Bool-cases (leb (length inputs) m)) [
        | inl few ↦ small few
        | inr many ↦
            let l = length inputs / 2 in
            let large : m < length inputs = ground arith in
            let (left, r₁, m₁) =
              cardinality_network-IsCounter fuel (take l inputs) vm
                (omega (arith, length-take l inputs)) (omega (arith, length-take l inputs)) in
            let (right, r₂, m₂) =
              cardinality_network-IsCounter fuel (drop l inputs) left.1
                (omega (arith, length-drop l inputs)) (omega (arith, length-drop l inputs)) in
            let (merged, r₃, c) =
              simp_merge-IsSimpMerge le ge left.0.outputs right.0.outputs m right.1 either bound in
            (
              (_, merged.1),
              cardinality_network-run fuel inputs m le ge vm left right merged (lt→ltb _ _ pos)
                  (lt→ltb _ _ bound) many r₁ r₂
                  ((==_iff _ _).1 (omega (arith, m₁.size, length-take l inputs)))
                  ((==_iff _ _).1 (omega (arith, m₂.size, length-drop l inputs))) r₃,
              joined-IsCounter inputs l m le ge left.0 right.0 merged.0 m₁ m₂ c,
            )
      ]
    where
      small :
          leb (length inputs) m ≡ true
          → Returns
              (cardinality_network (suc fuel) inputs m le ge vm)
              (λ r. IsCounter inputs m le ge r.0)
      small few =
          let (r, run, s) = sort-IsSort le ge inputs vm either pos in
          (
            r,
            cardinality_network-small fuel inputs m le ge vm r (lt→ltb _ _ pos) (lt→ltb _ _ bound)
                few run,
            IsSort-IsCounter inputs m le ge r.0 (leb→le _ _ few) s,
          )

pub cardinality-IsCounter :
    (le ge : Bool) (inputs : List PmeId) (m : ℕ) (vm : VariableManager)
    → (le || ge) ≡ true
    → 0 < length inputs
    → 0 < m
    → Returns (cardinality inputs m le ge vm) (λ r. IsCounter inputs m le ge r.0)
unfolding cardinality
cardinality-IsCounter le ge inputs m vm either pos bound =
    cardinality_network-IsCounter le ge either m bound (length inputs) inputs vm pos (omega arith)
