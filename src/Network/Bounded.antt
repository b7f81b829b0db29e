-- ===== src/Network/Bounded.antt =====
-- The loops of `simpMergeNetwork` in src/pme/util/sorting_network.cpp, which stop at the bound.
use pme.Base.{
  ℕ, suc, ◌+◌, ◌-◌, ◌*◌, ◌/◌, ◌%◌, ◌≤◌, ◌<◌, ◌≡◌, subst, Bool, true, false, ◌||◌, List, [], ◌∷◌,
  ◌++◌, length, length-append, min, arith, Result, ok, All-split, inl, inr, ◌⊎◌, ==_iff, ◌==◌,
}
use pme.Literal.{PmeId, ClauseVec}
use pme.Variables.{VariableManager, fresh}
use pme.Cnf.{Valuation, lit_value, Sat}
use pme.Network.{CnfNetwork, or_clauses, partial_comp, back}
use pme.Network.Build.{Built, join, uncons}
use pme.Network.Simplified.{compare_zip, disjunction, zip_even_bound, zip_odd_bound}
use pme.Network.Prefix.{
  TruePrefix, FalseFrom, TruePrefix-mono, FalseFrom-mono, TruePrefix-take, FalseFrom-take,
}
use pme.Network.Comparator.{Disjoins, or_clauses-Disjoins}
use pme.Network.CompareZip.{
  compare_zip-ZipMerged, TruePrefix-append_left, TruePrefix-append_one, FalseFrom-append_one,
  take_all, back_lem, ZipMerged,
}

-- The entries after the first, for a bound `m` on their number.
pub record Capped (m : ℕ) (es os : List PmeId) (le ge : Bool) (net : CnfNetwork) : Type 0 where
  pub size : length net.outputs ≡ m
  pub trues :
      le ≡ true
      → (v : Valuation) → Sat v net.clauses
      → (i j : ℕ) → i ≤ j + 1
      → j ≤ i + 1
      → TruePrefix v i es
      → TruePrefix v j os
      → TruePrefix v (min (i + j) m) net.outputs
  pub falses :
      ge ≡ true
      → (v : Valuation) → Sat v net.clauses
      → (i j : ℕ) → i ≤ j + 1
      → j ≤ i + 1
      → FalseFrom v i es
      → FalseFrom v j os
      → FalseFrom v (i + j) net.outputs

-- All pairs are compared.
ZipMerged-Capped :
    (n : ℕ) (es os : List PmeId) (le ge : Bool) (net : CnfNetwork)
    → length es ≤ n
    → length os ≤ n
    → ZipMerged n es os le ge net
    → Capped (2 * n) es os le ge net
ZipMerged-Capped n es os le ge net h k m = record {
  size = m.size;
  trues = λ d v s i j near near' p q.
      TruePrefix-mono v (min (i + j) (2 * n)) (i + j) net.outputs (omega arith)
        (m.trues d v s i j near near' (rw (take_all n es h) p) (rw (take_all n os k) q));
  falses = λ d v s i j near near' p q.
      m.falses d v s i j near near' (rw (take_all n es h) p) (rw (take_all n os k) q);
}

-- Of the last pair only the disjunction is made.
module _ (n : ℕ) (es os : List PmeId) (le ge : Bool) (pairs : CnfNetwork) (a b y : PmeId)
    (cls : ClauseVec) (full : length es ≡ suc n) (full' : length os ≡ suc n)
    (m : ZipMerged n es os le ge pairs)
    (a_true : (v : Valuation) → TruePrefix v (suc n) es → lit_value v a ≡ true)
    (a_false : (v : Valuation) → FalseFrom v n es → lit_value v a ≡ false)
    (b_true : (v : Valuation) → TruePrefix v (suc n) os → lit_value v b ≡ true)
    (b_false : (v : Valuation) → FalseFrom v n os → lit_value v b ≡ false)
    (disjoins : (v : Valuation) → Sat v cls → Disjoins v a b y le ge) where
  abbrev last_net : CnfNetwork
  last_net = record { outputs = pairs.outputs ++ y ∷ []; clauses = pairs.clauses ++ cls }

  last_trues :
      le ≡ true
      → (v : Valuation) → Sat v last_net.clauses
      → (i j : ℕ) → i ≤ j + 1
      → j ≤ i + 1
      → TruePrefix v i es
      → TruePrefix v j os
      → TruePrefix v (min (i + j) (2 * n + 1)) last_net.outputs
  last_trues d v s i j near near' p q =
      let (s₁, s₂) = All-split _ pairs.clauses cls s in
      let i' = min i n in
      let j' = min j n in
      let front : TruePrefix v (i' + j') pairs.outputs =
        m.trues d v s₁ i' j' (omega arith) (omega arith) (TruePrefix-take v n i es p)
          (TruePrefix-take v n j os q) in
      let either_full : (i + j ≤ i' + j') ⊎ ((n < i) ⊎ (n < j)) = omega arith in
      let all = λ (y_true : lit_value v y ≡ true) (h : length pairs.outputs ≤ i' + j').
        TruePrefix-mono v (min (i + j) (2 * n + 1)) (suc (length pairs.outputs)) last_net.outputs
          (omega (arith, m.size))
          (TruePrefix-append_one v pairs.outputs y
            (TruePrefix-mono v (length pairs.outputs) (i' + j') pairs.outputs h front) y_true) in
      elim either_full [
        | inl few ↦ TruePrefix-append_left v (min (i + j) (2 * n + 1)) pairs.outputs (y ∷ []) (
            TruePrefix-mono v (min (i + j) (2 * n + 1)) (i' + j') pairs.outputs (omega arith) front)
        | inr (inl i_full) ↦
            all
              ((disjoins v s₂).some_true d
                (ground (arith, a_true v (TruePrefix-mono v (suc n) i es i_full p))))
              (omega (arith, m.size))
        | inr (inr j_full) ↦
            all
              ((disjoins v s₂).some_true d
                (ground (arith, b_true v (TruePrefix-mono v (suc n) j os j_full q))))
              (omega (arith, m.size))
      ]

  last_falses :
      ge ≡ true
      → (v : Valuation) → Sat v last_net.clauses
      → (i j : ℕ) → i ≤ j + 1
      → j ≤ i + 1
      → FalseFrom v i es
      → FalseFrom v j os
      → FalseFrom v (i + j) last_net.outputs
  last_falses d v s i j near near' p q =
      let (s₁, s₂) = All-split _ pairs.clauses cls s in
      let front =
        m.falses d v s₁ i j near near' (FalseFrom-take v n i es p) (FalseFrom-take v n j os q) in
      FalseFrom-append_one v (i + j) pairs.outputs y front (λ l. (disjoins v s₂).both_false d (
        ground (
          arith,
          a_false v (FalseFrom-mono v i n es (omega (arith, m.size)) p),
          b_false v (FalseFrom-mono v j n os (omega (arith, m.size)) q),
        )))

  pub last-Capped : Capped (2 * n + 1) es os le ge last_net
  last-Capped = record {
    size = omega (arith, m.size, length-append pairs.outputs (y ∷ []));
    trues = last_trues;
    falses = last_falses;
  }

pub disjunction_lem :
    (x₁ x₂ : PmeId) (le ge : Bool) (vm : VariableManager)
    → (le || ge) ≡ true
    → disjunction x₁ x₂ le ge vm
      ≡ ok (
        record { outputs = (fresh vm).0 ∷ []; clauses = or_clauses x₁ x₂ (fresh vm).0 le ge },
        (fresh vm).1,
      )
unfolding disjunction partial_comp
disjunction_lem x₁ x₂ le ge vm d = rw d

-- Both ends of `simpMergeNetwork`: after the first entry of the even side come `c - 1` outputs.
abbrev pub Caps : ℕ → PmeId → List PmeId → List PmeId → Bool → Bool → Result Built → Type 0
Caps m e es os le ge r =
    (rest : CnfNetwork) × (vm : VariableManager) × (r
      ≡ ok (record { outputs = e ∷ rest.outputs; clauses = rest.clauses }, vm))
    × Capped m es os le ge rest

module _ (c : ℕ) (e : PmeId) (es os : List PmeId) (le ge : Bool) (vm : VariableManager)
    (either : (le || ge) ≡ true) where
  pub zip_odd_bound-Caps :
      c % 2 ≡ 1
      → length es ≡ c / 2
      → length os ≡ c / 2
      → Caps (c - 1) e es os le ge (zip_odd_bound c (e ∷ es) os le ge vm)
  unfolding zip_odd_bound uncons join
  zip_odd_bound-Caps odd h k =
      let (pairs, run, m) =
        compare_zip-ZipMerged le ge either ((c - 1) / 2) es os vm (omega arith) (omega arith) in
      let capped =
        ZipMerged-Capped ((c - 1) / 2) es os le ge pairs.0 (omega arith) (omega arith) m in
      let bound : 2 * ((c - 1) / 2) ≡ c - 1 = omega arith in
      let t₁ : (length os == (c - 1) / 2) ≡ true = (==_iff _ _).1 (omega arith) in
      let t₂ : (suc (length es) == (c + 1) / 2) ≡ true = (==_iff _ _).1 (omega arith) in
      (pairs.0, pairs.1, rw (t₁, t₂, run), subst (λ m. Capped m es os le ge pairs.0) bound capped)

  zip_even_bound-run :
      (pairs : Built) (a b : PmeId)
      → (length (e ∷ es) == c / 2 + 1) ≡ true
      → (length os == c / 2) ≡ true
      → compare_zip (c / 2 - 1) es os le ge vm ≡ ok pairs
      → back (e ∷ es) ≡ ok a
      → back os ≡ ok b
      → zip_even_bound c (e ∷ es) os le ge vm
        ≡ ok (
          record {
            outputs = e ∷ (pairs.0.outputs ++ (fresh pairs.1).0 ∷ []);
            clauses = pairs.0.clauses ++ or_clauses a b (fresh pairs.1).0 le ge;
          },
          (fresh pairs.1).1,
        )
  unfolding zip_even_bound uncons join
  zip_even_bound-run pairs a b t₁ t₂ r₁ r₂ r₃ =
      rw (t₁, t₂, r₁, r₂, r₃, disjunction_lem a b le ge pairs.1 either)

module _ (c : ℕ) (e : PmeId) (le ge : Bool) (vm : VariableManager)
    (either : (le || ge) ≡ true) where
  pub zip_even_bound-Caps :
      (es os : List PmeId)
      → c % 2 ≡ 0
      → 0 < c
      → length es ≡ c / 2
      → length os ≡ c / 2
      → Caps (c - 1) e es os le ge (zip_even_bound c (e ∷ es) os le ge vm)
  unfolding back
  zip_even_bound-Caps [] os even pos h k = absurd (omega arith)
  zip_even_bound-Caps (x ∷ es) [] even pos h k = absurd (omega arith)
  zip_even_bound-Caps (x ∷ es) (o ∷ os) even pos h k =
      let n = c / 2 - 1 in
      let (pairs, r₁, m) =
        compare_zip-ZipMerged le ge either n (x ∷ es) (o ∷ os) vm (omega arith) (omega arith) in
      let (a, r₂, a_true, a_false) = back_lem x es in
      let (b, r₃, b_true, b_false) = back_lem o os in
      let width : length es ≡ n = omega arith in
      let width' : length os ≡ n = omega arith in
      let y = (fresh pairs.1).0 in
      let capped =
        last-Capped n (x ∷ es) (o ∷ os) le ge pairs.0 a b y (or_clauses a b y le ge) (omega arith)
          (omega arith) m (λ v t. a_true v (rw width t)) (λ v f. a_false v (rw width f))
          (λ v t. b_true v (rw width' t)) (λ v f. b_false v (rw width' f))
          (λ v s. or_clauses-Disjoins v a b y le ge s) in
      let net : CnfNetwork = record {
        outputs = pairs.0.outputs ++ y ∷ [];
        clauses = pairs.0.clauses ++ or_clauses a b y le ge;
      } in
      let bound : 2 * n + 1 ≡ c - 1 = omega arith in
      (
        net,
        (fresh pairs.1).1,
        zip_even_bound-run c e (x ∷ es) (o ∷ os) le ge vm either pairs a b
            ((==_iff _ _).1 (omega arith)) ((==_iff _ _).1 (omega arith)) r₁ r₂ r₃,
        subst (λ m. Capped m (x ∷ es) (o ∷ os) le ge net) bound capped,
      )
