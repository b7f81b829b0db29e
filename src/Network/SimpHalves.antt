-- ===== src/Network/SimpHalves.antt =====
-- What `simpMergeNetwork` of src/pme/util/sorting_network.cpp promises, for each way that it makes a
-- network.
use native.Mathlib.Nat.{add_comm}
use pme.Base.{
  ℕ, zero, suc, ◌+◌, ◌-◌, ◌/◌, ◌≤◌, ◌<◌, ◌≡◌, refl, subst, Bool, true, List, [], ◌∷◌, ◌++◌, length,
  length-take, take, min, arith, All-split,
}
use pme.Literal.{PmeId}
use pme.Cnf.{Valuation, Sat}
use pme.Network.{CnfNetwork, or_clauses, take_odd, take_even}
use pme.Network.Build.{wires}
use pme.Network.Prefix.{
  TruePrefix, FalseFrom, TruePrefix-mono, FalseFrom-mono, TruePrefix-le-length, TruePrefix-take,
  FalseFrom-take, TruePrefix-take_even, TruePrefix-take_odd, FalseFrom-take_even,
  FalseFrom-take_odd,
}
use pme.Network.Comparator.{Disjoins, or_clauses-Disjoins}
use pme.Network.Halves.{IsMerge}
use pme.Network.Bounded.{Capped}

-- The promise of a merge network, up to `c` outputs.
pub record IsSimpMerge (xs ys : List PmeId) (c : ℕ) (le ge : Bool) (net : CnfNetwork) : Type 0 where
  pub size : length net.outputs ≡ min (length xs + length ys) c
  pub trues :
      le ≡ true
      → (v : Valuation) → Sat v net.clauses
      → (p q : ℕ) → TruePrefix v p xs
      → TruePrefix v q ys
      → TruePrefix v (min (p + q) c) net.outputs
  pub falses :
      ge ≡ true
      → (v : Valuation) → Sat v net.clauses
      → (p q : ℕ) → FalseFrom v p xs
      → FalseFrom v q ys
      → FalseFrom v (p + q) net.outputs

pub IsSimpMerge-symm :
    {xs ys : List PmeId} {c : ℕ} {le ge : Bool} {net : CnfNetwork}
    → IsSimpMerge xs ys c le ge net
    → IsSimpMerge ys xs c le ge net
IsSimpMerge-symm m = record {
  size = omega (arith, m.size);
  trues = λ d v s p q hp hq. rw (add_comm p q) (m.trues d v s q p hq hp);
  falses = λ d v s p q hp hq. rw (add_comm p q) (m.falses d v s q p hq hp);
}

-- The cut to `c` entries loses nothing.
pub IsSimpMerge-take :
    (xs ys : List PmeId) (c : ℕ) (le ge : Bool) (net : CnfNetwork)
    → IsSimpMerge (take c xs) (take c ys) c le ge net
    → IsSimpMerge xs ys c le ge net
IsSimpMerge-take xs ys c le ge net m = record {
  size = omega (arith, m.size, length-take c xs, length-take c ys);
  trues = λ d v s p q hp hq.
      TruePrefix-mono v (min (p + q) c) (min (min p c + min q c) c) net.outputs (omega arith) (
        m.trues d v s (min p c) (min q c) (TruePrefix-take v c p xs hp)
          (TruePrefix-take v c q ys hq));
  falses = λ d v s p q hp hq.
      m.falses d v s p q (FalseFrom-take v c p xs hp) (FalseFrom-take v c q ys hq);
}

-- No cut is needed.
pub IsMerge-IsSimpMerge :
    (xs ys : List PmeId) (c : ℕ) (le ge : Bool) (net : CnfNetwork)
    → length xs + length ys ≤ c
    → IsMerge xs ys le ge net
    → IsSimpMerge xs ys c le ge net
IsMerge-IsSimpMerge xs ys c le ge net h m = record {
  size = omega (arith, m.size);
  trues = λ d v s p q hp hq.
      TruePrefix-mono v (min (p + q) c) (p + q) net.outputs (omega arith) (m.trues d v s p q hp hq);
  falses = λ d v s p q hp hq. m.falses d v s p q hp hq;
}

pub IsSimpMerge-nil :
    (ys : List PmeId) (c : ℕ) (le ge : Bool) → length ys ≤ c → IsSimpMerge [] ys c le ge (wires ys)
IsSimpMerge-nil ys c le ge h = record {
  size = omega arith;
  trues = λ d v s p q hp hq.
      TruePrefix-mono v (min (p + q) c) q ys (omega (arith, TruePrefix-le-length v p [] hp)) hq;
  falses = λ d v s p q hp hq. FalseFrom-mono v q (p + q) ys (omega arith) hq;
}

-- The base case with one output.
module _ (v : Valuation) (x y z : PmeId) (le ge : Bool) (t : Disjoins v x y z le ge) where
  or_trues :
      le ≡ true
      → (p q : ℕ) → TruePrefix v p (x ∷ [])
      → TruePrefix v q (y ∷ [])
      → TruePrefix v (min (p + q) 1) (z ∷ [])
  or_trues d zero zero hp hq = tt
  or_trues d (suc p) q hp hq =
      TruePrefix-mono v (min (suc p + q) 1) 1 (z ∷ []) (omega arith)
        (t.some_true d (ground (arith, hp.0)), tt)
  or_trues d zero (suc q) hp hq =
      TruePrefix-mono v (min (0 + suc q) 1) 1 (z ∷ []) (omega arith)
        (t.some_true d (ground (arith, hq.0)), tt)

  or_falses :
      ge ≡ true
      → (p q : ℕ) → FalseFrom v p (x ∷ [])
      → FalseFrom v q (y ∷ [])
      → FalseFrom v (p + q) (z ∷ [])
  or_falses d zero zero hp hq = (t.both_false d (ground (arith, hp.0, hq.0)), tt)
  or_falses d zero (suc q) hp hq = FalseFrom-mono v 1 (0 + suc q) (z ∷ []) (omega arith) tt
  or_falses d (suc p) q hp hq = FalseFrom-mono v 1 (suc p + q) (z ∷ []) (omega arith) tt

pub IsSimpMerge-one :
    (x y z : PmeId) (le ge : Bool)
    → IsSimpMerge
        (x ∷ [])
        (y ∷ [])
        1
        le
        ge
        (record { outputs = z ∷ []; clauses = or_clauses x y z le ge })
IsSimpMerge-one x y z le ge = record {
  size = refl;
  trues = λ d v s. or_trues v x y z le ge (or_clauses-Disjoins v x y z le ge s) d;
  falses = λ d v s. or_falses v x y z le ge (or_clauses-Disjoins v x y z le ge s) d;
}

-- One entry before the capped ones.
module _ (v : Valuation) (m : ℕ) (e : PmeId) (es os rest : List PmeId) where
  cons_trues :
      (i j : ℕ)
      → j ≤ i
      → i ≤ j + 2
      → TruePrefix v i (e ∷ es)
      → TruePrefix v j os
      → ((i j : ℕ)
          → i ≤ j + 1
          → j ≤ i + 1
          → TruePrefix v i es
          → TruePrefix v j os
          → TruePrefix v (min (i + j) m) rest)
      → TruePrefix v (min (i + j) (suc m)) (e ∷ rest)
  cons_trues zero zero n k p q ih = TruePrefix-mono v (min 0 (suc m)) 0 (e ∷ rest) (omega arith) tt
  cons_trues zero (suc j) n k p q ih = absurd (omega arith)
  cons_trues (suc i) j n k p q ih =
      let s : min (suc i + j) (suc m) ≡ suc (min (i + j) m) = omega arith in
      rw s (p.0, ih i j (omega arith) (omega arith) p.1 q)

  cons_falses :
      (i j : ℕ)
      → j ≤ i
      → i ≤ j + 2
      → FalseFrom v i (e ∷ es)
      → FalseFrom v j os
      → ((i j : ℕ)
          → i ≤ j + 1
          → j ≤ i + 1
          → FalseFrom v i es
          → FalseFrom v j os
          → FalseFrom v (i + j) rest)
      → FalseFrom v (i + j) (e ∷ rest)
  cons_falses zero zero n k p q ih = (p.0, ih 0 0 (omega arith) (omega arith) p.1 q)
  cons_falses zero (suc j) n k p q ih = absurd (omega arith)
  cons_falses (suc i) j n k p q ih =
      let s : suc i + j ≡ suc (i + j) = omega arith in rw s (ih i j (omega arith) (omega arith) p q)

-- The recursive case, from the two halves and the capped pairs.
module _ (xs ys : List PmeId) (c : ℕ) (le ge : Bool) (odd even rest : CnfNetwork) (e : PmeId)
    (es : List PmeId) (pos : 0 < c) (more : c < length xs + length ys)
    (m_odd : IsSimpMerge (take_odd xs) (take_odd ys) (c / 2) le ge odd)
    (m_even : IsSimpMerge (take_even xs) (take_even ys) (c / 2 + 1) le ge even)
    (evens : even.outputs ≡ e ∷ es) (capped : Capped (c - 1) es odd.outputs le ge rest) where
  abbrev halves_net : CnfNetwork
  halves_net = record {
    outputs = e ∷ rest.outputs;
    clauses = odd.clauses ++ even.clauses ++ rest.clauses;
  }

  halves_trues :
      le ≡ true
      → (v : Valuation) → Sat v halves_net.clauses
      → (p q : ℕ) → TruePrefix v p xs
      → TruePrefix v q ys
      → TruePrefix v (min (p + q) c) halves_net.outputs
  halves_trues d v s p q hp hq =
      let (s', s₃) = All-split _ (odd.clauses ++ even.clauses) rest.clauses s in
      let (s₁, s₂) = All-split _ odd.clauses even.clauses s' in
      let i = min ((p + 1) / 2 + (q + 1) / 2) (c / 2 + 1) in
      let j = min (p / 2 + q / 2) (c / 2) in
      let h_even =
        m_even.trues d v s₂ ((p + 1) / 2) ((q + 1) / 2) (TruePrefix-take_even v p xs hp)
          (TruePrefix-take_even v q ys hq) in
      let h_odd =
        m_odd.trues d v s₁ (p / 2) (q / 2) (TruePrefix-take_odd v p xs hp)
          (TruePrefix-take_odd v q ys hq) in
      TruePrefix-mono v (min (p + q) c) (min (i + j) (suc (c - 1))) halves_net.outputs (omega arith)
        (cons_trues v (c - 1) e es odd.outputs rest.outputs i j (omega arith) (omega arith)
          (subst (TruePrefix v i) evens h_even) h_odd (capped.trues d v s₃))

  halves_falses :
      ge ≡ true
      → (v : Valuation) → Sat v halves_net.clauses
      → (p q : ℕ) → FalseFrom v p xs
      → FalseFrom v q ys
      → FalseFrom v (p + q) halves_net.outputs
  halves_falses d v s p q hp hq =
      let (s', s₃) = All-split _ (odd.clauses ++ even.clauses) rest.clauses s in
      let (s₁, s₂) = All-split _ odd.clauses even.clauses s' in
      let i = (p + 1) / 2 + (q + 1) / 2 in
      let j = p / 2 + q / 2 in
      let h_even =
        m_even.falses d v s₂ ((p + 1) / 2) ((q + 1) / 2) (FalseFrom-take_even v p xs hp)
          (FalseFrom-take_even v q ys hq) in
      let h_odd =
        m_odd.falses d v s₁ (p / 2) (q / 2) (FalseFrom-take_odd v p xs hp)
          (FalseFrom-take_odd v q ys hq) in
      let total : p + q ≡ i + j = omega arith in
      rw total (
        cons_falses v (c - 1) e es odd.outputs rest.outputs i j (omega arith) (omega arith)
          (subst (FalseFrom v i) evens h_even) h_odd (capped.falses d v s₃))

  pub IsSimpMerge-halves : IsSimpMerge xs ys c le ge halves_net
  IsSimpMerge-halves = record {
    size = omega (arith, capped.size);
    trues = halves_trues;
    falses = halves_falses;
  }
