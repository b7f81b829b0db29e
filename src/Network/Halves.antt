-- ===== src/Network/Halves.antt =====
-- What a merge network of src/pme/util/sorting_network.cpp promises, for each way that
-- `mergeNetwork` makes one.
use native.Mathlib.Nat.{add_comm}
use pme.Base.{
  ℕ, zero, suc, ◌+◌, ◌/◌, ◌≤◌, ◌≡◌, refl, ap, subst, Bool, true, List, [], ◌∷◌, ◌++◌, length, arith,
  All-split,
}
use pme.Literal.{PmeId}
use pme.Cnf.{Valuation, Sat}
use pme.Variables.{VariableManager}
use pme.Network.{CnfNetwork, take_odd, take_even}
use pme.Network.Build.{wires}
use pme.Network.Prefix.{
  TruePrefix, FalseFrom, TruePrefix-mono, FalseFrom-mono, TruePrefix-le-length,
  TruePrefix-take_even, TruePrefix-take_odd, FalseFrom-take_even, FalseFrom-take_odd,
  length-take_even, length-take_odd,
}
use pme.Network.Comparator.{Compares, comp_clauses-Compares}
use pme.Network.Zipper.{Pairing, length-Pairing}
use pme.Network.Pairs.{leftover, compared, TruePrefix-add-nil, pair_trues, PairsMerged}

-- What a network over two vectors promises: an output for each input; with `le`, as many true
-- outputs at the front as the two vectors have at theirs; with `ge`, false outputs from the sum of
-- the two indices from which they are false.
pub record IsMerge (xs ys : List PmeId) (le ge : Bool) (net : CnfNetwork) : Type 0 where
  pub size : length net.outputs ≡ length xs + length ys
  pub trues :
      le ≡ true
      → (v : Valuation) → Sat v net.clauses
      → (p q : ℕ) → TruePrefix v p xs
      → TruePrefix v q ys
      → TruePrefix v (p + q) net.outputs
  pub falses :
      ge ≡ true
      → (v : Valuation) → Sat v net.clauses
      → (p q : ℕ) → FalseFrom v p xs
      → FalseFrom v q ys
      → FalseFrom v (p + q) net.outputs

pub IsMerge-symm :
    {xs ys : List PmeId} {le ge : Bool} {net : CnfNetwork}
    → IsMerge xs ys le ge net
    → IsMerge ys xs le ge net
IsMerge-symm m = record {
  size = omega (arith, m.size);
  trues = λ d v s p q hp hq. rw (add_comm p q) (m.trues d v s q p hq hp);
  falses = λ d v s p q hp hq. rw (add_comm p q) (m.falses d v s q p hq hp);
}

-- Both base cases.
pub IsMerge-nil : (ys : List PmeId) (le ge : Bool) → IsMerge [] ys le ge (wires ys)
IsMerge-nil ys le ge = record {
  size = omega arith;
  trues = λ d v s p q hp hq.
      TruePrefix-mono v (p + q) q ys (omega (arith, TruePrefix-le-length v p [] hp)) hq;
  falses = λ d v s p q hp hq. FalseFrom-mono v q (p + q) ys (omega arith) hq;
}

-- One entry before the others of the even side.
module _ (v : Valuation) (e : PmeId) (es os rest : List PmeId) where
  cons_trues :
      (i j : ℕ)
      → j ≤ i
      → i ≤ j + 2
      → TruePrefix v i (e ∷ es)
      → TruePrefix v j os
      → ((i j : ℕ)
          → i ≤ j + 1
          → j ≤ i + 1
          → TruePrefix v i es
          → TruePrefix v j os
          → TruePrefix v (i + j) rest)
      → TruePrefix v (i + j) (e ∷ rest)
  cons_trues zero zero n m p q ih = tt
  cons_trues zero (suc j) n m p q ih = absurd (omega arith)
  cons_trues (suc i) j n m p q ih =
      let s : suc i + j ≡ suc (i + j) = omega arith in
      rw s (p.0, ih i j (omega arith) (omega arith) p.1 q)

  cons_falses :
      (i j : ℕ)
      → j ≤ i
      → i ≤ j + 2
      → FalseFrom v i (e ∷ es)
      → FalseFrom v j os
      → ((i j : ℕ)
          → i ≤ j + 1
          → j ≤ i + 1
          → FalseFrom v i es
          → FalseFrom v j os
          → FalseFrom v (i + j) rest)
      → FalseFrom v (i + j) (e ∷ rest)
  cons_falses zero zero n m p q ih = (p.0, ih 0 0 (omega arith) (omega arith) p.1 q)
  cons_falses zero (suc j) n m p q ih = absurd (omega arith)
  cons_falses (suc i) j n m p q ih =
      let s : suc i + j ≡ suc (i + j) = omega arith in rw s (ih i j (omega arith) (omega arith) p q)

module _ (v : Valuation) (x y y₁ y₂ : PmeId) (le ge : Bool) (c : Compares v x y y₁ y₂ le ge) where
  one_trues :
      le ≡ true
      → (p q : ℕ) → TruePrefix v p (x ∷ [])
      → TruePrefix v q (y ∷ [])
      → TruePrefix v (p + q) (y₁ ∷ y₂ ∷ [])
  one_trues d p q hp hq =
      pair_trues v x y y₁ y₂ [] [] [] (c.some_true d) (c.both_true d)
        (λ i j n m a b. TruePrefix-add-nil v i j a b) p q
        (omega (arith, TruePrefix-le-length v p (x ∷ []) hp))
        (omega (arith, TruePrefix-le-length v q (y ∷ []) hq)) hp hq

  one_falses :
      ge ≡ true
      → (p q : ℕ) → FalseFrom v p (x ∷ [])
      → FalseFrom v q (y ∷ [])
      → FalseFrom v (p + q) (y₁ ∷ y₂ ∷ [])
  one_falses d zero zero hp hq =
      (c.both_false d (ground (arith, hp.0, hq.0)), (c.some_false d (ground (arith, hp.0)), tt))
  one_falses d zero (suc q) hp hq =
      FalseFrom-mono v 1 (0 + suc q) (y₁ ∷ y₂ ∷ []) (omega arith)
        (c.some_false d (ground (arith, hp.0)), tt)
  one_falses d (suc p) zero hp hq =
      FalseFrom-mono v 1 (suc p + 0) (y₁ ∷ y₂ ∷ []) (omega arith)
        (c.some_false d (ground (arith, hq.0)), tt)
  one_falses d (suc p) (suc q) hp hq =
      FalseFrom-mono v 2 (suc p + suc q) (y₁ ∷ y₂ ∷ []) (omega arith) tt

pub IsMerge-one :
    (x y : PmeId) (le ge : Bool) (vm : VariableManager)
    → IsMerge (x ∷ []) (y ∷ []) le ge (compared x y le ge vm).0
IsMerge-one x y le ge vm = record {
  size = refl;
  trues = λ d v s. one_trues v x y _ _ le ge (comp_clauses-Compares v x y _ _ le ge s) d;
  falses = λ d v s. one_falses v x y _ _ le ge (comp_clauses-Compares v x y _ _ le ge s) d;
}

-- The recursive case, from the two halves and the pairs.
module _ (xs ys : List PmeId) (le ge : Bool) (odd even pairs : CnfNetwork) (e : PmeId)
    (es zs : List PmeId) (paired : Pairing es odd.outputs zs)
    (m_odd : IsMerge (take_odd xs) (take_odd ys) le ge odd)
    (m_even : IsMerge (take_even xs) (take_even ys) le ge even) (evens : even.outputs ≡ e ∷ es)
    (m_pairs : PairsMerged es odd.outputs zs le ge pairs) where
  rest : List PmeId
  rest = pairs.outputs ++ leftover zs

  halves_trues :
      le ≡ true
      → (v : Valuation) → Sat v (odd.clauses ++ even.clauses ++ pairs.clauses)
      → (p q : ℕ) → TruePrefix v p xs
      → TruePrefix v q ys
      → TruePrefix v (p + q) (e ∷ rest)
  unfolding rest
  halves_trues d v s p q hp hq =
      let (s', s₃) = All-split _ (odd.clauses ++ even.clauses) pairs.clauses s in
      let (s₁, s₂) = All-split _ odd.clauses even.clauses s' in
      let i = (p + 1) / 2 + (q + 1) / 2 in
      let j = p / 2 + q / 2 in
      let h_even =
        m_even.trues d v s₂ ((p + 1) / 2) ((q + 1) / 2) (TruePrefix-take_even v p xs hp)
          (TruePrefix-take_even v q ys hq) in
      let h_odd =
        m_odd.trues d v s₁ (p / 2) (q / 2) (TruePrefix-take_odd v p xs hp)
          (TruePrefix-take_odd v q ys hq) in
      let total : p + q ≡ i + j = omega arith in
      rw total (
        cons_trues v e es odd.outputs rest i j (omega arith) (omega arith)
          (subst (TruePrefix v i) evens h_even) h_odd (m_pairs.trues d v s₃))

  halves_falses :
      ge ≡ true
      → (v : Valuation) → Sat v (odd.clauses ++ even.clauses ++ pairs.clauses)
      → (p q : ℕ) → FalseFrom v p xs
      → FalseFrom v q ys
      → FalseFrom v (p + q) (e ∷ rest)
  unfolding rest
  halves_falses d v s p q hp hq =
      let (s', s₃) = All-split _ (odd.clauses ++ even.clauses) pairs.clauses s in
      let (s₁, s₂) = All-split _ odd.clauses even.clauses s' in
      let i = (p + 1) / 2 + (q + 1) / 2 in
      let j = p / 2 + q / 2 in
      let h_even =
        m_even.falses d v s₂ ((p + 1) / 2) ((q + 1) / 2) (FalseFrom-take_even v p xs hp)
          (FalseFrom-take_even v q ys hq) in
      let h_odd =
        m_odd.falses d v s₁ (p / 2) (q / 2) (FalseFrom-take_odd v p xs hp)
          (FalseFrom-take_odd v q ys hq) in
      let total : p + q ≡ i + j = omega arith in
      rw total (
        cons_falses v e es odd.outputs rest i j (omega arith) (omega arith)
          (subst (FalseFrom v i) evens h_even) h_odd (m_pairs.falses d v s₃))

  pub IsMerge-halves : IsMerge xs ys le ge (record {
    outputs = e ∷ (pairs.outputs ++ leftover zs);
    clauses = odd.clauses ++ even.clauses ++ pairs.clauses;
  })
  unfolding rest
  IsMerge-halves = record {
    size = omega (
      arith,
      m_pairs.size,
      length-Pairing paired,
      m_odd.size,
      m_even.size,
      ap length evens,
      length-take_even xs,
      length-take_even ys,
      length-take_odd xs,
      length-take_odd ys,
    );
    trues = halves_trues;
    falses = halves_falses;
  }
