-- ===== src/Network/Pairs.antt =====
-- The loop of `mergeNetwork` in src/pme/util/sorting_network.cpp over pairs of an odd and an even
-- entry.
use pme.Base.{
  ℕ, zero, suc, ◌+◌, ◌-◌, ◌%◌, ◌≤◌, ◌≡◌, refl, ap, Bool, true, false, ◌||◌, ◌&&◌, List, [], ◌∷◌,
  ◌++◌, length, length-append, arith, ok, Returns, ◌==◌, ==_iff, Bool-cases, inl, inr, All-split,
}
use mathlib.Core.List.{append-nil}
use pme.Literal.{PmeId, ClauseVec}
use pme.Cnf.{Valuation, lit_value, Sat}
use pme.Variables.{VariableManager, fresh}
use pme.Network.{CnfNetwork, comp, comp_clauses, back}
use pme.Network.Build.{Built, wires, comparator, join, compare_pairs, finish}
use pme.Network.Prefix.{
  TruePrefix, FalseFrom, TruePrefix-mono, FalseFrom-mono, TruePrefix-le-length,
}
use pme.Network.Comparator.{Compares, comp_clauses-Compares}
use pme.Network.Zipper.{Pairing, done, last_even, last_odd, straight, crossed}

-- The entry that has no partner.
abbrev pub leftover : List PmeId → List PmeId
leftover [] = []
leftover (z ∷ []) = z ∷ []
leftover (z₁ ∷ z₂ ∷ zs) = leftover zs

-- What the comparator of two entries makes.
abbrev pub compared : PmeId → PmeId → Bool → Bool → VariableManager → Built
compared x₁ x₂ le ge vm =
    let y₁ = (fresh vm).0 in
    let y₂ = (fresh (fresh vm).1).0 in
    (
      record { outputs = y₁ ∷ y₂ ∷ []; clauses = comp_clauses x₁ x₂ y₁ y₂ le ge },
      (fresh (fresh vm).1).1,
    )

pub comparator_lem :
    (x₁ x₂ : PmeId) (le ge : Bool) (vm : VariableManager)
    → (le || ge) ≡ true
    → comparator x₁ x₂ le ge vm ≡ ok (compared x₁ x₂ le ge vm)
unfolding comparator comp
comparator_lem x₁ x₂ le ge vm d = rw d

-- The first `i` even and `j` odd entries are true, and `i` and `j` differ by at most one.
module _ (v : Valuation) (i j : ℕ) where
  pub TruePrefix-add-nil : TruePrefix v i [] → TruePrefix v j [] → TruePrefix v (i + j) []
  TruePrefix-add-nil p q =
      TruePrefix-mono v (i + j) 0 []
        (omega (arith, TruePrefix-le-length v i [] p, TruePrefix-le-length v j [] q)) tt

  TruePrefix-add_zero :
      (xs : List PmeId) → TruePrefix v i xs → TruePrefix v j [] → TruePrefix v (i + j) xs
  TruePrefix-add_zero xs p q =
      TruePrefix-mono v (i + j) i xs (omega (arith, TruePrefix-le-length v j [] q)) p

  TruePrefix-zero_add :
      (xs : List PmeId) → TruePrefix v i [] → TruePrefix v j xs → TruePrefix v (i + j) xs
  TruePrefix-zero_add xs p q =
      TruePrefix-mono v (i + j) j xs (omega (arith, TruePrefix-le-length v i [] p)) q

Compares-symm :
    {v : Valuation} {x₁ x₂ y₁ y₂ : PmeId} {le ge : Bool}
    → Compares v x₁ x₂ y₁ y₂ le ge
    → Compares v x₂ x₁ y₁ y₂ le ge
Compares-symm c = record {
  some_true = λ d h. c.some_true d (ground arith);
  both_true = λ d h. c.both_true d (ground arith);
  some_false = λ d h. c.some_false d (ground arith);
  both_false = λ d h. c.both_false d (ground arith);
}

module _ (v : Valuation) (e o y₁ y₂ : PmeId) (es os rest : List PmeId) where
  pub pair_trues :
      ((lit_value v e || lit_value v o) ≡ true → lit_value v y₁ ≡ true)
      → ((lit_value v e && lit_value v o) ≡ true → lit_value v y₂ ≡ true)
      → ((i j : ℕ)
          → i ≤ j + 1
          → j ≤ i + 1
          → TruePrefix v i es
          → TruePrefix v j os
          → TruePrefix v (i + j) rest)
      → (i j : ℕ) → i ≤ j + 1
      → j ≤ i + 1
      → TruePrefix v i (e ∷ es)
      → TruePrefix v j (o ∷ os)
      → TruePrefix v (i + j) (y₁ ∷ y₂ ∷ rest)
  pair_trues some both ih zero zero n m p q = tt
  pair_trues some both ih (suc zero) zero n m p q = (some (ground (arith, p.0)), tt)
  pair_trues some both ih (suc (suc i)) zero n m p q = absurd (omega arith)
  pair_trues some both ih zero (suc zero) n m p q = (some (ground (arith, q.0)), tt)
  pair_trues some both ih zero (suc (suc j)) n m p q = absurd (omega arith)
  pair_trues some both ih (suc i) (suc j) n m p q =
      let s : suc i + suc j ≡ suc (suc (i + j)) = omega arith in
      rw s (
        some (ground (arith, p.0)),
        (both (ground (arith, p.0, q.0)), ih i j (omega arith) (omega arith) p.1 q.1),
      )

  pub pair_falses :
      ((lit_value v e || lit_value v o) ≡ false → lit_value v y₁ ≡ false)
      → ((lit_value v e && lit_value v o) ≡ false → lit_value v y₂ ≡ false)
      → ((i j : ℕ)
          → i ≤ j + 1
          → j ≤ i + 1
          → FalseFrom v i es
          → FalseFrom v j os
          → FalseFrom v (i + j) rest)
      → (i j : ℕ) → i ≤ j + 1
      → j ≤ i + 1
      → FalseFrom v i (e ∷ es)
      → FalseFrom v j (o ∷ os)
      → FalseFrom v (i + j) (y₁ ∷ y₂ ∷ rest)
  pair_falses both some ih zero zero n m p q = (
    both (ground (arith, p.0, q.0)),
    (some (ground (arith, p.0)), ih 0 0 (omega arith) (omega arith) p.1 q.1),
  )
  pair_falses both some ih (suc zero) zero n m p q =
      (some (ground (arith, q.0)), ih 0 0 (omega arith) (omega arith) p q.1)
  pair_falses both some ih (suc (suc i)) zero n m p q = absurd (omega arith)
  pair_falses both some ih zero (suc zero) n m p q =
      (some (ground (arith, p.0)), ih 0 0 (omega arith) (omega arith) p.1 q)
  pair_falses both some ih zero (suc (suc j)) n m p q = absurd (omega arith)
  pair_falses both some ih (suc i) (suc j) n m p q =
      let s : suc i + suc j ≡ suc (suc (i + j)) = omega arith in
      rw s (ih i j (omega arith) (omega arith) p q)

-- What the loop makes of the pairs, with the entry that has no partner.
pub record PairsMerged (es os zs : List PmeId) (le ge : Bool) (net : CnfNetwork) : Type 0 where
  pub size : length (net.outputs ++ leftover zs) ≡ length zs
  pub trues :
      le ≡ true
      → (v : Valuation) → Sat v net.clauses
      → (i j : ℕ) → i ≤ j + 1
      → j ≤ i + 1
      → TruePrefix v i es
      → TruePrefix v j os
      → TruePrefix v (i + j) (net.outputs ++ leftover zs)
  pub falses :
      ge ≡ true
      → (v : Valuation) → Sat v net.clauses
      → (i j : ℕ) → i ≤ j + 1
      → j ≤ i + 1
      → FalseFrom v i es
      → FalseFrom v j os
      → FalseFrom v (i + j) (net.outputs ++ leftover zs)

PairsMerged-done : (le ge : Bool) → PairsMerged [] [] [] le ge (wires [])
PairsMerged-done le ge = record {
  size = refl;
  trues = λ d v s i j n m p q. TruePrefix-add-nil v i j p q;
  falses = λ d v s i j n m p q. tt;
}

PairsMerged-last_even :
    (e : PmeId) (le ge : Bool) → PairsMerged (e ∷ []) [] (e ∷ []) le ge (wires [])
PairsMerged-last_even e le ge = record {
  size = refl;
  trues = λ d v s i j n m p q. TruePrefix-add_zero v i j (e ∷ []) p q;
  falses = λ d v s i j n m p q. FalseFrom-mono v i (i + j) (e ∷ []) (omega arith) p;
}

PairsMerged-last_odd :
    (o : PmeId) (le ge : Bool) → PairsMerged [] (o ∷ []) (o ∷ []) le ge (wires [])
PairsMerged-last_odd o le ge = record {
  size = refl;
  trues = λ d v s i j n m p q. TruePrefix-zero_add v i j (o ∷ []) p q;
  falses = λ d v s i j n m p q. FalseFrom-mono v j (i + j) (o ∷ []) (omega arith) q;
}

module _ (le ge : Bool) where
  -- One more pair, in either order.
  PairsMerged-step :
      (e o x₁ x₂ y₁ y₂ : PmeId) (es os zs : List PmeId) (cls : ClauseVec) (rest : CnfNetwork)
      → ((v : Valuation) → Sat v cls → Compares v e o y₁ y₂ le ge)
      → PairsMerged es os zs le ge rest
      → PairsMerged
          (e ∷ es)
          (o ∷ os)
          (x₁ ∷ x₂ ∷ zs)
          le
          ge
          (join (record { outputs = y₁ ∷ y₂ ∷ []; clauses = cls }) rest)
  unfolding join
  PairsMerged-step e o x₁ x₂ y₁ y₂ es os zs cls rest cmp m = record {
    size = omega (arith, m.size);
    trues = λ d v s.
        let (here, there) = All-split _ cls rest.clauses s in
        pair_trues v e o y₁ y₂ es os (rest.outputs ++ leftover zs) ((cmp v here).some_true d)
          ((cmp v here).both_true d) (m.trues d v there);
    falses = λ d v s.
        let (here, there) = All-split _ cls rest.clauses s in
        pair_falses v e o y₁ y₂ es os (rest.outputs ++ leftover zs) ((cmp v here).both_false d)
          ((cmp v here).some_false d) (m.falses d v there);
  }

  module _ (either : (le || ge) ≡ true) where
    -- The loop does not stop. Of true entries at the front of both sides it makes as many true
    -- outputs, and of entries that are false from some index on it makes such outputs.
    pub compare_pairs-PairsMerged :
        {es os zs : List PmeId}
        → Pairing es os zs
        → (vm : VariableManager)
        → Returns (compare_pairs zs le ge vm) (λ r. PairsMerged es os zs le ge r.0)
    unfolding compare_pairs
    compare_pairs-PairsMerged done vm = ((wires [], vm), refl, PairsMerged-done le ge)
    compare_pairs-PairsMerged (last_even e) vm =
        ((wires [], vm), refl, PairsMerged-last_even e le ge)
    compare_pairs-PairsMerged (last_odd o) vm = ((wires [], vm), refl, PairsMerged-last_odd o le ge)
    compare_pairs-PairsMerged (straight e o {es} {os} {zs} p) vm =
        let pair = compared o e le ge vm in
        let (rest, run, m) = compare_pairs-PairsMerged p pair.1 in
        (
          (join pair.0 rest.0, rest.1),
          rw (comparator_lem o e le ge vm either, run),
          PairsMerged-step e o o e _ _ es os zs pair.0.clauses rest.0
              (λ v s. Compares-symm (comp_clauses-Compares v o e _ _ le ge s)) m,
        )
    compare_pairs-PairsMerged (crossed e o {es} {os} {zs} p) vm =
        let pair = compared e o le ge vm in
        let (rest, run, m) = compare_pairs-PairsMerged p pair.1 in
        (
          (join pair.0 rest.0, rest.1),
          rw (comparator_lem e o le ge vm either, run),
          PairsMerged-step e o e o _ _ es os zs pair.0.clauses rest.0
              (λ v s. comp_clauses-Compares v e o _ _ le ge s) m,
        )

-- The last step of the code adds the entry with no partner, if there is one.
leftover_even : (zs : List PmeId) → length zs % 2 ≡ 0 → leftover zs ≡ []
leftover_even [] h = refl
leftover_even (z ∷ []) h = absurd (omega arith)
leftover_even (z₁ ∷ z₂ ∷ zs) h = leftover_even zs (omega arith)

leftover_odd :
    (z : PmeId) (zs : List PmeId)
    → length zs % 2 ≡ 1
    → (b : PmeId) × (back (z ∷ zs) ≡ ok b) × (leftover zs ≡ b ∷ [])
unfolding back
leftover_odd z [] h = absurd (omega arith)
leftover_odd z (z₁ ∷ []) h = (z₁, refl, refl)
leftover_odd z (z₁ ∷ z₂ ∷ zs) h = leftover_odd z₂ zs (omega arith)

not_even : (n : ℕ) → (n % 2 == 0) ≡ false → n % 2 ≡ 1
not_even n h = ground arith

-- The step with a last entry `b`.
finish_odd :
    (total : ℕ) (z b : PmeId) (zs outs : List PmeId) (cls : ClauseVec)
    → (total % 2 == 0) ≡ true
    → back (z ∷ zs) ≡ ok b
    → leftover zs ≡ b ∷ []
    → suc (length outs) ≡ total - 1
    → finish total (z ∷ zs) (record { outputs = z ∷ outs; clauses = cls })
      ≡ ok (record { outputs = z ∷ (outs ++ leftover zs); clauses = cls })
unfolding finish
finish_odd total z b zs outs cls even last one size =
    let full : (suc (length outs) == total - 1) ≡ true =
      (==_iff (suc (length outs)) (total - 1)).1 size in
    rw (even, full, last, one)

pub finish_lem :
    (total : ℕ) (z : PmeId) (zs outs : List PmeId) (cls : ClauseVec)
    → total ≡ suc (length zs)
    → length (outs ++ leftover zs) ≡ length zs
    → finish total (z ∷ zs) (record { outputs = z ∷ outs; clauses = cls })
      ≡ ok (record { outputs = z ∷ (outs ++ leftover zs); clauses = cls })
unfolding finish
finish_lem total z zs outs cls e size = elim (Bool-cases (total % 2 == 0)) [
  | inl even ↦
      let (b, last, one) = leftover_odd z zs (omega (arith, (==_iff (total % 2) 0).0 even)) in
      let single : length (leftover zs) ≡ 1 = ap length one in
      finish_odd total z b zs outs cls even last one
        (omega (arith, length-append outs (leftover zs)))
  | inr odd ↦
      let nothing = leftover_even zs (omega (arith, not_even total odd)) in
      rw (odd, nothing, append-nil)
]
