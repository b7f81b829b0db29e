-- ===== src/Network/CompareZip.antt =====
-- The comparison loop of `simpMergeNetwork` in src/pme/util/sorting_network.cpp.
use pme.Base.{
  ℕ, zero, suc, ◌+◌, ◌*◌, ◌≤◌, ◌≡◌, refl, ap, Bool, true, false, ◌||◌, List, [], ◌∷◌, ◌++◌, length,
  take, arith, ok, Returns, All-split,
}
use pme.Literal.{PmeId, ClauseVec}
use pme.Variables.{VariableManager}
use pme.Cnf.{Valuation, lit_value, Sat}
use pme.Network.{CnfNetwork, back}
use pme.Network.Build.{wires, join}
use pme.Network.Simplified.{compare_zip}
use pme.Network.Prefix.{TruePrefix, FalseFrom}
use pme.Network.Comparator.{Compares, comp_clauses-Compares}
use pme.Network.Pairs.{compared, comparator_lem, TruePrefix-add-nil, pair_trues, pair_falses}

module _ (v : Valuation) where
  pub TruePrefix-append_left :
      (k : ℕ) (xs ys : List PmeId) → TruePrefix v k xs → TruePrefix v k (xs ++ ys)
  TruePrefix-append_left zero xs ys h = tt
  TruePrefix-append_left (suc k) [] ys h = absurd h
  TruePrefix-append_left (suc k) (x ∷ xs) ys h = (h.0, TruePrefix-append_left k xs ys h.1)

  pub TruePrefix-append_one :
      (xs : List PmeId) (y : PmeId)
      → TruePrefix v (length xs) xs
      → lit_value v y ≡ true
      → TruePrefix v (suc (length xs)) (xs ++ y ∷ [])
  TruePrefix-append_one [] y h e = (e, tt)
  TruePrefix-append_one (x ∷ xs) y h e = (h.0, TruePrefix-append_one xs y h.1 e)

  pub FalseFrom-append_one :
      (k : ℕ) (xs : List PmeId) (y : PmeId)
      → FalseFrom v k xs
      → (k ≤ length xs → lit_value v y ≡ false)
      → FalseFrom v k (xs ++ y ∷ [])
  FalseFrom-append_one zero [] y h f = (f (omega arith), tt)
  FalseFrom-append_one (suc k) [] y h f = tt
  FalseFrom-append_one zero (x ∷ xs) y h f =
      (h.0, FalseFrom-append_one zero xs y h.1 (λ l. f (omega arith)))
  FalseFrom-append_one (suc k) (x ∷ xs) y h f = FalseFrom-append_one k xs y h (λ l. f (omega arith))

pub take_all : (n : ℕ) (xs : List PmeId) → length xs ≤ n → take n xs ≡ xs
take_all zero [] h = refl
take_all zero (x ∷ xs) h = absurd (omega arith)
take_all (suc n) [] h = refl
take_all (suc n) (x ∷ xs) h = ap (λ ys. x ∷ ys) (take_all n xs (omega arith))

-- The last entry, which is true if all are, and false if the entries are false from it on.
pub back_lem :
    (x : PmeId) (xs : List PmeId)
    → (b : PmeId) × (back (x ∷ xs) ≡ ok b)
      × ((v : Valuation) → TruePrefix v (length (x ∷ xs)) (x ∷ xs) → lit_value v b ≡ true)
      × ((v : Valuation) → FalseFrom v (length xs) (x ∷ xs) → lit_value v b ≡ false)
unfolding back
back_lem x [] = (x, refl, (λ v h. h.0), (λ v h. h.0))
back_lem x (y ∷ xs) =
    let (b, last, t, f) = back_lem y xs in (b, last, (λ v h. t v h.1), (λ v h. f v h))

-- What the loop makes of the first `n` entries of both sides.
pub record ZipMerged (n : ℕ) (es os : List PmeId) (le ge : Bool) (net : CnfNetwork) : Type 0 where
  pub size : length net.outputs ≡ 2 * n
  pub trues :
      le ≡ true
      → (v : Valuation) → Sat v net.clauses
      → (i j : ℕ) → i ≤ j + 1
      → j ≤ i + 1
      → TruePrefix v i (take n es)
      → TruePrefix v j (take n os)
      → TruePrefix v (i + j) net.outputs
  pub falses :
      ge ≡ true
      → (v : Valuation) → Sat v net.clauses
      → (i j : ℕ) → i ≤ j + 1
      → j ≤ i + 1
      → FalseFrom v i (take n es)
      → FalseFrom v j (take n os)
      → FalseFrom v (i + j) net.outputs

module _ (le ge : Bool) where
  pub ZipMerged-zero : (es os : List PmeId) → ZipMerged 0 es os le ge (wires [])
  ZipMerged-zero es os = record {
    size = refl;
    trues = λ d v s i j n m p q. TruePrefix-add-nil v i j p q;
    falses = λ d v s i j n m p q. tt;
  }

  pub ZipMerged-step :
      (n : ℕ) (e o y₁ y₂ : PmeId) (es os : List PmeId) (cls : ClauseVec) (rest : CnfNetwork)
      → ((v : Valuation) → Sat v cls → Compares v e o y₁ y₂ le ge)
      → ZipMerged n es os le ge rest
      → ZipMerged
          (suc n)
          (e ∷ es)
          (o ∷ os)
          le
          ge
          (join (record { outputs = y₁ ∷ y₂ ∷ []; clauses = cls }) rest)
  unfolding join
  ZipMerged-step n e o y₁ y₂ es os cls rest cmp m = record {
    size = omega (arith, m.size);
    trues = λ d v s.
        let (here, there) = All-split _ cls rest.clauses s in
        pair_trues v e o y₁ y₂ (take n es) (take n os) rest.outputs ((cmp v here).some_true d)
          ((cmp v here).both_true d) (m.trues d v there);
    falses = λ d v s.
        let (here, there) = All-split _ cls rest.clauses s in
        pair_falses v e o y₁ y₂ (take n es) (take n os) rest.outputs ((cmp v here).both_false d)
          ((cmp v here).some_false d) (m.falses d v there);
  }

  module _ (either : (le || ge) ≡ true) where
    pub compare_zip-ZipMerged :
        (n : ℕ) (es os : List PmeId) (vm : VariableManager)
        → n ≤ length es
        → n ≤ length os
        → Returns (compare_zip n es os le ge vm) (λ r. ZipMerged n es os le ge r.0)
    unfolding compare_zip
    compare_zip-ZipMerged zero es os vm h k = ((wires [], vm), refl, ZipMerged-zero es os)
    compare_zip-ZipMerged (suc n) [] os vm h k = absurd (omega arith)
    compare_zip-ZipMerged (suc n) (e ∷ es) [] vm h k = absurd (omega arith)
    compare_zip-ZipMerged (suc n) (e ∷ es) (o ∷ os) vm h k =
        let pair = compared e o le ge vm in
        let (rest, run, m) = compare_zip-ZipMerged n es os pair.1 (omega arith) (omega arith) in
        (
          (join pair.0 rest.0, rest.1),
          rw (comparator_lem e o le ge vm either, run),
          ZipMerged-step n e o _ _ es os pair.0.clauses rest.0
              (λ v s. comp_clauses-Compares v e o _ _ le ge s) m,
        )
