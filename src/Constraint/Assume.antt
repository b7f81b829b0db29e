-- ===== src/Constraint/Assume.antt =====
-- The loop of the `assume` functions of src/pme/util/cardinality_constraint.cpp: what its cube says
-- of the outputs.
use pme.Base.{
  ℕ, zero, suc, ◌+◌, ◌-◌, ◌^◌, ◌≤◌, ◌<◌, ◌≡◌, refl, true, false, List, [], ◌∷◌, All, All-append,
  All-split, length, arith, subst, sym, ◌↔◌, Bool-cases, inl, inr,
}
use pme.Literal.{PmeId, Cube}
use pme.Cnf.{Valuation, lit_value, SatCube, count_true, count_true-le-length}
use pme.Network.Prefix.{TruePrefix, FalseFrom}
use pme.Constraint.{to_unsigned, assume_loop}

-- Literals that an `unsigned` holds.
abbrev pub Fits : List PmeId → Type 0
Fits xs = All (λ x. x < 2 ^ 32) xs

to_unsigned-fits : (x : ℕ) → x < 2 ^ 32 → to_unsigned x ≡ x
unfolding to_unsigned
to_unsigned-fits x h = omega arith

module _ (v : Valuation) (body : ℕ → PmeId → Cube) where
  pub assume_loop-TruePrefix :
      (n : ℕ)
      → ((i : ℕ) (lit : PmeId) → i < n → SatCube v (body i lit) → lit_value v lit ≡ true)
      → (i k : ℕ) (xs : List PmeId) → i + k ≡ n
      → k ≤ length xs
      → Fits xs
      → SatCube v (assume_loop body i xs)
      → TruePrefix v k xs
  unfolding assume_loop
  assume_loop-TruePrefix n b i zero xs e l f s = tt
  assume_loop-TruePrefix n b i (suc k) [] e l f s = omega arith
  assume_loop-TruePrefix n b i (suc k) (x ∷ xs) e l f s =
      let (first, rest) = All-split _ (body i (to_unsigned x)) _ s in
      (
        subst (λ y. lit_value v y ≡ true) (to_unsigned-fits x f.0)
            (b i (to_unsigned x) (omega arith) first),
        assume_loop-TruePrefix n b (suc i) k xs (omega arith) (omega arith) f.1 rest,
      )

  pub assume_loop-FalseFrom :
      (n : ℕ)
      → ((i : ℕ) (lit : PmeId) → n ≤ i → SatCube v (body i lit) → lit_value v lit ≡ false)
      → (i k : ℕ) (xs : List PmeId) → n ≤ i + k
      → Fits xs
      → SatCube v (assume_loop body i xs)
      → FalseFrom v k xs
  unfolding assume_loop
  assume_loop-FalseFrom n b i k [] e f s = tt
  assume_loop-FalseFrom n b i zero (x ∷ xs) e f s =
      let (first, rest) = All-split _ (body i (to_unsigned x)) _ s in
      (
        subst (λ y. lit_value v y ≡ false) (to_unsigned-fits x f.0)
            (b i (to_unsigned x) (omega arith) first),
        assume_loop-FalseFrom n b (suc i) zero xs (omega arith) f.1 rest,
      )
  assume_loop-FalseFrom n b i (suc k) (x ∷ xs) e f s =
      let (first, rest) = All-split _ (body i (to_unsigned x)) _ s in
      assume_loop-FalseFrom n b (suc i) k xs (omega arith) f.1 rest

  TruePrefix-parts :
      (k : ℕ) (x : PmeId) (xs : List PmeId)
      → TruePrefix v k (x ∷ xs)
      → (0 < k → lit_value v x ≡ true) × TruePrefix v (k - 1) xs
  TruePrefix-parts zero x xs h = (λ l. absurd (omega arith), tt)
  TruePrefix-parts (suc k) x xs h =
      let e : k ≡ suc k - 1 = omega arith in (λ l. h.0, subst (λ j. TruePrefix v j xs) e h.1)

  FalseFrom-parts :
      (k : ℕ) (x : PmeId) (xs : List PmeId)
      → FalseFrom v k (x ∷ xs)
      → (k ≤ 0 → lit_value v x ≡ false) × FalseFrom v (k - 1) xs
  FalseFrom-parts zero x xs h = (λ l. h.0, h.1)
  FalseFrom-parts (suc k) x xs h =
      let e : k ≡ suc k - 1 = omega arith in
      (λ l. absurd (omega arith), subst (λ j. FalseFrom v j xs) e h)

  -- The cube holds where the first `t` outputs are true and those from `n` on are false.
  pub assume_loop-Sat :
      (t n : ℕ)
      → ((i : ℕ) (lit : PmeId)
          → (i < t → lit_value v lit ≡ true)
          → (n ≤ i → lit_value v lit ≡ false)
          → SatCube v (body i lit))
      → (i : ℕ) (xs : List PmeId) → Fits xs
      → TruePrefix v (t - i) xs
      → FalseFrom v (n - i) xs
      → SatCube v (assume_loop body i xs)
  unfolding assume_loop
  assume_loop-Sat t n b i [] f h k = tt
  assume_loop-Sat t n b i (x ∷ xs) f h k =
      let (x_true, trues) = TruePrefix-parts (t - i) x xs h in
      let (x_false, falses) = FalseFrom-parts (n - i) x xs k in
      let e : t - i - 1 ≡ t - suc i = omega arith in
      let e' : n - i - 1 ≡ n - suc i = omega arith in
      All-append _ (body i (to_unsigned x)) _
        (subst (λ y. SatCube v (body i y)) (sym (to_unsigned-fits x f.0))
          (b i x (λ l. x_true (omega arith)) (λ l. x_false (omega arith))))
        (assume_loop-Sat t n b (suc i) xs f.1 (subst (λ j. TruePrefix v j xs) e trues)
          (subst (λ j. FalseFrom v j xs) e' falses))

  pub assume_loop-Sat_whole :
      (t n : ℕ)
      → ((i : ℕ) (lit : PmeId)
          → (i < t → lit_value v lit ≡ true)
          → (n ≤ i → lit_value v lit ≡ false)
          → SatCube v (body i lit))
      → (xs : List PmeId) → Fits xs
      → TruePrefix v t xs
      → FalseFrom v n xs
      → SatCube v (assume_loop body 0 xs)
  assume_loop-Sat_whole t n b xs f h k =
      let e : t ≡ t - 0 = omega arith in
      let e' : n ≡ n - 0 = omega arith in
      assume_loop-Sat t n b 0 xs f (subst (λ j. TruePrefix v j xs) e h)
        (subst (λ j. FalseFrom v j xs) e' k)

module _ (v : Valuation) where
  -- A prefix of true entries ends where the false ones begin.
  pub TruePrefix-le-FalseFrom :
      (k j : ℕ) (xs : List PmeId) → TruePrefix v k xs → FalseFrom v j xs → k ≤ j
  TruePrefix-le-FalseFrom zero j xs h g = omega arith
  TruePrefix-le-FalseFrom (suc k) j [] h g = absurd h
  TruePrefix-le-FalseFrom (suc k) zero (x ∷ xs) h g = cc (h.0, g.0)
  TruePrefix-le-FalseFrom (suc k) (suc j) (x ∷ xs) h g =
      omega (arith, TruePrefix-le-FalseFrom k j xs h.1 g)

  pub FalseFrom-length : (xs : List PmeId) → FalseFrom v (length xs) xs
  FalseFrom-length [] = tt
  FalseFrom-length (x ∷ xs) = FalseFrom-length xs

  -- Every literal of a cube is true, or fewer than all.
  pub SatCube-count : (xs : List PmeId) → SatCube v xs ↔ (length xs ≤ count_true v xs)
  unfolding count_true
  SatCube-count [] = (λ s. omega arith, λ h. tt)
  SatCube-count (x ∷ xs) = elim (Bool-cases (lit_value v x)) [
    | inl e ↦ rw e (
      λ s. omega (arith, (SatCube-count xs).0 s.1),
      λ h. (refl, (SatCube-count xs).1 (omega arith)),
    )
    | inr e ↦ rw e (λ s. absurd (cc s.0), λ h. absurd (omega (arith, count_true-le-length v xs)))
  ]
