-- ===== src/Network/Prefix.antt =====
-- What the outputs of a network promise: the first entries of a vector are true, or all from an
-- index on are false.
use pme.Base.{
  ℕ, zero, suc, ◌+◌, ◌/◌, ◌≤◌, ◌≡◌, refl, true, false, List, [], ◌∷◌, length, take, min, arith,
}
use pme.Literal.{PmeId}
use pme.Cnf.{Valuation, lit_value}
use pme.Network.{take_odd, take_even}

-- The vector has at least `k` entries, and the first `k` are true.
abbrev pub TruePrefix : Valuation → ℕ → List PmeId → Type 0
TruePrefix v zero xs = Unit
TruePrefix v (suc k) [] = ⊥
TruePrefix v (suc k) (x ∷ xs) = (lit_value v x ≡ true) × TruePrefix v k xs

-- The entries from index `k` on are false.
abbrev pub FalseFrom : Valuation → ℕ → List PmeId → Type 0
FalseFrom v k [] = Unit
FalseFrom v zero (x ∷ xs) = (lit_value v x ≡ false) × FalseFrom v zero xs
FalseFrom v (suc k) (x ∷ xs) = FalseFrom v k xs

module _ (v : Valuation) where
  pub TruePrefix-le-length : (k : ℕ) (xs : List PmeId) → TruePrefix v k xs → k ≤ length xs
  TruePrefix-le-length zero xs h = omega arith
  TruePrefix-le-length (suc k) [] h = absurd h
  TruePrefix-le-length (suc k) (x ∷ xs) h = omega (arith, TruePrefix-le-length k xs h.1)

  pub TruePrefix-mono : (j k : ℕ) (xs : List PmeId) → j ≤ k → TruePrefix v k xs → TruePrefix v j xs
  TruePrefix-mono zero k xs l h = tt
  TruePrefix-mono (suc j) zero xs l h = absurd (omega arith)
  TruePrefix-mono (suc j) (suc k) [] l h = h
  TruePrefix-mono (suc j) (suc k) (x ∷ xs) l h = (h.0, TruePrefix-mono j k xs (omega arith) h.1)

  pub FalseFrom-mono : (j k : ℕ) (xs : List PmeId) → j ≤ k → FalseFrom v j xs → FalseFrom v k xs
  FalseFrom-mono j k [] l h = tt
  FalseFrom-mono zero zero (x ∷ xs) l h = h
  FalseFrom-mono zero (suc k) (x ∷ xs) l h = FalseFrom-mono zero k xs (omega arith) h.1
  FalseFrom-mono (suc j) zero (x ∷ xs) l h = absurd (omega arith)
  FalseFrom-mono (suc j) (suc k) (x ∷ xs) l h = FalseFrom-mono j k xs (omega arith) h

  pub TruePrefix-take :
      (c k : ℕ) (xs : List PmeId) → TruePrefix v k xs → TruePrefix v (min k c) (take c xs)
  TruePrefix-take zero k xs h = TruePrefix-mono (min k 0) 0 [] (omega arith) tt
  TruePrefix-take (suc c) zero xs h =
      TruePrefix-mono (min 0 (suc c)) 0 (take (suc c) xs) (omega arith) tt
  TruePrefix-take (suc c) (suc k) [] h = absurd h
  TruePrefix-take (suc c) (suc k) (x ∷ xs) h =
      let e : min (suc k) (suc c) ≡ suc (min k c) = omega arith in
      rw e (h.0, TruePrefix-take c k xs h.1)

  pub FalseFrom-take : (c k : ℕ) (xs : List PmeId) → FalseFrom v k xs → FalseFrom v k (take c xs)
  FalseFrom-take zero k xs h = tt
  FalseFrom-take (suc c) k [] h = tt
  FalseFrom-take (suc c) zero (x ∷ xs) h = (h.0, FalseFrom-take c zero xs h.1)
  FalseFrom-take (suc c) (suc k) (x ∷ xs) h = FalseFrom-take c k xs h

  -- Every second entry keeps half of a prefix, rounded up or down.
  pub TruePrefix-take_even :
      (k : ℕ) (xs : List PmeId) → TruePrefix v k xs → TruePrefix v ((k + 1) / 2) (take_even xs)
  unfolding take_even
  TruePrefix-take_even zero xs h = tt
  TruePrefix-take_even (suc k) [] h = absurd h
  TruePrefix-take_even (suc zero) (x ∷ []) h = (h.0, tt)
  TruePrefix-take_even (suc zero) (x ∷ y ∷ xs) h = (h.0, tt)
  TruePrefix-take_even (suc (suc k)) (x ∷ []) h = absurd h.1
  TruePrefix-take_even (suc (suc k)) (x ∷ y ∷ xs) h =
      let e : (suc (suc k) + 1) / 2 ≡ suc ((k + 1) / 2) = omega arith in
      rw e (h.0, TruePrefix-take_even k xs h.1.1)

  pub TruePrefix-take_odd :
      (k : ℕ) (xs : List PmeId) → TruePrefix v k xs → TruePrefix v (k / 2) (take_odd xs)
  unfolding take_odd
  TruePrefix-take_odd zero xs h = tt
  TruePrefix-take_odd (suc k) [] h = absurd h
  TruePrefix-take_odd (suc zero) (x ∷ xs) h = tt
  TruePrefix-take_odd (suc (suc k)) (x ∷ []) h = absurd h.1
  TruePrefix-take_odd (suc (suc k)) (x ∷ y ∷ xs) h =
      let e : suc (suc k) / 2 ≡ suc (k / 2) = omega arith in
      rw e (h.1.0, TruePrefix-take_odd k xs h.1.1)

  pub FalseFrom-take_even :
      (k : ℕ) (xs : List PmeId) → FalseFrom v k xs → FalseFrom v ((k + 1) / 2) (take_even xs)
  unfolding take_even
  FalseFrom-take_even k [] h = tt
  FalseFrom-take_even zero (x ∷ []) h = h
  FalseFrom-take_even (suc k) (x ∷ []) h =
      let e : (suc k + 1) / 2 ≡ suc (k / 2) = omega arith in rw e tt
  FalseFrom-take_even zero (x ∷ y ∷ xs) h = (h.0, FalseFrom-take_even zero xs h.1.1)
  FalseFrom-take_even (suc zero) (x ∷ y ∷ xs) h = FalseFrom-take_even zero xs h.1
  FalseFrom-take_even (suc (suc k)) (x ∷ y ∷ xs) h =
      let e : (suc (suc k) + 1) / 2 ≡ suc ((k + 1) / 2) = omega arith in
      rw e (FalseFrom-take_even k xs h)

  pub FalseFrom-take_odd :
      (k : ℕ) (xs : List PmeId) → FalseFrom v k xs → FalseFrom v (k / 2) (take_odd xs)
  unfolding take_odd
  FalseFrom-take_odd k [] h = tt
  FalseFrom-take_odd k (x ∷ []) h = tt
  FalseFrom-take_odd zero (x ∷ y ∷ xs) h = (h.1.0, FalseFrom-take_odd zero xs h.1.1)
  FalseFrom-take_odd (suc zero) (x ∷ y ∷ xs) h = (h.0, FalseFrom-take_odd zero xs h.1)
  FalseFrom-take_odd (suc (suc k)) (x ∷ y ∷ xs) h =
      let e : suc (suc k) / 2 ≡ suc (k / 2) = omega arith in rw e (FalseFrom-take_odd k xs h)

pub length-take_even : (xs : List PmeId) → length (take_even xs) ≡ (length xs + 1) / 2
unfolding take_even
length-take_even [] = refl
length-take_even (x ∷ []) = refl
length-take_even (x ∷ y ∷ xs) = omega (arith, length-take_even xs)

pub length-take_odd : (xs : List PmeId) → length (take_odd xs) ≡ length xs / 2
unfolding take_odd
length-take_odd [] = refl
length-take_odd (x ∷ []) = refl
length-take_odd (x ∷ y ∷ xs) = omega (arith, length-take_odd xs)
