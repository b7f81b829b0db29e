-- ===== src/Base/Members.antt =====
-- Membership of numbers in lists, as a test, and lists that are contained in others.
use Prim.Native.Nat.{ℕ}
use mathlib.Core.Path.{◌≡◌, refl, subst}
use mathlib.Core.Logic.{◌⊎◌, inl, inr}
use mathlib.Core.Bool.{Bool, true, false}
use mathlib.Core.List.{List, [], ◌∷◌, ◌++◌}
use native.Mathlib.Omega.{arith}
use pme.Base.Tests.{◌==◌, ==_refl, ==_iff, Bool-cases, if◌then◌else◌}
use pme.Base.Lists.{All}

-- `std::find(xs.begin(), xs.end(), x) != xs.end()`, or `xs.count(x) > 0`
unfoldable pub member : ℕ → List ℕ → Bool
member x [] = false
member x (y ∷ ys) = if y == x then true else member x ys

-- Every element of the one list is an element of the other.
abbrev pub Within : List ℕ → List ℕ → Type 0
Within xs ys = (x : ℕ) → member x xs ≡ true → member x ys ≡ true

pub member-nil : (x : ℕ) → ¬ (member x [] ≡ true)
unfolding member
member-nil x h = cc h

pub member-head : (x : ℕ) (xs : List ℕ) → member x (x ∷ xs) ≡ true
unfolding member
member-head x xs = rw (==_refl x) refl

pub member-tail : (x y : ℕ) (xs : List ℕ) → member x xs ≡ true → member x (y ∷ xs) ≡ true
unfolding member
member-tail x y xs h = ground arith

pub member-cons :
    (x y : ℕ) (xs : List ℕ) → member x (y ∷ xs) ≡ true → (y ≡ x) ⊎ (member x xs ≡ true)
unfolding member
member-cons x y xs h = elim (Bool-cases (y == x)) [
  | inl e ↦ inl ((==_iff y x).0 e)
  | inr e ↦ inr (subst (λ b. (if b then true else member x xs) ≡ true) e h)
]

pub member-append_left : (x : ℕ) (xs ys : List ℕ) → member x xs ≡ true → member x (xs ++ ys) ≡ true
unfolding member
member-append_left x [] ys h = cc h
member-append_left x (z ∷ xs) ys h = elim (member-cons x z xs h) [
  | inl e ↦ subst (λ w. member w (z ∷ xs ++ ys) ≡ true) e (member-head z (xs ++ ys))
  | inr t ↦ member-tail x z (xs ++ ys) (member-append_left x xs ys t)
]

pub member-append_right : (x : ℕ) (xs ys : List ℕ) → member x ys ≡ true → member x (xs ++ ys) ≡ true
member-append_right x [] ys h = h
member-append_right x (z ∷ xs) ys h = member-tail x z (xs ++ ys) (member-append_right x xs ys h)

pub member-append :
    (x : ℕ) (xs ys : List ℕ)
    → member x (xs ++ ys) ≡ true
    → (member x xs ≡ true) ⊎ (member x ys ≡ true)
member-append x [] ys h = inr h
member-append x (z ∷ xs) ys h = elim (member-cons x z (xs ++ ys) h) [
  | inl e ↦ inl (subst (λ w. member w (z ∷ xs) ≡ true) e (member-head z xs))
  | inr t ↦ elim (member-append x xs ys t) [ inl l ↦ inl (member-tail x z xs l) | inr r ↦ inr r ]
]

-- A predicate on all elements, at one of them, and from each of them.
module _ {ℓ} (P : ℕ → Type ℓ) where
  pub All-member : (x : ℕ) (xs : List ℕ) → All P xs → member x xs ≡ true → P x
  All-member x [] h m = absurd (member-nil x m)
  All-member x (y ∷ ys) h m = elim (member-cons x y ys m) [
    | inl e ↦ subst P e h.0
    | inr t ↦ All-member x ys h.1 t
  ]

  pub All-from_member : (xs : List ℕ) → ((x : ℕ) → member x xs ≡ true → P x) → All P xs
  All-from_member [] f = tt
  All-from_member (y ∷ ys) f =
      (f y (member-head y ys), All-from_member ys (λ x m. f x (member-tail x y ys m)))
