-- ===== src/Base/Sorting.antt =====
-- `std::sort` of a vector of numbers, as insertion sort.
use Prim.Native.Nat.{ℕ, ◌≤◌, ◌<◌, ◌+◌}
use mathlib.Core.Path.{◌≡◌, refl, ◌∙◌, subst}
use mathlib.Core.Logic.{inl, inr}
use mathlib.Core.Bool.{true, false}
use mathlib.Core.List.{List, [], ◌∷◌}
use native.Mathlib.Omega.{arith}
use pme.Base.Tests.{leb, leb→le, ltb, if◌then◌else◌, Bool-cases, ◌==◌}
use pme.Base.Lists.{length, All}
use pme.Base.Members.{member, Within, member-nil, member-tail, member-cons, All-member}

unfoldable pub insert_sorted : ℕ → List ℕ → List ℕ
insert_sorted x [] = x ∷ []
insert_sorted x (y ∷ ys) = if leb x y then x ∷ y ∷ ys else y ∷ insert_sorted x ys

unfoldable pub sorted_list : List ℕ → List ℕ
sorted_list [] = []
sorted_list (x ∷ xs) = insert_sorted x (sorted_list xs)

-- Each element is at most the next.
abbrev pub IsSorted : List ℕ → Type 0
IsSorted [] = Unit
IsSorted (x ∷ xs) = All (λ y. x ≤ y) xs × IsSorted xs

insert_sorted-All :
    (m x : ℕ) (xs : List ℕ) → m ≤ x → All (λ y. m ≤ y) xs → All (λ y. m ≤ y) (insert_sorted x xs)
unfolding insert_sorted
insert_sorted-All m x [] l h = (l, tt)
insert_sorted-All m x (y ∷ ys) l h = elim (Bool-cases (leb x y)) [
  | inl c ↦ rw c (l, (h.0, h.1))
  | inr c ↦ rw c (h.0, insert_sorted-All m x ys l h.1)
]

All-le : (m n : ℕ) (xs : List ℕ) → m ≤ n → All (λ y. n ≤ y) xs → All (λ y. m ≤ y) xs
All-le m n [] l h = tt
All-le m n (y ∷ ys) l h = (omega arith, All-le m n ys l h.1)

insert_sorted-IsSorted : (x : ℕ) (xs : List ℕ) → IsSorted xs → IsSorted (insert_sorted x xs)
unfolding insert_sorted
insert_sorted-IsSorted x [] h = (tt, tt)
insert_sorted-IsSorted x (y ∷ ys) h = elim (Bool-cases (leb x y)) [
  | inl c ↦ let l = leb→le x y c in rw c ((l, All-le x y ys l h.0), h)
  | inr c ↦
      let l : y ≤ x = ground arith in
      rw c (insert_sorted-All y x ys l h.0, insert_sorted-IsSorted x ys h.1)
]

pub sorted_list-IsSorted : (xs : List ℕ) → IsSorted (sorted_list xs)
unfolding sorted_list
sorted_list-IsSorted [] = tt
sorted_list-IsSorted (x ∷ xs) = insert_sorted-IsSorted x (sorted_list xs) (sorted_list-IsSorted xs)

insert_sorted-least : (x : ℕ) (xs : List ℕ) → All (λ y. x ≤ y) xs → insert_sorted x xs ≡ x ∷ xs
unfolding insert_sorted
insert_sorted-least x [] h = refl
insert_sorted-least x (y ∷ ys) h = let c : leb x y ≡ true = ground (arith, h.0) in rw c refl

sorted_list-fixed : (xs : List ℕ) → IsSorted xs → sorted_list xs ≡ xs
unfolding sorted_list
sorted_list-fixed [] h = refl
sorted_list-fixed (x ∷ xs) h = rw (sorted_list-fixed xs h.1) (insert_sorted-least x xs h.0)

pub sorted_list_idem : (xs : List ℕ) → sorted_list (sorted_list xs) ≡ sorted_list xs
sorted_list_idem xs = sorted_list-fixed (sorted_list xs) (sorted_list-IsSorted xs)

-- Sorting keeps the elements and their number.
pub member-insert_sorted :
    (z x : ℕ) (xs : List ℕ) → member z (insert_sorted x xs) ≡ member z (x ∷ xs)
unfolding insert_sorted member
member-insert_sorted z x [] = refl
member-insert_sorted z x (y ∷ ys) = elim (Bool-cases (leb x y)) [
  | inl c ↦ rw c refl
  | inr c ↦ rw c (ground (arith, member-insert_sorted z x ys))
]

pub member-sorted_list : (z : ℕ) (xs : List ℕ) → member z (sorted_list xs) ≡ member z xs
unfolding sorted_list member
member-sorted_list z [] = refl
member-sorted_list z (x ∷ xs) =
    member-insert_sorted z x (sorted_list xs) ∙ ground (arith, member-sorted_list z xs)

pub length-insert_sorted : (x : ℕ) (xs : List ℕ) → length (insert_sorted x xs) ≡ 1 + length xs
unfolding insert_sorted
length-insert_sorted x [] = refl
length-insert_sorted x (y ∷ ys) = ground (arith, length-insert_sorted x ys)

pub length-sorted_list : (xs : List ℕ) → length (sorted_list xs) ≡ length xs
unfolding sorted_list
length-sorted_list [] = refl
length-sorted_list (x ∷ xs) =
    omega (arith, length-insert_sorted x (sorted_list xs), length-sorted_list xs)

-- `std::lower_bound` and `std::upper_bound` on a sorted vector: the entries from there on.
unfoldable pub lower_bound : ℕ → List ℕ → List ℕ
lower_bound k [] = []
lower_bound k (x ∷ xs) = if ltb x k then lower_bound k xs else x ∷ xs

unfoldable pub upper_bound : ℕ → List ℕ → List ℕ
upper_bound k [] = []
upper_bound k (x ∷ xs) = if leb x k then upper_bound k xs else x ∷ xs

pub lower_bound-Within : (k : ℕ) (xs : List ℕ) → Within (lower_bound k xs) xs
unfolding lower_bound
lower_bound-Within k [] z h = h
lower_bound-Within k (x ∷ xs) z h = elim (Bool-cases (ltb x k)) [
  | inl c ↦ member-tail z x xs (
      lower_bound-Within k xs z
        (subst (λ b. member z (if b then lower_bound k xs else x ∷ xs) ≡ true) c h))
  | inr c ↦ subst (λ b. member z (if b then lower_bound k xs else x ∷ xs) ≡ true) c h
]

pub upper_bound-Within : (k : ℕ) (xs : List ℕ) → Within (upper_bound k xs) xs
unfolding upper_bound
upper_bound-Within k [] z h = h
upper_bound-Within k (x ∷ xs) z h = elim (Bool-cases (leb x k)) [
  | inl c ↦ member-tail z x xs (
      upper_bound-Within k xs z
        (subst (λ b. member z (if b then upper_bound k xs else x ∷ xs) ≡ true) c h))
  | inr c ↦ subst (λ b. member z (if b then upper_bound k xs else x ∷ xs) ≡ true) c h
]

-- `v.erase(it)` at the first entry with this value.
unfoldable pub erase_one : ℕ → List ℕ → List ℕ
erase_one k [] = []
erase_one k (x ∷ xs) = if x == k then xs else x ∷ erase_one k xs

pub erase_one-Within : (k : ℕ) (xs : List ℕ) → Within (erase_one k xs) xs
unfolding erase_one member
erase_one-Within k [] z h = h
erase_one-Within k (x ∷ xs) z h = ground (arith, erase_one-Within k xs z)

pub member-erase_one :
    (z k : ℕ) (xs : List ℕ)
    → member z xs ≡ true
    → (z == k) ≡ false
    → member z (erase_one k xs) ≡ true
unfolding erase_one member
member-erase_one z k [] h d = h
member-erase_one z k (x ∷ xs) h d = ground (arith, member-erase_one z k xs)

pub length-erase_one :
    (k : ℕ) (xs : List ℕ) → member k xs ≡ true → length (erase_one k xs) < length xs
unfolding erase_one member
length-erase_one k [] h = absurd (cc h)
length-erase_one k (x ∷ xs) h = ground (arith, length-erase_one k xs)

-- `std::remove_copy`
unfoldable pub without : ℕ → List ℕ → List ℕ
without k [] = []
without k (x ∷ xs) = if x == k then without k xs else x ∷ without k xs

pub member-without :
    (z k : ℕ) (xs : List ℕ) → member z (without k xs) ≡ (if z == k then false else member z xs)
unfolding without member
member-without z k [] = ground arith
member-without z k (x ∷ xs) = ground (arith, member-without z k xs)

length-without_le : (k : ℕ) (xs : List ℕ) → length (without k xs) ≤ length xs
unfolding without
length-without_le k [] = omega arith
length-without_le k (x ∷ xs) = ground (arith, length-without_le k xs)

pub length-without : (k : ℕ) (xs : List ℕ) → member k xs ≡ true → length (without k xs) < length xs
unfolding without member
length-without k [] h = absurd (cc h)
length-without k (x ∷ xs) h = elim (Bool-cases (x == k)) [
  | inl e ↦ rw e (omega (arith, length-without_le k xs))
  | inr e ↦ rw e (
      omega
        (arith, length-without k xs (subst (λ b. (if b then true else member k xs) ≡ true) e h)))
]

-- The entries from the upper bound on are those that are larger.
pub member-upper_bound :
    (k z : ℕ) (xs : List ℕ) → member z xs ≡ true → k < z → member z (upper_bound k xs) ≡ true
unfolding upper_bound member
member-upper_bound k z [] h l = h
member-upper_bound k z (x ∷ xs) h l = elim (Bool-cases (leb x k)) [
  | inl c ↦
      let d : (x == z) ≡ false = ground arith in
      rw c (member-upper_bound k z xs (subst (λ b. (if b then true else member z xs) ≡ true) d h) l)
  | inr c ↦ rw c h
]

pub upper_bound-above :
    (k z : ℕ) (xs : List ℕ) → IsSorted xs → member z (upper_bound k xs) ≡ true → k < z
unfolding upper_bound
upper_bound-above k z [] s h = absurd (member-nil z h)
upper_bound-above k z (x ∷ xs) s h = elim (Bool-cases (leb x k)) [
  | inl c ↦
      upper_bound-above k z xs s.1
        (subst (λ b. member z (if b then upper_bound k xs else x ∷ xs) ≡ true) c h)
  | inr c ↦
      elim (member-cons z x xs
        (subst (λ b. member z (if b then upper_bound k xs else x ∷ xs) ≡ true) c h)) [
          | inl e ↦ ground arith
          | inr t ↦ let l = All-member (λ y. x ≤ y) z xs s.0 t in ground arith
        ]
]

pub upper_bound-IsSorted : (k : ℕ) (xs : List ℕ) → IsSorted xs → IsSorted (upper_bound k xs)
unfolding upper_bound
upper_bound-IsSorted k [] s = tt
upper_bound-IsSorted k (x ∷ xs) s = elim (Bool-cases (leb x k)) [
  | inl c ↦ rw c (upper_bound-IsSorted k xs s.1)
  | inr c ↦ rw c s
]
