-- ===== src/Base/Distinct.antt =====
-- Vectors without repeated elements, as the elements of a `std::set` are.
use Prim.Native.Nat.{ℕ, ◌≤◌, ◌+◌}
use mathlib.Core.Path.{◌≡◌, refl, sym, ◌∙◌, subst}
use mathlib.Core.Logic.{inl, inr}
use mathlib.Core.Bool.{true, false}
use mathlib.Core.List.{List, [], ◌∷◌}
use native.Mathlib.Omega.{arith}
use pme.Base.Tests.{leb, ==_iff, if◌then◌else◌, Bool-cases, ◌==◌}
use pme.Base.Lists.{length}
use pme.Base.Members.{member, Within, member-head, member-tail}
use pme.Base.Sorting.{
  insert_sorted, sorted_list, member-insert_sorted, member-sorted_list, length-insert_sorted,
  upper_bound, erase_one, erase_one-Within, member-erase_one, length-erase_one, without,
  member-without,
}

-- No element twice.
abbrev pub Distinct : List ℕ → Type 0
Distinct [] = Unit
Distinct (x ∷ xs) = (member x xs ≡ false) × Distinct xs

pub Within-absent :
    (x : ℕ) (xs ys : List ℕ) → Within xs ys → member x ys ≡ false → member x xs ≡ false
Within-absent x xs ys w h = elim (Bool-cases (member x xs)) [ inl k ↦ cc (w x k, h) | inr k ↦ k ]

pub erase_one-Distinct : (k : ℕ) (xs : List ℕ) → Distinct xs → Distinct (erase_one k xs)
unfolding erase_one
erase_one-Distinct k [] d = tt
erase_one-Distinct k (x ∷ xs) d = elim (Bool-cases (x == k)) [
  | inl e ↦ rw e d.1
  | inr e ↦
      rw e (
        Within-absent x (erase_one k xs) xs (erase_one-Within k xs) d.0,
        erase_one-Distinct k xs d.1,
      )
]

member-cons_if :
    (z x : ℕ) (xs : List ℕ) → member z (x ∷ xs) ≡ (if x == z then true else member z xs)
unfolding member
member-cons_if z x xs = refl

member-cons_false :
    (x y : ℕ) (ys : List ℕ) → member x (y ∷ ys) ≡ false → ((y == x) ≡ false) × (member x ys ≡ false)
unfolding member
member-cons_false x y ys h = (ground arith, ground arith)

ne-sym : (y x : ℕ) → (y == x) ≡ false → (x == y) ≡ false
ne-sym y x h = ground arith

absent-cons :
    (y x : ℕ) (ys : List ℕ) → (x == y) ≡ false → member y ys ≡ false → member y (x ∷ ys) ≡ false
unfolding member
absent-cons y x ys h k = rw h k

known_member :
    (z x : ℕ) (xs : List ℕ)
    → member x xs ≡ true
    → member z xs ≡ (if x == z then true else member z xs)
known_member z x xs h = elim (Bool-cases (x == z)) [
  | inl e ↦ rw e (subst (λ t. member t xs ≡ true) ((==_iff x z).0 e) h)
  | inr e ↦ rw e refl
]

tail_within :
    (x : ℕ) (xs ys : List ℕ) → Distinct (x ∷ xs) → Within (x ∷ xs) ys → Within xs (erase_one x ys)
tail_within x xs ys d w z h =
    member-erase_one z x ys (w z (member-tail z x xs h)) (elim (Bool-cases (z == x)) [
      | inl e ↦ cc (subst (λ t. member t xs ≡ true) ((==_iff z x).0 e) h, d.0)
      | inr e ↦ e
    ])

insert_sorted-Distinct :
    (x : ℕ) (xs : List ℕ) → member x xs ≡ false → Distinct xs → Distinct (insert_sorted x xs)
unfolding insert_sorted
insert_sorted-Distinct x [] h d = (h, tt)
insert_sorted-Distinct x (y ∷ ys) h d = elim (Bool-cases (leb x y)) [
  | inl c ↦ rw c (h, d)
  | inr c ↦
      let (ne, rest) = member-cons_false x y ys h in
      rw c (
        member-insert_sorted y x ys ∙ absent-cons y x ys (ne-sym y x ne) d.0,
        insert_sorted-Distinct x ys rest d.1,
      )
]

pub sorted_list-Distinct : (xs : List ℕ) → Distinct xs → Distinct (sorted_list xs)
unfolding sorted_list
sorted_list-Distinct [] d = tt
sorted_list-Distinct (x ∷ xs) d =
    insert_sorted-Distinct x (sorted_list xs) (member-sorted_list x xs ∙ d.0)
      (sorted_list-Distinct xs d.1)

pub without-Within : (k : ℕ) (xs : List ℕ) → Within (without k xs) xs
without-Within k xs z h = ground (arith, member-without z k xs)

pub without-Distinct : (k : ℕ) (xs : List ℕ) → Distinct xs → Distinct (without k xs)
unfolding without
without-Distinct k [] d = tt
without-Distinct k (x ∷ xs) d = elim (Bool-cases (x == k)) [
  | inl e ↦ rw e (without-Distinct k xs d.1)
  | inr e ↦
      rw e (Within-absent x (without k xs) xs (without-Within k xs) d.0, without-Distinct k xs d.1)
]

-- `std::set`: insertion of a new element in its place.
unfoldable pub set_insert : ℕ → List ℕ → List ℕ
set_insert x xs = if member x xs then xs else insert_sorted x xs

pub member-set_insert :
    (z x : ℕ) (xs : List ℕ) → member z (set_insert x xs) ≡ (if x == z then true else member z xs)
unfolding set_insert
member-set_insert z x xs = elim (Bool-cases (member x xs)) [
  | inl h ↦ rw h (known_member z x xs h)
  | inr h ↦ rw h (member-insert_sorted z x xs ∙ member-cons_if z x xs)
]

pub set_insert-Distinct : (x : ℕ) (xs : List ℕ) → Distinct xs → Distinct (set_insert x xs)
unfolding set_insert
set_insert-Distinct x xs d = elim (Bool-cases (member x xs)) [
  | inl h ↦ rw h d
  | inr h ↦ rw h (insert_sorted-Distinct x xs h d)
]

pub length-set_insert :
    (x : ℕ) (xs : List ℕ) → member x xs ≡ false → length (set_insert x xs) ≡ 1 + length xs
unfolding set_insert
length-set_insert x xs h = rw h (length-insert_sorted x xs)

-- Distinct elements of a list are at most as many; if they are as many, they are all of its elements.
pub Distinct-length : (xs ys : List ℕ) → Distinct xs → Within xs ys → length xs ≤ length ys
Distinct-length [] ys d w = omega arith
Distinct-length (x ∷ xs) ys d w = omega (
  arith,
  Distinct-length xs (erase_one x ys) d.1 (tail_within x xs ys d w),
  length-erase_one x ys (w x (member-head x xs)),
)

pub Distinct-onto :
    (xs ys : List ℕ) → Distinct xs → Within xs ys → length ys ≤ length xs → Within ys xs
Distinct-onto [] [] d w l z h = h
Distinct-onto [] (y ∷ ys) d w l z h = absurd (omega arith)
Distinct-onto (x ∷ xs) ys d w l z h = elim (Bool-cases (z == x)) [
  | inl e ↦ subst (λ t. member t (x ∷ xs) ≡ true) (sym ((==_iff z x).0 e)) (member-head x xs)
  | inr e ↦ member-tail z x xs (
      Distinct-onto xs (erase_one x ys) d.1 (tail_within x xs ys d w)
        (omega (arith, length-erase_one x ys (w x (member-head x xs)))) z
        (member-erase_one z x ys h e))
]

pub upper_bound-Distinct : (k : ℕ) (xs : List ℕ) → Distinct xs → Distinct (upper_bound k xs)
unfolding upper_bound
upper_bound-Distinct k [] d = tt
upper_bound-Distinct k (x ∷ xs) d = elim (Bool-cases (leb x k)) [
  | inl c ↦ rw c (upper_bound-Distinct k xs d.1)
  | inr c ↦ rw c d
]
