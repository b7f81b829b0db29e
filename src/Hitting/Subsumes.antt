-- ===== src/Hitting/Subsumes.antt =====
-- `subsumes` of src/pme/pme.cpp: the test for a subset.
use pme.Base.{
  ℕ, ◌≤◌, ◌≡◌, refl, sym, ◌∙◌, subst, true, false, ltb, ◌==◌, ==_iff, if◌then◌else◌, List, [], ◌∷◌,
  member, Within, member-nil, member-head, member-tail, member-cons, All-member, length, Returns,
  Bool-cases, inl, inr, arith,
}
use pme.Base.Sorting.{IsSorted}
use pme.Base.Distinct.{Distinct, Distinct-length}
use pme.Literal.{PmeId}
use pme.Hitting.{is_sorted, scan, subsumes}

pub IsSorted-is_sorted : (xs : List ℕ) → IsSorted xs → is_sorted xs ≡ true
unfolding is_sorted
IsSorted-is_sorted [] h = refl
IsSorted-is_sorted (x ∷ []) h = refl
IsSorted-is_sorted (x ∷ y ∷ ys) h = ground (arith, h.0.0, IsSorted-is_sorted (y ∷ ys) h.1)

scan-Within : (xs ys : List PmeId) → scan xs ys ≡ true → Within xs ys
unfolding scan
scan-Within [] ys h z k = absurd (member-nil z k)
scan-Within (x ∷ xs) [] h z k = cc h
scan-Within (x ∷ xs) (y ∷ ys) h z k = elim (Bool-cases (x == y)) [
  | inl e ↦
      let h' : scan xs (y ∷ ys) ≡ true =
        subst (λ b. (if b then scan xs (y ∷ ys) else scan (x ∷ xs) ys) ≡ true) e h in
      elim (member-cons z x xs k) [
        | inl q ↦
            subst (λ w. member w (y ∷ ys) ≡ true) (sym ((==_iff x y).0 e) ∙ q) (member-head y ys)
        | inr t ↦ scan-Within xs (y ∷ ys) h' z t
      ]
  | inr e ↦
      let h' : scan (x ∷ xs) ys ≡ true =
        subst (λ b. (if b then scan xs (y ∷ ys) else scan (x ∷ xs) ys) ≡ true) e h in
      member-tail z y ys (scan-Within (x ∷ xs) ys h' z k)
]

-- A value of the first vector that is not the smallest of the second is further on there.
later :
    (x y : PmeId) (xs ys : List PmeId)
    → IsSorted (x ∷ xs)
    → IsSorted (y ∷ ys)
    → (x == y) ≡ false
    → Within (x ∷ xs) (y ∷ ys)
    → Within (x ∷ xs) ys
later x y xs ys s t e w z h = elim (member-cons z y ys (w z h)) [
  | inr there ↦ there
  | inl q ↦ elim (member-cons x y ys (w x (member-head x xs))) [
    | inl same ↦ absurd (ground arith)
    | inr x_there ↦
        let above = All-member (λ v. y ≤ v) x ys t.0 x_there in
        elim (member-cons z x xs h) [
          | inl first ↦ subst (λ v. member v ys ≡ true) first x_there
          | inr rest ↦ absurd (let up = All-member (λ v. x ≤ v) z xs s.0 rest in ground arith)
        ]
  ]
]

Within-scan : (xs ys : List PmeId) → IsSorted xs → IsSorted ys → Within xs ys → scan xs ys ≡ true
unfolding scan
Within-scan [] ys s t w = refl
Within-scan (x ∷ xs) [] s t w = absurd (member-nil x (w x (member-head x xs)))
Within-scan (x ∷ xs) (y ∷ ys) s t w = elim (Bool-cases (x == y)) [
  | inl e ↦ rw e (Within-scan xs (y ∷ ys) s.1 t (λ z h. w z (member-tail z x xs h)))
  | inr e ↦ rw e (Within-scan (x ∷ xs) ys s t.1 (later x y xs ys s t e w))
]

-- On sorted vectors, `subsumes` comes to an end without a failed assertion, and with `true` only where each
-- element of the first is one of the second; it does so always if the first has no repetition.
pub subsumes-Within :
    (a b : List PmeId)
    → IsSorted a
    → IsSorted b
    → Returns (subsumes a b) (λ r. (r ≡ true → Within a b) × (Distinct a → Within a b → r ≡ true))
unfolding subsumes
subsumes-Within a b s t = elim (Bool-cases (ltb (length b) (length a))) [
  | inl l ↦ (
    false,
    rw (IsSorted-is_sorted a s, IsSorted-is_sorted b t, l) refl,
    (λ e. absurd (cc e), λ d w. absurd (ground (arith, Distinct-length a b d w))),
  )
  | inr l ↦ (
    scan a b,
    rw (IsSorted-is_sorted a s, IsSorted-is_sorted b t, l) refl,
    (scan-Within a b, λ d w. Within-scan a b s t w),
  )
]
