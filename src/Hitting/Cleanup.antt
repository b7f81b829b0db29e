-- ===== src/Hitting/Cleanup.antt =====
-- `checkSubsumption` of src/pme/util/hitting_set_finder.cpp: no valuation is lost with the sets that are dropped.
use pme.Base.{
  ◌≡◌, refl, sym, subst, Bool, true, false, ◌||◌, List, [], ◌∷◌, member, Within, member-nil,
  member-head, member-tail, member-cons, All, Returns, Bool-cases, inl, inr, arith,
}
use pme.Base.Sorting.{IsSorted}
use pme.Literal.{PmeId, Clause}
use pme.Cnf.{Valuation, lit_value, clause_value, Sat}
use pme.Hitting.{subsumption_loop}
use pme.Hitting.Subsumes.{IsSorted-is_sorted, subsumes-Within}

-- The valuation hits the set: it makes one of its elements true.
clause_value-member :
    (v : Valuation) (cls : Clause) (x : PmeId)
    → member x cls ≡ true
    → lit_value v x ≡ true
    → clause_value v cls ≡ true
clause_value-member v [] x h e = absurd (member-nil x h)
clause_value-member v (y ∷ ys) x h e = elim (member-cons x y ys h) [
  | inl q ↦
      let e' : lit_value v y ≡ true = subst (λ z. lit_value v z ≡ true) (sym q) e in rw e' refl
  | inr t ↦ let rest = clause_value-member v ys x t e in ground arith
]

pub Within-hit :
    (v : Valuation) (xs ys : Clause)
    → Within xs ys
    → clause_value v xs ≡ true
    → clause_value v ys ≡ true
Within-hit v [] ys w h = cc h
Within-hit v (x ∷ xs) ys w h = elim (Bool-cases (lit_value v x)) [
  | inl e ↦ clause_value-member v ys x (w x (member-head x xs)) e
  | inr e ↦
      Within-hit v xs ys (λ z k. w z (member-tail z x xs k))
        (subst (λ b. (b || clause_value v xs) ≡ true) e h)
]

abbrev pub AllSorted : List (List PmeId) → Type 0
AllSorted sets = All (λ s. IsSorted s) sets

-- The result of `checkSubsumption`: with the set, the ones that are left are hit just where all were.
pub record Cleaned (s : List PmeId) (sets : List (List PmeId)) (r : Bool × List (List PmeId))
    : Type 0 where
  pub sorted : AllSorted r.1
  pub fewer : (v : Valuation) → Sat v sets → Sat v r.1
  pub hit : (v : Valuation) → Sat v r.1 → clause_value v s ≡ true → Sat v sets
  pub ignored : r.0 ≡ false → (v : Valuation) → Sat v r.1 → clause_value v s ≡ true

pub subsumption_loop-Cleaned :
    (s : List PmeId) (sets : List (List PmeId))
    → IsSorted s
    → AllSorted sets
    → Returns (subsumption_loop s sets) (λ r. Cleaned s sets r)
unfolding subsumption_loop
subsumption_loop-Cleaned s [] o a = (
  (true, []),
  refl,
  record { sorted = tt; fewer = λ v h. tt; hit = λ v h k. tt; ignored = λ e. absurd (cc e) },
)
subsumption_loop-Cleaned s (t ∷ ts) o a =
    let (smaller, s_run, (s_sub, s_all)) = subsumes-Within s t o a.0 in
    let (larger, l_run, (l_sub, l_all)) = subsumes-Within t s a.0 o in
    let (r, run, d) = subsumption_loop-Cleaned s ts o a.1 in
    elim (Bool-cases smaller) [
      | inl e ↦ (
        r,
        rw (IsSorted-is_sorted t a.0, s_run, e) run,
        record {
          sorted = d.sorted;
          fewer = λ v h. d.fewer v h.1;
          hit = λ v h k. (Within-hit v s t (s_sub e) k, d.hit v h k);
          ignored = d.ignored;
        },
      )
      | inr e ↦ elim (Bool-cases larger) [
        | inl f ↦ (
          (false, t ∷ ts),
          rw (IsSorted-is_sorted t a.0, s_run, e, l_run, f) refl,
          record {
            sorted = a;
            fewer = λ v h. h;
            hit = λ v h k. h;
            ignored = λ q v h. Within-hit v t s (l_sub f) h.0;
          },
        )
        | inr f ↦ (
          (r.0, t ∷ r.1),
          rw (IsSorted-is_sorted t a.0, s_run, e, l_run, f, run) refl,
          record {
            sorted = (a.0, d.sorted);
            fewer = λ v h. (h.0, d.fewer v h.1);
            hit = λ v h k. (h.0, d.hit v h.1 k);
            ignored = λ q v h. d.ignored q v h.1;
          },
        )
      ]
    ]
