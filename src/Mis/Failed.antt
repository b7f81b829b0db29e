-- ===== src/Mis/Failed.antt =====
-- What follows a clause that fails in the loop of `findSafeMIS` of src/pme/util/find_safe_mis.cpp: no inductive set
-- loses a clause.
use pme.Base.{
  ℕ, ◌≤◌, ◌<◌, ◌≡◌, refl, subst, Bool, true, false, ◌==◌, ==_iff, List, [], member, Within, length,
  Returns, Bool-cases, inl, inr, arith,
}
use pme.Base.Sorting.{erase_one, erase_one-Within, member-erase_one, length-erase_one}
use pme.Base.Distinct.{Distinct, erase_one-Distinct}
use pme.Literal.{ClauseId}
use pme.Checker.{
  Assignment, negated_primes, Checker, AllKnown, IsInductive, fails, complete, complete-Completes,
}
use pme.Mis.{remove_failed}
use pme.Mis.Completion.{Unblocked-SatCube}
use pme.Mis.Removal.{Clear, remove_sat_clauses-Removed}

module _ (c : Checker) (vec : List ClauseId) (id : ClauseId) (s : c.State) (m : Assignment)
    (known_vec : AllKnown c vec) (here : member id vec ≡ true)
    (failed : (c.solve vec id s).0 ≡ fails m) (set : List ClauseId) (ind : IsInductive c set)
    (part : Within set vec) where
  -- An inductive part of the set has neither the clause that failed nor one that is not blocked.
  pub inductive-Clear : Clear c m set
  inductive-Clear x h known_x u =
      let cube = negated_primes (c.clause_of x) in
      let v = complete m cube in
      let (allowed, frame, broken) =
        c.fails_lem vec id s m known_vec (known_vec id here) failed v (complete-Completes m cube) in
      ind x h v allowed (λ y k. frame y (part y k))
        (Unblocked-SatCube m cube (c.consistent x known_x) u)

  pub inductive-without_failed : member id set ≡ false
  inductive-without_failed = elim (Bool-cases (member id set)) [
    | inl h ↦
        let v = complete m [] in
        let (allowed, frame, broken) =
          c.fails_lem vec id s m known_vec (known_vec id here) failed v (complete-Completes m []) in
        absurd (ind id h v allowed (λ y k. frame y (part y k)) broken)
    | inr h ↦ h
  ]

-- The set after the removal, as seen from before.
pub record Reduced (c : Checker) (nec vec : List ClauseId) (r : Bool × List ClauseId) : Type 0 where
  pub within : Within r.1 vec
  pub size : length r.1 ≤ length vec
  pub distinct : Distinct vec → Distinct r.1
  pub smaller : r.0 ≡ true → length r.1 < length vec
  pub kept :
      r.0 ≡ true → (set : List ClauseId) → IsInductive c set → Within set vec → Within set r.1
  pub lost :
      r.0 ≡ false → (set : List ClauseId) → IsInductive c set → Within set vec → ¬ Within nec set
  pub necessary : r.0 ≡ true → Within nec vec → Within nec r.1

distinct : (x y : ℕ) (xs : List ℕ) → member x xs ≡ true → member y xs ≡ false → (x == y) ≡ false
distinct x y xs h k = elim (Bool-cases (x == y)) [
  | inl e ↦ cc (subst (λ z. member z xs ≡ true) ((==_iff x y).0 e) h, k)
  | inr e ↦ e
]

module _ (c : Checker) (nec vec : List ClauseId) (id : ClauseId) (s : c.State) (m : Assignment)
    (known_vec : AllKnown c vec) (here : member id vec ≡ true)
    (failed : (c.solve vec id s).0 ≡ fails m) where
  pub remove_failed-Reduced : Returns (remove_failed c m nec vec id) (λ r. Reduced c nec vec r)
  unfolding remove_failed
  remove_failed-Reduced = elim (Bool-cases (member id nec)) [
    | inl held ↦ (
      (false, vec),
      rw held refl,
      record {
        within = λ x h. h;
        size = omega arith;
        distinct = λ d. d;
        smaller = λ e. absurd (cc e);
        kept = λ e. absurd (cc e);
        lost = λ e set ind part w.
            cc
              (w id held, inductive-without_failed c vec id s m known_vec here failed set ind part);
        necessary = λ e. absurd (cc e);
      },
    )
    | inr free ↦
        let (r, run, p) =
          remove_sat_clauses-Removed c m nec (erase_one id vec)
            (λ x h. known_vec x (erase_one-Within id vec x h)) in
        (
          r,
          rw free run,
          record {
            within = λ x h. erase_one-Within id vec x (p.within x h);
            size = omega (arith, p.size, length-erase_one id vec here);
            distinct = λ d. p.distinct (erase_one-Distinct id vec d);
            smaller = λ e. omega (arith, p.size, length-erase_one id vec here);
            kept = λ e set ind part x h.
                p.kept e set (inductive-Clear c vec id s m known_vec here failed set ind part) x h (
                  member-erase_one x id vec (part x h) (
                    distinct x id set h
                      (inductive-without_failed c vec id s m known_vec here failed set ind part)));
            lost = λ e set ind part.
                p.lost e set (inductive-Clear c vec id s m known_vec here failed set ind part);
            necessary = λ e w x h.
                p.necessary e x h (member-erase_one x id vec (w x h) (distinct x id nec h free));
          },
        )
  ]
