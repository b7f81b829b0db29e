-- ===== src/Mis/Removal.antt =====
-- `removeSATClauses` of src/pme/util/find_safe_mis.cpp: it keeps the clauses of every set from which none of
-- those that the assignment refutes is taken.
use pme.Base.{
  ◌≤◌, ◌≡◌, refl, sym, subst, Bool, true, false, List, [], ◌∷◌, member, Within, member-head,
  member-tail, member-cons, length, Returns, Bool-cases, inl, inr, arith,
}
use pme.Base.Distinct.{Distinct, Within-absent}
use pme.Literal.{ClauseId}
use pme.Checker.{Assignment, negated_primes, Checker, AllKnown}
use pme.Mis.{remove_sat_clauses}
use pme.Mis.Completion.{Unblocked, negcp_sat-Returns}

module _ (c : Checker) (m : Assignment) where
  -- The set has no clause of which the assignment blocks nothing.
  abbrev pub Clear : List ClauseId → Type 0
  Clear set =
      (x : ClauseId)
      → member x set ≡ true
      → c.known x ≡ true
      → ¬ Unblocked m (negated_primes (c.clause_of x))

  -- What removal makes of `ids`: whether it went to the end, and what is left.
  pub record Removed (nec ids : List ClauseId) (r : Bool × List ClauseId) : Type 0 where
    pub within : Within r.1 ids
    pub size : length r.1 ≤ length ids
    pub distinct : Distinct ids → Distinct r.1
    pub kept :
        r.0 ≡ true
        → (set : List ClauseId) → Clear set
        → (x : ClauseId) → member x set ≡ true
        → member x ids ≡ true
        → member x r.1 ≡ true
    pub lost : r.0 ≡ false → (set : List ClauseId) → Clear set → ¬ Within nec set
    pub necessary :
        r.0 ≡ true
        → (x : ClauseId) → member x nec ≡ true
        → member x ids ≡ true
        → member x r.1 ≡ true

  module _ (nec : List ClauseId) (id : ClauseId) (ids : List ClauseId)
      (known_id : c.known id ≡ true) where
    kept_one :
        (r : Bool × List ClauseId) → Removed nec ids r → Removed nec (id ∷ ids) (r.0, id ∷ r.1)
    kept_one r p = record {
      within = λ x h. elim (member-cons x id r.1 h) [
        | inl e ↦ subst (λ y. member y (id ∷ ids) ≡ true) e (member-head id ids)
        | inr t ↦ member-tail x id ids (p.within x t)
      ];
      size = omega (arith, p.size);
      distinct = λ d. (Within-absent id r.1 ids p.within d.0, p.distinct d.1);
      kept = λ ended set cl x h k. elim (member-cons x id ids k) [
        | inl e ↦ subst (λ y. member y (id ∷ r.1) ≡ true) e (member-head id r.1)
        | inr t ↦ member-tail x id r.1 (p.kept ended set cl x h t)
      ];
      lost = p.lost;
      necessary = λ ended x h k. elim (member-cons x id ids k) [
        | inl e ↦ subst (λ y. member y (id ∷ r.1) ≡ true) e (member-head id r.1)
        | inr t ↦ member-tail x id r.1 (p.necessary ended x h t)
      ];
    }

    dropped_one :
        (r : Bool × List ClauseId)
        → Unblocked m (negated_primes (c.clause_of id))
        → member id nec ≡ false
        → Removed nec ids r
        → Removed nec (id ∷ ids) r
    dropped_one r u free p = record {
      within = λ x h. member-tail x id ids (p.within x h);
      size = omega (arith, p.size);
      distinct = λ d. p.distinct d.1;
      kept = λ ended set cl x h k. elim (member-cons x id ids k) [
        | inl e ↦ absurd (cl id (subst (λ y. member y set ≡ true) (sym e) h) known_id u)
        | inr t ↦ p.kept ended set cl x h t
      ];
      lost = p.lost;
      necessary = λ ended x h k. elim (member-cons x id ids k) [
        | inl e ↦ cc (subst (λ y. member y nec ≡ true) (sym e) h, free)
        | inr t ↦ p.necessary ended x h t
      ];
    }

    stopped :
        Unblocked m (negated_primes (c.clause_of id))
        → member id nec ≡ true
        → Removed nec (id ∷ ids) (false, ids)
    stopped u held = record {
      within = λ x h. member-tail x id ids h;
      size = omega arith;
      distinct = λ d. d.1;
      kept = λ ended. absurd (cc ended);
      lost = λ ended set cl w. cl id (w id held) known_id u;
      necessary = λ ended. absurd (cc ended);
    }

  pub remove_sat_clauses-Removed :
      (nec ids : List ClauseId)
      → AllKnown c ids
      → Returns (remove_sat_clauses c m nec ids) (λ r. Removed nec ids r)
  unfolding remove_sat_clauses
  remove_sat_clauses-Removed nec [] k = (
    (true, []),
    refl,
    record {
      within = λ x h. h;
      size = omega arith;
      distinct = λ d. d;
      kept = λ ended set cl x h k. k;
      lost = λ ended. absurd (cc ended);
      necessary = λ ended x h k. k;
    },
  )
  remove_sat_clauses-Removed nec (id ∷ ids) k =
      let known_id = k id (member-head id ids) in
      let (b, sat_run, blocked) = negcp_sat-Returns m (c.clause_of id) (c.unprimed id known_id) in
      let (r, run, p) = remove_sat_clauses-Removed nec ids (λ x h. k x (member-tail x id ids h)) in
      elim (Bool-cases b) [
        | inl sat ↦ elim (Bool-cases (member id nec)) [
          | inl held ↦ (
            (false, ids),
            rw (sat_run, sat, held) refl,
            stopped nec id ids known_id (blocked sat) held,
          )
          | inr free ↦ (
            r,
            rw (sat_run, sat, free) run,
            dropped_one nec id ids known_id r (blocked sat) free p,
          )
        ]
        | inr unsat ↦
            ((r.0, id ∷ r.1), rw (sat_run, unsat, run) refl, kept_one nec id ids known_id r p)
      ]
