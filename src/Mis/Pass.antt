-- ===== src/Mis/Pass.antt =====
-- The loops of `findSafeMIS` of src/pme/util/find_safe_mis.cpp: they come to an end, and keep every inductive subset.
use pme.Base.{
  ◌⊎◌, ℕ, zero, suc, ◌≤◌, ◌<◌, ◌≡◌, refl, subst, Bool, true, false, List, [], ◌∷◌, member, Within,
  member-nil, member-head, member-tail, member-cons, length, Returns, Bool-cases, inl, inr, arith,
}
use pme.Base.Sorting.{lower_bound, lower_bound-Within}
use pme.Base.Distinct.{Distinct}
use pme.Literal.{ClauseId}
use pme.Cnf.{Valuation, SatCube}
use pme.Checker.{
  holds_lem, Assignment, negated_primes, Consecution, holds, fails, Checker, AllKnown, IsInductive,
  FrameHolds,
}
use pme.Mis.{MisRun, mis_pass}
use pme.Mis.Failed.{Reduced, remove_failed-Reduced}

member-length : (x : ℕ) (xs : List ℕ) → member x xs ≡ true → 0 < length xs
member-length x [] h = absurd (member-nil x h)
member-length x (y ∷ ys) h = omega arith

pub Consecution-cases : (a : Consecution) → (a ≡ holds) ⊎ ((m : Assignment) × (a ≡ fails m))
Consecution-cases holds = inl refl
Consecution-cases (fails m) = inr (m, refl)

-- The clause holds after every step from where the whole set holds.
abbrev pub Passes : Checker → List ClauseId → ClauseId → Type 0
Passes c vec x =
    (v : Valuation)
    → c.Trans v
    → FrameHolds c.clause_of v vec
    → ¬ SatCube v (negated_primes (c.clause_of x))

-- What a pass over `rest` makes of the set.
pub record Passed (c : Checker) (nec vec rest : List ClauseId) (removed : Bool) (r : MisRun c.State)
    : Type 0 where
  pub within : Within r.vec vec
  pub size : length r.vec ≤ length vec
  pub distinct : Distinct vec → Distinct r.vec
  pub progress : r.maybe ≡ true → r.removed ≡ true → removed ≡ false → length r.vec < length vec
  pub grew : removed ≡ true → r.removed ≡ true
  pub kept :
      r.maybe ≡ true → (set : List ClauseId) → IsInductive c set → Within set vec → Within set r.vec
  pub lost :
      r.maybe ≡ false
      → (set : List ClauseId) → IsInductive c set
      → Within set vec
      → ¬ Within nec set
  pub necessary : r.maybe ≡ true → Within nec vec → Within nec r.vec
  pub stable :
      r.maybe ≡ true
      → r.removed ≡ false
      → (r.vec ≡ vec) × ((x : ClauseId) → member x rest ≡ true → Passes c vec x)

module _ (c : Checker) (nec : List ClauseId) where
  -- The clause passes, and the loop goes on with the next one.
  next-Passed :
      (vec : List ClauseId) (id : ClauseId) (rest : List ClauseId) (removed : Bool)
      (r : MisRun c.State)
      → Passes c vec id
      → Passed c nec vec rest removed r
      → Passed c nec vec (id ∷ rest) removed r
  next-Passed vec id rest removed r ok_here p = record {
    within = p.within;
    size = p.size;
    distinct = p.distinct;
    progress = p.progress;
    grew = p.grew;
    kept = p.kept;
    lost = p.lost;
    necessary = p.necessary;
    stable = λ e d. (
      (p.stable e d).0,
      λ x h. elim (member-cons x id rest h) [
        | inl q ↦ subst (λ y. Passes c vec y) q ok_here
        | inr t ↦ (p.stable e d).1 x t
      ],
    );
  }

  -- The clause and others are removed, and the loop goes on in what is left.
  again-Passed :
      (vec rest rest' : List ClauseId) (removed : Bool) (q : Bool × List ClauseId)
      (r : MisRun c.State)
      → Reduced c nec vec q
      → q.0 ≡ true
      → Passed c nec q.1 rest' true r
      → Passed c nec vec rest removed r
  again-Passed vec rest rest' removed q r d e p = record {
    within = λ x h. d.within x (p.within x h);
    size = omega (arith, d.size, p.size);
    distinct = λ z. p.distinct (d.distinct z);
    progress = λ a b z. omega (arith, d.smaller e, p.size);
    grew = λ z. p.grew refl;
    kept = λ a set ind part. p.kept a set ind (d.kept e set ind part);
    lost = λ a set ind part. p.lost a set ind (d.kept e set ind part);
    necessary = λ a w. p.necessary a (d.necessary e w);
    stable = λ a b. absurd (cc (p.grew refl, b));
  }

  -- A necessary clause is lost, and the loop stops.
  stopped-Passed :
      (vec rest : List ClauseId) (removed : Bool) (q : Bool × List ClauseId) (s : c.State)
      → Reduced c nec vec q
      → q.0 ≡ false
      → Passed c nec vec rest removed
          (record { maybe = false; vec = q.1; removed = true; state = s })
  stopped-Passed vec rest removed q s d e = record {
    within = d.within;
    size = d.size;
    distinct = d.distinct;
    progress = λ a. absurd (cc a);
    grew = λ z. refl;
    kept = λ a. absurd (cc a);
    lost = λ a. d.lost e;
    necessary = λ a. absurd (cc a);
    stable = λ a. absurd (cc a);
  }

  ended-Passed :
      (vec : List ClauseId) (removed : Bool) (s : c.State)
      → Passed c nec vec [] removed
          (record { maybe = true; vec = vec; removed = removed; state = s })
  ended-Passed vec removed s = record {
    within = λ x h. h;
    size = omega arith;
    distinct = λ z. z;
    progress = λ a b z. absurd (cc (b, z));
    grew = λ z. z;
    kept = λ a set ind part. part;
    lost = λ a. absurd (cc a);
    necessary = λ a w. w;
    stable = λ a b. (refl, λ x h. absurd (member-nil x h));
  }

  pub mis_pass-Passed :
      (fuel : ℕ) (vec rest : List ClauseId) (removed : Bool) (s : c.State)
      → AllKnown c vec
      → Within rest vec
      → length vec ≤ fuel
      → Returns (mis_pass c fuel nec vec rest removed s) (λ r. Passed c nec vec rest removed r)
  unfolding mis_pass
  mis_pass-Passed fuel vec [] removed s k w f = (_, refl, ended-Passed vec removed s)
  mis_pass-Passed zero vec (id ∷ rest) removed s k w f =
      absurd (omega (arith, member-length id vec (w id (member-head id rest))))
  mis_pass-Passed (suc fuel) vec (id ∷ rest) removed s k w f =
      let here = w id (member-head id rest) in
      let w' : Within rest vec = λ x h. w x (member-tail x id rest h) in
      elim (Consecution-cases (c.solve vec id s).0) [
        | inl h ↦
            let (r, run, p) =
              mis_pass-Passed (suc fuel) vec rest removed (c.solve vec id s).1 k w' f in
            (
              r,
              rw (mis_pass, h) run,
              next-Passed vec id rest removed r
                  (λ v allowed frame.
                    holds_lem c vec id s k (k id here) h v allowed frame (frame id here))
                  p,
            )
        | inr (m, h) ↦
            let (q, q_run, d) = remove_failed-Reduced c nec vec id s m k here h in
            elim (Bool-cases q.0) [
              | inl more ↦
                  let s' = (c.solve vec id s).1 in
                  let (r, run, p) =
                    mis_pass-Passed fuel q.1 (lower_bound id q.1) true s'
                      (λ x e. k x (d.within x e)) (lower_bound-Within id q.1)
                      (omega (arith, d.smaller more)) in
                  (
                    r,
                    rw (mis_pass, h, q_run, more) run,
                    again-Passed vec (id ∷ rest) (lower_bound id q.1) removed q r d more p,
                  )
              | inr stop ↦ (
                record { maybe = false; vec = q.1; removed = true; state = (c.solve vec id s).1 },
                rw (mis_pass, h, q_run, stop) refl,
                stopped-Passed vec (id ∷ rest) removed q (c.solve vec id s).1 d stop,
              )
            ]
      ]
