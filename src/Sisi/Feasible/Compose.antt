-- ===== src/Sisi/Feasible/Compose.antt =====
-- The steps of `SISIMinimizer::doMinimize` of src/pme/minimization/sisi.cpp one after the other.
use pme.Base.{
  ◌≡◌, refl, sym, subst, true, false, List, [], ◌∷◌, member, Within, member-nil, Returns,
}
use pme.Base.Distinct.{Distinct}
use pme.Literal.{ClauseId}
use pme.Checker.{Checker, AllKnown, IsInductive}
use pme.Sisi.{Sisi, is_empty_set}
use pme.Sisi.Required.{IsSafe, IsSafe-widen}
use pme.Sisi.Kept.{IsMsis}
use pme.Sisi.Minimize.{brute_force_minimize-IsMsis}
use pme.Sisi.Refine.{IsRefined, refine_nec-IsRefined}
use pme.Sisi.Feasible.{refine_feas, sisi_minimize}
use pme.Sisi.Feasible.Fixpoint.{IsFeasible, refine_feas-IsFeasible}

not_empty : (id : ClauseId) (xs : List ClauseId) → member id xs ≡ true → is_empty_set xs ≡ false
unfolding is_empty_set
not_empty id [] h = absurd (member-nil id h)
not_empty id (x ∷ xs) h = refl

-- The clause sets that a minimizer starts with: the whole proof is feasible, known and inductive.
pub record IsReady (c : Checker) (x : Sisi) : Type 0 where
  pub known : AllKnown c x.all_clauses
  pub all_distinct : Distinct x.all_clauses
  pub inductive : IsInductive c x.all_clauses
  pub to : Within x.feas x.all_clauses
  pub from : Within x.all_clauses x.feas
  pub nec_distinct : Distinct x.nec
  pub nec_within : Within x.nec x.feas
  pub property : ClauseId
  pub has_property : member property x.nec ≡ true

feas-IsSafe : (c : Checker) (x : Sisi) → IsReady c x → IsSafe c x.nec x.feas x.feas
feas-IsSafe c x d = record {
  inductive = λ id h v t fr. d.inductive id (d.to id h) v t (λ y j. fr y (d.from y j));
  within = λ y h. h;
  safe = d.nec_within;
}

-- A minimal set of the refined sets is one of the original ones.
refined-IsMsis :
    (c : Checker) (x a b e : Sisi) (set : List ClauseId)
    → IsReady c x
    → IsRefined c x a
    → IsFeasible c a b
    → IsRefined c b e
    → IsMsis c e.nec e.feas set
    → IsMsis c x.nec x.feas set
refined-IsMsis c x a b e set d ra fb re m =
    let up : Within set x.feas = λ y h. d.from y (
      subst (λ xs. member y xs ≡ true) ra.all_clauses
        (fb.within y (subst (λ xs. member y xs ≡ true) re.feas (m.safe.within y h)))) in
    let to_b : Within set b.feas =
      λ y h. subst (λ xs. member y xs ≡ true) re.feas (m.safe.within y h) in
    let grown : Within x.nec e.nec =
      λ y h. re.grown y (subst (λ xs. member y xs ≡ true) (sym fb.nec) (ra.grown y h)) in
    record {
      safe = record {
        inductive = m.safe.inductive;
        within = up;
        safe = λ y h. m.safe.safe y (grown y h);
      };
      minimal = λ less s.
          let in_x : IsSafe c x.nec x.feas less = IsSafe-widen c x.nec x.feas set less up s in
          let in_b : IsSafe c b.nec b.feas less = record {
            inductive = s.inductive;
            within = λ y h. to_b y (s.within y h);
            safe = λ y h. ra.required y (subst (λ xs. member y xs ≡ true) fb.nec h) less in_x;
          } in
          m.minimal less (record {
            inductive = s.inductive;
            within = s.within;
            safe = λ y h. re.required y h less in_b;
          });
    }

module _ (c : Checker) (x : Sisi) (s : c.State) (d : IsReady c x) where
  after_nec :
      (a : Sisi) (t : c.State)
      → IsRefined c x a
      → Returns (refine_feas c a t) (λ r. IsFeasible c a r.0)
  after_nec a t ra =
      let same : x.all_clauses ≡ a.all_clauses = sym ra.all_clauses in
      refine_feas-IsFeasible c a t (subst (AllKnown c) same d.known)
        (subst Distinct same d.all_distinct) (subst (IsInductive c) same d.inductive)
        (ra.distinct d.nec_distinct)
        (λ y h.
          subst (λ xs. member y xs ≡ true) same
            (d.to y (ra.required y h x.feas (feas-IsSafe c x d))))
        (not_empty d.property a.nec (ra.grown d.property d.has_property))

  -- From clause sets in which the whole proof is feasible, known, without repetition and inductive, and the
  -- necessary clauses are some of it: refining the necessary clauses, then the feasible ones, then the necessary
  -- ones, and minimizing, comes to an end without a failed assertion. The result is an inductive subset with the
  -- necessary clauses, of which no proper subset is one.
  pub sisi_minimize-IsMsis : Returns (sisi_minimize c x s) (λ r. IsMsis c x.nec x.feas r.0)
  unfolding sisi_minimize
  sisi_minimize-IsMsis =
      let kn : AllKnown c x.feas = λ y h. d.known y (d.to y h) in
      let (a, a_run, ra) =
        refine_nec-IsRefined c x s kn
          (not_empty d.property x.feas (d.nec_within d.property d.has_property)) in
      let (b, b_run, fb) = after_nec a.0 a.1 ra in
      let b_all : Within b.0.feas x.all_clauses =
        λ y h. subst (λ xs. member y xs ≡ true) ra.all_clauses (fb.within y h) in
      let b_known : AllKnown c b.0.feas = λ y h. d.known y (b_all y h) in
      let held : member d.property b.0.feas ≡ true =
        fb.safe d.property (ra.grown d.property d.has_property) in
      let (e, e_run, re) =
        refine_nec-IsRefined c b.0 b.1 b_known (not_empty d.property b.0.feas held) in
      let same : b.0.feas ≡ e.0.feas = sym re.feas in
      let whole : IsSafe c b.0.nec b.0.feas b.0.feas = record {
        inductive = fb.inductive;
        within = λ y h. h;
        safe = λ y h. fb.safe y (subst (λ xs. member y xs ≡ true) fb.nec h);
      } in
      let (r, r_run, m) =
        brute_force_minimize-IsMsis c e.0 e.1 (subst (AllKnown c) same b_known)
          (subst Distinct same fb.distinct) (subst (IsInductive c) same fb.inductive)
          (re.distinct (subst Distinct (sym fb.nec) (ra.distinct d.nec_distinct)))
          (λ y h. subst (λ xs. member y xs ≡ true) same (re.required y h b.0.feas whole)) in
      (r, rw (a_run, b_run, e_run) r_run, refined-IsMsis c x a.0 b.0 e.0 r.0 d ra fb re m)
