-- ===== src/Sisi/Feasible/Fixpoint.antt =====
-- `refineFEAS` of src/pme/minimization/sisi.cpp: the set that it builds is inductive.
use pme.Base.{
  ℕ, zero, suc, ◌+◌, ◌≤◌, ◌≡◌, refl, false, ltb, List, [], Within, member-nil, length, Returns,
  Bool-cases, inl, inr, arith,
}
use pme.Base.Distinct.{Distinct, Distinct-length, Distinct-onto}
use pme.Literal.{ClauseId}
use pme.Checker.{Checker, AllKnown, IsInductive}
use pme.Sisi.{Sisi, is_empty_set}
use pme.Sisi.Feasible.{feas_loop, refine_feas}
use pme.Sisi.Feasible.Growing.{Growing}
use pme.Sisi.Feasible.Passes.{feas_pass-Passed}

module _ (c : Checker) (nec all : List ClauseId) (k : AllKnown c all) (z : Distinct all)
    (ind : IsInductive c all) where
  feas_loop-Growing :
      (fuel : ℕ) (feas inds : List ClauseId) (s : c.State)
      → Growing c nec all feas inds
      → length all ≤ fuel + length inds
      → Returns
          (feas_loop c fuel all feas inds s)
          (λ r. (done : List ClauseId) × Growing c nec all r.0 done × Within r.0 done)
  unfolding feas_loop
  feas_loop-Growing zero feas inds s g f = elim (Bool-cases (ltb (length inds) (length feas))) [
    | inl more ↦ absurd (ground (arith, Distinct-length feas all g.feas_distinct g.feas_within))
    | inr full ↦ (
      (feas, s),
      rw (feas_loop, full) refl,
      (inds, g, Distinct-onto inds feas g.inds_distinct g.inds_within (ground arith)),
    )
  ]
  feas_loop-Growing (suc fuel) feas inds s g f =
      elim (Bool-cases (ltb (length inds) (length feas))) [
        | inl more ↦
            let (r, run, p) =
              feas_pass-Passed c nec all k z ind (length all) feas inds feas s g (λ x h. h)
                (omega arith) in
            elim p.progress [
              | inl l ↦
                  let (q, q_run, d) =
                    feas_loop-Growing fuel r.0 r.1 r.2 p.growing (omega (arith, l)) in
                  (q, rw (feas_loop, more, run) q_run, d)
              | inr w ↦ absurd (ground (arith, Distinct-length feas inds g.feas_distinct w))
            ]
        | inr full ↦ (
          (feas, s),
          rw (feas_loop, full) refl,
          (inds, g, Distinct-onto inds feas g.inds_distinct g.inds_within (ground arith)),
        )
      ]

-- What `refineFEAS` leaves: an inductive set of clauses with the necessary ones.
pub record IsFeasible (c : Checker) (x y : Sisi) : Type 0 where
  pub nec : y.nec ≡ x.nec
  pub all_clauses : y.all_clauses ≡ x.all_clauses
  pub inductive : IsInductive c y.feas
  pub distinct : Distinct y.feas
  pub within : Within y.feas x.all_clauses
  pub safe : Within x.nec y.feas

module _ (c : Checker) (x : Sisi) (s : c.State) where
  -- On known clauses without repetition that are inductive together, with necessary clauses among them, without
  -- repetition and at least one: `refineFEAS` comes to an end without a failed assertion. It changes only the
  -- feasible clauses, which are then an inductive set of the clauses, without repetition, with the necessary ones.
  pub refine_feas-IsFeasible :
      AllKnown c x.all_clauses
      → Distinct x.all_clauses
      → IsInductive c x.all_clauses
      → Distinct x.nec
      → Within x.nec x.all_clauses
      → is_empty_set x.nec ≡ false
      → Returns (refine_feas c x s) (λ r. IsFeasible c x r.0)
  unfolding refine_feas
  refine_feas-IsFeasible k z ind zn w some_nec =
      let (r, run, (done, g, onto)) =
        feas_loop-Growing c x.nec x.all_clauses k z ind (length x.all_clauses) x.nec [] s
          (record {
            feas_distinct = zn;
            feas_within = w;
            nec_within = λ y h. h;
            inds_distinct = tt;
            inds_within = λ y h. absurd (member-nil y h);
            supported = λ y h. absurd (member-nil y h);
          })
          (omega arith) in
      (
        (record x { feas = r.0 }, r.1),
        rw (some_nec, run) refl,
        record {
          nec = refl;
          all_clauses = refl;
          inductive = λ id h v t fr. g.supported id (onto id h) v t fr (fr id h);
          distinct = g.feas_distinct;
          within = g.feas_within;
          safe = g.nec_within;
        },
      )
