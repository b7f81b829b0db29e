-- ===== src/Sisi/Feasible/Passes.antt =====
-- One pass of `refineFEAS` of src/pme/minimization/sisi.cpp over the feasible clauses.
use pme.Base.{
  ℕ, zero, suc, ◌+◌, ◌≤◌, ◌<◌, ◌≡◌, refl, subst, true, false, List, [], ◌∷◌, member, Within,
  member-nil, member-head, member-tail, member-cons, length, Returns, Bool-cases, inl, inr, ◌⊎◌,
  arith,
}
use pme.Base.Distinct.{Distinct, Distinct-length, set_insert, length-set_insert}
use pme.Literal.{ClauseId}
use pme.Checker.{Checker, holds_lem, AllKnown, IsInductive, holds}
use pme.Mis.Pass.{Consecution-cases}
use pme.Sisi.Feasible.{tail_of, feas_pass}
use pme.Sisi.Feasible.Growing.{Growing, grown-Growing, new_feas-Returns, tail_of-Within}

module _ (c : Checker) (nec all : List ClauseId) (k : AllKnown c all) (z : Distinct all)
    (ind : IsInductive c all) where
  -- What a pass leaves: more supported clauses, unless all it met were supported before.
  pub record Passed (feas inds rest : List ClauseId) (r : List ClauseId × List ClauseId × c.State)
      : Type 0 where
    pub growing : Growing c nec all r.0 r.1
    pub counted : length inds ≤ length r.1
    pub progress : (length inds < length r.1) ⊎ Within rest inds

  skip-Passed :
      (feas inds rest : List ClauseId) (cls : ClauseId)
      (r : List ClauseId × List ClauseId × c.State)
      → member cls inds ≡ true
      → Passed feas inds rest r
      → Passed feas inds (cls ∷ rest) r
  skip-Passed feas inds rest cls r h p = record {
    growing = p.growing;
    counted = p.counted;
    progress = elim p.progress [
      | inl l ↦ inl l
      | inr w ↦ inr (λ x j. elim (member-cons x cls rest j) [
        | inl e ↦ subst (λ y. member y inds ≡ true) e h
        | inr t ↦ w x t
      ])
    ];
  }

  new-Passed :
      (feas more inds rest more_rest : List ClauseId) (cls : ClauseId)
      (r : List ClauseId × List ClauseId × c.State)
      → member cls inds ≡ false
      → Passed more (set_insert cls inds) more_rest r
      → Passed feas inds rest r
  new-Passed feas more inds rest more_rest cls r h p =
      let size = length-set_insert cls inds h in
      record {
        growing = p.growing;
        counted = omega (arith, size, p.counted);
        progress = inl (omega (arith, size, p.counted));
      }

  supported-Growing :
      (feas inds : List ClauseId) (cls : ClauseId) (s : c.State)
      → Growing c nec all feas inds
      → member cls feas ≡ true
      → (c.solve feas cls s).0 ≡ holds
      → Growing c nec all feas (set_insert cls inds)
  supported-Growing feas inds cls s g here good =
      let kn : AllKnown c feas = λ x j. k x (g.feas_within x j) in
      grown-Growing c nec all k z ind feas feas inds cls g g.feas_distinct g.feas_within (λ x j. j)
        here (holds_lem c feas cls s kn (kn cls here) good)

  pub feas_pass-Passed :
      (fuel : ℕ) (feas inds rest : List ClauseId) (s : c.State)
      → Growing c nec all feas inds
      → Within rest feas
      → length all ≤ fuel + length inds
      → Returns (feas_pass c fuel all feas inds rest s) (λ r. Passed feas inds rest r)
  unfolding feas_pass
  feas_pass-Passed fuel feas inds [] s g w f = (
    (feas, inds, s),
    refl,
    record { growing = g; counted = omega arith; progress = inr (λ x h. absurd (member-nil x h)) },
  )
  feas_pass-Passed zero feas inds (cls ∷ rest) s g w f = elim (Bool-cases (member cls inds)) [
    | inl h ↦
        let (r, run, p) =
          feas_pass-Passed zero feas inds rest s g (λ x j. w x (member-tail x cls rest j)) f in
        (r, rw (feas_pass, h) run, skip-Passed feas inds rest cls r h p)
    | inr h ↦
        let here : member cls feas ≡ true = w cls (member-head cls rest) in
        elim (Consecution-cases (c.solve feas cls s).0) [
          | inl good ↦
              let (r, run, p) =
                feas_pass-Passed zero feas (set_insert cls inds) rest (c.solve feas cls s).1
                  (supported-Growing feas inds cls s g here good)
                  (λ x j. w x (member-tail x cls rest j))
                  (omega (arith, length-set_insert cls inds h)) in
              (
                r,
                rw (feas_pass, h, good) run,
                new-Passed feas feas inds (cls ∷ rest) rest cls r h p,
              )
          | inr (m, bad) ↦
              let (grown, g_run, g') =
                new_feas-Returns c nec all k z ind feas inds cls s (c.solve feas cls s).1 m g here
                  bad in
              let bound =
                Distinct-length (set_insert cls inds) all g'.inds_distinct
                  (λ x j. g'.feas_within x (g'.inds_within x j)) in
              absurd (omega (arith, bound, length-set_insert cls inds h))
        ]
  ]
  feas_pass-Passed (suc fuel) feas inds (cls ∷ rest) s g w f = elim (Bool-cases (member cls inds)) [
    | inl h ↦
        let (r, run, p) =
          feas_pass-Passed (suc fuel) feas inds rest s g (λ x j. w x (member-tail x cls rest j))
            f in
        (r, rw (feas_pass, h) run, skip-Passed feas inds rest cls r h p)
    | inr h ↦
        let here : member cls feas ≡ true = w cls (member-head cls rest) in
        elim (Consecution-cases (c.solve feas cls s).0) [
          | inl good ↦
              let (r, run, p) =
                feas_pass-Passed (suc fuel) feas (set_insert cls inds) rest (c.solve feas cls s).1
                  (supported-Growing feas inds cls s g here good)
                  (λ x j. w x (member-tail x cls rest j))
                  (omega (arith, length-set_insert cls inds h)) in
              (
                r,
                rw (feas_pass, h, good) run,
                new-Passed feas feas inds (cls ∷ rest) rest cls r h p,
              )
          | inr (m, bad) ↦
              let (grown, g_run, g') =
                new_feas-Returns c nec all k z ind feas inds cls s (c.solve feas cls s).1 m g here
                  bad in
              let (r, run, p) =
                feas_pass-Passed fuel grown.0 (set_insert cls inds) (tail_of grown.0) grown.1 g'
                  (tail_of-Within grown.0) (omega (arith, length-set_insert cls inds h)) in
              (
                r,
                rw (feas_pass, h, bad, g_run) run,
                new-Passed feas grown.0 inds (cls ∷ rest) (tail_of grown.0) cls r h p,
              )
        ]
  ]
