-- ===== src/Sisi/Feasible/Growing.antt =====
-- The sets that `refineFEAS` of src/pme/minimization/sisi.cpp keeps, and one step at which they grow.
use pme.Base.{
  ◌≡◌, refl, subst, true, leb, ltb, List, [], ◌∷◌, some, member, Within, member-nil, member-head,
  member-tail, member-cons, length, Returns, Bool-cases, inl, inr, arith,
}
use pme.Base.Distinct.{Distinct, Distinct-length, Distinct-onto, set_insert, set_insert-Distinct}
use pme.Literal.{ClauseId}
use pme.Checker.{Assignment, Checker, AllKnown, IsInductive, fails, complete, complete-Completes}
use pme.Support.{support_solve}
use pme.Support.Smaller.{
  Enough, Enough-mono, IsSupport, support_solve-cases, support_solve-fails,
  find_minimal_support-IsSupport,
}
use pme.Sisi.Kept.{keep_old, keep_new, keep_case}
use pme.Sisi.Feasible.{insert_all, tail_of, written, minimize_support, new_feas}

pub insert_all-old : (ids set : List ClauseId) → Within set (insert_all ids set)
unfolding insert_all
insert_all-old [] set x h = h
insert_all-old (id ∷ ids) set x h = insert_all-old ids (set_insert id set) x (keep_old set id x h)

insert_all-new : (ids set : List ClauseId) → Within ids (insert_all ids set)
unfolding insert_all
insert_all-new [] set x h = absurd (member-nil x h)
insert_all-new (id ∷ ids) set x h = elim (member-cons x id ids h) [
  | inl e ↦
      subst (λ y. member y (insert_all ids (set_insert id set)) ≡ true) e
        (insert_all-old ids (set_insert id set) id (keep_new set id))
  | inr t ↦ insert_all-new ids (set_insert id set) x t
]

insert_all-Distinct : (ids set : List ClauseId) → Distinct set → Distinct (insert_all ids set)
unfolding insert_all
insert_all-Distinct [] set d = d
insert_all-Distinct (id ∷ ids) set d =
    insert_all-Distinct ids (set_insert id set) (set_insert-Distinct id set d)

insert_all-Within :
    (ids set all : List ClauseId)
    → Within ids all
    → Within set all
    → Within (insert_all ids set) all
unfolding insert_all
insert_all-Within [] set all v w = w
insert_all-Within (id ∷ ids) set all v w =
    insert_all-Within ids (set_insert id set) all (λ x h. v x (member-tail x id ids h))
      (λ x h. elim (keep_case set id x h) [
        | inl e ↦ subst (λ y. member y all ≡ true) e (v id (member-head id ids))
        | inr t ↦ w x t
      ])

pub tail_of-Within : (xs : List ClauseId) → Within (tail_of xs) xs
unfolding tail_of
tail_of-Within [] x h = h
tail_of-Within (y ∷ ys) x h = member-tail x y ys h

-- The state of the loops: `inds` are feasible clauses that the feasible ones support.
pub record Growing (c : Checker) (nec all feas inds : List ClauseId) : Type 0 where
  pub feas_distinct : Distinct feas
  pub feas_within : Within feas all
  pub nec_within : Within nec feas
  pub inds_distinct : Distinct inds
  pub inds_within : Within inds feas
  pub supported : (x : ClauseId) → member x inds ≡ true → Enough c feas x

module _ (c : Checker) (nec all : List ClauseId) (k : AllKnown c all) (z : Distinct all)
    (ind : IsInductive c all) where
  pub all-Enough : (cls : ClauseId) → member cls all ≡ true → Enough c all cls
  all-Enough cls h v t fr e = ind cls h v t fr

  -- A larger set takes the place of the feasible clauses, and a clause that it supports is inserted.
  pub grown-Growing :
      (feas more inds : List ClauseId) (cls : ClauseId)
      → Growing c nec all feas inds
      → Distinct more
      → Within more all
      → Within feas more
      → member cls more ≡ true
      → Enough c more cls
      → Growing c nec all more (set_insert cls inds)
  grown-Growing feas more inds cls g d w up here e = record {
    feas_distinct = d;
    feas_within = w;
    nec_within = λ x h. up x (g.nec_within x h);
    inds_distinct = set_insert-Distinct cls inds g.inds_distinct;
    inds_within = λ x h. elim (keep_case inds cls x h) [
      | inl q ↦ subst (λ y. member y more ≡ true) q here
      | inr t ↦ up x (g.inds_within x t)
    ];
    supported = λ x h. elim (keep_case inds cls x h) [
      | inl q ↦ subst (λ y. Enough c more y) q e
      | inr t ↦ Enough-mono c feas more x up (g.supported x t)
    ];
  }

  -- From where the checker says that a clause fails, the set is not enough.
  fails-Enough :
      (frame : List ClauseId) (cls : ClauseId) (s : c.State) (m : Assignment)
      → AllKnown c frame
      → member cls frame ≡ true
      → (c.solve frame cls s).0 ≡ fails m
      → ¬ Enough c frame cls
  fails-Enough frame cls s m kn here h e =
      let v = complete m [] in
      let (t, fr, broken) =
        c.fails_lem frame cls s m kn (kn cls here) h v (complete-Completes m []) in
      e v t fr (fr cls here) broken

  pub all_support :
      (cls : ClauseId) (s : c.State)
      → member cls all ≡ true
      → (support : List ClauseId) × ((support_solve c all cls s).0 ≡ some support)
        × Within support all
        × (Distinct all → Distinct support)
        × Enough c support cls
  all_support cls s here = elim (support_solve-cases c cls (k cls here) all s k) [
    | inl h ↦
        let (m, f) = support_solve-fails c cls (k cls here) all s h in
        absurd (fails-Enough all cls s m k here f (all-Enough cls here))
    | inr d ↦ d
  ]

  minimize_support-Returns :
      (support : List ClauseId) (cls : ClauseId) (s : c.State)
      → member cls all ≡ true
      → Within support all
      → Distinct support
      → Returns (minimize_support c support cls s) (λ r. IsSupport c cls support r.0)
  unfolding minimize_support
  minimize_support-Returns support cls s here w d =
      let (r, run, p) =
        find_minimal_support-IsSupport c cls (k cls here) support s (λ x h. k x (w x h)) d in
      let small : leb (length r.0) (length support) ≡ true =
        ground (arith, Distinct-length r.0 support p.distinct p.within) in
      (r, rw (run, small) refl, p)

  -- A clause that fails has a support that is not feasible yet.
  pub new_feas-Returns :
      (feas inds : List ClauseId) (cls : ClauseId) (s s' : c.State) (m : Assignment)
      → Growing c nec all feas inds
      → member cls feas ≡ true
      → (c.solve feas cls s).0 ≡ fails m
      → Returns (new_feas c all feas cls s') (λ r. Growing c nec all r.0 (set_insert cls inds))
  unfolding new_feas written
  new_feas-Returns feas inds cls s s' m g here h =
      let (support, q, within, distinct, enough) = all_support cls s' (g.feas_within cls here) in
      let (r, run, p) =
        minimize_support-Returns support cls (support_solve c all cls s').1 (g.feas_within cls here)
          within (distinct z) in
      let more = insert_all r.0 feas in
      elim (Bool-cases (ltb (length feas) (length more))) [
        | inl larger ↦ (
          (more, r.1),
          rw (q, run, larger) refl,
          grown-Growing feas more inds cls g (insert_all-Distinct r.0 feas g.feas_distinct)
              (insert_all-Within r.0 feas all (λ x j. within x (p.within x j)) g.feas_within)
              (insert_all-old r.0 feas) (insert_all-old r.0 feas cls here)
              (Enough-mono c r.0 more cls (insert_all-new r.0 feas) (p.enough enough)),
        )
        | inr same ↦
            let onto : Within more feas =
              Distinct-onto feas more g.feas_distinct (insert_all-old r.0 feas) (ground arith) in
            absurd (
              fails-Enough feas cls s m (λ x j. k x (g.feas_within x j)) here h
                (Enough-mono c r.0 feas cls (λ x j. onto x (insert_all-new r.0 feas x j))
                  (p.enough enough)))
      ]
