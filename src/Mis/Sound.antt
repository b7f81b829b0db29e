-- ===== src/Mis/Sound.antt =====
-- `findSafeMIS` of src/pme/util/find_safe_mis.cpp and `isInductive` of src/pme/engine/consecution_checker.cpp: what their
-- answers mean.
use pme.Base.{
  ℕ, zero, suc, ◌<◌, ◌≡◌, refl, sym, subst, Bool, true, false, List, [], ◌∷◌, member, Within,
  member-nil, member-head, member-tail, member-cons, length, Returns, Bool-cases, inl, inr, ◌↔◌,
  arith,
}
use pme.Base.Distinct.{Distinct}
use pme.Literal.{ClauseId}
use pme.Checker.{holds_lem, Checker, AllKnown, IsInductive, complete, complete-Completes}
use pme.Mis.{contains_all_of, is_inductive_loop, is_inductive, mis_loop}
use pme.Mis.Pass.{Passes, Consecution-cases, mis_pass-Passed}

pub contains_all_of-Within :
    (vec props : List ClauseId) → (contains_all_of vec props ≡ true) ↔ Within props vec
unfolding contains_all_of
contains_all_of-Within vec [] = (λ e x h. absurd (member-nil x h), λ w. refl)
contains_all_of-Within vec (id ∷ props) = elim (Bool-cases (member id vec)) [
  | inl h ↦
      let (to, from) = contains_all_of-Within vec props in
      rw h (
        λ e x k. elim (member-cons x id props k) [
          | inl q ↦ subst (λ y. member y vec ≡ true) q h
          | inr t ↦ to e x t
        ],
        λ w. from (λ x k. w x (member-tail x id props k)),
      )
  | inr h ↦ rw h (λ e. absurd (cc e), λ w. cc (w id (member-head id props), h))
]

module _ (c : Checker) where
  is_inductive_loop-exact :
      (frame ids : List ClauseId) (s : c.State)
      → AllKnown c frame
      → Within ids frame
      → ((is_inductive_loop c frame ids s).0 ≡ true)
        ↔ ((x : ClauseId) → member x ids ≡ true → Passes c frame x)
  unfolding is_inductive_loop
  is_inductive_loop-exact frame [] s k w = (λ e x h. absurd (member-nil x h), λ f. refl)
  is_inductive_loop-exact frame (id ∷ ids) s k w =
      let here = w id (member-head id ids) in
      let (to, from) =
        is_inductive_loop-exact frame ids (c.solve frame id s).1 k
          (λ x h. w x (member-tail x id ids h)) in
      elim (Consecution-cases (c.solve frame id s).0) [
        | inl h ↦
            rw (is_inductive_loop, h)
              (
                λ e x j. elim (member-cons x id ids j) [
                  | inl q ↦
                      subst (λ y. Passes c frame y) q
                        (λ v t fr. holds_lem c frame id s k (k id here) h v t fr (fr id here))
                  | inr t ↦ to e x t
                ],
                λ f. from (λ x j. f x (member-tail x id ids j)),
              )
        | inr (m, h) ↦
            let v = complete m [] in
            let (t, fr, broken) =
              c.fails_lem frame id s m k (k id here) h v (complete-Completes m []) in
            rw (is_inductive_loop, h)
              (λ e. absurd (cc e), λ f. absurd (f id (member-head id ids) v t fr broken))
      ]

  -- On clauses that the checker knows, `isInductive` answers whether every clause of the frame holds
  -- after each step from where the whole frame holds.
  pub is_inductive-exact :
      (frame : List ClauseId) (s : c.State)
      → AllKnown c frame
      → ((is_inductive c frame s).0 ≡ true) ↔ IsInductive c frame
  unfolding is_inductive
  is_inductive-exact frame s k = is_inductive_loop-exact frame frame s k (λ x h. h)

-- What `findSafeMIS` promises: with `true` the largest inductive subset, which has the necessary clauses,
-- and with `false` that no inductive subset has them.
pub record IsMis (c : Checker) (vec nec : List ClauseId) (r : Bool × List ClauseId × c.State)
    : Type 0 where
  pub within : Within r.1 vec
  pub distinct : Distinct vec → Distinct r.1
  pub inductive : r.0 ≡ true → IsInductive c r.1
  pub safe : r.0 ≡ true → Within nec r.1
  pub largest :
      r.0 ≡ true → (set : List ClauseId) → IsInductive c set → Within set vec → Within set r.1
  pub none :
      r.0 ≡ false → (set : List ClauseId) → IsInductive c set → Within set vec → ¬ Within nec set

module _ (c : Checker) where
  pub mis_loop-IsMis :
      (fuel : ℕ) (nec vec : List ClauseId) (s : c.State)
      → AllKnown c vec
      → Within nec vec
      → length vec < fuel
      → Returns (mis_loop c fuel nec vec s) (λ r. IsMis c vec nec r)
  unfolding mis_loop
  mis_loop-IsMis zero nec vec s k w f = absurd (omega arith)
  mis_loop-IsMis (suc fuel) nec vec s k w f =
      let (r, run, p) =
        mis_pass-Passed c nec (length vec) vec vec false s k (λ x h. h) (omega arith) in
      elim (Bool-cases r.maybe) [
        | inl may ↦ elim (Bool-cases r.removed) [
          | inl again ↦
              let (q, q_run, d) =
                mis_loop-IsMis fuel nec r.vec r.state (λ x h. k x (p.within x h))
                  (p.necessary may w) (omega (arith, p.progress may again refl)) in
              (
                q,
                rw (run, may, again) q_run,
                record {
                  within = λ x h. p.within x (d.within x h);
                  distinct = λ z. d.distinct (p.distinct z);
                  inductive = d.inductive;
                  safe = d.safe;
                  largest = λ e set ind part. d.largest e set ind (p.kept may set ind part);
                  none = λ e set ind part. d.none e set ind (p.kept may set ind part);
                },
              )
          | inr still ↦
              let (same, passes) = p.stable may still in
              (
                (true, r.vec, r.state),
                rw (run, may, still) refl,
                record {
                  within = p.within;
                  distinct = p.distinct;
                  inductive = λ e.
                      subst (λ xs. IsInductive c xs) (sym same) (λ x h v t fr. passes x h v t fr);
                  safe = λ e. p.necessary may w;
                  largest = λ e. p.kept may;
                  none = λ e. absurd (cc e);
                },
              )
        ]
        | inr lost ↦ (
          (false, r.vec, r.state),
          rw (run, lost) refl,
          record {
            within = p.within;
            distinct = p.distinct;
            inductive = λ e. absurd (cc e);
            safe = λ e. absurd (cc e);
            largest = λ e. absurd (cc e);
            none = λ e. p.lost lost;
          },
        )
      ]
