-- ===== src/Sisi/Minimal.antt =====
-- `isMinimal` of src/pme/minimization/sisi.cpp: what its answer means.
use pme.Base.{
  ◌<◌, ◌≡◌, refl, true, false, ltb, List, [], ◌∷◌, ◌↔◌, member, Within, member-head, length,
  Returns, Bool-cases, inl, inr, arith,
}
use pme.Base.Sorting.{without}
use pme.Base.Distinct.{Distinct, without-Within, set_insert}
use pme.Literal.{ClauseId}
use pme.Checker.{Checker, AllKnown}
use pme.Sisi.{Sisi, is_minimal_loop, is_minimal}
use pme.Sisi.Required.{IsSafe, failed-Required, found-IsSafe, found-smaller, found-without}
use pme.Sisi.Kept.{Kept, start-Kept, skip-Kept, insert-Kept, Kept-full, Kept-onto}
use pme.Sisi.Minimize.{find_sis-IsMis}

-- Every safe inductive subset is the whole set.
abbrev pub AllRequired : Checker → List ClauseId → List ClauseId → Type 0
AllRequired c nec feas = (less : List ClauseId) → IsSafe c nec feas less → Within feas less

module _ (c : Checker) (nec feas : List ClauseId) (kn : AllKnown c feas) (z : Distinct feas) where
  full-AllRequired :
      (keep rest : List ClauseId)
      → Kept c nec feas keep rest
      → ¬ (length keep < length feas)
      → (true ≡ true) ↔ AllRequired c nec feas
  full-AllRequired keep rest k l =
      (λ e less s x h. k.required x (Kept-onto c nec feas keep rest k l x h) less s, λ f. refl)

  is_minimal_loop-exact :
      (keep rest : List ClauseId) (s : c.State)
      → Kept c nec feas keep rest
      → Returns
          (is_minimal_loop c nec feas keep rest s)
          (λ r. (r.0 ≡ true) ↔ AllRequired c nec feas)
  unfolding is_minimal_loop
  is_minimal_loop-exact keep [] s k =
      let full : ltb (length keep) (length feas) ≡ false =
        ground (arith, Kept-full c nec feas keep z k) in
      ((true, s), rw (is_minimal_loop, full) refl, full-AllRequired keep [] k (ground arith))
  is_minimal_loop-exact keep (id ∷ rest) s k = elim (Bool-cases (ltb (length keep) (length feas))) [
    | inr full ↦ (
      (true, s),
      rw (is_minimal_loop, full) refl,
      full-AllRequired keep (id ∷ rest) k (ground arith),
    )
    | inl more ↦ elim (Bool-cases (member id keep)) [
      | inl h ↦
          let (q, run, p) =
            is_minimal_loop-exact keep rest s (skip-Kept c nec feas keep rest id k h) in
          (q, rw (is_minimal_loop, more, h) run, p)
      | inr h ↦
          let here : member id feas ≡ true = k.rest_within id (member-head id rest) in
          let (r, r_run, d) =
            find_sis-IsMis c nec (without id feas) s (λ x j. kn x (without-Within id feas x j)) in
          elim (Bool-cases r.0) [
            | inl found ↦
                let less = found-smaller c nec feas id r d z here in
                let smaller : ltb (length r.1) (length feas) ≡ true = ground arith in
                (
                  (false, r.2),
                  rw (is_minimal_loop, more, h, r_run, found, smaller) refl,
                  (
                    λ e. absurd (cc e),
                    λ f. absurd (
                        found-without c nec feas id r d
                          (f r.1 (found-IsSafe c nec feas id r d found) id here)),
                  ),
                )
            | inr lost ↦
                let (q, run, p) = is_minimal_loop-exact (set_insert id keep) rest r.2 (
                  insert-Kept c nec feas keep rest id k (failed-Required c nec feas id r d lost)) in
                (q, rw (is_minimal_loop, more, h, r_run, lost) run, p)
          ]
    ]
  ]

module _ (c : Checker) (x : Sisi) (s : c.State) where
  -- On known clauses without repetition, with the necessary ones among them and without repetition,
  -- `isMinimal` comes to an end without a failed assertion or an access past the end of the vector. It answers
  -- `true` exactly if no inductive subset with the necessary clauses leaves out a feasible clause.
  pub is_minimal-exact :
      AllKnown c x.feas
      → Distinct x.feas
      → Distinct x.nec
      → Within x.nec x.feas
      → Returns (is_minimal c x s) (λ r. (r.0 ≡ true) ↔ AllRequired c x.nec x.feas)
  unfolding is_minimal
  is_minimal-exact kn z zn w =
      is_minimal_loop-exact c x.nec x.feas kn z x.nec x.feas s (start-Kept c x.nec x.feas zn w)
