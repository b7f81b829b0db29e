-- ===== src/Sisi/Minimize.antt =====
-- `bruteForceMinimize` of src/pme/minimization/sisi.cpp: it returns a minimal safe inductive subset.
use pme.Base.{
  ℕ, zero, suc, ◌<◌, ◌≤◌, ◌≡◌, refl, true, false, ltb, List, [], ◌∷◌, member, Within, member-head,
  length, Returns, Bool-cases, inl, inr, arith,
}
use pme.Base.Sorting.{without}
use pme.Base.Distinct.{Distinct, without-Within, without-Distinct, set_insert}
use pme.Literal.{ClauseId}
use pme.Checker.{Checker, AllKnown, IsInductive}
use pme.Mis.Sound.{IsMis}
use pme.Mis.Find.{find_safe_mis-IsMis}
use pme.Sisi.{Sisi, find_sis, brute_force_loop, brute_force_minimize}
use pme.Sisi.Required.{IsSafe, IsSafe-widen, failed-Required, found-IsSafe, found-smaller}
use pme.Sisi.Kept.{
  IsMsis, Kept, start-Kept, skip-Kept, insert-Kept, restart-Kept, Kept-full, Kept-IsMsis,
}

module _ (c : Checker) (nec : List ClauseId) where
  pub find_sis-IsMis :
      (vec : List ClauseId) (s : c.State)
      → AllKnown c vec
      → Returns (find_sis c nec vec s) (λ r. IsMis c vec nec r)
  unfolding find_sis
  find_sis-IsMis vec s k = find_safe_mis-IsMis c vec nec s k

  -- A minimal subset of a safe subset is minimal.
  IsMsis-from :
      (feas less set : List ClauseId)
      → IsSafe c nec feas less
      → IsMsis c nec less set
      → IsMsis c nec feas set
  IsMsis-from feas less set s d = record {
    safe = IsSafe-widen c nec feas less set s.within d.safe;
    minimal = d.minimal;
  }

  loop-IsMsis :
      (fuel : ℕ) (feas keep rest : List ClauseId) (s : c.State)
      → AllKnown c feas
      → Distinct feas
      → IsInductive c feas
      → Kept c nec feas keep rest
      → length feas ≤ fuel
      → Returns (brute_force_loop c fuel nec feas keep rest s) (λ r. IsMsis c nec feas r.0)
  unfolding brute_force_loop
  loop-IsMsis fuel feas keep [] s kn z ind k f =
      let full : ltb (length keep) (length feas) ≡ false =
        ground (arith, Kept-full c nec feas keep z k) in
      (
        (keep, s),
        rw (brute_force_loop, full) refl,
        Kept-IsMsis c nec feas keep [] k ind (ground arith),
      )
  loop-IsMsis zero feas keep (id ∷ rest) s kn z ind k f =
      let full : ltb (length keep) (length feas) ≡ false = ground arith in
      (
        (keep, s),
        rw (brute_force_loop, full) refl,
        Kept-IsMsis c nec feas keep (id ∷ rest) k ind (ground arith),
      )
  loop-IsMsis (suc fuel) feas keep (id ∷ rest) s kn z ind k f =
      elim (Bool-cases (ltb (length keep) (length feas))) [
        | inr full ↦ (
          (keep, s),
          rw (brute_force_loop, full) refl,
          Kept-IsMsis c nec feas keep (id ∷ rest) k ind (ground arith),
        )
        | inl more ↦ elim (Bool-cases (member id keep)) [
          | inl h ↦
              let (q, run, p) =
                loop-IsMsis (suc fuel) feas keep rest s kn z ind
                  (skip-Kept c nec feas keep rest id k h) f in
              (q, rw (brute_force_loop, more, h) run, p)
          | inr h ↦
              let (r, r_run, d) =
                find_sis-IsMis (without id feas) s (λ x j. kn x (without-Within id feas x j)) in
              elim (Bool-cases r.0) [
                | inl found ↦
                    let sub = found-IsSafe c nec feas id r d found in
                    let less : length r.1 < length feas =
                      found-smaller c nec feas id r d z (k.rest_within id (member-head id rest)) in
                    let smaller : ltb (length r.1) (length feas) ≡ true = ground arith in
                    let (q, run, p) =
                      loop-IsMsis fuel r.1 keep r.1 r.2 (λ x j. kn x (sub.within x j))
                        (d.distinct (without-Distinct id feas z)) (d.inductive found)
                        (restart-Kept c nec feas r.1 keep (id ∷ rest) k sub) (omega arith) in
                    (
                      q,
                      rw (brute_force_loop, more, h, r_run, found, smaller) run,
                      IsMsis-from feas r.1 q.0 sub p,
                    )
                | inr lost ↦
                    let (q, run, p) =
                      loop-IsMsis (suc fuel) feas (set_insert id keep) rest r.2 kn z ind
                        (insert-Kept c nec feas keep rest id k
                          (failed-Required c nec feas id r d lost))
                        f in
                    (q, rw (brute_force_loop, more, h, r_run, lost) run, p)
              ]
        ]
      ]

module _ (c : Checker) (x : Sisi) (s : c.State) where
  -- On an inductive set of known clauses without repetition, with necessary clauses among them,
  -- `bruteForceMinimize` comes to an end without a failed assertion or an access past the end of the
  -- vector, and returns an inductive subset with the necessary clauses, of which no proper subset is one.
  pub brute_force_minimize-IsMsis :
      AllKnown c x.feas
      → Distinct x.feas
      → IsInductive c x.feas
      → Distinct x.nec
      → Within x.nec x.feas
      → Returns (brute_force_minimize c x s) (λ r. IsMsis c x.nec x.feas r.0)
  unfolding brute_force_minimize
  brute_force_minimize-IsMsis kn z ind zn w =
      loop-IsMsis c x.nec (length x.feas) x.feas x.nec x.feas s kn z ind
        (start-Kept c x.nec x.feas zn w) (omega arith)
