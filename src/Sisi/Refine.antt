-- ===== src/Sisi/Refine.antt =====
-- `refineNEC` of src/pme/minimization/sisi.cpp: the necessary clauses that it finds.
use pme.Base.{
  ◌≡◌, refl, sym, subst, true, false, List, [], ◌∷◌, ◌↔◌, member, Within, member-nil, member-cons,
  Returns, Bool-cases, inl, inr,
}
use pme.Base.Sorting.{without}
use pme.Base.Distinct.{Distinct, set_insert-Distinct, without-Within, set_insert}
use pme.Literal.{ClauseId}
use pme.Checker.{Checker, AllKnown}
use pme.Sisi.{Sisi, is_empty_set, refine_nec_loop, refine_nec}
use pme.Sisi.Required.{IsSafe, Required, failed-Required, found-IsSafe, found-without}
use pme.Sisi.Kept.{keep_old, keep_new, keep_case}
use pme.Sisi.Minimize.{find_sis-IsMis}

-- What is found on the way: the necessary clauses so far are required.
abbrev pub AreRequired : Checker → List ClauseId → List ClauseId → List ClauseId → Type 0
AreRequired c nec feas now = (x : ClauseId) → member x now ≡ true → Required c nec feas x

record Refined (c : Checker) (nec feas now ids after : List ClauseId) : Type 0 where
  grown : Within now after
  required : AreRequired c nec feas after
  distinct : Distinct now → Distinct after
  complete : (x : ClauseId) → member x ids ≡ true → Required c nec feas x → member x after ≡ true

module _ (c : Checker) (nec feas : List ClauseId) (kn : AllKnown c feas) where
  -- A set with the necessary clauses has those found so far.
  grown-IsSafe :
      (now set : List ClauseId)
      → AreRequired c nec feas now
      → IsSafe c nec feas set
      → IsSafe c now feas set
  grown-IsSafe now set q s = record {
    inductive = s.inductive;
    within = s.within;
    safe = λ x h. q x h set s;
  }

  shrunk-IsSafe :
      (now set : List ClauseId) → Within nec now → IsSafe c now feas set → IsSafe c nec feas set
  shrunk-IsSafe now set w s = record {
    inductive = s.inductive;
    within = s.within;
    safe = λ x h. s.safe x (w x h);
  }

  insert-AreRequired :
      (now : List ClauseId) (id : ClauseId)
      → AreRequired c nec feas now
      → Required c now feas id
      → AreRequired c nec feas (set_insert id now)
  insert-AreRequired now id q r x h set s = elim (keep_case now id x h) [
    | inl e ↦ subst (λ y. member y set ≡ true) e (r set (grown-IsSafe now set q s))
    | inr t ↦ q x t set s
  ]

  cons-Refined :
      (now mid ids after : List ClauseId) (id : ClauseId)
      → Within now mid
      → (Distinct now → Distinct mid)
      → (Required c nec feas id → member id after ≡ true)
      → Refined c nec feas mid ids after
      → Refined c nec feas now (id ∷ ids) after
  cons-Refined now mid ids after id w u here d = record {
    grown = λ x h. d.grown x (w x h);
    required = d.required;
    distinct = λ z. d.distinct (u z);
    complete = λ x h q. elim (member-cons x id ids h) [
      | inl e ↦
          subst (λ y. member y after ≡ true) e (here (subst (λ y. Required c nec feas y) (sym e) q))
      | inr t ↦ d.complete x t q
    ];
  }

  refine_nec_loop-Refined :
      (now ids : List ClauseId) (s : c.State)
      → Within nec now
      → AreRequired c nec feas now
      → Returns (refine_nec_loop c feas now ids s) (λ r. Refined c nec feas now ids r.0)
  unfolding refine_nec_loop
  refine_nec_loop-Refined now [] s w q = (
    (now, s),
    refl,
    record {
      grown = λ x h. h;
      required = q;
      distinct = λ z. z;
      complete = λ x h r. absurd (member-nil x h);
    },
  )
  refine_nec_loop-Refined now (id ∷ ids) s w q = elim (Bool-cases (member id now)) [
    | inl h ↦
        let (r, run, d) = refine_nec_loop-Refined now ids s w q in
        (
          r,
          rw (refine_nec_loop, h) run,
          cons-Refined now now ids r.0 id (λ x j. j) (λ z. z) (λ t. d.grown id h) d,
        )
    | inr h ↦
        let (f, f_run, e) =
          find_sis-IsMis c now (without id feas) s (λ x j. kn x (without-Within id feas x j)) in
        elim (Bool-cases f.0) [
          | inl found ↦
              let (r, run, d) = refine_nec_loop-Refined now ids f.2 w q in
              (
                r,
                rw (refine_nec_loop, h, f_run, found) run,
                cons-Refined now now ids r.0 id (λ x j. j) (λ z. z)
                    (λ t. absurd (
                      found-without c now feas id f e
                        (t f.1 (shrunk-IsSafe now f.1 w (found-IsSafe c now feas id f e found)))))
                    d,
              )
          | inr lost ↦
              let (r, run, d) =
                refine_nec_loop-Refined (set_insert id now) ids f.2
                  (λ x j. keep_old now id x (w x j))
                  (insert-AreRequired now id q (failed-Required c now feas id f e lost)) in
              (
                r,
                rw (refine_nec_loop, h, f_run, lost) run,
                cons-Refined now (set_insert id now) ids r.0 id (keep_old now id)
                    (set_insert-Distinct id now) (λ t. d.grown id (keep_new now id)) d,
              )
        ]
  ]

-- What `refineNEC` leaves: the old necessary clauses, and of the feasible ones those that every inductive
-- subset with the old necessary clauses has.
pub record IsRefined (c : Checker) (x y : Sisi) : Type 0 where
  pub feas : y.feas ≡ x.feas
  pub all_clauses : y.all_clauses ≡ x.all_clauses
  pub grown : Within x.nec y.nec
  pub required : (id : ClauseId) → member id y.nec ≡ true → Required c x.nec x.feas id
  pub distinct : Distinct x.nec → Distinct y.nec
  pub exact :
      (id : ClauseId)
      → member id x.feas ≡ true
      → (member id y.nec ≡ true) ↔ Required c x.nec x.feas id

module _ (c : Checker) (x : Sisi) (s : c.State) where
  -- On a set of known clauses that is not empty, `refineNEC` comes to an end and changes only the
  -- necessary clauses: it keeps the old ones, and a feasible clause is necessary afterwards exactly if every
  -- inductive subset that has the old ones has it.
  pub refine_nec-IsRefined :
      AllKnown c x.feas
      → is_empty_set x.feas ≡ false
      → Returns (refine_nec c x s) (λ r. IsRefined c x r.0)
  unfolding refine_nec
  refine_nec-IsRefined kn some_feas =
      let (r, run, d) =
        refine_nec_loop-Refined c x.nec x.feas kn x.nec x.feas s (λ y h. h)
          (λ y h set t. t.safe y h) in
      (
        (record x { nec = r.0 }, r.1),
        rw (some_feas, run) refl,
        record {
          feas = refl;
          all_clauses = refl;
          grown = d.grown;
          required = d.required;
          distinct = d.distinct;
          exact = λ id h. (d.required id, d.complete id h);
        },
      )
