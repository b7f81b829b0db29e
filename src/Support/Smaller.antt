-- ===== src/Support/Smaller.antt =====
-- `findMinimalSupport` of src/pme/util/find_minimal_support.cpp: what it returns.
use pme.Base.{
  ℕ, zero, suc, ◌≤◌, ◌≡◌, refl, sym, subst, ◌∙◌, true, leb, List, [], ◌∷◌, none, some, member,
  Within, member-head, member-cons, length, Returns, Bool-cases, inl, inr, ◌⊎◌, arith, ◌==◌, ==_iff,
  All-member,
}
use pme.Base.Sorting.{
  sorted_list, upper_bound, IsSorted, sorted_list-IsSorted, member-sorted_list, length-sorted_list,
  upper_bound-Within, member-upper_bound, upper_bound-above, upper_bound-IsSorted,
}
use pme.Base.Distinct.{Distinct, Distinct-length, sorted_list-Distinct, upper_bound-Distinct}
use pme.Literal.{ClauseId}
use pme.Cnf.{Valuation, clause_value, SatCube}
use pme.Checker.{Assignment, Checker, AllKnown, FrameHolds, negated_primes, fails}
use pme.Mis.Pass.{Consecution-cases}
use pme.Support.{support_solve, support_loop, find_minimal_support}

-- The clause holds after each step from where it and the frame hold.
abbrev pub Enough : Checker → List ClauseId → ClauseId → Type 0
Enough c frame cls =
    (v : Valuation)
    → c.Trans v
    → FrameHolds c.clause_of v frame
    → clause_value v (c.clause_of cls) ≡ true
    → ¬ SatCube v (negated_primes (c.clause_of cls))

pub Enough-mono :
    (c : Checker) (xs ys : List ClauseId) (cls : ClauseId)
    → Within xs ys
    → Enough c xs cls
    → Enough c ys cls
Enough-mono c xs ys cls w e v t fr = e v t (λ x h. fr x (w x h))

-- A subset that is enough where the set is.
pub record IsSupport (c : Checker) (cls : ClauseId) (frame support : List ClauseId) : Type 0 where
  pub within : Within support frame
  pub distinct : Distinct support
  pub enough : Enough c frame cls → Enough c support cls

module _ (c : Checker) (cls : ClauseId) (known_cls : c.known cls ≡ true) where
  -- The two answers of `supportSolve`.
  pub support_solve-cases :
      (frame : List ClauseId) (s : c.State)
      → AllKnown c frame
      → ((support_solve c frame cls s).0 ≡ none)
        ⊎ ((support : List ClauseId) × ((support_solve c frame cls s).0 ≡ some support)
            × Within support frame
            × (Distinct frame → Distinct support)
            × Enough c support cls)
  unfolding support_solve
  support_solve-cases frame s k = elim (Consecution-cases (c.solve frame cls s).0) [
    | inl h ↦
        let (within, distinct, enough) = c.support_lem frame cls s k known_cls h in
        inr (c.support frame cls s, rw (support_solve, h) refl, within, distinct, enough)
    | inr (m, h) ↦ inl (rw (support_solve, h) refl)
  ]

  pub support_solve-fails :
      (frame : List ClauseId) (s : c.State)
      → (support_solve c frame cls s).0 ≡ none
      → (m : Assignment) × ((c.solve frame cls s).0 ≡ fails m)
  unfolding support_solve
  support_solve-fails frame s e = elim (Consecution-cases (c.solve frame cls s).0) [
    | inl h ↦
        let q : (support_solve c frame cls s).0 ≡ some (c.support frame cls s) =
          rw (support_solve, h) refl in
        cc (q, e)
    | inr (m, h) ↦ (m, h)
  ]

  -- The entries that are left: those of the frame from `low` on.
  record FromLow (low : ℕ) (frame rest : List ClauseId) : Type 0 where
    sorted : IsSorted rest
    distinct : Distinct rest
    low_rest : (x : ClauseId) → member x rest ≡ true → low ≤ x
    rest_in : (x : ClauseId) → member x frame ≡ true → low ≤ x → member x rest ≡ true

  next-FromLow :
      (low : ℕ) (frame rest : List ClauseId) (id : ClauseId)
      → FromLow low frame (id ∷ rest)
      → FromLow (suc id) frame rest
  next-FromLow low frame rest id d = record {
    sorted = d.sorted.1;
    distinct = d.distinct.1;
    low_rest = λ x h. elim (Bool-cases (x == id)) [
      | inl e ↦ cc (subst (λ y. member y rest ≡ true) ((==_iff x id).0 e) h, d.distinct.0)
      | inr e ↦ let l = All-member (λ y. id ≤ y) x rest d.sorted.0 h in ground arith
    ];
    rest_in = λ x h l.
        elim (member-cons x id rest
          (d.rest_in x h (omega (arith, d.low_rest id (member-head id rest))))) [
            | inl e ↦ absurd (omega (arith, e))
            | inr t ↦ t
          ];
  }

  again-FromLow :
      (frame : List ClauseId) (id : ClauseId)
      → Distinct frame
      → FromLow (suc id) (sorted_list frame) (upper_bound id (sorted_list frame))
  again-FromLow frame id z =
      let ordered = sorted_list-IsSorted frame in
      record {
        sorted = upper_bound-IsSorted id (sorted_list frame) ordered;
        distinct = upper_bound-Distinct id (sorted_list frame) (sorted_list-Distinct frame z);
        low_rest = λ x h. omega (arith, upper_bound-above id x (sorted_list frame) ordered h);
        rest_in = λ x h l. member-upper_bound id x (sorted_list frame) h (omega arith);
      }

  support_loop-IsSupport :
      (fuel low : ℕ) (frame rest : List ClauseId) (s : c.State)
      → AllKnown c frame
      → Distinct frame
      → FromLow low frame rest
      → length rest ≤ fuel
      → Returns (support_loop c fuel cls frame rest s) (λ r. IsSupport c cls frame r.0)
  unfolding support_loop
  support_loop-IsSupport fuel low frame [] s k z d f =
      ((frame, s), refl, record { within = λ x h. h; distinct = z; enough = λ e. e })
  support_loop-IsSupport zero low frame (id ∷ rest) s k z d f = absurd (omega arith)
  support_loop-IsSupport (suc fuel) low frame (id ∷ rest) s k z d f =
      elim (support_solve-cases frame s k) [
        | inl h ↦
            let (r, run, p) =
              support_loop-IsSupport (suc fuel) (suc id) frame rest (support_solve c frame cls s).1
                k z (next-FromLow low frame rest id d) (omega arith) in
            (r, rw (support_loop, h) run, p)
        | inr (support, h, within, distinct, enough) ↦
            let next = sorted_list support in
            let back : Within next frame =
              λ x j. within x (sym (member-sorted_list x support) ∙ j) in
            let small : leb (length support) (length frame) ≡ true =
              ground (arith, Distinct-length support frame (distinct z) within) in
            let low' = again-FromLow support id (distinct z) in
            let fewer = Distinct-length (upper_bound id next) rest low'.distinct (λ x j.
              (next-FromLow low frame rest id d).rest_in x (back x (upper_bound-Within id next x j))
                (low'.low_rest x j)) in
            let (r, run, p) =
              support_loop-IsSupport fuel (suc id) next (upper_bound id next)
                (support_solve c frame cls s).1 (λ x j. k x (back x j))
                (sorted_list-Distinct support (distinct z)) low' (omega (arith, fewer)) in
            (
              r,
              rw (support_loop, h, small) run,
              record {
                within = λ x j. back x (p.within x j);
                distinct = p.distinct;
                enough = λ e. p.enough (
                    Enough-mono c support next cls (λ x j. member-sorted_list x support ∙ j)
                      enough);
              },
            )
      ]

  -- On known clauses without repetition, `findMinimalSupport` comes to an end without a failed assertion. It
  -- returns a subset without repetition; if the clause holds after every step from the set, it does so from
  -- the subset.
  pub find_minimal_support-IsSupport :
      (frame : List ClauseId) (s : c.State)
      → AllKnown c frame
      → Distinct frame
      → Returns (find_minimal_support c frame cls s) (λ r. IsSupport c cls frame r.0)
  unfolding find_minimal_support
  find_minimal_support-IsSupport frame s k z =
      let next = sorted_list frame in
      let back : Within next frame = λ x j. sym (member-sorted_list x frame) ∙ j in
      let (r, run, p) =
        support_loop-IsSupport (length frame) 0 next next s (λ x j. k x (back x j))
          (sorted_list-Distinct frame z)
          (record {
            sorted = sorted_list-IsSorted frame;
            distinct = sorted_list-Distinct frame z;
            low_rest = λ x j. omega arith;
            rest_in = λ x j l. j;
          })
          (omega (arith, length-sorted_list frame)) in
      (
        r,
        run,
        record {
          within = λ x j. back x (p.within x j);
          distinct = p.distinct;
          enough = λ e.
              p.enough (Enough-mono c frame next cls (λ x j. member-sorted_list x frame ∙ j) e);
        },
      )
