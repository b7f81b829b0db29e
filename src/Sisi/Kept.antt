-- ===== src/Sisi/Kept.antt =====
-- The loops of src/pme/minimization/sisi.cpp over the feasible clauses: what they keep, at each entry.
use pme.Base.{
  ◌<◌, ◌≡◌, refl, sym, subst, true, ◌==◌, ==_iff, List, [], ◌∷◌, member, Within, member-nil,
  member-head, member-tail, member-cons, length, Bool-cases, ◌⊎◌, inl, inr, arith,
}
use pme.Base.Distinct.{
  Distinct, Distinct-length, Distinct-onto, set_insert, member-set_insert, set_insert-Distinct,
}
use pme.Literal.{ClauseId}
use pme.Checker.{Checker, IsInductive}
use pme.Sisi.Required.{IsSafe, IsSafe-widen, Required}

-- A minimal safe inductive subset: no proper subset of it is one.
pub record IsMsis (c : Checker) (nec feas set : List ClauseId) : Type 0 where
  pub safe : IsSafe c nec feas set
  pub minimal : (less : List ClauseId) → IsSafe c nec set less → Within set less

-- The loops over the feasible clauses, at the entries `rest`: what is left to look at or kept is all of them, and
-- the kept ones are required.
pub record Kept (c : Checker) (nec feas keep rest : List ClauseId) : Type 0 where
  pub keep_distinct : Distinct keep
  pub keep_within : Within keep feas
  pub rest_within : Within rest feas
  pub nec_within : Within nec keep
  pub cover :
      (x : ClauseId) → member x feas ≡ true → (member x rest ≡ true) ⊎ (member x keep ≡ true)
  pub required : (x : ClauseId) → member x keep ≡ true → Required c nec feas x

pub keep_old :
    (keep : List ClauseId) (id x : ClauseId)
    → member x keep ≡ true
    → member x (set_insert id keep) ≡ true
keep_old keep id x h = ground (arith, member-set_insert x id keep)

pub keep_new : (keep : List ClauseId) (id : ClauseId) → member id (set_insert id keep) ≡ true
keep_new keep id = elim (Bool-cases (id == id)) [
  | inl e ↦ subst (λ b. b ≡ true) (sym (member-set_insert id id keep)) (rw e refl)
  | inr e ↦ absurd (ground arith)
]

pub keep_case :
    (keep : List ClauseId) (id x : ClauseId)
    → member x (set_insert id keep) ≡ true
    → (id ≡ x) ⊎ (member x keep ≡ true)
keep_case keep id x h = elim (Bool-cases (id == x)) [
  | inl e ↦ inl ((==_iff id x).0 e)
  | inr e ↦ inr (ground (arith, member-set_insert x id keep))
]

module _ (c : Checker) (nec : List ClauseId) where
  pub start-Kept :
      (feas : List ClauseId) → Distinct nec → Within nec feas → Kept c nec feas nec feas
  start-Kept feas d w = record {
    keep_distinct = d;
    keep_within = w;
    rest_within = λ x h. h;
    nec_within = λ x h. h;
    cover = λ x h. inl h;
    required = λ x h set s. s.safe x h;
  }

  -- The next entry is already kept.
  pub skip-Kept :
      (feas keep rest : List ClauseId) (id : ClauseId)
      → Kept c nec feas keep (id ∷ rest)
      → member id keep ≡ true
      → Kept c nec feas keep rest
  skip-Kept feas keep rest id k h = record {
    keep_distinct = k.keep_distinct;
    keep_within = k.keep_within;
    nec_within = k.nec_within;
    required = k.required;
    rest_within = λ x j. k.rest_within x (member-tail x id rest j);
    cover = λ x j. elim (k.cover x j) [
      | inl t ↦ elim (member-cons x id rest t) [
        | inl q ↦ inr (subst (λ y. member y keep ≡ true) q h)
        | inr u ↦ inl u
      ]
      | inr t ↦ inr t
    ];
  }

  -- The next entry is required, and inserted.
  pub insert-Kept :
      (feas keep rest : List ClauseId) (id : ClauseId)
      → Kept c nec feas keep (id ∷ rest)
      → Required c nec feas id
      → Kept c nec feas (set_insert id keep) rest
  insert-Kept feas keep rest id k q = record {
    keep_distinct = set_insert-Distinct id keep k.keep_distinct;
    keep_within = λ x j. elim (keep_case keep id x j) [
      | inl e ↦ subst (λ y. member y feas ≡ true) e (k.rest_within id (member-head id rest))
      | inr t ↦ k.keep_within x t
    ];
    rest_within = λ x j. k.rest_within x (member-tail x id rest j);
    nec_within = λ x j. keep_old keep id x (k.nec_within x j);
    cover = λ x j. elim (k.cover x j) [
      | inl t ↦ elim (member-cons x id rest t) [
        | inl e ↦ inr (subst (λ y. member y (set_insert id keep) ≡ true) e (keep_new keep id))
        | inr u ↦ inl u
      ]
      | inr t ↦ inr (keep_old keep id x t)
    ];
    required = λ x j. elim (keep_case keep id x j) [
      | inl e ↦ subst (λ y. Required c nec feas y) e q
      | inr t ↦ k.required x t
    ];
  }

  -- A safe subset takes the place of the feasible clauses.
  pub restart-Kept :
      (feas less keep rest : List ClauseId)
      → Kept c nec feas keep rest
      → IsSafe c nec feas less
      → Kept c nec less keep less
  restart-Kept feas less keep rest k s = record {
    keep_distinct = k.keep_distinct;
    keep_within = λ x h. k.required x h less s;
    rest_within = λ x h. h;
    nec_within = k.nec_within;
    cover = λ x h. inl h;
    required = λ x h set p. k.required x h set (IsSafe-widen c nec feas less set s.within p);
  }

  -- With nothing left to look at, as many clauses are kept as are feasible.
  pub Kept-full :
      (feas keep : List ClauseId)
      → Distinct feas
      → Kept c nec feas keep []
      → ¬ (length keep < length feas)
  Kept-full feas keep d k l = omega (
    arith,
    Distinct-length feas keep d
        (λ x h. elim (k.cover x h) [ inl t ↦ absurd (member-nil x t) | inr t ↦ t ]),
  )

  -- As many kept clauses as feasible ones are all of them.
  pub Kept-onto :
      (feas keep rest : List ClauseId)
      → Kept c nec feas keep rest
      → ¬ (length keep < length feas)
      → Within feas keep
  Kept-onto feas keep rest k l = Distinct-onto keep feas k.keep_distinct k.keep_within (omega arith)

  pub Kept-IsMsis :
      (feas keep rest : List ClauseId)
      → Kept c nec feas keep rest
      → IsInductive c feas
      → ¬ (length keep < length feas)
      → IsMsis c nec feas keep
  Kept-IsMsis feas keep rest k ind l = record {
    safe = record {
      inductive = λ id h v t fr.
          ind id (k.keep_within id h) v t (λ x j. fr x (Kept-onto feas keep rest k l x j));
      within = k.keep_within;
      safe = k.nec_within;
    };
    minimal = λ less s x h. k.required x h less (IsSafe-widen c nec feas keep less k.keep_within s);
  }
