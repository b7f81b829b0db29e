-- ===== src/Minimizer/Simple/Closure.antt =====
-- `SimpleMinimizer` of src/pme/minimization/simple.cpp: what it collects supports itself.
use pme.Base.{
  ◌≡◌, refl, subst, Bool, true, List, [], ◌∷◌, ◌++◌, member, Within, member-nil, member-head,
  member-tail, member-cons, member-append, member-append_left, member-append_right, Returns,
  Bool-cases, ◌⊎◌, inl, inr,
}
use pme.Base.Distinct.{Distinct, set_insert, set_insert-Distinct}
use pme.Literal.{ClauseId}
use pme.Checker.{Checker, AllKnown, IsInductive}
use pme.Support.{support_solve}
use pme.Support.Smaller.{Enough, Enough-mono, find_minimal_support-IsSupport}
use pme.Sisi.Kept.{keep_old, keep_new, keep_case}
use pme.Sisi.Feasible.Growing.{all_support, all-Enough}
use pme.Minimizer.Simple.{push_support, compute_support}

-- What the loop over a support does.
pub record Pushed (supported support nec queue : List ClauseId) (r : List ClauseId × List ClauseId)
    : Type 0 where
  pub nec_old : Within nec r.0
  pub nec_new : Within support r.0
  pub nec_from :
      (x : ClauseId) → member x r.0 ≡ true → (member x support ≡ true) ⊎ (member x nec ≡ true)
  pub queue_old : Within queue r.1
  pub queue_from :
      (x : ClauseId) → member x r.1 ≡ true → (member x support ≡ true) ⊎ (member x queue ≡ true)
  pub queue_new :
      (x : ClauseId) → member x support ≡ true → (member x supported ≡ true) ⊎ (member x r.1 ≡ true)

-- One entry, which is inserted, and pushed or supported.
push-Pushed :
    (supported xs nec queue queue' : List ClauseId) (x : ClauseId)
    (r : List ClauseId × List ClauseId)
    → Within queue queue'
    → ((y : ClauseId) → member y queue' ≡ true → (x ≡ y) ⊎ (member y queue ≡ true))
    → ((member x supported ≡ true) ⊎ (member x queue' ≡ true))
    → Pushed supported xs (set_insert x nec) queue' r
    → Pushed supported (x ∷ xs) nec queue r
push-Pushed supported xs nec queue queue' x r w from here d = record {
  nec_old = λ y h. d.nec_old y (keep_old nec x y h);
  nec_new = λ y h. elim (member-cons y x xs h) [
    | inl e ↦ subst (λ z. member z r.0 ≡ true) e (d.nec_old x (keep_new nec x))
    | inr t ↦ d.nec_new y t
  ];
  nec_from = λ y h. elim (d.nec_from y h) [
    | inl t ↦ inl (member-tail y x xs t)
    | inr t ↦ elim (keep_case nec x y t) [
      | inl e ↦ inl (subst (λ z. member z (x ∷ xs) ≡ true) e (member-head x xs))
      | inr o ↦ inr o
    ]
  ];
  queue_old = λ y h. d.queue_old y (w y h);
  queue_from = λ y h. elim (d.queue_from y h) [
    | inl t ↦ inl (member-tail y x xs t)
    | inr t ↦ elim (from y t) [
      | inl e ↦ inl (subst (λ z. member z (x ∷ xs) ≡ true) e (member-head x xs))
      | inr o ↦ inr o
    ]
  ];
  queue_new = λ y h. elim (member-cons y x xs h) [
    | inl e ↦
        subst (λ z. (member z supported ≡ true) ⊎ (member z r.1 ≡ true)) e
          (elim here [ inl s ↦ inl s | inr q ↦ inr (d.queue_old x q) ])
    | inr t ↦ d.queue_new y t
  ];
}

pub push_support-Pushed :
    (supported support nec queue : List ClauseId)
    → Pushed supported support nec queue (push_support supported support nec queue)
unfolding push_support
push_support-Pushed supported [] nec queue = record {
  nec_old = λ x h. h;
  nec_new = λ x h. absurd (member-nil x h);
  nec_from = λ x h. inr h;
  queue_old = λ x h. h;
  queue_from = λ x h. inr h;
  queue_new = λ x h. absurd (member-nil x h);
}
push_support-Pushed supported (x ∷ xs) nec queue = elim (Bool-cases (member x supported)) [
  | inl h ↦
      rw (push_support, h)
        (push-Pushed supported xs nec queue queue x
          (push_support supported xs (set_insert x nec) queue) (λ y j. j) (λ y j. inr j) (inl h)
          (push_support-Pushed supported xs (set_insert x nec) queue))
  | inr h ↦
      rw (push_support, h)
        (push-Pushed supported xs nec queue (queue ++ x ∷ []) x
          (push_support supported xs (set_insert x nec) (queue ++ x ∷ []))
          (λ y j. member-append_left y queue (x ∷ []) j)
          (λ y j. elim (member-append y queue (x ∷ []) j) [
            | inl l ↦ inr l
            | inr t ↦ elim (member-cons y x [] t) [
              | inl e ↦ inl e
              | inr n ↦ absurd (member-nil y n)
            ]
          ])
          (inr (member-append_right x queue (x ∷ []) (member-head x [])))
          (push_support-Pushed supported xs (set_insert x nec) (queue ++ x ∷ [])))
]

-- The state of the loop over the queue.
pub record Closing (c : Checker) (all supported nec queue : List ClauseId) : Type 0 where
  pub distinct : Distinct supported
  pub supported_within : Within supported all
  pub nec_within : Within nec all
  pub queue_within : Within queue all
  pub pending :
      (x : ClauseId) → member x nec ≡ true → (member x supported ≡ true) ⊎ (member x queue ≡ true)
  pub enough : (x : ClauseId) → member x supported ≡ true → Enough c nec x

module _ (c : Checker) (b : Bool) (all : List ClauseId) (k : AllKnown c all) (z : Distinct all)
    (ind : IsInductive c all) where
  pub compute_support-Returns :
      (id : ClauseId) (s : c.State)
      → member id all ≡ true
      → Returns (compute_support c b all id s) (λ r. Within r.0 all × Enough c r.0 id)
  unfolding compute_support
  compute_support-Returns id s here = elim (Bool-cases b) [
    | inl e ↦
        let (r, run, p) = find_minimal_support-IsSupport c id (k id here) all s k z in
        (r, rw e run, (p.within, p.enough (all-Enough c [] all k z ind id here)))
    | inr e ↦
        let (support, q, within, distinct, enough) = all_support c [] all k z ind id s here in
        ((support, (support_solve c all id s).1), rw (e, q) refl, (within, enough))
  ]

  pub skip-Closing :
      (supported nec queue : List ClauseId) (id : ClauseId)
      → Closing c all supported nec (id ∷ queue)
      → member id supported ≡ true
      → Closing c all supported nec queue
  skip-Closing supported nec queue id g h = record {
    distinct = g.distinct;
    supported_within = g.supported_within;
    nec_within = g.nec_within;
    queue_within = λ x j. g.queue_within x (member-tail x id queue j);
    pending = λ x j. elim (g.pending x j) [
      | inl t ↦ inl t
      | inr t ↦ elim (member-cons x id queue t) [
        | inl e ↦ inl (subst (λ y. member y supported ≡ true) e h)
        | inr u ↦ inr u
      ]
    ];
    enough = g.enough;
  }

  pub next-Closing :
      (supported support nec queue : List ClauseId) (id : ClauseId)
      → Closing c all supported nec (id ∷ queue)
      → Within support all
      → Enough c support id
      → Closing c all
          (set_insert id supported)
          (push_support supported support nec queue).0
          (push_support supported support nec queue).1
  next-Closing supported support nec queue id g w e =
      let d = push_support-Pushed supported support nec queue in
      let r = push_support supported support nec queue in
      record {
        distinct = set_insert-Distinct id supported g.distinct;
        supported_within = λ x h. elim (keep_case supported id x h) [
          | inl q ↦ subst (λ y. member y all ≡ true) q (g.queue_within id (member-head id queue))
          | inr t ↦ g.supported_within x t
        ];
        nec_within = λ x h. elim (d.nec_from x h) [ inl t ↦ w x t | inr t ↦ g.nec_within x t ];
        queue_within = λ x h. elim (d.queue_from x h) [
          | inl t ↦ w x t
          | inr t ↦ g.queue_within x (member-tail x id queue t)
        ];
        pending = λ x h. elim (d.nec_from x h) [
          | inl t ↦ elim (d.queue_new x t) [
            | inl a ↦ inl (keep_old supported id x a)
            | inr a ↦ inr a
          ]
          | inr t ↦ elim (g.pending x t) [
            | inl a ↦ inl (keep_old supported id x a)
            | inr a ↦ elim (member-cons x id queue a) [
              | inl q ↦
                  inl (
                    subst (λ y. member y (set_insert id supported) ≡ true) q
                      (keep_new supported id))
              | inr u ↦ inr (d.queue_old x u)
            ]
          ]
        ];
        enough = λ x h. elim (keep_case supported id x h) [
          | inl q ↦ subst (λ y. Enough c r.0 y) q (Enough-mono c support r.0 id d.nec_new e)
          | inr t ↦ Enough-mono c nec r.0 x d.nec_old (g.enough x t)
        ];
      }
