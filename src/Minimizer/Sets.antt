-- ===== src/Minimizer/Sets.antt =====
-- `initSISI` of src/pme/minimization/brute_force.cpp: the clause sets at the start.
use pme.Base.{
  ℕ, zero, suc, ◌+◌, ◌≤◌, ◌<◌, ◌≡◌, refl, sym, ap, ◌∙◌, subst, true, false, ◌==◌, ==_iff, List, [],
  ◌∷◌, ◌++◌, length, map, some, get_elem?, member, Within, member-nil, member-head, member-tail,
  member-cons, Returns, ◌⊎◌, inl, inr, Bool-cases, arith, ◌↔◌,
}
use pme.Base.Sorting.{insert_sorted, sorted_list, member-sorted_list}
use pme.Base.Distinct.{Distinct, set_insert, set_insert-Distinct}
use pme.Literal.{ClauseId}
use pme.Checker.{Checker}
use pme.Sisi.{Sisi, new_sisi, add_to_feas, add_to_nec, add_sisi_clause}
use pme.Sisi.Kept.{IsMsis, keep_old, keep_new, keep_case}
use pme.Minimizer.{ProofMinimizer, get_proof, num_proofs, num_clauses, ids_from, add_all, init_sisi}

-- The numbers from `k` on.
member-ids_from_to : (x k n : ℕ) → member x (ids_from k n) ≡ true → x < k + n
unfolding ids_from
member-ids_from_to x k zero h = absurd (member-nil x h)
member-ids_from_to x k (suc n) h = elim (member-cons x k (ids_from (k + 1) n) h) [
  | inl e ↦ omega (arith, e)
  | inr t ↦ omega (arith, member-ids_from_to x (k + 1) n t)
]

member-ids_from_above : (x k n : ℕ) → member x (ids_from k n) ≡ true → k ≤ x
unfolding ids_from
member-ids_from_above x k zero h = absurd (member-nil x h)
member-ids_from_above x k (suc n) h = elim (member-cons x k (ids_from (k + 1) n) h) [
  | inl e ↦ omega (arith, e)
  | inr t ↦ omega (arith, member-ids_from_above x (k + 1) n t)
]

member-ids_from : (x k n : ℕ) → k ≤ x → x < k + n → member x (ids_from k n) ≡ true
unfolding ids_from
member-ids_from x k zero h l = absurd (omega arith)
member-ids_from x k (suc n) h l = elim (Bool-cases (x == k)) [
  | inl e ↦
      subst (λ y. member y (k ∷ ids_from (k + 1) n) ≡ true) (sym ((==_iff x k).0 e))
        (member-head k (ids_from (k + 1) n))
  | inr e ↦
      member-tail x k (ids_from (k + 1) n)
        (member-ids_from x (k + 1) n (ground arith) (omega arith))
]

pub member-all_ids : (x n : ℕ) → (member x (ids_from 0 n) ≡ true) ↔ (x < n)
member-all_ids x n = (
  λ h. omega (arith, member-ids_from_to x 0 n h),
  λ l. member-ids_from x 0 n (omega arith) (omega arith),
)

-- What the loop of `initSISI` collects.
record Collected (ids : List ClauseId) (x y : Sisi) : Type 0 where
  nec : y.nec ≡ x.nec
  clauses : y.all_clauses ≡ x.all_clauses ++ ids
  distinct : Distinct x.feas → Distinct y.feas
  within :
      (z : ClauseId) → member z y.feas ≡ true → (member z ids ≡ true) ⊎ (member z x.feas ≡ true)
  old : Within x.feas y.feas
  new : Within ids y.feas

new_feas :
    (id : ClauseId) (x : Sisi) → (add_sisi_clause id (add_to_feas id x)).feas ≡ set_insert id x.feas
unfolding add_sisi_clause add_to_feas
new_feas id x = refl

kept_nec : (id : ClauseId) (x : Sisi) → (add_sisi_clause id (add_to_feas id x)).nec ≡ x.nec
unfolding add_sisi_clause add_to_feas
kept_nec id x = refl

append-nil : (xs : List ClauseId) → xs ++ [] ≡ xs
append-nil [] = refl
append-nil (x ∷ xs) = ap (λ ys. x ∷ ys) (append-nil xs)

append-append :
    (xs : List ClauseId) (y : ClauseId) (zs : List ClauseId) → (xs ++ y ∷ []) ++ zs ≡ xs ++ y ∷ zs
append-append [] y zs = refl
append-append (x ∷ xs) y zs = ap (λ ys. x ∷ ys) (append-append xs y zs)

new_clauses :
    (id : ClauseId) (x : Sisi)
    → (add_sisi_clause id (add_to_feas id x)).all_clauses ≡ x.all_clauses ++ id ∷ []
unfolding add_sisi_clause add_to_feas
new_clauses id x = refl

add_all-Collected : (ids : List ClauseId) (x : Sisi) → Collected ids x (add_all ids x)
unfolding add_all
add_all-Collected [] x = record {
  nec = refl;
  clauses = sym (append-nil x.all_clauses);
  distinct = λ d. d;
  within = λ z h. inr h;
  old = λ z h. h;
  new = λ z h. absurd (member-nil z h);
}
add_all-Collected (id ∷ ids) x =
    let d = add_all-Collected ids (add_sisi_clause id (add_to_feas id x)) in
    record {
      nec = d.nec ∙ kept_nec id x;
      clauses =
          d.clauses ∙ ap (λ xs. xs ++ ids) (new_clauses id x) ∙ append-append x.all_clauses id ids;
      distinct =
          λ z. d.distinct (subst Distinct (sym (new_feas id x)) (set_insert-Distinct id x.feas z));
      within = λ z h. elim (d.within z h) [
        | inl t ↦ inl (member-tail z id ids t)
        | inr t ↦ elim (keep_case x.feas id z (subst (λ f. member z f ≡ true) (new_feas id x) t)) [
          | inl e ↦ inl (subst (λ y. member y (id ∷ ids) ≡ true) e (member-head id ids))
          | inr o ↦ inr o
        ]
      ];
      old = λ z h.
          d.old z (subst (λ f. member z f ≡ true) (sym (new_feas id x)) (keep_old x.feas id z h));
      new = λ z h. elim (member-cons z id ids h) [
        | inl e ↦
            subst (λ y. member y (add_all ids (add_sisi_clause id (add_to_feas id x))).feas ≡ true)
              e
              (d.old id
                (subst (λ f. member id f ≡ true) (sym (new_feas id x)) (keep_new x.feas id)))
        | inr t ↦ d.new z t
      ];
    }

-- The clause sets at the start of the minimization: all clauses, and the property.
pub record IsStart (p : ProofMinimizer) (x : Sisi) : Type 0 where
  pub nec : x.nec ≡ p.property ∷ []
  pub distinct : Distinct x.feas
  pub clauses : x.all_clauses ≡ ids_from 0 (length p.proof)
  pub all : (id : ClauseId) → (member id x.feas ≡ true) ↔ (id < length p.proof)

pub absent-nil : (x : ClauseId) → member x [] ≡ false
unfolding member
absent-nil x = refl

inserted-nil : (x : ClauseId) → set_insert x [] ≡ x ∷ []
unfolding set_insert member insert_sorted
inserted-nil x = refl

pub init_sisi-IsStart : (p : ProofMinimizer) → IsStart p (init_sisi p new_sisi)
unfolding init_sisi new_sisi add_to_nec num_clauses
init_sisi-IsStart p =
    let d = add_all-Collected (ids_from 0 (length p.proof)) new_sisi in
    record {
      clauses = d.clauses;
      nec = ap (set_insert p.property) d.nec ∙ inserted-nil p.property;
      distinct = d.distinct tt;
      all = λ id. (
        λ h. elim (d.within id h) [
          | inl t ↦ (member-all_ids id (length p.proof)).0 t
          | inr t ↦ absurd (member-nil id t)
        ],
        λ l. d.new id ((member-all_ids id (length p.proof)).1 l),
      );
    }

-- The order of a set does not matter.
pub sorted-IsMsis :
    (c : Checker) (nec feas set : List ClauseId)
    → IsMsis c nec feas set
    → IsMsis c nec feas (sorted_list set)
sorted-IsMsis c nec feas set d =
    let to : Within set (sorted_list set) = λ x h. member-sorted_list x set ∙ h in
    let from : Within (sorted_list set) set = λ x h. sym (member-sorted_list x set) ∙ h in
    record {
      safe = record {
        inductive = λ id h v t fr. d.safe.inductive id (from id h) v t (λ x j. fr x (to x j));
        within = λ x h. d.safe.within x (from x h);
        safe = λ x h. to x (d.safe.safe x h);
      };
      minimal = λ less s x h.
          d.minimal less
            (record {
              inductive = s.inductive;
              within = λ y j. from y (s.within y j);
              safe = s.safe;
            })
            x (from x h);
    }

-- The numbers of all clauses.
abbrev pub all_ids : ProofMinimizer → List ClauseId
all_ids p = ids_from 0 (length p.proof)

-- The one proof that was found, and the clauses that it returns.
pub record IsMinimized (c : Checker) (p q : ProofMinimizer) : Type 0 where
  pub ids : List ClauseId
  pub minimal : IsMsis c (p.property ∷ []) (all_ids p) ids
  pub count : num_proofs q ≡ num_proofs p + 1
  pub result :
      Returns (get_proof (num_proofs p) q) (λ cs. map some cs ≡ map (get_elem? p.proof) ids)
  pub older : (i : ℕ) → i < num_proofs p → get_proof i q ≡ get_proof i p

pub ids_from-Distinct : (k n : ℕ) → Distinct (ids_from k n)
unfolding ids_from
ids_from-Distinct k zero = tt
ids_from-Distinct k (suc n) = (
  elim (Bool-cases (member k (ids_from (k + 1) n))) [
    | inl h ↦ absurd (omega (arith, member-ids_from_above k (k + 1) n h))
    | inr h ↦ h
  ],
  ids_from-Distinct (k + 1) n,
)
