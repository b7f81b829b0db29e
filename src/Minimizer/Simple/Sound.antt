-- ===== src/Minimizer/Simple/Sound.antt =====
-- `SimpleMinimizer` of src/pme/minimization/simple.cpp: the proof that it adds.
use pme.Base.{
  ℕ, zero, suc, ◌+◌, ◌≤◌, ◌<◌, ◌≡◌, refl, sym, ◌∙◌, subst, Bool, true, List, [], ◌∷◌, some, map,
  get_elem?, member, Within, member-nil, member-head, member-cons, length, Returns, Bool-cases, inl,
  inr, arith, All-from_member,
}
use pme.Base.Sorting.{sorted_list, member-sorted_list}
use pme.Base.Distinct.{Distinct, Distinct-length, set_insert, length-set_insert}
use pme.Literal.{ClauseId}
use pme.Checker.{Checker, AllKnown, IsInductive}
use pme.Sisi.Required.{IsSafe}
use pme.Sisi.Feasible.Growing.{all-Enough}
use pme.Minimizer.{
  ProofMinimizer, get_proof, num_proofs, num_clauses, count_clauses, ids_from, add_minimal_proof,
}
use pme.Minimizer.Results.{IsValid, InProof, add_minimal_proof-IsAdded}
use pme.Minimizer.Sets.{all_ids, member-all_ids, ids_from-Distinct}
use pme.Minimizer.Simple.{push_support, simple_loop, simple_proof}
use pme.Minimizer.Simple.Closure.{
  push_support-Pushed, Closing, compute_support-Returns, skip-Closing, next-Closing,
}

module _ (c : Checker) (b : Bool) (nec₀ all : List ClauseId) (k : AllKnown c all) (z : Distinct all)
    (ind : IsInductive c all) where
  -- With nothing left in the queue, the necessary clauses support themselves.
  closed-IsSafe :
      (supported nec : List ClauseId)
      → Closing c all supported nec []
      → Within nec₀ nec
      → IsSafe c nec₀ all nec
  closed-IsSafe supported nec g w = record {
    inductive = λ id h v t fr. elim (g.pending id h) [
      | inl a ↦ g.enough id a v t fr (fr id h)
      | inr a ↦ absurd (member-nil id a)
    ];
    within = g.nec_within;
    safe = w;
  }

  simple_loop-IsSafe :
      (fuel : ℕ) (supported nec queue : List ClauseId) (s : c.State)
      → Closing c all supported nec queue
      → Within nec₀ nec
      → length all ≤ fuel + length supported
      → Returns (simple_loop c b fuel all supported nec queue s) (λ r. IsSafe c nec₀ all r.0)
  unfolding simple_loop
  simple_loop-IsSafe fuel supported nec [] s g w f =
      ((nec, s), refl, closed-IsSafe supported nec g w)
  simple_loop-IsSafe zero supported nec (id ∷ queue) s g w f =
      elim (Bool-cases (member id supported)) [
        | inl h ↦
            let (r, run, p) =
              simple_loop-IsSafe zero supported nec queue s
                (skip-Closing c b all k z ind supported nec queue id g h) w f in
            (r, rw (simple_loop, h) run, p)
        | inr h ↦
            let g' =
              next-Closing c b all k z ind supported all nec queue id g (λ x j. j)
                (all-Enough c [] all k z ind id (g.queue_within id (member-head id queue))) in
            absurd (
              omega (
                arith,
                length-set_insert id supported h,
                Distinct-length (set_insert id supported) all g'.distinct g'.supported_within,
              ))
      ]
  simple_loop-IsSafe (suc fuel) supported nec (id ∷ queue) s g w f =
      elim (Bool-cases (member id supported)) [
        | inl h ↦
            let (r, run, p) =
              simple_loop-IsSafe (suc fuel) supported nec queue s
                (skip-Closing c b all k z ind supported nec queue id g h) w f in
            (r, rw (simple_loop, h) run, p)
        | inr h ↦
            let (r, run, (inside, enough)) =
              compute_support-Returns c b all k z ind id s
                (g.queue_within id (member-head id queue)) in
            let (q, q_run, p) =
              simple_loop-IsSafe fuel (set_insert id supported)
                (push_support supported r.0 nec queue).0 (push_support supported r.0 nec queue).1
                r.1 (next-Closing c b all k z ind supported r.0 nec queue id g inside enough)
                (λ x j. (push_support-Pushed supported r.0 nec queue).nec_old x (w x j))
                (omega (arith, length-set_insert id supported h)) in
            (q, rw (simple_loop, h, run) q_run, p)
      ]

-- The proof that was added, and the clauses that it returns.
pub record IsReduced (c : Checker) (p q : ProofMinimizer) : Type 0 where
  pub ids : List ClauseId
  pub safe : IsSafe c (p.property ∷ []) (all_ids p) ids
  pub count : num_proofs q ≡ num_proofs p + 1
  pub result :
      Returns (get_proof (num_proofs p) q) (λ cs. map some cs ≡ map (get_elem? p.proof) ids)
  pub older : (i : ℕ) → i < num_proofs p → get_proof i q ≡ get_proof i p

sorted-IsSafe :
    (c : Checker) (nec feas set : List ClauseId)
    → IsSafe c nec feas set
    → IsSafe c nec feas (sorted_list set)
sorted-IsSafe c nec feas set d =
    let to : Within set (sorted_list set) = λ x h. member-sorted_list x set ∙ h in
    let from : Within (sorted_list set) set = λ x h. sym (member-sorted_list x set) ∙ h in
    record {
      inductive = λ id h v t fr. d.inductive id (from id h) v t (λ x j. fr x (to x j));
      within = λ x h. d.within x (from x h);
      safe = λ x h. to x (d.safe x h);
    }

added-IsReduced :
    (c : Checker) (p : ProofMinimizer) (set : List ClauseId)
    → IsValid p
    → IsSafe c (p.property ∷ []) (all_ids p) set
    → IsReduced c p (add_minimal_proof set (count_clauses p))
unfolding count_clauses num_proofs get_proof
added-IsReduced c p set v d =
    let n = length p.proof in
    let inside : InProof p.proof set =
      All-from_member (λ id. id < n) set (λ z h. (member-all_ids z n).0 (d.within z h)) in
    let added =
      add_minimal_proof-IsAdded set (count_clauses p)
        (record { property_in = v.property_in; proofs_in = v.proofs_in }) inside in
    record {
      ids = sorted_list set;
      safe = sorted-IsSafe c (p.property ∷ []) (all_ids p) set d;
      count = added.count;
      result = added.newest;
      older = λ i l. added.older i l;
    }

length-ids_from : (k n : ℕ) → length (ids_from k n) ≡ n
unfolding ids_from
length-ids_from k zero = refl
length-ids_from k (suc n) = omega (arith, length-ids_from (k + 1) n)

module _ (c : Checker) (b : Bool) (p : ProofMinimizer) (s : c.State) where
  -- From a valid state, with an inductive set of clauses that the checker knows: `minimize` of the simple
  -- minimizer comes to an end without a failed assertion, with minimal supports or without. It adds one
  -- proof, an inductive subset of the clauses with the property; `getProof` returns its clauses, and the earlier
  -- proofs as before.
  pub simple_proof-IsReduced :
      IsValid p
      → AllKnown c (all_ids p)
      → IsInductive c (all_ids p)
      → Returns (simple_proof c b p s) (λ r. IsReduced c p r.0)
  unfolding simple_proof num_clauses
  simple_proof-IsReduced v kn ind =
      let n = length p.proof in
      let start = p.property ∷ [] in
      let inside : Within start (all_ids p) = λ x h. elim (member-cons x p.property [] h) [
        | inl e ↦
            subst (λ y. member y (all_ids p) ≡ true) e
              ((member-all_ids p.property n).1 v.property_in)
        | inr t ↦ absurd (member-nil x t)
      ] in
      let (r, run, d) =
        simple_loop-IsSafe c b start (all_ids p) kn (ids_from-Distinct 0 n) ind n [] start start s
          (record {
            distinct = tt;
            supported_within = λ x h. absurd (member-nil x h);
            nec_within = inside;
            queue_within = inside;
            pending = λ x h. inr h;
            enough = λ x h. absurd (member-nil x h);
          })
          (λ x h. h) (omega (arith, length-ids_from 0 n)) in
      ((add_minimal_proof r.0 (count_clauses p), r.1), rw run refl, added-IsReduced c p r.0 v d)
