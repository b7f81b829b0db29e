-- ===== src/Minimizer/Start.antt =====
-- What the minimizers of src/pme/minimization start with (`initSISI`), and what they add for a minimal set.
use pme.Base.{
  ◌<◌, ◌≡◌, sym, subst, true, List, [], ◌∷◌, length, member, Within, member-nil, member-head,
  member-cons, inl, inr, All-from_member,
}
use pme.Base.Sorting.{sorted_list}
use pme.Base.Distinct.{Distinct}
use pme.Literal.{ClauseId}
use pme.Checker.{Checker, AllKnown, IsInductive}
use pme.Sisi.{Sisi}
use pme.Sisi.Required.{IsSafe-widen}
use pme.Sisi.Kept.{IsMsis}
use pme.Sisi.Feasible.Compose.{IsReady}
use pme.Minimizer.{ProofMinimizer, get_proof, num_proofs, count_clauses, add_minimal_proof}
use pme.Minimizer.Results.{IsValid, InProof, add_minimal_proof-IsAdded}
use pme.Minimizer.Sets.{
  all_ids, IsMinimized, sorted-IsMsis, IsStart, absent-nil, member-all_ids, ids_from-Distinct,
}

pub same-IsInductive :
    (c : Checker) (xs ys : List ClauseId)
    → Within xs ys
    → Within ys xs
    → IsInductive c xs
    → IsInductive c ys
same-IsInductive c xs ys to from ind id h v t fr = ind id (from id h) v t (λ x j. fr x (to x j))

IsMsis-widen :
    (c : Checker) (nec feas feas' set : List ClauseId)
    → Within feas feas'
    → IsMsis c nec feas set
    → IsMsis c nec feas' set
IsMsis-widen c nec feas feas' set w d = record {
  safe = IsSafe-widen c nec feas' feas set w d.safe;
  minimal = d.minimal;
}

-- From a minimal set of clauses to the state after `addMinimalProof`.
pub added-IsMinimized :
    (c : Checker) (p : ProofMinimizer) (set : List ClauseId)
    → IsValid p
    → IsMsis c (p.property ∷ []) (all_ids p) set
    → IsMinimized c p (add_minimal_proof set (count_clauses p))
unfolding count_clauses num_proofs get_proof
added-IsMinimized c p set v d =
    let n = length p.proof in
    let inside : InProof p.proof set =
      All-from_member (λ id. id < n) set (λ z h. (member-all_ids z n).0 (d.safe.within z h)) in
    let added =
      add_minimal_proof-IsAdded set (count_clauses p)
        (record { property_in = v.property_in; proofs_in = v.proofs_in }) inside in
    record {
      ids = sorted_list set;
      minimal = sorted-IsMsis c (p.property ∷ []) (all_ids p) set d;
      count = added.count;
      result = added.newest;
      older = λ i l. added.older i l;
    }

-- The clause sets at the start are ready for the minimization.
pub start-IsReady :
    (c : Checker) (p : ProofMinimizer) (x : Sisi)
    → IsStart p x
    → IsValid p
    → AllKnown c (all_ids p)
    → IsInductive c (all_ids p)
    → IsReady c x
start-IsReady c p x st v kn ind =
    let n = length p.proof in
    let to : Within x.feas (all_ids p) = λ z h. (member-all_ids z n).1 ((st.all z).0 h) in
    let from : Within (all_ids p) x.feas = λ z h. (st.all z).1 ((member-all_ids z n).0 h) in
    let back : all_ids p ≡ x.all_clauses = sym st.clauses in
    let single : p.property ∷ [] ≡ x.nec = sym st.nec in
    record {
      known = subst (AllKnown c) back kn;
      all_distinct = subst Distinct back (ids_from-Distinct 0 n);
      inductive = subst (IsInductive c) back ind;
      to = subst (Within x.feas) back to;
      from = subst (λ xs. Within xs x.feas) back from;
      nec_distinct = subst Distinct single (absent-nil p.property, tt);
      nec_within =
          subst (λ xs. Within xs x.feas) single
            (λ z h. elim (member-cons z p.property [] h) [
              | inl e ↦ subst (λ y. member y x.feas ≡ true) e ((st.all p.property).1 v.property_in)
              | inr t ↦ absurd (member-nil z t)
            ]);
      property = p.property;
      has_property = subst (λ xs. member p.property xs ≡ true) single (member-head p.property []);
    }

pub start-IsMsis :
    (c : Checker) (p : ProofMinimizer) (x : Sisi) (set : List ClauseId)
    → IsStart p x
    → IsMsis c x.nec x.feas set
    → IsMsis c (p.property ∷ []) (all_ids p) set
start-IsMsis c p x set st d =
    subst (λ nec. IsMsis c nec (all_ids p) set) st.nec
      (IsMsis-widen c x.nec x.feas (all_ids p) set
        (λ z h. (member-all_ids z (length p.proof)).1 ((st.all z).0 h)) d)
