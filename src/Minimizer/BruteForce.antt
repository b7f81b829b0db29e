-- ===== src/Minimizer/BruteForce.antt =====
-- `BruteForceMinimizer` of src/pme/minimization/brute_force.cpp and `SISIMinimizer` of src/pme/minimization/sisi.cpp: from
-- the proof they are given to the one they return.
use pme.Base.{refl, Returns}
use pme.Checker.{Checker, AllKnown, IsInductive}
use pme.Sisi.{Sisi, new_sisi}
use pme.Sisi.Minimize.{brute_force_minimize-IsMsis}
use pme.Sisi.Feasible.Compose.{IsReady, sisi_minimize-IsMsis}
use pme.Minimizer.{
  ProofMinimizer, count_clauses, init_sisi, add_minimal_proof, brute_force, sisi_proof,
}
use pme.Minimizer.Results.{IsValid}
use pme.Minimizer.Sets.{all_ids, IsMinimized, IsStart, init_sisi-IsStart}
use pme.Minimizer.Start.{added-IsMinimized, start-IsReady, start-IsMsis, same-IsInductive}

module _ (c : Checker) (p : ProofMinimizer) (s : c.State) (v : IsValid p)
    (kn : AllKnown c (all_ids p)) (ind : IsInductive c (all_ids p)) where
  sets : Sisi
  unfolding count_clauses
  sets = init_sisi (count_clauses p) new_sisi

  sets-IsStart : IsStart p sets
  unfolding sets count_clauses
  sets-IsStart =
      let st = init_sisi-IsStart (count_clauses p) in
      record { nec = st.nec; distinct = st.distinct; clauses = st.clauses; all = st.all }

  sets-IsReady : IsReady c sets
  sets-IsReady = start-IsReady c p sets sets-IsStart v kn ind

  -- From a valid state, with an inductive set of clauses that the checker knows: `minimize` of the brute-force
  -- minimizer comes to an end without a failed assertion. It adds one proof, a minimal inductive subset of the
  -- clauses with the property; `getProof` returns its clauses, and the earlier proofs as before.
  pub brute_force-IsMinimized : Returns (brute_force c p s) (λ r. IsMinimized c p r.0)
  unfolding brute_force sets
  brute_force-IsMinimized =
      let d = sets-IsReady in
      let (r, run, m) =
        brute_force_minimize-IsMsis c sets s (λ z h. d.known z (d.to z h)) sets-IsStart.distinct
          (same-IsInductive c sets.all_clauses sets.feas d.from d.to d.inductive) d.nec_distinct
          d.nec_within in
      (
        (add_minimal_proof r.0 (count_clauses p), r.1),
        rw run refl,
        added-IsMinimized c p r.0 v (start-IsMsis c p sets r.0 sets-IsStart m),
      )

  -- From a valid state, with an inductive set of clauses that the checker knows: `minimize` of the `SISI`
  -- minimizer comes to an end without a failed assertion. It adds one proof, a minimal inductive subset of the
  -- clauses with the property; `getProof` returns its clauses, and the earlier proofs as before.
  pub sisi_proof-IsMinimized : Returns (sisi_proof c p s) (λ r. IsMinimized c p r.0)
  unfolding sisi_proof sets
  sisi_proof-IsMinimized =
      let (r, run, m) = sisi_minimize-IsMsis c sets s sets-IsReady in
      (
        (add_minimal_proof r.0 (count_clauses p), r.1),
        rw run refl,
        added-IsMinimized c p r.0 v (start-IsMsis c p sets r.0 sets-IsStart m),
      )
