-- ===== src/Minimizer/Simple.antt =====
-- `SimpleMinimizer` of src/pme/minimization/simple.cpp: the supports of the property, of its supports and so on. The
-- option `simple_min_use_min_supp` is an argument.
pub mod Closure
pub mod Sound
mod Tests
use pme.Base.{
  ℕ, zero, suc, Bool, true, false, if◌then◌else◌, List, [], ◌∷◌, ◌++◌, none, some, member, length,
  Result, ok, fault, out_of_fuel, assertion_failed, ◌>>=◌,
}
use pme.Base.Distinct.{set_insert}
use pme.Literal.{ClauseId}
use pme.Checker.{Checker}
use pme.Support.{support_solve, find_minimal_support}
use pme.Minimizer.{ProofMinimizer, num_clauses, count_clauses, ids_from, add_minimal_proof}

-- The loop over a support: the necessary clauses and the queue.
unfoldable pub push_support :
    List ClauseId → List ClauseId → List ClauseId → List ClauseId → List ClauseId × List ClauseId
push_support supported [] nec queue = (nec, queue)
push_support supported (x ∷ xs) nec queue =
    let skip = push_support supported xs (set_insert x nec) queue in
    let push = push_support supported xs (set_insert x nec) (queue ++ x ∷ []) in
    if member x supported then skip else push

module _ (c : Checker) (use_min_supp : Bool) where
  unfoldable pub compute_support :
      List ClauseId → ClauseId → c.State → Result (List ClauseId × c.State)
  compute_support all id s =
      let s' = (support_solve c all id s).1 in
      if use_min_supp then find_minimal_support c all id s else elim (support_solve c all id s).0 [
        | none ↦ fault assertion_failed
        | some support ↦ ok (support, s')
      ]

  -- The loop over the queue. Fuel is spent where the support of a clause is computed.
  unfoldable pub simple_loop :
      ℕ
      → List ClauseId
      → List ClauseId
      → List ClauseId
      → List ClauseId
      → c.State
      → Result (List ClauseId × c.State)
  simple_loop fuel all supported nec [] s = ok (nec, s)
  simple_loop zero all supported nec (id ∷ queue) s =
      let skip = simple_loop zero all supported nec queue s in
      if member id supported then skip else fault out_of_fuel
  simple_loop (suc fuel) all supported nec (id ∷ queue) s =
      let skip = simple_loop (suc fuel) all supported nec queue s in
      let next = (do
        r ← compute_support all id s
        simple_loop fuel all (set_insert id supported) (push_support supported r.0 nec queue).0
            (push_support supported r.0 nec queue).1 r.1) in
      if member id supported then skip else next

  -- `SimpleMinimizer`, from `minimize` on
  unfoldable pub simple_proof : ProofMinimizer → c.State → Result (ProofMinimizer × c.State)
  simple_proof p s = do
    r ←
        simple_loop (num_clauses p) (ids_from 0 (num_clauses p)) [] (p.property ∷ [])
          (p.property ∷ []) s
    ok (add_minimal_proof r.0 (count_clauses p), r.1)
