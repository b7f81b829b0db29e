-- ===== src/Mis.antt =====
-- src/pme/util/find_safe_mis.cpp: the largest inductive subset of a set of clauses that keeps the necessary
-- ones, over a consecution checker; and `isInductive` of src/pme/engine/consecution_checker.cpp.

pub mod Completion
pub mod Removal
pub mod Failed
pub mod Pass
pub mod Sound
pub mod Find
pub mod Tests
use pme.Base.{
  ℕ, zero, suc, ◌+◌, Bool, true, false, if◌then◌else◌, ◌==◌, List, [], ◌∷◌, member, length, Result,
  ok, fault, out_of_fuel, ◌>>=◌, ◌>>◌, check,
}
use pme.Base.Sorting.{sorted_list, lower_bound, erase_one}
use pme.Literal.{ClauseId, Clause, negate, prime, nprimes}
use pme.Checker.{is_true, is_false, undef, Assignment, value_of, holds, fails, Checker}

unfoldable pub contains_all_of : List ClauseId → List ClauseId → Bool
contains_all_of vec [] = true
contains_all_of vec (id ∷ props) = if member id vec then contains_all_of vec props else false

-- Whether no literal of `~c'` is false under the assignment.
unfoldable pub negcp_sat : Assignment → Clause → Result Bool
negcp_sat m [] = ok true
negcp_sat m (lit ∷ cls) =
    let rest = negcp_sat m cls in
    (do
      check (nprimes lit == 0)
      elim (value_of m (negate (prime lit 1))) [
        | is_true ↦ rest
        | is_false ↦ ok false
        | undef ↦ rest
      ])

-- What a run leaves behind: whether there may be a safe subset, the clauses, whether any was removed,
-- and the state of the checker.
pub record MisRun (S : Type 0) : Type 0 where
  pub maybe : Bool
  pub vec : List ClauseId
  pub removed : Bool
  pub state : S

module _ (c : Checker) where
  unfoldable pub is_inductive_loop : List ClauseId → List ClauseId → c.State → Bool × c.State
  is_inductive_loop frame [] s = (true, s)
  is_inductive_loop frame (id ∷ ids) s =
      let rest = is_inductive_loop frame ids (c.solve frame id s).1 in
      elim (c.solve frame id s).0 [ holds ↦ rest | fails m ↦ (false, (c.solve frame id s).1) ]

  unfoldable pub is_inductive : List ClauseId → c.State → Bool × c.State
  is_inductive frame s = is_inductive_loop frame frame s

  unfoldable pub is_safe_inductive : List ClauseId → List ClauseId → c.State → Bool × c.State
  is_safe_inductive vec props s =
      if contains_all_of vec props then is_inductive vec s else (false, s)

  -- `removeSATClauses`, under the assignment of the last call: it stops at a necessary clause.
  unfoldable pub remove_sat_clauses :
      Assignment → List ClauseId → List ClauseId → Result (Bool × List ClauseId)
  remove_sat_clauses m nec [] = ok (true, [])
  remove_sat_clauses m nec (id ∷ ids) =
      let rest = remove_sat_clauses m nec ids in
      (do
        sat ← negcp_sat m (c.clause_of id)
        if sat
            then (if member id nec then ok (false, ids) else rest)
            else (do r ← rest; ok (r.0, id ∷ r.1)))

  -- What follows a clause that is not inductive, up to where the iterator is set again.
  unfoldable pub remove_failed :
      Assignment → List ClauseId → List ClauseId → ClauseId → Result (Bool × List ClauseId)
  remove_failed m nec vec id =
      if member id nec then ok (false, vec) else remove_sat_clauses m nec (erase_one id vec)

  -- The inner loop, from the entries that are left. Fuel is spent where clauses are removed.
  unfoldable pub mis_pass :
      ℕ → List ClauseId → List ClauseId → List ClauseId → Bool → c.State → Result (MisRun c.State)
  mis_pass fuel nec vec [] removed s =
      ok (record { maybe = true; vec = vec; removed = removed; state = s })
  mis_pass zero nec vec (id ∷ rest) removed s =
      let next = mis_pass zero nec vec rest removed (c.solve vec id s).1 in
      elim (c.solve vec id s).0 [ holds ↦ next | fails m ↦ fault out_of_fuel ]
  mis_pass (suc fuel) nec vec (id ∷ rest) removed s =
      let s' = (c.solve vec id s).1 in
      let next = mis_pass (suc fuel) nec vec rest removed s' in
      let again = λ (r : Bool × List ClauseId).
        let more = mis_pass fuel nec r.1 (lower_bound id r.1) true s' in
        if r.0
        then more
        else ok (record { maybe = false; vec = r.1; removed = true; state = s' }) in
      elim (c.solve vec id s).0 [ holds ↦ next | fails m ↦ remove_failed m nec vec id >>= again ]

  unfoldable pub mis_loop :
      ℕ → List ClauseId → List ClauseId → c.State → Result (Bool × List ClauseId × c.State)
  mis_loop zero nec vec s = fault out_of_fuel
  mis_loop (suc fuel) nec vec s = do
    r ← mis_pass (length vec) nec vec vec false s
    let more = mis_loop fuel nec r.vec r.state
    if r.maybe
        then (if r.removed then more else ok (true, r.vec, r.state))
        else ok (false, r.vec, r.state)

  -- `findSafeMIS` on a set of necessary clauses.
  unfoldable pub find_safe_mis :
      List ClauseId → List ClauseId → c.State → Result (Bool × List ClauseId × c.State)
  find_safe_mis vec nec s =
      let safe = is_safe_inductive vec nec s in
      if contains_all_of vec nec
      then (if safe.0
          then ok (true, vec, safe.1)
          else mis_loop (length vec + 1) nec (sorted_list vec) safe.1)
      else ok (false, vec, s)
