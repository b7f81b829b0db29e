-- ===== src/Sisi.antt =====
-- The class `SISI` of src/pme/minimization/sisi.h and .cpp: necessary and feasible clauses of a proof, and its
-- minimization by removing one clause at a time.

pub mod Required
pub mod Kept
pub mod Minimize
pub mod Minimal
pub mod Refine
pub mod Feasible
pub mod Tests
use pme.Base.{
  ℕ, zero, suc, Bool, true, false, not, if◌then◌else◌, ltb, List, [], ◌∷◌, ◌++◌, member, length,
  Result, ok, fault, out_of_range, out_of_fuel, ◌>>=◌, ◌>>◌, check,
}
use pme.Base.Sorting.{without}
use pme.Base.Distinct.{set_insert}
use pme.Literal.{ClauseId}
use pme.Checker.{Checker}
use pme.Mis.{find_safe_mis}

pub record Sisi : Type 0 where
  pub nec : List ClauseId
  pub feas : List ClauseId
  pub all_clauses : List ClauseId

unfoldable pub new_sisi : Sisi
new_sisi = record { nec = []; feas = []; all_clauses = [] }

unfoldable pub add_to_feas : ClauseId → Sisi → Sisi
add_to_feas id x = record x { feas = set_insert id x.feas }

unfoldable pub add_to_nec : ClauseId → Sisi → Sisi
add_to_nec id x = record x { nec = set_insert id x.nec }

unfoldable pub add_sisi_clause : ClauseId → Sisi → Sisi
add_sisi_clause id x = record x { all_clauses = x.all_clauses ++ id ∷ [] }

unfoldable pub is_empty_set : List ClauseId → Bool
is_empty_set [] = true
is_empty_set (x ∷ xs) = false

module _ (c : Checker) where
  unfoldable pub find_sis :
      List ClauseId → List ClauseId → c.State → Result (Bool × List ClauseId × c.State)
  find_sis nec vec s = find_safe_mis c vec nec s

  -- The loop of `refineNEC` over the feasible clauses.
  unfoldable pub refine_nec_loop :
      List ClauseId → List ClauseId → List ClauseId → c.State → Result (List ClauseId × c.State)
  refine_nec_loop feas nec [] s = ok (nec, s)
  refine_nec_loop feas nec (id ∷ ids) s =
      let skip = refine_nec_loop feas nec ids s in
      let try = (do
        r ← find_sis nec (without id feas) s
        refine_nec_loop feas (if r.0 then nec else set_insert id nec) ids r.2) in
      if member id nec then skip else try

  unfoldable pub refine_nec : Sisi → c.State → Result (Sisi × c.State)
  refine_nec x s = do
    check (not (is_empty_set x.feas))
    r ← refine_nec_loop x.feas x.nec x.feas s
    ok (record x { nec = r.0 }, r.1)

  -- The loop of `bruteForceMinimize`, with the entries from the iterator on. Fuel is spent where the
  -- iterator is set back.
  unfoldable pub brute_force_loop :
      ℕ
      → List ClauseId
      → List ClauseId
      → List ClauseId
      → List ClauseId
      → c.State
      → Result (List ClauseId × c.State)
  brute_force_loop fuel nec feas keep [] s =
      if ltb (length keep) (length feas) then fault out_of_range else ok (keep, s)
  brute_force_loop zero nec feas keep (id ∷ rest) s =
      let skip = brute_force_loop zero nec feas keep rest s in
      let try = (do
        r ← find_sis nec (without id feas) s
        let kept = brute_force_loop zero nec feas (set_insert id keep) rest r.2
        if r.0 then fault out_of_fuel else kept) in
      if ltb (length keep) (length feas)
      then (if member id keep then skip else try)
      else ok (keep, s)
  brute_force_loop (suc fuel) nec feas keep (id ∷ rest) s =
      let skip = brute_force_loop (suc fuel) nec feas keep rest s in
      let try = (do
        r ← find_sis nec (without id feas) s
        let kept = brute_force_loop (suc fuel) nec feas (set_insert id keep) rest r.2
        let smaller = (do
          check (ltb (length r.1) (length feas))
          brute_force_loop fuel nec r.1 keep r.1 r.2)
        if r.0 then smaller else kept) in
      if ltb (length keep) (length feas)
      then (if member id keep then skip else try)
      else ok (keep, s)

  unfoldable pub brute_force_minimize : Sisi → c.State → Result (List ClauseId × c.State)
  brute_force_minimize x s = brute_force_loop (length x.feas) x.nec x.feas x.nec x.feas s

  unfoldable pub is_minimal_loop :
      List ClauseId
      → List ClauseId
      → List ClauseId
      → List ClauseId
      → c.State
      → Result (Bool × c.State)
  is_minimal_loop nec feas keep [] s =
      if ltb (length keep) (length feas) then fault out_of_range else ok (true, s)
  is_minimal_loop nec feas keep (id ∷ rest) s =
      let skip = is_minimal_loop nec feas keep rest s in
      let try = (do
        r ← find_sis nec (without id feas) s
        let kept = is_minimal_loop nec feas (set_insert id keep) rest r.2
        let smaller = (do check (ltb (length r.1) (length feas)); ok (false, r.2))
        if r.0 then smaller else kept) in
      if ltb (length keep) (length feas)
      then (if member id keep then skip else try)
      else ok (true, s)

  unfoldable pub is_minimal : Sisi → c.State → Result (Bool × c.State)
  is_minimal x s = is_minimal_loop x.nec x.feas x.nec x.feas s
