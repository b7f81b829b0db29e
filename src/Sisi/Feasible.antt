-- ===== src/Sisi/Feasible.antt =====
-- `refineFEAS` of src/pme/minimization/sisi.cpp, and `doMinimize` of its minimizer up to the proof that it adds.
pub mod Growing
pub mod Passes
pub mod Fixpoint
pub mod Compose
pub mod Tests
use pme.Base.{
  ℕ, zero, suc, ◌+◌, Bool, true, false, not, if◌then◌else◌, ltb, leb, List, [], ◌∷◌, Option, none,
  some, member, length, Result, ok, fault, out_of_fuel, ◌>>=◌, ◌>>◌, check,
}
use pme.Base.Distinct.{set_insert}
use pme.Literal.{ClauseId}
use pme.Checker.{Checker, holds, fails}
use pme.Support.{support_solve, find_minimal_support}
use pme.Sisi.{Sisi, is_empty_set, refine_nec, brute_force_minimize}

-- `m_feas.insert(support.begin(), support.end())`
unfoldable pub insert_all : List ClauseId → List ClauseId → List ClauseId
insert_all [] set = set
insert_all (id ∷ ids) set = insert_all ids (set_insert id set)

unfoldable pub tail_of : List ClauseId → List ClauseId
tail_of [] = []
tail_of (x ∷ xs) = xs

-- What `support` holds after the call: it stays empty where the clause does not hold.
unfoldable pub written : Option (List ClauseId) → List ClauseId
written none = []
written (some support) = support

module _ (c : Checker) where
  unfoldable pub minimize_support :
      List ClauseId → ClauseId → c.State → Result (List ClauseId × c.State)
  minimize_support vec cls s = do
    r ← find_minimal_support c vec cls s
    check (leb (length r.0) (length vec))
    ok r

  -- The support that is added for a clause which the feasible ones do not support.
  unfoldable pub new_feas :
      List ClauseId → List ClauseId → ClauseId → c.State → Result (List ClauseId × c.State)
  new_feas all feas cls s = do
    r ← minimize_support (written (support_solve c all cls s).0) cls (support_solve c all cls s).1
    check (ltb (length feas) (length (insert_all r.0 feas)))
    ok (insert_all r.0 feas, r.1)

  -- The inner loop, with the entries from the iterator on. After an insertion it goes on behind the first
  -- entry. Fuel is spent where the set grows.
  unfoldable pub feas_pass :
      ℕ
      → List ClauseId
      → List ClauseId
      → List ClauseId
      → List ClauseId
      → c.State
      → Result (List ClauseId × List ClauseId × c.State)
  feas_pass fuel all feas inds [] s = ok (feas, inds, s)
  feas_pass zero all feas inds (cls ∷ rest) s =
      let skip = feas_pass zero all feas inds rest s in
      let next = feas_pass zero all feas (set_insert cls inds) rest (c.solve feas cls s).1 in
      if member cls inds
      then skip
      else elim (c.solve feas cls s).0 [ holds ↦ next | fails m ↦ fault out_of_fuel ]
  feas_pass (suc fuel) all feas inds (cls ∷ rest) s =
      let skip = feas_pass (suc fuel) all feas inds rest s in
      let s' = (c.solve feas cls s).1 in
      let next = feas_pass (suc fuel) all feas (set_insert cls inds) rest s' in
      let grow = (do
        r ← new_feas all feas cls s'
        feas_pass fuel all r.0 (set_insert cls inds) (tail_of r.0) r.1) in
      if member cls inds
      then skip
      else elim (c.solve feas cls s).0 [ holds ↦ next | fails m ↦ grow ]

  unfoldable pub feas_loop :
      ℕ → List ClauseId → List ClauseId → List ClauseId → c.State → Result (List ClauseId × c.State)
  feas_loop zero all feas inds s =
      if ltb (length inds) (length feas) then fault out_of_fuel else ok (feas, s)
  feas_loop (suc fuel) all feas inds s =
      let more = (do
        r ← feas_pass (length all) all feas inds feas s
        feas_loop fuel all r.0 r.1 r.2) in
      if ltb (length inds) (length feas) then more else ok (feas, s)

  unfoldable pub refine_feas : Sisi → c.State → Result (Sisi × c.State)
  refine_feas x s = do
    check (not (is_empty_set x.nec))
    r ← feas_loop (length x.all_clauses) x.all_clauses x.nec [] s
    ok (record x { feas = r.0 }, r.1)

  -- `SISIMinimizer::doMinimize` between the first clause sets and `addMinimalProof`.
  unfoldable pub sisi_minimize : Sisi → c.State → Result (List ClauseId × c.State)
  sisi_minimize x s = do
    a ← refine_nec c x s
    b ← refine_feas a.0 a.1
    d ← refine_nec c b.0 b.1
    brute_force_minimize c d.0 d.1
