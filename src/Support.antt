-- ===== src/Support.antt =====
-- src/pme/util/find_minimal_support.cpp: a smaller set of clauses from which a clause holds after a step, over a
-- consecution checker; the search asks about the whole set each time.
pub mod Smaller
pub mod Tests
use pme.Base.{
  ℕ, zero, suc, Bool, true, false, leb, List, [], ◌∷◌, Option, none, some, length, Result, ok,
  fault, out_of_fuel, ◌>>=◌, ◌>>◌, check,
}
use pme.Base.Sorting.{sorted_list, upper_bound}
use pme.Literal.{ClauseId}
use pme.Checker.{holds, fails, Checker}

module _ (c : Checker) where
  -- `supportSolve`, with what it writes where the clause holds.
  unfoldable pub support_solve :
      List ClauseId → ClauseId → c.State → Option (List ClauseId) × c.State
  support_solve frame id s = elim (c.solve frame id s).0 [
    | holds ↦ (some (c.support frame id s), (c.solve frame id s).1)
    | fails m ↦ (none, (c.solve frame id s).1)
  ]

  -- The loop, with the entries from the iterator on. Fuel is spent where the frame changes.
  unfoldable pub support_loop :
      ℕ → ClauseId → List ClauseId → List ClauseId → c.State → Result (List ClauseId × c.State)
  support_loop fuel cls frame [] s = ok (frame, s)
  support_loop zero cls frame (id ∷ rest) s =
      let next = support_loop zero cls frame rest (support_solve frame cls s).1 in
      elim (support_solve frame cls s).0 [ none ↦ next | some support ↦ fault out_of_fuel ]
  support_loop (suc fuel) cls frame (id ∷ rest) s =
      let s' = (support_solve frame cls s).1 in
      let next = support_loop (suc fuel) cls frame rest s' in
      let again = λ (support : List ClauseId).
        let more =
          support_loop fuel cls (sorted_list support) (upper_bound id (sorted_list support)) s' in
        (check (leb (length support) (length frame)) >> more) in
      elim (support_solve frame cls s).0 [ none ↦ next | some support ↦ again support ]

  unfoldable pub find_minimal_support :
      List ClauseId → ClauseId → c.State → Result (List ClauseId × c.State)
  find_minimal_support frame cls s =
      support_loop (length frame) cls (sorted_list frame) (sorted_list frame) s
