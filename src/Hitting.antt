-- ===== src/Hitting.antt =====
-- src/pme/util/hitting_set_finder.cpp: the sets and what its MaxSAT solver is given, that is the literals to
-- optimize and the clauses; and `subsumes` of src/pme/pme.cpp.
pub mod Subsumes
pub mod Cleanup
pub mod Sets
pub mod Blocked
mod Tests
use pme.Base.{
  ℕ, Bool, true, false, not, ◌&&◌, if◌then◌else◌, ltb, leb, ◌==◌, List, [], ◌∷◌, ◌++◌, map, member,
  length, Result, ok, ◌>>=◌, ◌>>◌, check,
}
use pme.Base.Sorting.{sorted_list}
use pme.Base.Distinct.{set_insert}
use pme.Literal.{PmeId, Clause, ClauseVec, negate, negate_vec, is_negated}

-- `std::is_sorted`
unfoldable pub is_sorted : List ℕ → Bool
is_sorted [] = true
is_sorted (x ∷ []) = true
is_sorted (x ∷ y ∷ ys) = leb x y && is_sorted (y ∷ ys)

-- The loops of `subsumes`: the position in the second vector stays where a value was found.
unfoldable pub scan : List PmeId → List PmeId → Bool
scan [] ys = true
scan (x ∷ xs) [] = false
scan (x ∷ xs) (y ∷ ys) =
    let found = scan xs (y ∷ ys) in let next = scan (x ∷ xs) ys in if x == y then found else next

unfoldable pub subsumes : List PmeId → List PmeId → Result Bool
subsumes a b = do
  check (is_sorted a)
  check (is_sorted b)
  ok (if ltb (length b) (length a) then false else scan a b)

pub record HittingSetFinder : Type 0 where
  pub known : List PmeId
  pub sets : List (List PmeId)
  pub blocked : List (List PmeId)
  pub soft : List PmeId
  pub hard : ClauseVec

unfoldable pub new_finder : HittingSetFinder
new_finder = record { known = []; sets = []; blocked = []; soft = []; hard = [] }

-- The loop of `checkSubsumption`, with the sets that are left.
unfoldable pub subsumption_loop : List PmeId → List (List PmeId) → Result (Bool × List (List PmeId))
subsumption_loop s [] = ok (true, [])
subsumption_loop s (t ∷ ts) =
    let rest = subsumption_loop s ts in
    let other = (do
      larger ← subsumes t s
      if larger then ok (false, t ∷ ts) else (do r ← rest; ok (r.0, t ∷ r.1))) in
    (do check (is_sorted t); smaller ← subsumes s t; if smaller then rest else other)

unfoldable pub check_subsumption :
    List PmeId → List (List PmeId) → Result (Bool × List (List PmeId))
check_subsumption s sets = do check (is_sorted s); subsumption_loop s sets

unfoldable pub add_var : PmeId → HittingSetFinder → HittingSetFinder
add_var lit f =
    if member lit f.known
    then f
    else record f { known = set_insert lit f.known; soft = f.soft ++ negate lit ∷ [] }

unfoldable pub add_vars : List PmeId → HittingSetFinder → Result HittingSetFinder
add_vars [] f = ok f
add_vars (lit ∷ lits) f = do check (not (is_negated lit)); add_vars lits (add_var lit f)

unfoldable pub add_set : List PmeId → HittingSetFinder → Result HittingSetFinder
add_set s f = do
  r ← check_subsumption s f.sets
  let add = (do
    g ← add_vars (sorted_list s) (record f { sets = r.1 })
    ok (record g { sets = g.sets ++ sorted_list s ∷ []; hard = g.hard ++ sorted_list s ∷ [] }))
  if r.0 then add else ok (record f { sets = r.1 })

unfoldable pub block_solution : List PmeId → HittingSetFinder → HittingSetFinder
block_solution soln f = record f {
  blocked = f.blocked ++ soln ∷ [];
  hard = f.hard ++ negate_vec soln ∷ [];
}

unfoldable pub renew : HittingSetFinder → HittingSetFinder
renew f = record f { soft = map negate f.known; hard = f.sets ++ map negate_vec f.blocked }
