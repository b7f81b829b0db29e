-- ===== src/MapSolver.antt =====
-- src/pme/util/map_solver.cpp: the clauses that block seeds of the map, and the cubes that ask for
-- one. What is handed to the SAT solver is the result.
pub mod Exact
mod Tests
use pme.Base.{
  Bool, true, false, not, ◌||◌, if◌then◌else◌, ◌==◌, List, [], ◌∷◌, Result, ok, ◌>>=◌, ◌>>◌, check,
}
use pme.Literal.{PmeId, Clause, Cube, is_negated, negate, id_false}

abbrev pub Seed : Type 0
Seed = List PmeId

-- `seed_set.count(id) > 0`
unfoldable pub in_seed : PmeId → Seed → Bool
in_seed id [] = false
in_seed id (x ∷ xs) = x == id || in_seed id xs

unfoldable pub down_clause : List PmeId → Seed → Result Clause
down_clause [] seed = ok []
down_clause (id ∷ ids) seed = do
  check (not (is_negated id))
  cls ← down_clause ids seed
  ok (if in_seed id seed then cls else id ∷ cls)

unfoldable pub up_clause : Seed → Result Clause
up_clause [] = ok []
up_clause (id ∷ seed) = do check (not (is_negated id)); cls ← up_clause seed; ok (negate id ∷ cls)

-- An empty clause is replaced by the false one.
unfoldable pub or_false : Clause → Clause
or_false [] = id_false ∷ []
or_false (x ∷ xs) = x ∷ xs

-- The clause that `blockUp` adds, and that of `blockDown` over the ids of the map.
unfoldable pub block_up : Seed → Result Clause
block_up seed = do cls ← up_clause seed; ok (or_false cls)

unfoldable pub block_down : List PmeId → Seed → Result Clause
block_down ids seed = do cls ← down_clause ids seed; ok (or_false cls)

-- The assumptions of `checkSeed`.
unfoldable pub seed_cube : List PmeId → Seed → Cube
seed_cube [] seed = []
seed_cube (id ∷ ids) seed =
    let rest = seed_cube ids seed in if in_seed id seed then id ∷ rest else negate id ∷ rest
