-- ===== src/MapSolver/Tests.antt =====
-- Runs of the map's clauses of src/pme/util/map_solver.cpp, and their theorems at concrete seeds.
use pme.Base.{◌≡◌, refl, ◌==◌, false, not, ◌↔◌, [], ◌∷◌, All, Returns, ok, fault, assertion_failed}
use pme.Literal.{is_negated, negate, strip, id_false}
use pme.Cnf.{Valuation, lit_value, clause_value, SatCube}
use pme.MapSolver.{in_seed, down_clause, up_clause, or_false, block_up, block_down, seed_cube}
use pme.MapSolver.Exact.{
  IsPositive, takes_all, takes_only, block_up-exact, block_down-exact, seed_cube-exact,
}

map_program : Unit {0}
unfolding is_negated negate strip lit_value in_seed down_clause up_clause or_false block_up
    block_down seed_cube
map_program = tt

abbrev only_four : Valuation
only_four id = id == 4

up_two : block_up (4 ∷ 6 ∷ []) ≡ ok (5 ∷ 7 ∷ [])
unfolding map_program
up_two = refl

down_one : block_down (4 ∷ 6 ∷ 8 ∷ []) (6 ∷ []) ≡ ok (4 ∷ 8 ∷ [])
unfolding map_program
down_one = refl

down_all : block_down (4 ∷ 6 ∷ []) (6 ∷ 4 ∷ []) ≡ ok (id_false ∷ [])
unfolding map_program
down_all = refl

signed : block_up (5 ∷ []) ≡ fault assertion_failed
unfolding map_program
signed = refl

false_is_false : lit_value only_four id_false ≡ false
unfolding map_program
false_is_false = refl

positive : IsPositive (4 ∷ 6 ∷ [])
unfolding map_program
positive = (refl, (refl, tt))

block_up-exact_example :
    Returns
      (block_up (4 ∷ 6 ∷ []))
      (λ cls. clause_value only_four cls ≡ not (takes_all only_four (4 ∷ 6 ∷ [])))
block_up-exact_example = block_up-exact only_four (4 ∷ 6 ∷ []) false_is_false positive

block_down-exact_example :
    Returns
      (block_down (4 ∷ 6 ∷ []) (6 ∷ []))
      (λ cls. clause_value only_four cls ≡ not (takes_only only_four (4 ∷ 6 ∷ []) (6 ∷ [])))
block_down-exact_example = block_down-exact only_four (4 ∷ 6 ∷ []) (6 ∷ []) false_is_false positive

seed_cube-exact_example :
    SatCube only_four (seed_cube (4 ∷ 6 ∷ []) (4 ∷ []))
    ↔ All (λ id. lit_value only_four id ≡ in_seed id (4 ∷ [])) (4 ∷ 6 ∷ [])
seed_cube-exact_example = seed_cube-exact only_four (4 ∷ 6 ∷ []) (4 ∷ [])
