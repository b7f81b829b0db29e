-- ===== src/Hitting/Sets.antt =====
-- `addSet`, `blockSolution` and `renew` of src/pme/util/hitting_set_finder.cpp: the valuations that the clauses of
-- the solver allow.
use pme.Base.{◌≡◌, true, List, ◌++◌, map, All-append, All-split, ◌↔◌}
use pme.Literal.{PmeId, negate_vec}
use pme.Cnf.{Valuation, clause_value, Sat}
use pme.Hitting.{HittingSetFinder, renew}
use pme.Hitting.Cleanup.{AllSorted}

-- The sets are sorted, and the clauses of the solver allow the valuations that hit all of them and make no
-- blocked solution true.
pub record IsSynced (f : HittingSetFinder) : Type 0 where
  pub sorted : AllSorted f.sets
  pub hard : (v : Valuation) → Sat v f.hard ↔ (Sat v f.sets × Sat v (map negate_vec f.blocked))

-- A new set beside the ones that are left.
pub record IsAdded (s : List PmeId) (f g : HittingSetFinder) : Type 0 where
  pub synced : IsSynced g
  pub sets_hit : (v : Valuation) → Sat v g.sets ↔ (Sat v f.sets × (clause_value v s ≡ true))
  pub allowed : (v : Valuation) → Sat v g.hard ↔ (Sat v f.hard × (clause_value v s ≡ true))

-- Where the clauses of the solver agree with the sets and the blocked solutions, `renew` gives a new solver
-- clauses that allow the same valuations, and they still agree.
pub renew-same :
    (f : HittingSetFinder)
    → IsSynced f
    → IsSynced (renew f) × ((v : Valuation) → Sat v (renew f).hard ↔ Sat v f.hard)
unfolding renew
renew-same f y =
    let split : (v : Valuation)
        → Sat v (f.sets ++ map negate_vec f.blocked)
          ↔ (Sat v f.sets × Sat v (map negate_vec f.blocked)) =
      λ v. (
        All-split (λ c. clause_value v c ≡ true) f.sets (map negate_vec f.blocked),
        λ h. All-append (λ c. clause_value v c ≡ true) f.sets (map negate_vec f.blocked) h.0 h.1,
      ) in
    (
      record { sorted = y.sorted; hard = split },
      λ v. (λ h. (y.hard v).1 ((split v).0 h), λ h. (split v).1 ((y.hard v).0 h)),
    )
