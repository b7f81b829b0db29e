-- ===== src/Checker.antt =====
-- The consecution checker as its clients see it (src/pme/engine/consecution_checker.h): an interface that
-- src/pme/util/find_safe_mis.cpp and the minimizers take, over the values of src/sat/sat.h.

pub mod Chain
use pme.Base.Distinct.{Distinct}
use pme.Base.{Within, ◌≡◌, refl, Bool, true, false, if◌then◌else◌, List, [], ◌∷◌, member, All}
use pme.Literal.{PmeId, ClauseId, Clause, Cube, is_negated, negate, prime, nprimes, strip}
use pme.Cnf.{Valuation, clause_value, SatCube}

-- `SAT::ModelValue`
pub data ModelValue : Type 0 where
  is_true is_false undef : ModelValue

-- What the solver found, by variable.
abbrev pub Assignment : Type 0
Assignment = PmeId → ModelValue

unfoldable pub flip : ModelValue → ModelValue
flip is_true = is_false
flip is_false = is_true
flip undef = undef

-- The value of a literal, `getAssignment`
unfoldable pub value_of : Assignment → PmeId → ModelValue
unfolding flip
value_of m lit = if is_negated lit then flip (m (strip lit)) else m (strip lit)

abbrev pub Agrees : ModelValue → Bool → Type 0
Agrees is_true b = b ≡ true
Agrees is_false b = b ≡ false
Agrees undef b = Unit

-- A valuation that has the values which the assignment gives.
abbrev pub Completes : Valuation → Assignment → Type 0
Completes v m = (x : PmeId) → Agrees (m x) (v x)

-- The literals of `~c'`
unfoldable pub negated_primes : Clause → Cube
negated_primes [] = []
negated_primes (lit ∷ cls) = negate (prime lit 1) ∷ negated_primes cls

-- No literal of the cube stands beside its negation.
abbrev pub IsConsistent : Cube → Type 0
IsConsistent cube = (lit : PmeId) → member lit cube ≡ true → member (negate lit) cube ≡ false

-- The answer of `solve`: the clause holds after a step, or an assignment shows that it fails.
pub data Consecution : Type 0 where
  holds : Consecution
  fails : Assignment → Consecution

abbrev pub FrameHolds : (ClauseId → Clause) → Valuation → List ClauseId → Type 0
FrameHolds clause_of v frame =
    (id : ClauseId) → member id frame ≡ true → clause_value v (clause_of id) ≡ true

-- A checker over the clauses that it knows. `Trans` are the valuations of two steps that the
-- transition relation allows, `support` is what `supportSolve` writes where the clause holds.
pub record Checker : Type 1 where
  pub State : Type 0
  pub solve : List ClauseId → ClauseId → State → Consecution × State
  pub clause_of : ClauseId → Clause
  pub known : ClauseId → Bool
  pub Trans : Valuation → Type 0
  pub unprimed : (id : ClauseId) → known id ≡ true → All (λ lit. nprimes lit ≡ 0) (clause_of id)
  pub consistent : (id : ClauseId) → known id ≡ true → IsConsistent (negated_primes (clause_of id))
  pub support : List ClauseId → ClauseId → State → List ClauseId
  pub support_lem :
      (frame : List ClauseId) (id : ClauseId) (s : State)
      → ((x : ClauseId) → member x frame ≡ true → known x ≡ true)
      → known id ≡ true
      → (solve frame id s).0 ≡ holds
      → Within (support frame id s) frame
        × (Distinct frame → Distinct (support frame id s))
        × ((v : Valuation)
            → Trans v
            → FrameHolds clause_of v (support frame id s)
            → clause_value v (clause_of id) ≡ true
            → ¬ SatCube v (negated_primes (clause_of id)))
  pub fails_lem :
      (frame : List ClauseId) (id : ClauseId) (s : State) (m : Assignment)
      → ((x : ClauseId) → member x frame ≡ true → known x ≡ true)
      → known id ≡ true
      → (solve frame id s).0 ≡ fails m
      → (v : Valuation) → Completes v m
      → Trans v × FrameHolds clause_of v frame × SatCube v (negated_primes (clause_of id))

-- Where the checker answers that a clause holds, it holds after every step from the frame.
pub holds_lem :
    (c : Checker) (frame : List ClauseId) (id : ClauseId) (s : c.State)
    → ((x : ClauseId) → member x frame ≡ true → c.known x ≡ true)
    → c.known id ≡ true
    → (c.solve frame id s).0 ≡ holds
    → (v : Valuation) → c.Trans v
    → FrameHolds c.clause_of v frame
    → clause_value v (c.clause_of id) ≡ true
    → ¬ SatCube v (negated_primes (c.clause_of id))
holds_lem c frame id s k known_id h v t fr =
    let (within, distinct, enough) = c.support_lem frame id s k known_id h in
    enough v t (λ x m. fr x (within x m))

-- Every clause of the set holds after a step from where all of them hold.
abbrev pub IsInductive : Checker → List ClauseId → Type 0
IsInductive c ids =
    (id : ClauseId)
    → member id ids ≡ true
    → (v : Valuation) → c.Trans v
    → FrameHolds c.clause_of v ids
    → ¬ SatCube v (negated_primes (c.clause_of id))

abbrev pub AllKnown : Checker → List ClauseId → Type 0
AllKnown c ids = (id : ClauseId) → member id ids ≡ true → c.known id ≡ true

-- The completion that makes the literals of a cube true where the assignment leaves it open.
unfoldable pub complete : Assignment → Cube → Valuation
complete m cube x = elim (m x) [ is_true ↦ true | is_false ↦ false | undef ↦ member x cube ]

pub complete-Completes : (m : Assignment) (cube : Cube) → Completes (complete m cube) m
unfolding complete
complete-Completes m cube x =
    elim (m x)
      as (λ a. Agrees a (elim a [ is_true ↦ true | is_false ↦ false | undef ↦ member x cube ])) [
        | is_true ↦ refl
        | is_false ↦ refl
        | undef ↦ tt
      ]
