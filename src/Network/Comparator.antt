-- ===== src/Network/Comparator.antt =====
-- What a comparator and a disjunction of src/pme/util/sorting_network.cpp imply of their outputs.
use pme.Base.{◌≡◌, Bool, true, false, ◌||◌, ◌&&◌, arith}
use pme.Literal.{PmeId}
use pme.Cnf.{Valuation, lit_value, lit_value-negate, Sat}
use pme.Network.{or_clauses, comp_clauses}

-- One direction each: inputs that are true force outputs, and inputs that are false do.
pub record Compares (v : Valuation) (x₁ x₂ y₁ y₂ : PmeId) (le ge : Bool) : Type 0 where
  pub some_true : le ≡ true → (lit_value v x₁ || lit_value v x₂) ≡ true → lit_value v y₁ ≡ true
  pub both_true : le ≡ true → (lit_value v x₁ && lit_value v x₂) ≡ true → lit_value v y₂ ≡ true
  pub some_false : ge ≡ true → (lit_value v x₁ && lit_value v x₂) ≡ false → lit_value v y₂ ≡ false
  pub both_false : ge ≡ true → (lit_value v x₁ || lit_value v x₂) ≡ false → lit_value v y₁ ≡ false

-- One direction each, of a disjunction.
pub record Disjoins (v : Valuation) (x₁ x₂ y : PmeId) (le ge : Bool) : Type 0 where
  pub some_true : le ≡ true → (lit_value v x₁ || lit_value v x₂) ≡ true → lit_value v y ≡ true
  pub both_false : ge ≡ true → (lit_value v x₁ || lit_value v x₂) ≡ false → lit_value v y ≡ false

module _ (v : Valuation) (x₁ x₂ y₁ y₂ : PmeId) (le ge : Bool) where
  pub comp_clauses-Compares : Sat v (comp_clauses x₁ x₂ y₁ y₂ le ge) → Compares v x₁ x₂ y₁ y₂ le ge
  unfolding comp_clauses
  comp_clauses-Compares s = record {
    some_true = λ d h. ground (arith, lit_value-negate v x₁, lit_value-negate v x₂);
    both_true = λ d h. ground (arith, lit_value-negate v x₁, lit_value-negate v x₂);
    some_false = λ d h. ground (arith, lit_value-negate v y₂);
    both_false = λ d h. ground (arith, lit_value-negate v y₁);
  }

-- The values that a comparator computes satisfy its clauses, in both directions.
pub comp_clauses-Sat :
    (v : Valuation) (x₁ x₂ y₁ y₂ : PmeId) (le ge : Bool)
    → lit_value v y₁ ≡ (lit_value v x₁ || lit_value v x₂)
    → lit_value v y₂ ≡ (lit_value v x₁ && lit_value v x₂)
    → Sat v (comp_clauses x₁ x₂ y₁ y₂ le ge)
unfolding comp_clauses
comp_clauses-Sat v x₁ x₂ y₁ y₂ le ge e₁ e₂ = ground (
  arith,
  lit_value-negate v x₁,
  lit_value-negate v x₂,
  lit_value-negate v y₁,
  lit_value-negate v y₂,
)

module _ (v : Valuation) (x₁ x₂ y : PmeId) (le ge : Bool) where
  pub or_clauses-Disjoins : Sat v (or_clauses x₁ x₂ y le ge) → Disjoins v x₁ x₂ y le ge
  unfolding or_clauses
  or_clauses-Disjoins s = record {
    some_true = λ d h. ground (arith, lit_value-negate v x₁, lit_value-negate v x₂);
    both_false = λ d h. ground (arith, lit_value-negate v y);
  }

  pub or_clauses-Sat :
      lit_value v y ≡ (lit_value v x₁ || lit_value v x₂) → Sat v (or_clauses x₁ x₂ y le ge)
  unfolding or_clauses
  or_clauses-Sat e =
      ground (arith, lit_value-negate v x₁, lit_value-negate v x₂, lit_value-negate v y)
