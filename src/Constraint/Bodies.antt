-- ===== src/Constraint/Bodies.antt =====
-- What one round of each `assume` loop of src/pme/util/cardinality_constraint.cpp pushes.
use pme.Base.{ℕ, suc, ◌≤◌, ◌<◌, ◌≡◌, true, false, [], ◌∷◌, arith, subst, sym}
use pme.Literal.{PmeId, Cube, negate}
use pme.Cnf.{Valuation, SatCube, lit_value, lit_value-negate}
use pme.Constraint.{eq_body, leq_body, lt_body, geq_body, gt_body}

module _ (v : Valuation) (lit : PmeId) (cube : Cube) where
  pub pushed_true : cube ≡ lit ∷ [] → SatCube v cube → lit_value v lit ≡ true
  pushed_true e s = (subst (λ c. SatCube v c) e s).0

  pub pushed_false : cube ≡ negate lit ∷ [] → SatCube v cube → lit_value v lit ≡ false
  pushed_false e s =
      let t : lit_value v (negate lit) ≡ true = (subst (λ c. SatCube v c) e s).0 in
      ground (arith, lit_value-negate v lit)

  pub push_true : cube ≡ lit ∷ [] → lit_value v lit ≡ true → SatCube v cube
  push_true e h = subst (λ c. SatCube v c) (sym e) (h, tt)

  pub push_false : cube ≡ negate lit ∷ [] → lit_value v lit ≡ false → SatCube v cube
  push_false e h =
      let t : lit_value v (negate lit) ≡ true = ground (arith, lit_value-negate v lit) in
      subst (λ c. SatCube v c) (sym e) (t, tt)

  pub push_nothing : cube ≡ [] → SatCube v cube
  push_nothing e = subst (λ c. SatCube v c) (sym e) tt

module _ (n i : ℕ) (lit : PmeId) where
  pub eq_below : i < n → eq_body n i lit ≡ lit ∷ []
  unfolding eq_body
  eq_below h = ground arith

  pub eq_from : n ≤ i → eq_body n i lit ≡ negate lit ∷ []
  unfolding eq_body
  eq_from h = ground arith

  pub leq_below : i < n → leq_body n i lit ≡ []
  unfolding leq_body
  leq_below h = ground arith

  pub leq_from : n ≤ i → leq_body n i lit ≡ negate lit ∷ []
  unfolding leq_body
  leq_from h = ground arith

  pub lt_below : i < n → lt_body (suc n) i lit ≡ []
  unfolding lt_body
  lt_below h = ground arith

  pub lt_from : n ≤ i → lt_body (suc n) i lit ≡ negate lit ∷ []
  unfolding lt_body
  lt_from h = ground arith

  pub geq_below : i < n → geq_body n i lit ≡ lit ∷ []
  unfolding geq_body
  geq_below h = ground arith

  pub geq_from : n ≤ i → geq_body n i lit ≡ []
  unfolding geq_body
  geq_from h = ground arith

  pub gt_below : i < suc n → gt_body n i lit ≡ lit ∷ []
  unfolding gt_body
  gt_below h = ground arith

  pub gt_from : suc n ≤ i → gt_body n i lit ≡ []
  unfolding gt_body
  gt_from h = ground arith
