-- ===== src/Constraint/Exact.antt =====
-- `SortingConstraint` of src/pme/util/cardinality_constraint.cpp: each `assume` function
-- bounds the number of true inputs.
use pme.Base.{
  ℕ, suc, ◌^◌, ◌≤◌, ◌<◌, ◌≡◌, true, [], length, min, ok, Returns, arith, subst, ◌∙◌, ◌↔◌, ◌⊎◌, inl,
  inr,
}
use pme.Literal.{ClauseVec}
use pme.Cnf.{Valuation, Sat, SatCube, count_true, count_true-le-length}
use pme.Network.Prefix.{TruePrefix, FalseFrom, TruePrefix-mono, FalseFrom-mono}
use pme.Constraint.{
  SortingConstraint, assume_loop, eq_body, leq_body, lt_body, geq_body, gt_body, as_constraint,
  sorting_assume_eq, sorting_assume_leq, sorting_assume_lt, sorting_assume_geq, sorting_assume_gt,
}
use pme.Constraint.Assume.{Fits, TruePrefix-le-FalseFrom, SatCube-count}
use pme.Constraint.Cubes.{
  eq_cube-means, eq_cube-holds, leq_cube-means, leq_cube-holds, lt_cube-means, lt_cube-holds,
  geq_cube-means, geq_cube-holds, gt_cube-means, gt_cube-holds,
}
use pme.Constraint.Runs.{
  eq_loop, leq_loop, geq_loop, gt_loop, lt_loop, eq_full, leq_full, geq_full, as_constraint_fields,
  as_constraint_inputs, eq_shown, leq_shown, lt_shown, geq_shown, gt_shown,
}
use pme.Constraint.Encoded.{Encodes}

module _ (c : SortingConstraint) (clauses : ClauseVec) (enc : Encodes c clauses)
    (fits : Fits c.outputs) (few : length c.inputs < 2 ^ 32) where
  fields :
      ((as_constraint c).outputs ≡ ok c.outputs)
      × ((as_constraint c).input_cardinality ≡ length c.inputs)
      × ((as_constraint c).output_cardinality ≡ min c.cardinality_bound (length c.inputs))
  fields = as_constraint_fields c enc.made few

  -- In a constraint that `CNFize` has encoded with clauses of both directions, with outputs below
  -- 2^32 and fewer than 2^32 inputs, `assumeEq` for a number it accepts gives a cube that is true
  -- in just the satisfying valuations in which that number of inputs are true.
  pub assume_eq-exact :
      (n : ℕ)
      → c.le ≡ true
      → c.ge ≡ true
      → (n < min c.cardinality_bound (length c.inputs))
        ⊎ ((n ≡ length c.inputs) × (length c.inputs ≤ c.cardinality_bound))
      → Returns
          (sorting_assume_eq c n)
          (λ cube. (v : Valuation) → Sat v clauses → SatCube v cube ↔ (count_true v c.inputs ≡ n))
  assume_eq-exact n le ge (inl h) = (
    assume_loop (eq_body n) 0 c.outputs,
    eq_shown c enc.made few n le ge
        ∙ eq_loop (as_constraint c) n c.outputs fields.0 (omega (arith, fields.2)),
    λ v s.
        let t = enc.counts.trues le v s in
        let f = enc.counts.falses ge v s in
        (
          λ sc.
              let (p, q) = eq_cube-means v n c.outputs fits (omega (arith, enc.counts.size)) sc in
              omega (
                arith,
                TruePrefix-le-FalseFrom v (min (count_true v c.inputs) c.cardinality_bound) n
                    c.outputs t q,
                TruePrefix-le-FalseFrom v n (count_true v c.inputs) c.outputs p f,
              ),
          λ e.
              let e' : min (count_true v c.inputs) c.cardinality_bound ≡ n = omega arith in
              eq_cube-holds v n c.outputs fits (subst (λ j. TruePrefix v j c.outputs) e' t)
                (subst (λ j. FalseFrom v j c.outputs) e f),
        ),
  )
  assume_eq-exact n le ge (inr h) = (
    c.inputs,
    eq_shown c enc.made few n le ge
        ∙ eq_full (as_constraint c) n c.inputs (as_constraint_inputs c enc.made few)
            (omega (arith, fields.1)) (omega (arith, fields.2)),
    λ v s. (
      λ sc. omega (arith, (SatCube-count v c.inputs).0 sc, count_true-le-length v c.inputs),
      λ e. (SatCube-count v c.inputs).1 (omega arith),
    ),
  )

  -- In a constraint that `CNFize` has encoded with `le`, with outputs below 2^32 and fewer than
  -- 2^32 inputs, a satisfying valuation under the cube that `assumeLEq` gives for a number it
  -- accepts has at most that many inputs true. With `ge` as well, every such valuation is under
  -- the cube.
  pub assume_leq-exact :
      (n : ℕ)
      → c.le ≡ true
      → (n < min c.cardinality_bound (length c.inputs))
        ⊎ ((n ≡ length c.inputs) × (length c.inputs ≤ c.cardinality_bound))
      → Returns (sorting_assume_leq c n) (λ cube.
        (v : Valuation)
        → Sat v clauses
        → (SatCube v cube → count_true v c.inputs ≤ n)
          × (c.ge ≡ true → count_true v c.inputs ≤ n → SatCube v cube))
  assume_leq-exact n le (inl h) = (
    assume_loop (leq_body n) 0 c.outputs,
    leq_shown c enc.made few n le
        ∙ leq_loop (as_constraint c) n c.outputs fields.0 (omega (arith, fields.2)),
    λ v s. (
      λ sc. omega (
        arith,
        TruePrefix-le-FalseFrom v (min (count_true v c.inputs) c.cardinality_bound) n c.outputs
            (enc.counts.trues le v s) (leq_cube-means v n c.outputs fits sc),
      ),
      λ ge l.
          leq_cube-holds v n c.outputs fits
            (FalseFrom-mono v (count_true v c.inputs) n c.outputs l (enc.counts.falses ge v s)),
    ),
  )
  assume_leq-exact n le (inr h) = (
    [],
    leq_shown c enc.made few n le
        ∙ leq_full (as_constraint c) n c.inputs (as_constraint_inputs c enc.made few)
            (omega (arith, fields.1)) (omega (arith, fields.2)),
    λ v s. (λ sc. omega (arith, count_true-le-length v c.inputs), λ ge l. tt),
  )

  -- In a constraint that `CNFize` has encoded with `le`, with outputs below 2^32 and fewer than
  -- 2^32 inputs, a satisfying valuation under the cube that `assumeLT` gives, for a number from 1
  -- to the number of outputs, has fewer than that many inputs true. With `ge` as well, every such
  -- valuation is under the cube.
  pub assume_lt-exact :
      (n : ℕ)
      → c.le ≡ true
      → n < min c.cardinality_bound (length c.inputs)
      → Returns (sorting_assume_lt c (suc n)) (λ cube.
        (v : Valuation)
        → Sat v clauses
        → (SatCube v cube → count_true v c.inputs < suc n)
          × (c.ge ≡ true → count_true v c.inputs < suc n → SatCube v cube))
  assume_lt-exact n le h = (
    assume_loop (lt_body (suc n)) 0 c.outputs,
    lt_shown c enc.made few (suc n) le
        ∙ lt_loop (as_constraint c) n c.outputs fields.0 (omega (arith, fields.2)),
    λ v s. (
      λ sc. omega (
        arith,
        TruePrefix-le-FalseFrom v (min (count_true v c.inputs) c.cardinality_bound) n c.outputs
            (enc.counts.trues le v s) (lt_cube-means v n c.outputs fits sc),
      ),
      λ ge l. lt_cube-holds v n c.outputs fits (
          FalseFrom-mono v (count_true v c.inputs) n c.outputs (omega arith)
            (enc.counts.falses ge v s)),
    ),
  )

  -- In a constraint that `CNFize` has encoded with `ge`, with outputs below 2^32 and fewer than
  -- 2^32 inputs, a satisfying valuation under the cube that `assumeGEq` gives for a number it
  -- accepts has at least that many inputs true. With `le` as well, every such valuation is under
  -- the cube.
  pub assume_geq-exact :
      (n : ℕ)
      → c.ge ≡ true
      → (n < min c.cardinality_bound (length c.inputs))
        ⊎ ((n ≡ length c.inputs) × (length c.inputs ≤ c.cardinality_bound))
      → Returns (sorting_assume_geq c n) (λ cube.
        (v : Valuation)
        → Sat v clauses
        → (SatCube v cube → n ≤ count_true v c.inputs)
          × (c.le ≡ true → n ≤ count_true v c.inputs → SatCube v cube))
  assume_geq-exact n ge (inl h) = (
    assume_loop (geq_body n) 0 c.outputs,
    geq_shown c enc.made few n ge
        ∙ geq_loop (as_constraint c) n c.outputs fields.0 (omega (arith, fields.2)),
    λ v s. (
      λ sc.
          TruePrefix-le-FalseFrom v n (count_true v c.inputs) c.outputs
            (geq_cube-means v n c.outputs fits (omega (arith, enc.counts.size)) sc)
            (enc.counts.falses ge v s),
      λ le l. geq_cube-holds v n c.outputs fits (
          TruePrefix-mono v n (min (count_true v c.inputs) c.cardinality_bound) c.outputs
            (omega arith) (enc.counts.trues le v s)),
    ),
  )
  assume_geq-exact n ge (inr h) = (
    c.inputs,
    geq_shown c enc.made few n ge
        ∙ geq_full (as_constraint c) n c.inputs (as_constraint_inputs c enc.made few)
            (omega (arith, fields.1)) (omega (arith, fields.2)),
    λ v s. (
      λ sc. omega (arith, (SatCube-count v c.inputs).0 sc),
      λ le l. (SatCube-count v c.inputs).1 (omega arith),
    ),
  )

  -- In a constraint that `CNFize` has encoded with `ge`, with outputs below 2^32 and fewer than
  -- 2^32 inputs, a satisfying valuation under the cube that `assumeGT` gives, for a number below
  -- the number of outputs, has more than that many inputs true. With `le` as well, every such
  -- valuation is under the cube.
  pub assume_gt-exact :
      (n : ℕ)
      → c.ge ≡ true
      → n < min c.cardinality_bound (length c.inputs)
      → Returns (sorting_assume_gt c n) (λ cube.
        (v : Valuation)
        → Sat v clauses
        → (SatCube v cube → n < count_true v c.inputs)
          × (c.le ≡ true → n < count_true v c.inputs → SatCube v cube))
  assume_gt-exact n ge h = (
    assume_loop (gt_body n) 0 c.outputs,
    gt_shown c enc.made few n ge
        ∙ gt_loop (as_constraint c) n c.outputs fields.0 (omega (arith, fields.2)),
    λ v s. (
      λ sc. omega (
        arith,
        TruePrefix-le-FalseFrom v (suc n) (count_true v c.inputs) c.outputs
            (gt_cube-means v n c.outputs fits (omega (arith, enc.counts.size)) sc)
            (enc.counts.falses ge v s),
      ),
      λ le l. gt_cube-holds v n c.outputs fits (
          TruePrefix-mono v (suc n) (min (count_true v c.inputs) c.cardinality_bound) c.outputs
            (omega arith) (enc.counts.trues le v s)),
    ),
  )
