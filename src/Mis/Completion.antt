-- ===== src/Mis/Completion.antt =====
-- The completion of an assignment by the literals of a cube: where it leaves a variable open, the cube's literal
-- is made true.
use pme.Base.{
  ◌≡◌, refl, sym, ap, subst, true, false, not, if◌then◌else◌, member, Bool-cases, inl, inr, arith,
  [], ◌∷◌, ok, ◌>>◌, check, Returns, All, ◌==◌, member-head, member-tail,
}
use pme.Literal.{PmeId, Clause, Cube, is_negated, negate, prime, nprimes, strip}
use pme.Literal.Laws.{is_negated_lem, negate_lem, strip_lem}
use pme.Cnf.{lit_value, SatCube}
use pme.Checker.{
  is_true, is_false, undef, Assignment, flip, value_of, negated_primes, IsConsistent, complete,
}
use pme.Mis.{negcp_sat}

positive_value :
    (m : Assignment) (cube : Cube) (x : PmeId)
    → member x cube ≡ true
    → ¬ (m x ≡ is_false)
    → complete m cube x ≡ true
unfolding complete
positive_value m cube x h d =
    (elim (m x)
        as (λ a.
          ¬ (a ≡ is_false)
          → (elim a [ is_true ↦ true | is_false ↦ false | undef ↦ member x cube ]) ≡ true) [
            | is_true ↦ λ n. refl
            | is_false ↦ λ n. absurd (n refl)
            | undef ↦ λ n. h
          ])
      d

negative_value :
    (m : Assignment) (cube : Cube) (x : PmeId)
    → member x cube ≡ false
    → ¬ (flip (m x) ≡ is_false)
    → complete m cube x ≡ false
unfolding complete flip
negative_value m cube x h d =
    (elim (m x)
        as (λ a.
          ¬ (flip a ≡ is_false)
          → (elim a [ is_true ↦ true | is_false ↦ false | undef ↦ member x cube ]) ≡ false) [
            | is_true ↦ λ n. absurd (n refl)
            | is_false ↦ λ n. refl
            | undef ↦ λ n. h
          ])
      d

literal_value :
    (m : Assignment) (cube : Cube) (lit : PmeId)
    → IsConsistent cube
    → member lit cube ≡ true
    → ¬ (value_of m lit ≡ is_false)
    → lit_value (complete m cube) lit ≡ true
unfolding lit_value value_of
literal_value m cube lit con h d = elim (Bool-cases (is_negated lit)) [
  | inl neg ↦
      let odd : strip lit ≡ negate lit =
        ground (arith, is_negated_lem lit, strip_lem lit, negate_lem lit) in
      let out : member (strip lit) cube ≡ false =
        subst (λ y. member y cube ≡ false) (sym odd) (con lit h) in
      let d' : ¬ (flip (m (strip lit)) ≡ is_false) =
        subst (λ b. ¬ ((if b then flip (m (strip lit)) else m (strip lit)) ≡ is_false)) neg d in
      rw neg (ap not (negative_value m cube (strip lit) out d'))
  | inr pos ↦
      let even : strip lit ≡ lit = ground (arith, is_negated_lem lit, strip_lem lit) in
      let there : member (strip lit) cube ≡ true = subst (λ y. member y cube ≡ true) (sym even) h in
      let d' : ¬ (m (strip lit) ≡ is_false) =
        subst (λ b. ¬ ((if b then flip (m (strip lit)) else m (strip lit)) ≡ is_false)) pos d in
      rw pos (positive_value m cube (strip lit) there d')
]

-- The test of `removeSATClauses` on a clause without primes, and what its answer says.
pub Unblocked : Assignment → Cube → Type 0
Unblocked m cube = All (λ lit. ¬ (value_of m lit ≡ is_false)) cube

pub negcp_sat-Returns :
    (m : Assignment) (cls : Clause)
    → All (λ lit. nprimes lit ≡ 0) cls
    → Returns (negcp_sat m cls) (λ b. b ≡ true → Unblocked m (negated_primes cls))
unfolding negcp_sat negated_primes Unblocked
negcp_sat-Returns m [] h = (true, refl, λ e. tt)
negcp_sat-Returns m (lit ∷ cls) h =
    let (b, run, post) = negcp_sat-Returns m cls h.1 in
    (elim (value_of m (negate (prime lit 1)))
        as (λ a.
          value_of m (negate (prime lit 1)) ≡ a
          → Returns
              (do
                check (nprimes lit == 0)
                elim a [
                  | is_true ↦ negcp_sat m cls
                  | is_false ↦ ok false
                  | undef ↦ negcp_sat m cls
                ])
              (λ b. b ≡ true → Unblocked m (negate (prime lit 1) ∷ negated_primes cls))) [
                | is_true ↦ λ v. (b, rw h.0 run, λ e. (λ f. cc (v, f), post e))
                | is_false ↦ λ v. (false, rw h.0 refl, λ e. absurd (cc e))
                | undef ↦ λ v. (b, rw h.0 run, λ e. (λ f. cc (v, f), post e))
              ])
      refl

Unblocked-true :
    (m : Assignment) (whole cube : Cube)
    → IsConsistent whole
    → ((lit : PmeId) → member lit cube ≡ true → member lit whole ≡ true)
    → Unblocked m cube
    → SatCube (complete m whole) cube
unfolding Unblocked
Unblocked-true m whole [] con h u = tt
Unblocked-true m whole (lit ∷ cube) con h u = (
  literal_value m whole lit con (h lit (member-head lit cube)) u.0,
  Unblocked-true m whole cube con (λ x k. h x (member-tail x lit cube k)) u.1,
)

-- A cube that the assignment makes false nowhere is true in its completion.
pub Unblocked-SatCube :
    (m : Assignment) (cube : Cube)
    → IsConsistent cube
    → Unblocked m cube
    → SatCube (complete m cube) cube
Unblocked-SatCube m cube con u = Unblocked-true m cube cube con (λ x k. k) u
