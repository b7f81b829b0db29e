-- ===== src/Sisi/Required.antt =====
-- The clauses that every safe inductive subset of a set has, and what one call of `findSIS` of
-- src/pme/minimization/sisi.cpp tells of them.
use pme.Base.{
  ◌≡◌, sym, subst, Bool, true, false, ◌==◌, ==_iff, ==_refl, List, member, Within, length, ◌<◌,
  Bool-cases, inl, inr, arith,
}
use pme.Base.Sorting.{without, member-without, length-without}
use pme.Base.Distinct.{Distinct, Distinct-length, without-Within, without-Distinct}
use pme.Literal.{ClauseId}
use pme.Checker.{Checker, IsInductive}
use pme.Mis.Sound.{IsMis}

-- An inductive subset with the necessary clauses.
pub record IsSafe (c : Checker) (nec feas set : List ClauseId) : Type 0 where
  pub inductive : IsInductive c set
  pub within : Within set feas
  pub safe : Within nec set

pub IsSafe-widen :
    (c : Checker) (nec feas less set : List ClauseId)
    → Within less feas
    → IsSafe c nec less set
    → IsSafe c nec feas set
IsSafe-widen c nec feas less set w s = record {
  inductive = s.inductive;
  within = λ x h. w x (s.within x h);
  safe = s.safe;
}

-- Every one of them has the clause.
abbrev pub Required : Checker → List ClauseId → List ClauseId → ClauseId → Type 0
Required c nec feas id = (set : List ClauseId) → IsSafe c nec feas set → member id set ≡ true

pub without_self : (id : ClauseId) (xs : List ClauseId) → ¬ (member id (without id xs) ≡ true)
without_self id xs h = ground (arith, member-without id id xs, ==_refl id)

within-without :
    (id : ClauseId) (xs ys : List ClauseId)
    → Within xs ys
    → member id xs ≡ false
    → Within xs (without id ys)
within-without id xs ys w absent z h = elim (Bool-cases (z == id)) [
  | inl e ↦ cc (subst (λ t. member t xs ≡ true) ((==_iff z id).0 e) h, absent)
  | inr e ↦ subst (λ b. b ≡ true) (sym (member-without z id ys)) (rw e (w z h))
]

module _ (c : Checker) (nec feas : List ClauseId) (id : ClauseId)
    (r : Bool × List ClauseId × c.State) (d : IsMis c (without id feas) nec r) where
  -- Without a safe subset that leaves the clause out, every one has it.
  pub failed-Required : r.0 ≡ false → Required c nec feas id
  failed-Required e set s = elim (Bool-cases (member id set)) [
    | inl h ↦ h
    | inr h ↦ absurd (d.none e set s.inductive (within-without id set feas s.within h) s.safe)
  ]

  -- What was found is a safe subset without the clause.
  pub found-IsSafe : r.0 ≡ true → IsSafe c nec feas r.1
  found-IsSafe e = record {
    inductive = d.inductive e;
    within = λ x h. without-Within id feas x (d.within x h);
    safe = d.safe e;
  }

  pub found-without : ¬ (member id r.1 ≡ true)
  found-without h = without_self id feas (d.within id h)

  pub found-smaller : Distinct feas → member id feas ≡ true → length r.1 < length feas
  found-smaller z here = omega (
    arith,
    Distinct-length r.1 (without id feas) (d.distinct (without-Distinct id feas z)) d.within,
    length-without id feas here,
  )
