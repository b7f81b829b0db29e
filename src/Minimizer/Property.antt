-- ===== src/Minimizer/Property.antt =====
-- `addPropertyIfMissing` of src/pme/minimization/minimization.cpp: where the property ends up.
use pme.Base.{
  ℕ, zero, suc, ◌+◌, ◌<◌, ◌≡◌, refl, sym, ap, ap₂, subst, ◌∙◌, true, false, ◌==◌, ==_iff,
  if◌then◌else◌, List, [], ◌∷◌, ◌++◌, none, some, length, get_elem?, Option-cases, Bool-cases, ◌⊎◌,
  inl, inr, ◌↔◌, arith,
}
use pme.Literal.{PmeId, ClauseId, Clause, ClauseVec, negate}
use pme.Minimizer.{clause_eq, find_clause, add_property_if_missing}

pub clause_eq_iff : (xs ys : Clause) → (clause_eq xs ys ≡ true) ↔ (xs ≡ ys)
unfolding clause_eq
clause_eq_iff [] [] = (λ e. refl, λ e. refl)
clause_eq_iff [] (y ∷ ys) = (λ e. cc e, λ e. cc e)
clause_eq_iff (x ∷ xs) [] = (λ e. cc e, λ e. cc e)
clause_eq_iff (x ∷ xs) (y ∷ ys) =
    let (to, from) = clause_eq_iff xs ys in
    elim (Bool-cases (x == y)) [
      | inl e ↦ rw e (λ h. ap₂ (λ a as'. a ∷ as') ((==_iff x y).0 e) (to h), λ h. from (cc h))
      | inr e ↦ rw e (λ h. cc h, λ h. cc ((==_iff x y).1 (cc h), e))
    ]

-- The first place of a clause in a vector of which `id` is the first number.
abbrev pub FirstAt : Clause → ClauseVec → ℕ → Type 0
FirstAt cls proof k =
    (get_elem? proof k ≡ some cls) × ((j : ℕ) → j < k → ¬ (get_elem? proof j ≡ some cls))

differs : (cls c : Clause) → clause_eq c cls ≡ false → ¬ (some c ≡ some cls)
differs cls c e g = cc ((clause_eq_iff c cls).1 (cc g), e)

none_before :
    (cls c : Clause) (cs : ClauseVec) (n : ℕ)
    → clause_eq c cls ≡ false
    → ((j : ℕ) → j < n → ¬ (get_elem? cs j ≡ some cls))
    → (j : ℕ) → j < suc n
    → ¬ (get_elem? (c ∷ cs) j ≡ some cls)
none_before cls c cs n e f zero l g = differs cls c e g
none_before cls c cs n e f (suc j) l g = f j (omega arith) g

find_clause-FirstAt :
    (cls : Clause) (id k : ClauseId) (proof : ClauseVec)
    → find_clause cls id proof ≡ some k
    → (n : ℕ) × (k ≡ n + id) × FirstAt cls proof n
unfolding find_clause
find_clause-FirstAt cls id k [] h = cc h
find_clause-FirstAt cls id k (c ∷ cs) h = elim (Bool-cases (clause_eq c cls)) [
  | inl e ↦
      let h' : some id ≡ some k =
        subst (λ b. (if b then some id else find_clause cls (id + 1) cs) ≡ some k) e h in
      let q : id ≡ k = cc h' in
      (0, omega (arith, q), (ap some ((clause_eq_iff c cls).0 e), λ j l. absurd (omega arith)))
  | inr e ↦
      let h' : find_clause cls (id + 1) cs ≡ some k =
        subst (λ b. (if b then some id else find_clause cls (id + 1) cs) ≡ some k) e h in
      let (n, q, (there, first)) = find_clause-FirstAt cls (id + 1) k cs h' in
      (suc n, omega (arith, q), (there, none_before cls c cs n e first))
]

find_clause-absent :
    (cls : Clause) (id : ClauseId) (proof : ClauseVec)
    → find_clause cls id proof ≡ none
    → (j : ℕ) → ¬ (get_elem? proof j ≡ some cls)
unfolding find_clause
find_clause-absent cls id [] h j g = cc g
find_clause-absent cls id (c ∷ cs) h zero g = elim (Bool-cases (clause_eq c cls)) [
  | inl e ↦ cc (subst (λ b. (if b then some id else find_clause cls (id + 1) cs) ≡ none) e h)
  | inr e ↦ differs cls c e g
]
find_clause-absent cls id (c ∷ cs) h (suc j) g = elim (Bool-cases (clause_eq c cls)) [
  | inl e ↦ cc (subst (λ b. (if b then some id else find_clause cls (id + 1) cs) ≡ none) e h)
  | inr e ↦
      find_clause-absent cls (id + 1) cs
        (subst (λ b. (if b then some id else find_clause cls (id + 1) cs) ≡ none) e h) j g
]

pub get_elem?-append_left {ℓ} :
    {A : Type ℓ} (xs ys : List A) (j : ℕ) → j < length xs → get_elem? (xs ++ ys) j ≡ get_elem? xs j
get_elem?-append_left [] ys j l = absurd (omega arith)
get_elem?-append_left (x ∷ xs) ys zero l = refl
get_elem?-append_left (x ∷ xs) ys (suc j) l = get_elem?-append_left xs ys j (omega arith)

pub get_elem?-append_here {ℓ} :
    {A : Type ℓ} (xs : List A) (y : A) → get_elem? (xs ++ y ∷ []) (length xs) ≡ some y
get_elem?-append_here [] y = refl
get_elem?-append_here (x ∷ xs) y = get_elem?-append_here xs y

-- The clauses and the number of the property: nothing is added to a proof that has the property.
pub record HasProperty (cls : Clause) (before : ClauseVec) (r : ClauseVec × ClauseId) : Type 0 where
  pub first : FirstAt cls r.0 r.1
  pub prefix : (j : ℕ) → j < length before → get_elem? r.0 j ≡ get_elem? before j
  pub size :
      ((r.1 < length before) × (r.0 ≡ before))
      ⊎ ((r.1 ≡ length before) × (r.0 ≡ before ++ cls ∷ []))

get_elem?-bound : (xs : ClauseVec) (j : ℕ) (y : Clause) → get_elem? xs j ≡ some y → j < length xs
get_elem?-bound [] j y h = cc h
get_elem?-bound (x ∷ xs) zero y h = omega arith
get_elem?-bound (x ∷ xs) (suc j) y h = omega (arith, get_elem?-bound xs j y h)

-- After `addPropertyIfMissing`, the clause `~Bad` stands at the number of the property and nowhere before;
-- the clauses of the proof keep their numbers. A proof that has the clause stays as it is, another one has it
-- at its end.
pub add_property_if_missing-HasProperty :
    (bad : PmeId) (proof : ClauseVec)
    → HasProperty (negate bad ∷ []) proof (add_property_if_missing bad proof)
unfolding add_property_if_missing
add_property_if_missing-HasProperty bad proof =
    let cls : Clause = negate bad ∷ [] in
    elim (Option-cases (find_clause cls 0 proof)) [
      | inl h ↦
          rw (add_property_if_missing, h)
            (record {
              first = (
                get_elem?-append_here proof cls,
                λ j l g.
                    find_clause-absent cls 0 proof h j
                      (sym (get_elem?-append_left proof (cls ∷ []) j l) ∙ g),
              );
              prefix = get_elem?-append_left proof (cls ∷ []);
              size = inr (refl, refl);
            })
      | inr (k, h) ↦
          let (n, q, at_n) = find_clause-FirstAt cls 0 k proof h in
          let here : FirstAt cls proof k = subst (FirstAt cls proof) (omega (arith, q)) at_n in
          rw (add_property_if_missing, h)
            (record {
              first = here;
              prefix = λ j l. refl;
              size = inl (get_elem?-bound proof k cls here.0, refl);
            })
    ]
