-- ===== src/Cnf.antt =====
-- What the literals and clauses of src/pme/pme.h mean: the semantics that the encodings are proved
-- against. A valuation gives each variable, an even literal, its value.
use pme.Base.{
  ℕ, suc, ◌+◌, ◌≤◌, ◌<◌, ◌≡◌, refl, ap, ap₂, ◌∙◌, Bool, true, false, not, ◌||◌, if◌then◌else◌, List,
  [], ◌∷◌, ◌++◌, All, arith, length,
}
use pme.Literal.{PmeId, Clause, ClauseVec, Cube, is_negated, negate, strip}
use pme.Literal.Laws.{strip_lem, negate_laws}

abbrev pub Valuation : Type 0
Valuation = PmeId → Bool

unfoldable pub lit_value : Valuation → PmeId → Bool
lit_value v id = if is_negated id then not (v (strip id)) else v (strip id)

abbrev pub clause_value : Valuation → Clause → Bool
clause_value v [] = false
clause_value v (x ∷ xs) = lit_value v x || clause_value v xs

-- The valuation satisfies every clause.
abbrev pub Sat : Valuation → ClauseVec → Type 0
Sat v cnf = All (λ cls. clause_value v cls ≡ true) cnf

-- The valuation makes every literal of the cube true.
abbrev pub SatCube : Valuation → Cube → Type 0
SatCube v cube = All (λ lit. lit_value v lit ≡ true) cube

pub lit_value-negate : (v : Valuation) (id : PmeId) → lit_value v (negate id) ≡ not (lit_value v id)
unfolding lit_value
lit_value-negate v id = ground (arith, (negate_laws id).1, ap v (negate_laws id).2)

-- How many of the literals are true.
unfoldable pub count_true : Valuation → List PmeId → ℕ
count_true v [] = 0
count_true v (x ∷ xs) = if lit_value v x then suc (count_true v xs) else count_true v xs

pub count_true-append :
    (v : Valuation) (xs ys : List PmeId)
    → count_true v (xs ++ ys) ≡ count_true v xs + count_true v ys
unfolding count_true
count_true-append v [] ys = omega arith
count_true-append v (x ∷ xs) ys = ground (arith, count_true-append v xs ys)

pub count_true-le-length : (v : Valuation) (xs : List PmeId) → count_true v xs ≤ length xs
unfolding count_true
count_true-le-length v [] = omega arith
count_true-le-length v (x ∷ xs) = ground (arith, count_true-le-length v xs)

-- Literals below `n`, and valuations that agree on the variables below `n`.
abbrev pub Below : ℕ → List PmeId → Type 0
Below n xs = All (λ x. x < n) xs

abbrev pub CnfBelow : ℕ → ClauseVec → Type 0
CnfBelow n cnf = All (λ cls. Below n cls) cnf

abbrev pub Agree : ℕ → Valuation → Valuation → Type 0
Agree n v w = (x : PmeId) → x < n → w x ≡ v x

pub lit_value-Agree :
    (n : ℕ) (v w : Valuation)
    → Agree n v w
    → (id : PmeId) → id < n
    → lit_value w id ≡ lit_value v id
unfolding lit_value
lit_value-Agree n v w a id h = rw (a (strip id) (omega (arith, strip_lem id)))

pub clause_value-Agree :
    (n : ℕ) (v w : Valuation)
    → Agree n v w
    → (cls : Clause) → Below n cls
    → clause_value w cls ≡ clause_value v cls
clause_value-Agree n v w a [] h = refl
clause_value-Agree n v w a (x ∷ xs) h =
    ap₂ (λ p q. p || q) (lit_value-Agree n v w a x h.0) (clause_value-Agree n v w a xs h.1)

pub Sat-Agree :
    (n : ℕ) (v w : Valuation)
    → Agree n v w
    → (cnf : ClauseVec) → CnfBelow n cnf
    → Sat v cnf
    → Sat w cnf
Sat-Agree n v w a [] h s = tt
Sat-Agree n v w a (c ∷ cnf) h s =
    (clause_value-Agree n v w a c h.0 ∙ s.0, Sat-Agree n v w a cnf h.1 s.1)

pub Below-mono : (n m : ℕ) → n ≤ m → (xs : List PmeId) → Below n xs → Below m xs
Below-mono n m h [] b = tt
Below-mono n m h (x ∷ xs) b = (omega arith, Below-mono n m h xs b.1)

pub CnfBelow-mono : (n m : ℕ) → n ≤ m → (cnf : ClauseVec) → CnfBelow n cnf → CnfBelow m cnf
CnfBelow-mono n m h [] b = tt
CnfBelow-mono n m h (c ∷ cnf) b = (Below-mono n m h c b.0, CnfBelow-mono n m h cnf b.1)

pub Agree-trans : (n m : ℕ) (u v w : Valuation) → n ≤ m → Agree n u v → Agree m v w → Agree n u w
Agree-trans n m u v w h a b x k = b x (omega arith) ∙ a x k
