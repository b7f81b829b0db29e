-- ===== src/Checker/Chain.antt =====
-- The interface at a small circuit: ten latches in a chain, of which the first keeps its value and each other one
-- takes its predecessor's. Clause `i` says that latch `i` is set; the state counts the calls.
use pme.Base.{
  ℕ, ◌≡◌, refl, sym, ap, ◌∙◌, subst, Bool, true, false, not, if◌then◌else◌, ◌||◌, ◌==◌, ltb, List,
  [], ◌∷◌, ◌+◌, ◌*◌, ◌-◌, ◌/◌, ◌^◌, ◌<◌, member, Within, member-nil, member-head, member-cons,
  Bool-cases, inl, inr, arith, All,
}
use pme.Base.Distinct.{Distinct}
use pme.Literal.{PmeId, ClauseId, Clause, negate, prime, nprimes, is_negated, strip}
use pme.Literal.Laws.{is_negated_lem, negate_lem, strip_lem, nprimes_lem, prime_lem}
use pme.Cnf.{Valuation, lit_value, lit_value-negate, clause_value, SatCube}
use pme.Checker.{
  ModelValue, is_true, is_false, Assignment, Agrees, Completes, negated_primes, IsConsistent,
  Consecution, holds, fails, FrameHolds, Checker,
}

abbrev pub latch : ℕ → PmeId
latch i = 2 * i + 4

abbrev pub latch' : ℕ → PmeId
latch' i = 2 ^ 48 + (2 * i + 4)

abbrev pub latch_set : ClauseId → Clause
latch_set i = latch i ∷ []

abbrev pub in_chain : ClauseId → Bool
in_chain i = ltb i 10

abbrev pub ChainStep : Valuation → Type 0
ChainStep v = (i : ℕ) → in_chain i ≡ true → v (latch' i) ≡ v (latch (i - 1))

-- The values of the variables where the latches of the frame are set, and no others.
abbrev pub set_in : List ClauseId → PmeId → Bool
set_in frame x =
    if ltb x (2 ^ 48) then member (x / 2 - 2) frame else member ((x - 2 ^ 48) / 2 - 2 - 1) frame

abbrev pub as_value : Bool → ModelValue
as_value b = if b then is_true else is_false

abbrev pub answer : List ClauseId → ClauseId → ℕ → Consecution × ℕ
answer frame id s = (
  if id == 0 || member (id - 1) frame then holds else fails (λ x. as_value (set_in frame x)),
  s + 1,
)

abbrev pub reasons : List ClauseId → ClauseId → ℕ → List ClauseId
reasons frame id s = if id == 0 then [] else (id - 1) ∷ []

set_in-latch : (frame : List ClauseId) (i : ℕ) → i < 10 → set_in frame (latch i) ≡ member i frame
set_in-latch frame i h =
    let e : ltb (latch i) (2 ^ 48) ≡ true = ground arith in
    let d : (2 * i + 4) / 2 - 2 ≡ i = omega arith in rw (e, d) refl

set_in-latch' :
    (frame : List ClauseId) (i : ℕ) → i < 10 → set_in frame (latch' i) ≡ member (i - 1) frame
set_in-latch' frame i h =
    let e : ltb (latch' i) (2 ^ 48) ≡ false = ground arith in
    let d : (2 ^ 48 + (2 * i + 4) - 2 ^ 48) / 2 - 2 - 1 ≡ i - 1 = omega arith in rw (e, d) refl

Agrees-as_value : (b c : Bool) → Agrees (as_value b) c → c ≡ b
Agrees-as_value true c h = h
Agrees-as_value false c h = h

lit_value-latch : (v : Valuation) (i : ℕ) → lit_value v (latch i) ≡ v (latch i)
unfolding lit_value
lit_value-latch v i =
    let e : is_negated (latch i) ≡ false = ground (arith, is_negated_lem (latch i)) in
    let d : strip (latch i) ≡ latch i = omega (arith, strip_lem (latch i)) in rw (e, d) refl

lit_value-latch' : (v : Valuation) (i : ℕ) → lit_value v (latch' i) ≡ v (latch' i)
unfolding lit_value
lit_value-latch' v i =
    let e : is_negated (latch' i) ≡ false = ground (arith, is_negated_lem (latch' i)) in
    let d : strip (latch' i) ≡ latch' i = omega (arith, strip_lem (latch' i)) in rw (e, d) refl

prime-latch : (i : ℕ) → i < 10 → prime (latch i) 1 ≡ latch' i
prime-latch i h = prime_lem (latch i) 1 (omega arith) (omega arith) (omega arith) ∙ omega arith

clause_value-latch_set : (v : Valuation) (i : ℕ) → clause_value v (latch_set i) ≡ v (latch i)
clause_value-latch_set v i = rw (lit_value-latch v i) (ground arith)

negated_latch :
    (v : Valuation) (i : ℕ) → i < 10 → lit_value v (negate (prime (latch i) 1)) ≡ not (v (latch' i))
negated_latch v i h =
    lit_value-negate v (prime (latch i) 1)
    ∙ ap not (ap (lit_value v) (prime-latch i h) ∙ lit_value-latch' v i)

holds-answer :
    (frame : List ClauseId) (id : ClauseId) (s : ℕ)
    → (answer frame id s).0 ≡ holds
    → (id == 0 || member (id - 1) frame) ≡ true
holds-answer frame id s h = elim (Bool-cases (id == 0 || member (id - 1) frame)) [
  | inl e ↦ e
  | inr e ↦
      cc (subst (λ b. (if b then holds else fails (λ x. as_value (set_in frame x))) ≡ holds) e h)
]

fails-answer :
    (frame : List ClauseId) (id : ClauseId) (s : ℕ) (m : Assignment)
    → (answer frame id s).0 ≡ fails m
    → ((id == 0 || member (id - 1) frame) ≡ false) × ((λ x. as_value (set_in frame x)) ≡ m)
fails-answer frame id s m h = elim (Bool-cases (id == 0 || member (id - 1) frame)) [
  | inl e ↦
      cc (subst (λ b. (if b then holds else fails (λ x. as_value (set_in frame x))) ≡ fails m) e h)
  | inr e ↦
      let q : fails (λ x. as_value (set_in frame x)) ≡ fails m =
        subst (λ b. (if b then holds else fails (λ x. as_value (set_in frame x))) ≡ fails m) e h in
      (e, cc q)
]

absent-nil : (x : ClauseId) → member x [] ≡ false
unfolding member
absent-nil x = refl

pub reasons_lem :
    (frame : List ClauseId) (id : ClauseId) (s : ℕ)
    → ((x : ClauseId) → member x frame ≡ true → in_chain x ≡ true)
    → in_chain id ≡ true
    → (answer frame id s).0 ≡ holds
    → Within (reasons frame id s) frame
      × (Distinct frame → Distinct (reasons frame id s))
      × ((v : Valuation)
          → ChainStep v
          → FrameHolds latch_set v (reasons frame id s)
          → clause_value v (latch_set id) ≡ true
          → ¬ SatCube v (negated_primes (latch_set id)))
unfolding negated_primes
reasons_lem frame id s k known_id h = elim (Bool-cases (id == 0)) [
  | inl e ↦
      let z : id ≡ 0 = ground arith in
      rw e (
        λ x j. absurd (member-nil x j),
        λ d. tt,
        λ v t fr c b.
            let step : v (latch' id) ≡ v (latch id) =
              subst (λ i. v (latch' i) ≡ v (latch i)) (sym z) (t 0 (ground arith)) in
            ground (arith, negated_latch v id (ground arith), clause_value-latch_set v id, b.0),
      )
  | inr e ↦
      let there : member (id - 1) frame ≡ true = ground (arith, holds-answer frame id s h) in
      rw e (
        λ x j. elim (member-cons x (id - 1) [] j) [
          | inl q ↦ subst (λ y. member y frame ≡ true) q there
          | inr t ↦ absurd (member-nil x t)
        ],
        λ d. (absent-nil (id - 1), tt),
        λ v t fr c b. ground (
          arith,
          negated_latch v id (ground arith),
          clause_value-latch_set v (id - 1),
          b.0,
          t id known_id,
          fr (id - 1) (member-head (id - 1) []),
        ),
      )
]

pub answer-fails :
    (frame : List ClauseId) (id : ClauseId) (s : ℕ) (m : Assignment)
    → ((x : ClauseId) → member x frame ≡ true → in_chain x ≡ true)
    → in_chain id ≡ true
    → (answer frame id s).0 ≡ fails m
    → (v : Valuation) → Completes v m
    → ChainStep v × FrameHolds latch_set v frame × SatCube v (negated_primes (latch_set id))
unfolding negated_primes
answer-fails frame id s m k known_id h v w =
    let (e, q) = fails-answer frame id s m h in
    let value : (x : PmeId) → v x ≡ set_in frame x =
      λ x. Agrees-as_value (set_in frame x) (v x) (subst (λ a. Agrees (a x) (v x)) (sym q) (w x)) in
    (
      λ i ki.
          value (latch' i)
          ∙ set_in-latch' frame i (ground arith)
          ∙ sym (set_in-latch frame (i - 1) (ground arith))
          ∙ sym (value (latch (i - 1))),
      λ x j.
          clause_value-latch_set v x
          ∙ value (latch x)
          ∙ set_in-latch frame x (ground (arith, k x j))
          ∙ j,
      (
        ground (
          arith,
          negated_latch v id (ground arith),
          value (latch' id),
          set_in-latch' frame id (ground arith),
        ),
        tt,
      ),
    )

pub latch_set-unprimed :
    (id : ClauseId) → in_chain id ≡ true → All (λ lit. nprimes lit ≡ 0) (latch_set id)
latch_set-unprimed id h = (ground (arith, nprimes_lem (latch id) (ground arith)), tt)

pub latch_set-IsConsistent :
    (id : ClauseId) → in_chain id ≡ true → IsConsistent (negated_primes (latch_set id))
unfolding negated_primes member
latch_set-IsConsistent id h lit j =
    let y = negate (prime (latch id) 1) in ground (arith, negate_lem y, negate_lem lit)

-- The interface can be met.
abbrev pub chain : Checker
chain = record {
  State = ℕ;
  solve = answer;
  clause_of = latch_set;
  known = in_chain;
  Trans = ChainStep;
  unprimed = latch_set-unprimed;
  consistent = latch_set-IsConsistent;
  support = reasons;
  support_lem = reasons_lem;
  fails_lem = answer-fails;
}
