-- ===== src/Network/SimpSound.antt =====
-- `simpMergeNetwork` of src/pme/util/sorting_network.cpp: every call with a positive bound returns,
-- with a network that keeps its promise.
use pme.Base.{
  ℕ, zero, suc, ◌+◌, ◌-◌, ◌/◌, ◌%◌, ◌≤◌, ◌<◌, ◌≡◌, refl, sym, ap, subst, Bool, true, ◌||◌,
  if◌then◌else◌, List, [], ◌∷◌, ◌++◌, length, length-take, take, arith, Result, ok, Returns,
  Bool-cases, inl, inr, ==_iff, leb→le, leb, ◌==◌,
}
use pme.Literal.{PmeId}
use pme.Variables.{VariableManager}
use pme.Network.{CnfNetwork, take_odd, take_even}
use pme.Network.Build.{Built, wires, merge}
use pme.Network.Simplified.{
  SimpMerge, zip_even_bound, zip_odd_bound, simp_merge_halves, simp_merge_cases, simp_merge_ordered,
  simp_merge_network, simp_merge,
}
use pme.Network.Prefix.{length-take_even, length-take_odd}
use pme.Network.MergeSound.{merge-IsMerge, non_empty}
use pme.Network.Bounded.{Caps, disjunction_lem, zip_odd_bound-Caps, zip_even_bound-Caps}
use pme.Network.SimpHalves.{
  IsSimpMerge, IsSimpMerge-symm, IsSimpMerge-take, IsMerge-IsSimpMerge, IsSimpMerge-nil,
  IsSimpMerge-one, IsSimpMerge-halves,
}

-- The two ends of the recursive case.
abbrev bound_end : ℕ → List PmeId → List PmeId → Bool → Bool → VariableManager → Result Built
bound_end c z_even z_odd le ge vm =
    if c % 2 == 0
    then zip_even_bound c z_even z_odd le ge vm
    else zip_odd_bound c z_even z_odd le ge vm

bound_end-Caps :
    (c : ℕ) (e : PmeId) (es os : List PmeId) (le ge : Bool) (vm : VariableManager)
    → (le || ge) ≡ true
    → 0 < c
    → length es ≡ c / 2
    → length os ≡ c / 2
    → Caps (c - 1) e es os le ge (bound_end c (e ∷ es) os le ge vm)
bound_end-Caps c e es os le ge vm either pos h k = elim (Bool-cases (c % 2 == 0)) [
  | inl even ↦ rw even (zip_even_bound-Caps c e le ge vm either es os ((==_iff _ _).0 even) pos h k)
  | inr odd ↦ rw odd (zip_odd_bound-Caps c e es os le ge vm either (ground arith) h k)
]

-- The run of the recursive case, from the runs of its parts.
simp_merge_halves-run :
    (rec : SimpMerge) (xs ys : List PmeId) (c : ℕ) (le ge : Bool) (vm vm' : VariableManager)
    (odd even : Built) (net : CnfNetwork)
    → rec (take_odd xs) (take_odd ys) (c / 2) le ge vm ≡ ok odd
    → rec (take_even xs) (take_even ys) (c / 2 + 1) le ge odd.1 ≡ ok even
    → bound_end c even.0.outputs odd.0.outputs le ge even.1 ≡ ok (net, vm')
    → simp_merge_halves rec xs ys c le ge vm
      ≡ ok (
        record { outputs = net.outputs; clauses = odd.0.clauses ++ even.0.clauses ++ net.clauses },
        vm',
      )
unfolding simp_merge_halves
simp_merge_halves-run rec xs ys c le ge vm vm' odd even net r₁ r₂ r₃ =
    let odd_size : (if c % 2 == 0 then c / 2 else (c - 1) / 2) ≡ c / 2 = ground arith in
    let even_size : (if c % 2 == 0 then c / 2 + 1 else (c + 1) / 2) ≡ c / 2 + 1 = ground arith in
    rw (odd_size, even_size, r₁, r₂, r₃)

module _ (le ge : Bool) (either : (le || ge) ≡ true) (rec : SimpMerge) (n : ℕ)
    (ih : (xs ys : List PmeId) (c : ℕ) (vm : VariableManager)
      → 0 < c
      → length xs + length ys < n
      → Returns (rec xs ys c le ge vm) (λ r. IsSimpMerge xs ys c le ge r.0)) where
  abbrev SimpMerges : List PmeId → List PmeId → ℕ → Result Built → Type 0
  SimpMerges xs ys c m = Returns m (λ r. IsSimpMerge xs ys c le ge r.0)

  simp_merge_halves-IsSimpMerge :
      (xs ys : List PmeId) (c : ℕ) (vm : VariableManager)
      → 0 < length xs
      → 1 < c
      → length xs ≤ length ys
      → length ys ≤ c
      → c < length xs + length ys
      → length xs + length ys ≤ n
      → SimpMerges xs ys c (simp_merge_halves rec xs ys c le ge vm)
  simp_merge_halves-IsSimpMerge xs ys c vm pos large l k more h =
      let (odd, r₁, m₁) =
        ih (take_odd xs) (take_odd ys) (c / 2) vm (omega arith)
          (omega (arith, length-take_odd xs, length-take_odd ys)) in
      let (even, r₂, m₂) =
        ih (take_even xs) (take_even ys) (c / 2 + 1) odd.1 (omega arith)
          (omega (arith, length-take_even xs, length-take_even ys)) in
      let evens : length even.0.outputs ≡ c / 2 + 1 =
        omega (arith, m₂.size, length-take_even xs, length-take_even ys) in
      let odds : length odd.0.outputs ≡ c / 2 =
        omega (arith, m₁.size, length-take_odd xs, length-take_odd ys) in
      let (e, es, cons) = non_empty even.0.outputs (omega arith) in
      let (rest, vm', r₃, capped) =
        bound_end-Caps c e es odd.0.outputs le ge even.1 either (omega arith)
          (omega (arith, ap length cons)) odds in
      let r₃' =
        subst
          (λ es.
            bound_end c es odd.0.outputs le ge even.1
            ≡ ok (record { outputs = e ∷ rest.outputs; clauses = rest.clauses }, vm'))
          (sym cons) r₃ in
      (
        (_, vm'),
        simp_merge_halves-run rec xs ys c le ge vm vm' odd even _ r₁ r₂ r₃',
        IsSimpMerge-halves xs ys c le ge odd.0 even.0 rest e es (omega arith) more m₁ m₂ cons
            capped,
      )

  -- The two cases that the guards of the base cases leave.
  simp_merge_rest :
      (x : PmeId) (xs ys : List PmeId) (c : ℕ) (vm : VariableManager)
      → 1 < c
      → length (x ∷ xs) ≤ length ys
      → length ys ≤ c
      → length (x ∷ xs) + length ys ≤ n
      → SimpMerges (x ∷ xs) ys c (
          if leb (length (x ∷ xs) + length ys) c
          then merge (x ∷ xs) ys le ge vm
          else simp_merge_halves rec (x ∷ xs) ys c le ge vm)
  simp_merge_rest x xs ys c vm large l k h =
      elim (Bool-cases (leb (length (x ∷ xs) + length ys) c)) [
        | inl few ↦
            let (r, run, m) = merge-IsMerge le ge (x ∷ xs) ys vm either in
            (r, rw few run, IsMerge-IsSimpMerge (x ∷ xs) ys c le ge r.0 (leb→le _ _ few) m)
        | inr many ↦ rw many (
            simp_merge_halves-IsSimpMerge (x ∷ xs) ys c vm (omega arith) large l k (ground arith) h)
      ]

  simp_merge_cases-IsSimpMerge :
      (xs ys : List PmeId) (c : ℕ) (vm : VariableManager)
      → 0 < c
      → length xs ≤ length ys
      → length ys ≤ c
      → length xs + length ys ≤ n
      → SimpMerges xs ys c (simp_merge_cases rec xs ys c le ge vm)
  unfolding simp_merge_cases
  simp_merge_cases-IsSimpMerge [] ys c vm pos l k h =
      ((wires ys, vm), refl, IsSimpMerge-nil ys c le ge k)
  simp_merge_cases-IsSimpMerge (x ∷ xs) [] c vm pos l k h = absurd (omega arith)
  simp_merge_cases-IsSimpMerge (x ∷ xs) (y ∷ ys) zero vm pos l k h = absurd (omega arith)
  simp_merge_cases-IsSimpMerge (x ∷ []) (y ∷ []) (suc zero) vm pos l k h =
      (_, disjunction_lem x y le ge vm either, IsSimpMerge-one x y _ le ge)
  simp_merge_cases-IsSimpMerge (x ∷ []) (y ∷ []) (suc (suc c)) vm pos l k h =
      simp_merge_rest x [] (y ∷ []) (suc (suc c)) vm (omega arith) l k h
  simp_merge_cases-IsSimpMerge (x ∷ []) (y ∷ y' ∷ ys) (suc zero) vm pos l k h = absurd (omega arith)
  simp_merge_cases-IsSimpMerge (x ∷ []) (y ∷ y' ∷ ys) (suc (suc c)) vm pos l k h =
      simp_merge_rest x [] (y ∷ y' ∷ ys) (suc (suc c)) vm (omega arith) l k h
  simp_merge_cases-IsSimpMerge (x ∷ x' ∷ xs) (y ∷ ys) (suc zero) vm pos l k h = absurd (omega arith)
  simp_merge_cases-IsSimpMerge (x ∷ x' ∷ xs) (y ∷ ys) (suc (suc c)) vm pos l k h =
      simp_merge_rest x (x' ∷ xs) (y ∷ ys) (suc (suc c)) vm (omega arith) l k h

  simp_merge_ordered-IsSimpMerge :
      (xs ys : List PmeId) (c : ℕ) (vm : VariableManager)
      → 0 < c
      → length xs ≤ length ys
      → length xs + length ys ≤ n
      → SimpMerges xs ys c (simp_merge_ordered rec xs ys c le ge vm)
  unfolding simp_merge_ordered
  simp_merge_ordered-IsSimpMerge xs ys c vm pos l h =
      let cut = length-take c xs in
      let cut' = length-take c ys in
      let t₁ : leb (length (take c xs)) (length (take c ys)) ≡ true = ground arith in
      let t₂ : leb (length (take c ys)) c ≡ true = ground arith in
      let (r, run, m) =
        simp_merge_cases-IsSimpMerge (take c xs) (take c ys) c vm pos (omega arith) (omega arith)
          (omega arith) in
      (r, rw (t₁, t₂, either) run, IsSimpMerge-take xs ys c le ge r.0 m)

module _ (le ge : Bool) (either : (le || ge) ≡ true) where
  simp_merge_network-IsSimpMerge :
      (fuel : ℕ) (xs ys : List PmeId) (c : ℕ) (vm : VariableManager)
      → 0 < c
      → length xs + length ys < fuel
      → Returns (simp_merge_network fuel xs ys c le ge vm) (λ r. IsSimpMerge xs ys c le ge r.0)
  unfolding simp_merge_network
  simp_merge_network-IsSimpMerge zero xs ys c vm pos h = absurd (omega arith)
  simp_merge_network-IsSimpMerge (suc fuel) xs ys c vm pos h =
      let ih = simp_merge_network-IsSimpMerge fuel in
      elim (Bool-cases (leb (length xs) (length ys))) [
        | inl l ↦ rw l (
            simp_merge_ordered-IsSimpMerge le ge either (simp_merge_network fuel) fuel ih xs ys c vm
              pos (leb→le _ _ l) (omega arith))
        | inr l ↦
            let (r, run, m) =
              simp_merge_ordered-IsSimpMerge le ge either (simp_merge_network fuel) fuel ih ys xs c
                vm pos (ground arith) (omega arith) in
            (r, rw l run, IsSimpMerge-symm m)
      ]

pub simp_merge-IsSimpMerge :
    (le ge : Bool) (xs ys : List PmeId) (c : ℕ) (vm : VariableManager)
    → (le || ge) ≡ true
    → 0 < c
    → Returns (simp_merge xs ys c le ge vm) (λ r. IsSimpMerge xs ys c le ge r.0)
unfolding simp_merge
simp_merge-IsSimpMerge le ge xs ys c vm either pos =
    simp_merge_network-IsSimpMerge le ge either (length xs + length ys + 1) xs ys c vm pos
      (omega arith)
