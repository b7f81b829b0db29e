-- ===== src/Network/MergeSound.antt =====
-- `mergeNetwork` of src/pme/util/sorting_network.cpp: every call returns, with a network that keeps
-- its promise.
use pme.Base.{
  ℕ, zero, suc, ◌+◌, ◌/◌, ◌≤◌, ◌<◌, ◌≡◌, refl, sym, ap, subst, Bool, true, ◌||◌, List, [], ◌∷◌,
  ◌++◌, length, arith, Result, ok, Returns, leb, leb→le, Bool-cases, inl, inr,
}
use pme.Literal.{PmeId}
use pme.Variables.{VariableManager}
use pme.Network.{CnfNetwork, zipper_merge, take_odd, take_even}
use pme.Network.Build.{
  uncons, Built, Merge, wires, compare_pairs, finish, merge_halves, merge_cases, merge_ordered,
  merge_network, merge,
}
use pme.Network.Prefix.{length-take_even, length-take_odd}
use pme.Network.Zipper.{zipper_merge_pairs, length-Pairing}
use pme.Network.Pairs.{compared, comparator_lem, compare_pairs-PairsMerged, finish_lem}
use pme.Network.Halves.{IsMerge, IsMerge-symm, IsMerge-nil, IsMerge-one, IsMerge-halves}

pub non_empty : (xs : List PmeId) → 0 < length xs → (e : PmeId) × (es : List PmeId) × (xs ≡ e ∷ es)
non_empty [] h = absurd (omega arith)
non_empty (x ∷ xs) h = (x, xs, refl)

-- The run of the recursive case, from the runs of its parts.
merge_halves-run :
    (rec : Merge) (xs ys : List PmeId) (le ge : Bool) (vm : VariableManager)
    (odd even pairs : Built) (e : PmeId) (zs : List PmeId) (net : CnfNetwork)
    → rec (take_odd xs) (take_odd ys) le ge vm ≡ ok odd
    → rec (take_even xs) (take_even ys) le ge odd.1 ≡ ok even
    → zipper_merge even.0.outputs odd.0.outputs (length xs) (length ys) ≡ ok (e ∷ zs)
    → compare_pairs zs le ge even.1 ≡ ok pairs
    → finish (length xs + length ys) (e ∷ zs) (record {
      outputs = e ∷ pairs.0.outputs;
      clauses = odd.0.clauses ++ even.0.clauses ++ pairs.0.clauses;
    })
      ≡ ok net
    → merge_halves rec xs ys le ge vm ≡ ok (net, pairs.1)
unfolding merge_halves uncons
merge_halves-run rec xs ys le ge vm odd even pairs e zs net r₁ r₂ r₃ r₄ r₅ = rw (r₁, r₂, r₃, r₄, r₅)

module _ (le ge : Bool) (either : (le || ge) ≡ true) (rec : Merge) (n : ℕ)
    (ih : (xs ys : List PmeId) (vm : VariableManager)
      → length xs + length ys < n
      → Returns (rec xs ys le ge vm) (λ r. IsMerge xs ys le ge r.0)) where
  abbrev Merges : List PmeId → List PmeId → Result Built → Type 0
  Merges xs ys m = Returns m (λ r. IsMerge xs ys le ge r.0)

  merge_halves-IsMerge :
      (xs ys : List PmeId) (vm : VariableManager)
      → 0 < length xs
      → 2 < length xs + length ys
      → length xs ≤ length ys
      → length xs + length ys ≤ n
      → Merges xs ys (merge_halves rec xs ys le ge vm)
  merge_halves-IsMerge xs ys vm pos large l h =
      let (odd, r₁, m₁) =
        ih (take_odd xs) (take_odd ys) vm (omega (arith, length-take_odd xs, length-take_odd ys)) in
      let (even, r₂, m₂) =
        ih (take_even xs) (take_even ys) odd.1
          (omega (arith, length-take_even xs, length-take_even ys)) in
      let evens : length even.0.outputs ≡ (length xs + 1) / 2 + (length ys + 1) / 2 =
        omega (arith, m₂.size, length-take_even xs, length-take_even ys) in
      let odds : length odd.0.outputs ≡ length xs / 2 + length ys / 2 =
        omega (arith, m₁.size, length-take_odd xs, length-take_odd ys) in
      let (e, es, cons) = non_empty even.0.outputs (omega arith) in
      let (zs, r₃, paired) =
        zipper_merge_pairs (length xs) (length ys) e es odd.0.outputs l pos large
          (omega (arith, ap length cons)) odds in
      let (pairs, r₄, m₃) = compare_pairs-PairsMerged le ge either paired even.1 in
      let r₅ =
        finish_lem (length xs + length ys) e zs pairs.0.outputs
          (odd.0.clauses ++ even.0.clauses ++ pairs.0.clauses)
          (omega (arith, length-Pairing paired, ap length cons)) m₃.size in
      let r₃' =
        subst (λ es. zipper_merge es odd.0.outputs (length xs) (length ys) ≡ ok (e ∷ zs)) (sym cons)
          r₃ in
      (
        (_, pairs.1),
        merge_halves-run rec xs ys le ge vm odd even pairs e zs _ r₁ r₂ r₃' r₄ r₅,
        IsMerge-halves xs ys le ge odd.0 even.0 pairs.0 e es zs paired m₁ m₂ cons m₃,
      )

  merge_cases-IsMerge :
      (xs ys : List PmeId) (vm : VariableManager)
      → length xs ≤ length ys
      → length xs + length ys ≤ n
      → Merges xs ys (merge_cases rec xs ys le ge vm)
  unfolding merge_cases
  merge_cases-IsMerge [] ys vm l h = ((wires ys, vm), refl, IsMerge-nil ys le ge)
  merge_cases-IsMerge (x ∷ xs) [] vm l h = absurd (omega arith)
  merge_cases-IsMerge (x ∷ []) (y ∷ []) vm l h =
      (compared x y le ge vm, comparator_lem x y le ge vm either, IsMerge-one x y le ge vm)
  merge_cases-IsMerge (x ∷ []) (y ∷ y' ∷ ys) vm l h =
      merge_halves-IsMerge (x ∷ []) (y ∷ y' ∷ ys) vm (omega arith) (omega arith) l h
  merge_cases-IsMerge (x ∷ x' ∷ xs) (y ∷ ys) vm l h =
      merge_halves-IsMerge (x ∷ x' ∷ xs) (y ∷ ys) vm (omega arith) (omega arith) l h

  merge_ordered-IsMerge :
      (xs ys : List PmeId) (vm : VariableManager)
      → length xs ≤ length ys
      → length xs + length ys ≤ n
      → Merges xs ys (merge_ordered rec xs ys le ge vm)
  unfolding merge_ordered
  merge_ordered-IsMerge xs ys vm l h =
      let test : leb (length xs) (length ys) ≡ true = ground arith in
      rw (test, either) (merge_cases-IsMerge xs ys vm l h)

module _ (le ge : Bool) (either : (le || ge) ≡ true) where
  pub merge_network-IsMerge :
      (fuel : ℕ) (xs ys : List PmeId) (vm : VariableManager)
      → length xs + length ys < fuel
      → Returns (merge_network fuel xs ys le ge vm) (λ r. IsMerge xs ys le ge r.0)
  unfolding merge_network
  merge_network-IsMerge zero xs ys vm h = absurd (omega arith)
  merge_network-IsMerge (suc fuel) xs ys vm h =
      let ih = merge_network-IsMerge fuel in
      elim (Bool-cases (leb (length xs) (length ys))) [
        | inl l ↦ rw l (
            merge_ordered-IsMerge le ge either (merge_network fuel) fuel ih xs ys vm (leb→le _ _ l)
              (omega arith))
        | inr l ↦
            let (r, run, m) =
              merge_ordered-IsMerge le ge either (merge_network fuel) fuel ih ys xs vm
                (ground arith) (omega arith) in
            (r, rw l run, IsMerge-symm m)
      ]

-- With `le` or `ge`, a merge network is built for any two vectors, with no assertion failing and no index out of
-- range. It has an output for each input. Where a valuation satisfies its clauses: with `le`, if
-- the first `p` entries of one vector and the first `q` of the other are true, so are the first `p
-- + q` outputs; with `ge`, if the entries are false from `p` and from `q` on, so are the outputs
-- from `p + q` on.
pub merge-IsMerge :
    (le ge : Bool) (xs ys : List PmeId) (vm : VariableManager)
    → (le || ge) ≡ true
    → Returns (merge xs ys le ge vm) (λ r. IsMerge xs ys le ge r.0)
unfolding merge
merge-IsMerge le ge xs ys vm either =
    merge_network-IsMerge le ge either (length xs + length ys + 1) xs ys vm (omega arith)
