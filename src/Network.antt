-- ===== src/Network.antt =====
-- src/pme/util/sorting_network.h and .cpp: CNF encodings of merge, sorting and cardinality networks.
pub mod Build
pub mod Simplified
pub mod Prefix
pub mod Comparator
pub mod Zipper
pub mod Pairs
pub mod Halves
pub mod MergeSound
pub mod SortSound
pub mod CompareZip
pub mod Bounded
pub mod SimpHalves
pub mod SimpSound
pub mod CardinalitySound
pub mod Tests
use pme.Variables.{VariableManager, fresh}
use pme.Base.{
  ℕ, zero, suc, ◌+◌, ◌-◌, ◌%◌, Bool, true, false, not, ◌&&◌, ◌||◌, if◌then◌else◌, leb, ◌==◌, List,
  [], ◌∷◌, ◌++◌, length, Result, ok, fault, assertion_failed, out_of_range, ◌>>=◌, ◌>>◌, check,
}
use pme.Literal.{PmeId, ClauseVec, negate}

-- `std::pair<std::vector<ID>, ClauseVec>`
pub record CnfNetwork : Type 0 where
  pub outputs : List PmeId
  pub clauses : ClauseVec

unfoldable pub fresh_vars : ℕ → VariableManager → List PmeId × VariableManager
fresh_vars zero vm = ([], vm)
fresh_vars (suc n) vm =
    let (id, vm₁) = fresh vm in let (ids, vm₂) = fresh_vars n vm₁ in (id ∷ ids, vm₂)

unfoldable pub take_odd : List PmeId → List PmeId
take_odd [] = []
take_odd (x ∷ []) = []
take_odd (x ∷ y ∷ xs) = y ∷ take_odd xs

unfoldable pub take_even : List PmeId → List PmeId
take_even [] = []
take_even (x ∷ []) = x ∷ []
take_even (x ∷ y ∷ xs) = x ∷ take_even xs

-- `vec.back()`; the code calls it on no empty vector.
unfoldable pub back : List PmeId → Result PmeId
back [] = fault out_of_range
back (x ∷ []) = ok x
back (x ∷ y ∷ xs) = back (y ∷ xs)

unfoldable pub or_clauses : PmeId → PmeId → PmeId → Bool → Bool → ClauseVec
or_clauses x₁ x₂ y le ge =
    (if le then (negate x₁ ∷ y ∷ []) ∷ (negate x₂ ∷ y ∷ []) ∷ [] else [])
    ++ (if ge then (x₁ ∷ x₂ ∷ negate y ∷ []) ∷ [] else [])

unfoldable pub partial_comp : PmeId → PmeId → PmeId → Bool → Bool → Result ClauseVec
unfolding or_clauses
partial_comp x₁ x₂ y le ge = do check (le || ge); ok (or_clauses x₁ x₂ y le ge)

unfoldable pub comp_clauses : PmeId → PmeId → PmeId → PmeId → Bool → Bool → ClauseVec
comp_clauses x₁ x₂ y₁ y₂ le ge =
    (if le
      then (negate x₁ ∷ y₁ ∷ []) ∷ (negate x₂ ∷ y₁ ∷ []) ∷ (negate x₁ ∷ negate x₂ ∷ y₂ ∷ []) ∷ []
      else [])
    ++ (if ge
        then (x₁ ∷ negate y₂ ∷ []) ∷ (x₂ ∷ negate y₂ ∷ []) ∷ (x₁ ∷ x₂ ∷ negate y₁ ∷ []) ∷ []
        else [])

unfoldable pub comp : PmeId → PmeId → PmeId → PmeId → Bool → Bool → Result ClauseVec
unfolding comp_clauses
comp x₁ x₂ y₁ y₂ le ge = do check (le || ge); ok (comp_clauses x₁ x₂ y₁ y₂ le ge)

-- The first loop of `zipperMerge`, over the odd side.
interleave : List PmeId → List PmeId → Result (List PmeId)
interleave even [] = ok []
interleave [] (o ∷ odd) = fault out_of_range
interleave (e ∷ even) (o ∷ odd) = do merged ← interleave even odd; ok (e ∷ o ∷ merged)

-- The second loop, from the even entries that are left, and a count of what is merged. The even side
-- gives two entries in a row after the entry of index `a`.
interleave_split : ℕ → ℕ → List PmeId → List PmeId → Result (List PmeId)
interleave_split a size (e ∷ []) [] = ok (e ∷ [])
interleave_split a size even [] = fault assertion_failed
interleave_split a size [] (o ∷ odd) = fault out_of_range
interleave_split a size (e ∷ []) (o ∷ odd) =
    if size + 2 == a + 1
    then fault out_of_range
    else do merged ← interleave_split a (size + 2) [] odd; ok (e ∷ o ∷ merged)
interleave_split a size (e ∷ e' ∷ even) (o ∷ odd) =
    let twice = (do merged ← interleave_split a (size + 3) even odd; ok (e ∷ o ∷ e' ∷ merged)) in
    let once = (do merged ← interleave_split a (size + 2) (e' ∷ even) odd; ok (e ∷ o ∷ merged)) in
    if size + 2 == a + 1 then twice else once

-- The sanity checks on the lengths `a` and `b` of the merged vectors.
zipper_asserts : ℕ → ℕ → ℕ → Bool
zipper_asserts diff a b =
    leb diff 2
    && (if diff == 0 then a % 2 == 0 && b % 2 == 0 else true)
    && (if diff == 1 then not (a % 2 == b % 2) else true)
    && (if diff == 2 then a % 2 == 1 else true)

unfoldable pub zipper_merge : List PmeId → List PmeId → ℕ → ℕ → Result (List PmeId)
unfolding interleave interleave_split zipper_asserts back
zipper_merge even odd a b = do
  check (leb (length odd) (length even))
  let diff = length even - length odd
  check (zipper_asserts diff a b)
  if leb diff 1
      then (do
        merged ← interleave even odd
        if diff == 1 then (do last ← back even; ok (merged ++ last ∷ [])) else ok merged)
      else interleave_split a 0 even odd
