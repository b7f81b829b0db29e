-- ===== src/Network/Zipper.antt =====
-- `zipperMerge` of src/pme/util/sorting_network.cpp: the entries after the first stand in pairs of
-- an odd and an even entry, whichever of its three ways of merging is taken.
use pme.Base.{
  ℕ, zero, suc, ◌+◌, ◌-◌, ◌*◌, ◌/◌, ◌≤◌, ◌<◌, ◌≡◌, refl, ap, true, false, List, [], ◌∷◌, ◌++◌,
  length, arith, ok, leb, ◌==◌, ◌⊎◌, inl, inr,
}
use pme.Literal.{PmeId}
use pme.Network.{interleave, interleave_split, zipper_asserts, zipper_merge, back}

-- The even entries after the first, the odd entries, and the merged entries after the first.
pub data Pairing : List PmeId → List PmeId → List PmeId → Type 0 where
  done : Pairing [] [] []
  last_even : (e : PmeId) → Pairing (e ∷ []) [] (e ∷ [])
  last_odd : (o : PmeId) → Pairing [] (o ∷ []) (o ∷ [])
  straight :
      (e o : PmeId) {es os zs : List PmeId}
      → Pairing es os zs
      → Pairing (e ∷ es) (o ∷ os) (o ∷ e ∷ zs)
  crossed :
      (e o : PmeId) {es os zs : List PmeId}
      → Pairing es os zs
      → Pairing (e ∷ es) (o ∷ os) (e ∷ o ∷ zs)

pub length-Pairing : {es os zs : List PmeId} → Pairing es os zs → length zs ≡ length es + length os
length-Pairing done = refl
length-Pairing (last_even e) = refl
length-Pairing (last_odd o) = refl
length-Pairing (straight e o p) = omega (arith, length-Pairing p)
length-Pairing (crossed e o p) = omega (arith, length-Pairing p)

-- As many even as odd entries.
interleave_same :
    (e : PmeId) (es : List PmeId) (o : PmeId) (os : List PmeId)
    → length es ≡ length os
    → (t : List PmeId) × (interleave (e ∷ es) (o ∷ os) ≡ ok (e ∷ t)) × Pairing es (o ∷ os) t
unfolding interleave
interleave_same e [] o [] h = (_, refl, last_odd o)
interleave_same e [] o (o' ∷ os) h = absurd (omega arith)
interleave_same e (e' ∷ es) o [] h = absurd (omega arith)
interleave_same e (e' ∷ es) o (o' ∷ os) h =
    let (t, run, p) = interleave_same e' es o' os (omega arith) in
    (o ∷ e' ∷ t, rw run, straight e' o p)

interleave_equal :
    (e : PmeId) (es os : List PmeId)
    → length os ≡ suc (length es)
    → (t : List PmeId) × (interleave (e ∷ es) os ≡ ok (e ∷ t)) × Pairing es os t
interleave_equal e es [] h = absurd (omega arith)
interleave_equal e es (o ∷ os) h = interleave_same e es o os (omega arith)

-- One more even entry, which the code appends at the end.
interleave_more :
    (e : PmeId) (es os : List PmeId)
    → length es ≡ length os
    → (r : List PmeId) × (b : PmeId) × (t : List PmeId) × (interleave (e ∷ es) os ≡ ok r)
      × (back (e ∷ es) ≡ ok b)
      × (r ++ b ∷ [] ≡ e ∷ t)
      × Pairing es os t
unfolding interleave back
interleave_more e [] [] h = ([], e, [], refl, refl, refl, done)
interleave_more e [] (o ∷ os) h = absurd (omega arith)
interleave_more e (e' ∷ es) [] h = absurd (omega arith)
interleave_more e (e' ∷ es) (o ∷ os) h =
    let (r, b, t, run, last, joined, p) = interleave_more e' es os (omega arith) in
    (e ∷ o ∷ r, b, o ∷ e' ∷ t, rw run, last, ap (λ xs. e ∷ o ∷ xs) joined, straight e' o p)

-- Past the entry of index `a` the even entry of each pair comes first.
split_after :
    (a size : ℕ) (even os : List PmeId)
    → a + 1 < size + 2
    → length even ≡ length os + 1
    → (t : List PmeId) × (interleave_split a size even os ≡ ok t) × Pairing even os t
unfolding interleave_split
split_after a size [] [] s h = absurd (omega arith)
split_after a size (e ∷ []) [] s h = (_, refl, last_even e)
split_after a size (e ∷ e' ∷ even) [] s h = absurd (omega arith)
split_after a size [] (o ∷ os) s h = absurd (omega arith)
split_after a size (e ∷ []) (o ∷ os) s h = absurd (omega arith)
split_after a size (e ∷ e' ∷ even) (o ∷ os) s h =
    let (t, run, p) = split_after a (size + 2) (e' ∷ even) os (omega arith) (omega arith) in
    let test : (size + 2 == a + 1) ≡ false = ground arith in
    (e ∷ o ∷ t, rw (test, run), crossed e o p)

-- Two more even entries: `k` further rounds before the entry of index `a`.
split_before :
    (k a size : ℕ) (e : PmeId) (es os : List PmeId)
    → size + 2 * k + 2 ≡ a + 1
    → k < length os
    → length es ≡ length os + 1
    → (t : List PmeId) × (interleave_split a size (e ∷ es) os ≡ ok (e ∷ t)) × Pairing es os t
unfolding interleave_split
split_before k a size e es [] s l h = absurd (omega arith)
split_before k a size e [] (o ∷ os) s l h = absurd (omega arith)
split_before zero a size e (e' ∷ es) (o ∷ os) s l h =
    let (t, run, p) = split_after a (size + 3) es os (omega arith) (omega arith) in
    let test : (size + 2 == a + 1) ≡ true = ground arith in
    (o ∷ e' ∷ t, rw (test, run), straight e' o p)
split_before (suc k) a size e (e' ∷ es) (o ∷ os) s l h =
    let (t, run, p) =
      split_before k a (size + 2) e' es os (omega arith) (omega arith) (omega arith) in
    let test : (size + 2 == a + 1) ≡ false = ground arith in
    (o ∷ e' ∷ t, rw (test, run), straight e' o p)

module _ (a b : ℕ) (e : PmeId) (es os : List PmeId) (le : a ≤ b) (pos : 0 < a) (large : 2 < a + b)
    (evens : suc (length es) ≡ (a + 1) / 2 + (b + 1) / 2) (odds : length os ≡ a / 2 + b / 2) where
  Merges : Type 0
  Merges = (t : List PmeId) × (zipper_merge (e ∷ es) os a b ≡ ok (e ∷ t)) × Pairing es os t

  asserts_hold :
      (leb (length os) (suc (length es)) ≡ true)
      × (zipper_asserts (suc (length es) - length os) a b ≡ true)
  unfolding zipper_asserts
  asserts_hold = (ground arith, ground arith)

  merges_same : length os ≡ suc (length es) → Merges
  unfolding Merges zipper_merge
  merges_same d =
      let (t, run, p) = interleave_equal e es os d in
      let few : leb (suc (length es) - length os) 1 ≡ true = ground arith in
      let none_left : ((suc (length es) - length os) == 1) ≡ false = ground arith in
      (t, rw (asserts_hold.0, asserts_hold.1, few, run, none_left), p)

  merges_more : length os ≡ length es → Merges
  unfolding Merges zipper_merge
  merges_more d =
      let (r, b', t, run, last, joined, p) = interleave_more e es os (omega arith) in
      let few : leb (suc (length es) - length os) 1 ≡ true = ground arith in
      let one_left : ((suc (length es) - length os) == 1) ≡ true = ground arith in
      (t, rw (asserts_hold.0, asserts_hold.1, few, run, one_left, last, joined), p)

  merges_split : length es ≡ length os + 1 → Merges
  unfolding Merges zipper_merge
  merges_split d =
      let (t, run, p) = split_before ((a - 1) / 2) a 0 e es os (omega arith) (omega arith) d in
      let e₁ : leb (suc (length es) - length os) 1 ≡ false = ground arith in
      (t, rw (asserts_hold.0, asserts_hold.1, e₁) run, p)

  -- On the outputs of the two halves no assertion fails and no index is out of range, and the merged
  -- vector is the first even entry and then pairs.
  pub zipper_merge_pairs :
      (t : List PmeId) × (zipper_merge (e ∷ es) os a b ≡ ok (e ∷ t)) × Pairing es os t
  unfolding Merges
  zipper_merge_pairs = elim (difference) [
    | inl d ↦ merges_same d
    | inr (inl d) ↦ merges_more d
    | inr (inr d) ↦ merges_split d
  ]
    where
      difference :
          (length os ≡ suc (length es)) ⊎ ((length os ≡ length es) ⊎ (length es ≡ length os + 1))
      difference = omega arith
