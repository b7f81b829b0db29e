-- ===== src/Base/Maps.antt =====
-- An `unordered_map` keyed by numbers, as an association list.
use Prim.Native.Nat.{ℕ}
use mathlib.Core.Path.{◌≡◌, refl}
use mathlib.Core.Bool.{Bool, true, false}
use mathlib.Core.List.{List, [], ◌∷◌}
use mathlib.Core.Option.{Option, none, some}
use native.Mathlib.Omega.{arith}
use pme.Base.Tests.{◌==◌, if◌then◌else◌}

abbrev pub Map {ℓ} : Type ℓ → Type ℓ
Map V = List (ℕ × V)

module _ {ℓ} {V : Type ℓ} where
  -- `m.find(k)`, with `none` for the end
  unfoldable pub lookup : ℕ → Map V → Option V
  lookup k [] = none
  lookup k ((j, v) ∷ m) = if j == k then some v else lookup k m

  -- `m.count(k) > 0`
  unfoldable pub has_key : ℕ → Map V → Bool
  has_key k [] = false
  has_key k ((j, v) ∷ m) = if j == k then true else has_key k m

  -- `m[k] = v`
  unfoldable pub insert : ℕ → V → Map V → Map V
  insert k v [] = (k, v) ∷ []
  insert k v ((j, w) ∷ m) = if j == k then (k, v) ∷ m else (j, w) ∷ insert k v m

  pub lookup-insert :
      (k : ℕ) (v : V) (m : Map V) (sought : ℕ)
      → lookup sought (insert k v m) ≡ (if k == sought then some v else lookup sought m)
  unfolding insert lookup
  lookup-insert k v [] sought = refl
  lookup-insert k v (entry ∷ m) sought = ground (arith, lookup-insert k v m sought)

  pub has_key-insert :
      (k j : ℕ) (v : V) (m : Map V)
      → has_key j (insert k v m) ≡ (if k == j then true else has_key j m)
  unfolding has_key insert
  has_key-insert k j v [] = refl
  has_key-insert k j v ((i, w) ∷ m) = ground (arith, has_key-insert k j v m)

  pub lookup-has_key :
      (k : ℕ) (m : Map V) → has_key k m ≡ (elim (lookup k m) [ none ↦ false | some v ↦ true ])
  unfolding has_key lookup
  lookup-has_key k [] = refl
  lookup-has_key k ((j, v) ∷ m) = ground (arith, lookup-has_key k m)
