-- ===== src/Base/Map.antt =====
-- Go's maps with string keys, as association lists. The order of the entries stands for the order,
-- which Go leaves open, in which a `range` goes through the map.
use mathlib.Core.Path.{◌≡◌, refl, subst}
use mathlib.Core.Bool.{Bool, true, false}
use mathlib.Core.List.{List, [], ◌∷◌}
use mathlib.Core.Option.{Option, none, some, some-injective}
use native.Mathlib.Omega.{arith}
use tiny_red.Base.Tests.{if◌then◌else◌}
use tiny_red.Base.Text.{Bytes, bytes_eq, bytes_eq_iff}

abbrev pub Map {ℓ} : Type ℓ → Type ℓ
Map V = List (Bytes × V)

module _ {ℓ} {V : Type ℓ} where
  -- v, ok := m[k]
  unfoldable pub lookup : Bytes → Map V → Option V
  lookup k [] = none
  lookup k ((j, v) ∷ m) = if bytes_eq j k then some v else lookup k m

  -- m[k] = v
  unfoldable pub insert : Bytes → V → Map V → Map V
  insert k v [] = (k, v) ∷ []
  insert k v ((j, w) ∷ m) = if bytes_eq j k then (k, v) ∷ m else (j, w) ∷ insert k v m

  -- delete(m, k)
  unfoldable pub erase : Bytes → Map V → Map V
  erase k [] = []
  erase k ((j, v) ∷ m) = let rest = erase k m in if bytes_eq j k then rest else (j, v) ∷ rest

  unfoldable pub keys : Map V → List Bytes
  keys [] = []
  keys ((j, v) ∷ m) = j ∷ keys m

  pub lookup-insert :
      (k j : Bytes) (v : V) (m : Map V)
      → lookup j (insert k v m) ≡ (if bytes_eq k j then some v else lookup j m)
  unfolding lookup insert
  lookup-insert k j v [] = refl
  lookup-insert k j v ((i, w) ∷ m) =
      ground (arith, bytes_eq_iff k j, bytes_eq_iff i k, bytes_eq_iff i j, lookup-insert k j v m)

  pub lookup-erase :
      (k j : Bytes) (m : Map V) → lookup j (erase k m) ≡ (if bytes_eq k j then none else lookup j m)
  unfolding lookup erase
  lookup-erase k j [] = ground arith
  lookup-erase k j ((i, w) ∷ m) =
      ground (arith, bytes_eq_iff k j, bytes_eq_iff i k, bytes_eq_iff i j, lookup-erase k j m)

module _ {ℓ κ} {V : Type ℓ} (P : V → Type κ) where
  -- A property of all values.
  abbrev pub AllValues : Map V → Type κ
  AllValues [] = Unit
  AllValues ((j, v) ∷ m) = P v × AllValues m

  found :
      (b : Bool) {v w : V} {o : Option V}
      → P v
      → (o ≡ some w → P w)
      → (if b then some v else o) ≡ some w
      → P w
  found true {v} {w} pv rest h = subst P (some-injective v w h) pv
  found false pv rest h = rest h

  pub lookup-AllValues : (k : Bytes) (m : Map V) {v : V} → AllValues m → lookup k m ≡ some v → P v
  unfolding lookup
  lookup-AllValues k [] all h = cc
  lookup-AllValues k ((j, w) ∷ m) (pw, all) h = found (bytes_eq j k) pw (lookup-AllValues k m all) h

pub ruleset map_laws = (lookup-insert, lookup-erase)
