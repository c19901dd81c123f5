-- ===== src/Base/Dict.antt =====
-- A Python dict with text keys: its items in insertion order.
use intelliops.Base.Tests.{◌==◌, ==_iff, if◌then◌else◌, Bool-cases}
use Prim.Native.String.{String}
use mathlib.Core.Path.{◌≡◌, refl}
use mathlib.Core.Logic.{◌⊎◌, inl, inr}
use mathlib.Core.Option.{Option, none, some}
use mathlib.Core.List.{List, [], ◌∷◌}
use native.Mathlib.Omega.{arith}

abbrev pub Dict {ℓ} : Type ℓ → Type ℓ
Dict V = List (String × V)

module _ {ℓ} {V : Type ℓ} where
  -- `d.get(k)`
  unfoldable pub lookup : String → Dict V → Option V
  lookup k [] = none
  lookup k ((j, v) ∷ d) = if j == k then some v else lookup k d

  -- `d[k] = v`: a key that is there keeps its place, a new one goes last.
  unfoldable pub insert : String → V → Dict V → Dict V
  insert k v [] = (k, v) ∷ []
  insert k v ((j, w) ∷ d) = if j == k then (k, v) ∷ d else (j, w) ∷ insert k v d

  -- `d.pop(k, None)`
  unfoldable pub erase : String → Dict V → Dict V
  erase k [] = []
  erase k ((j, w) ∷ d) = if j == k then d else (j, w) ∷ erase k d

  -- `d.get(k, default)`
  unfoldable pub lookup_or : String → Dict V → V → V
  lookup_or k d v = elim (lookup k d) [ none ↦ v | some w ↦ w ]

  -- No key stands twice.
  abbrev pub IsDict : Dict V → Type ℓ
  IsDict [] = Unit
  IsDict ((k, v) ∷ d) = (lookup k d ≡ none) × IsDict d

  pub lookup-insert :
      (k j : String) (v : V) (d : Dict V)
      → lookup j (insert k v d) ≡ (if k == j then some v else lookup j d)
  unfolding lookup insert
  lookup-insert k j v [] = refl
  lookup-insert k j v ((i, w) ∷ d) =
      ground (arith, ==_iff k j, ==_iff i k, ==_iff i j, lookup-insert k j v d)

  -- What stands in the dict after an insertion is the new value, or stood there before.
  pub insert_cases :
      (k j : String) (v x : V) (d : Dict V)
      → lookup j (insert k v d) ≡ some x
      → ((k ≡ j) × (v ≡ x)) ⊎ (lookup j d ≡ some x)
  insert_cases k j v x d h = elim (Bool-cases (k == j)) [
    | inl same ↦ inl ((==_iff k j).0 same, grind (arith, lookup-insert k j v d))
    | inr other ↦ inr (grind (arith, lookup-insert k j v d))
  ]

  pub lookup-empty : (k : String) (v : V) (d : Dict V) → d ≡ [] → lookup k d ≡ some v → ⊥
  unfolding lookup
  lookup-empty k v [] empty there = ground arith
  lookup-empty k v (x ∷ d) empty there = ground arith

  -- Under another key, an insertion leaves what stands there.
  pub insert_keeps :
      (k j : String) (v x : V) (d : Dict V)
      → (k ≡ j → ⊥)
      → lookup j d ≡ some x
      → lookup j (insert k v d) ≡ some x
  insert_keeps k j v x d apart there = elim (Bool-cases (k == j)) [
    | inl same ↦ absurd (apart ((==_iff k j).0 same))
    | inr other ↦ grind (arith, lookup-insert k j v d)
  ]
