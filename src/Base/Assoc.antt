-- ===== src/Base/Assoc.antt =====
-- A `HashMap` with number keys as an association list: what a key maps to, and nothing of its order.
use Prim.Native.Nat.{ℕ}
use mathlib.Core.Path.{◌≡◌, refl, ◌∙◌}
use mathlib.Core.Logic.{◌≢◌}
use mathlib.Core.Option.{Option, none, some}
use mathlib.Core.List.{List, [], ◌∷◌}
use native.Mathlib.Omega.{arith}
use aether_radio_sim.Base.Tests.{◌==◌, if◌then◌else◌}

module _ {ℓ} {Value : Type ℓ} where
  unfoldable pub remove : ℕ → List (ℕ × Value) → List (ℕ × Value)
  remove key [] = []
  remove key (entry ∷ entries) =
      let rest = remove key entries in if entry.0 == key then rest else entry ∷ rest

  unfoldable pub lookup : ℕ → List (ℕ × Value) → Option Value
  lookup key [] = none
  lookup key (entry ∷ entries) =
      let rest = lookup key entries in if entry.0 == key then some entry.1 else rest

  -- A key that is there keeps its place.
  unfoldable pub insert : ℕ → Value → List (ℕ × Value) → List (ℕ × Value)
  insert key value [] = (key, value) ∷ []
  insert key value (entry ∷ entries) =
      let rest = insert key value entries in
      if entry.0 == key then (key, value) ∷ entries else entry ∷ rest

  pub lookup-remove :
      (key other : ℕ) (entries : List (ℕ × Value))
      → lookup other (remove key entries) ≡ (if key == other then none else lookup other entries)
  unfolding lookup remove
  lookup-remove key other [] = ground arith
  lookup-remove key other (entry ∷ entries) = ground (arith, lookup-remove key other entries)

  pub lookup-insert :
      (key other : ℕ) (value : Value) (entries : List (ℕ × Value))
      → lookup other (insert key value entries)
        ≡ (if key == other then some value else lookup other entries)
  unfolding lookup insert
  lookup-insert key other value [] = refl
  lookup-insert key other value (entry ∷ entries) =
      ground (arith, lookup-insert key other value entries)

  pub lookup-insert_self :
      (key : ℕ) (value : Value) (entries : List (ℕ × Value))
      → lookup key (insert key value entries) ≡ some value
  lookup-insert_self key value entries = lookup-insert key key value entries ∙ ground arith

  pub lookup-insert_ne :
      (key other : ℕ) (value : Value) (entries : List (ℕ × Value))
      → other ≢ key
      → lookup other (insert key value entries) ≡ lookup other entries
  lookup-insert_ne key other value entries ne =
      lookup-insert key other value entries ∙ ground (arith, ne)

  pub lookup-remove_self :
      (key : ℕ) (entries : List (ℕ × Value)) → lookup key (remove key entries) ≡ none
  lookup-remove_self key entries = lookup-remove key key entries ∙ ground arith

  pub lookup-remove_ne :
      (key other : ℕ) (entries : List (ℕ × Value))
      → other ≢ key
      → lookup other (remove key entries) ≡ lookup other entries
  lookup-remove_ne key other entries ne = lookup-remove key other entries ∙ ground (arith, ne)
