-- ===== src/Base/Map.antt =====
-- Go's maps as lists of entries.
use gomsggw.Base.Keys.{Eq, ◌==◌, ==_iff}
use gomsggw.Base.Tests.{if◌then◌else◌}
use mathlib.Core.List.{List, [], ◌∷◌}
use mathlib.Core.Option.{Option, none, some}
use mathlib.Core.Path.{◌≡◌}
use native.Mathlib.Omega.{arith}

module _ {ℓ κ} {Key : Type ℓ} {Value : Type κ} ⦃keys : Eq Key⦄ where
  -- `delete(entries, key)`
  unfoldable pub delete : Key → List (Key × Value) → List (Key × Value)
  delete key (entry ∷ entries) =
      let others = delete key entries in if entry.0 == key then others else entry ∷ others
  delete key [] = []

  -- `entries[key] = value`
  unfoldable pub insert : Key → Value → List (Key × Value) → List (Key × Value)
  unfolding delete
  insert key value entries = (key, value) ∷ delete key entries

  -- `value, ok := entries[key]`
  unfoldable pub lookup : Key → List (Key × Value) → Option Value
  lookup key (entry ∷ entries) =
      let later = lookup key entries in if entry.0 == key then some entry.1 else later
  lookup key [] = none

  pub lookup-delete :
      (gone key : Key) (entries : List (Key × Value))
      → lookup key (delete gone entries) ≡ (if gone == key then none else lookup key entries)
  unfolding lookup delete
  lookup-delete gone key (entry ∷ entries) = ground (
    arith,
    lookup-delete gone key entries,
    ==_iff entry.0 gone,
    ==_iff entry.0 key,
    ==_iff gone key,
  )
  lookup-delete gone key [] = ground arith

  pub lookup-insert :
      (set key : Key) (value : Value) (entries : List (Key × Value))
      → lookup key (insert set value entries)
        ≡ (if set == key then some value else lookup key entries)
  unfolding lookup insert
  lookup-insert set key value entries = ground (arith, lookup-delete set key entries)
