-- ===== src/Prelude/Dict.antt =====
-- A map keyed by text, `serde_json::Map` and `HashMap`, as an association list. An entry behind
-- another one with its key is no entry of the map; `insert` never leaves one.
use Prim.Native.String.{String}
use mathlib.Core.Path.{◌≡◌, refl}
use mathlib.Core.Bool.{Bool}
use mathlib.Core.Option.{Option, none, some}
use mathlib.Core.List.{List, [], ◌∷◌}
use native.Mathlib.Omega.{arith}
use text.Mathlib.Text.{◌==◌}
use text.Mathlib.TextEquality.{eq_iff}
use text.Mathlib.TextPositions.{eq_refl}
use skarbiec.Prelude.Tests.{if◌then◌else◌, is_some}

abbrev pub Dict {ℓ} : Type ℓ → Type ℓ
Dict V = List (String × V)

-- What a filter leaves of one entry's value.
abbrev pub keep_if {ℓ} : {V : Type ℓ} → (V → Bool) → Option V → Option V
keep_if p none = none
keep_if p (some v) = if p v then some v else none

module _ {ℓ} {V : Type ℓ} where
  -- `map.get(k)`
  unfoldable pub lookup : String → Dict V → Option V
  lookup k [] = none
  lookup k ((j, v) ∷ m) = if j == k then some v else lookup k m

  -- `map.remove(k)`
  unfoldable pub remove : String → Dict V → Dict V
  remove k [] = []
  remove k ((j, v) ∷ m) = let rest = remove k m in if j == k then rest else (j, v) ∷ rest

  -- `map.insert(k, v)`
  unfoldable pub insert : String → V → Dict V → Dict V
  unfolding remove
  insert k v m = (k, v) ∷ remove k m

  -- `map.retain(|k, v| p)`
  unfoldable pub retain : (String → V → Bool) → Dict V → Dict V
  unfolding remove
  retain p [] = []
  retain p ((j, v) ∷ m) = let rest = retain p m in if p j v then (j, v) ∷ rest else remove j rest

  -- `map.contains_key(k)`
  abbrev pub contains_key : String → Dict V → Bool
  contains_key k m = is_some (lookup k m)

  pub lookup-remove :
      (k j : String) (m : Dict V) → lookup j (remove k m) ≡ (if k == j then none else lookup j m)
  unfolding lookup remove
  lookup-remove k j [] = ground arith
  lookup-remove k j ((i, v) ∷ m) =
      ground (arith, lookup-remove k j m, eq_iff i k, eq_iff i j, eq_iff k j)

  pub lookup-insert :
      (k j : String) (v : V) (m : Dict V)
      → lookup j (insert k v m) ≡ (if k == j then some v else lookup j m)
  unfolding lookup insert
  lookup-insert k j v m = ground (arith, lookup-remove k j m, eq_iff k j)

  pub lookup-insert_self : (k : String) (v : V) (m : Dict V) → lookup k (insert k v m) ≡ some v
  lookup-insert_self k v m = rw (lookup-insert, eq_refl k)

  pub lookup-retain :
      (p : String → V → Bool) (j : String) (m : Dict V)
      → lookup j (retain p m) ≡ keep_if (p j) (lookup j m)
  unfolding lookup retain
  lookup-retain p j [] = refl
  lookup-retain p j ((i, v) ∷ m) =
      ground (arith, lookup-retain p j m, lookup-remove i j (retain p m), eq_iff i j)

pub lookup-nil {ℓ} : {V : Type ℓ} (k : String) → lookup {V = V} k [] ≡ none
unfolding lookup
lookup-nil k = refl

pub ruleset dict_laws = (lookup-remove, lookup-insert, lookup-retain)
