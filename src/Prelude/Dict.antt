-- ===== src/Prelude/Dict.antt =====
-- Go's maps with string keys, as association lists without repeated keys. A `range` over a map
-- visits its entries in an order of the runtime's choice: code that depends on it takes the order
-- as an argument.
use Prim.Native.String.{String}
use Prim.Native.Nat.{◌+◌, ◌<◌, ◌≤◌}
use mathlib.Core.Path.{◌≡◌, refl}
use mathlib.Core.Bool.{Bool}
use mathlib.Core.List.{List, [], ◌∷◌}
use mathlib.Core.Option.{Option, none, some}
use native.Mathlib.Omega.{arith}
use text.Mathlib.Text.{◌==◌ as str_eq}
use text.Mathlib.TextEquality.{eq_iff}
use aigateway.Prelude.Tests.{if◌then◌else◌}
use aigateway.Prelude.Lists.{length}

abbrev pub Dict {ℓ} : Type ℓ → Type ℓ
Dict V = List (String × V)

module _ {ℓ} {V : Type ℓ} where
  -- v, ok := m[k]
  unfoldable pub lookup : String → Dict V → Option V
  lookup k [] = none
  lookup k ((j, v) ∷ m) = if str_eq j k then some v else lookup k m

  -- m[k] = v
  unfoldable pub insert : String → V → Dict V → Dict V
  insert k v [] = (k, v) ∷ []
  insert k v ((j, w) ∷ m) = if str_eq j k then (k, v) ∷ m else (j, w) ∷ insert k v m

  -- delete(m, k)
  unfoldable pub remove : String → Dict V → Dict V
  remove k [] = []
  remove k ((j, v) ∷ m) = let rest = remove k m in if str_eq j k then rest else (j, v) ∷ rest

  -- After a write the key has the value, and every other key has what it had.
  pub lookup-insert :
      (key at : String) (new : V) (m : Dict V)
      → lookup at (insert key new m) ≡ (if str_eq key at then some new else lookup at m)
  unfolding insert lookup
  lookup-insert key at new [] = refl
  lookup-insert key at new ((first, old) ∷ rest) =
      let later = lookup-insert key at new rest in
      ground (arith, later, eq_iff first key, eq_iff first at, eq_iff key at)

  pub lookup-remove :
      (k j : String) (m : Dict V)
      → lookup j (remove k m) ≡ (if str_eq k j then none else lookup j m)
  unfolding lookup remove
  lookup-remove k j [] = ground arith
  lookup-remove k j ((i, w) ∷ m) =
      ground (arith, eq_iff k j, eq_iff i k, eq_iff i j, lookup-remove k j m)

  pub length-insert-le : (k : String) (v : V) (m : Dict V) → length (insert k v m) ≤ length m + 1
  unfolding insert
  length-insert-le k v [] = omega arith
  length-insert-le k v ((j, w) ∷ m) = ground (arith, length-insert-le k v m)

  pub length-remove-le : (k : String) (m : Dict V) → length (remove k m) ≤ length m
  unfolding remove
  length-remove-le k [] = omega arith
  length-remove-le k ((j, w) ∷ m) = ground (arith, length-remove-le k m)

  -- Removing a key that is there makes the map smaller.
  pub length-remove-lt :
      (k : String) (v : V) (m : Dict V) → lookup k m ≡ some v → length (remove k m) < length m
  unfolding lookup remove
  length-remove-lt k v [] h = cc
  length-remove-lt k v ((j, w) ∷ m) h = ground (arith, length-remove-lt k v m, length-remove-le k m)

  -- The entries whose value passes a test.
  unfoldable pub keep_values : (V → Bool) → Dict V → Dict V
  keep_values p [] = []
  keep_values p ((k, v) ∷ m) = let rest = keep_values p m in if p v then (k, v) ∷ rest else rest

  -- No key stands twice.
  abbrev pub IsMap : Dict V → Type ℓ
  IsMap [] = Unit
  IsMap ((k, v) ∷ m) = (lookup k m ≡ none) × IsMap m

  pub insert-IsMap : (k : String) (v : V) (m : Dict V) → IsMap m → IsMap (insert k v m)
  unfolding insert lookup
  insert-IsMap k v [] h = (refl, tt)
  insert-IsMap k v ((j, w) ∷ m) h =
      ground (arith, eq_iff j k, eq_iff k j, lookup-insert k j v m, insert-IsMap k v m)

  pub remove-IsMap : (k : String) (m : Dict V) → IsMap m → IsMap (remove k m)
  unfolding remove
  remove-IsMap k [] h = tt
  remove-IsMap k ((j, w) ∷ m) h =
      ground (arith, eq_iff j k, eq_iff k j, lookup-remove k j m, remove-IsMap k m)

  pub lookup-keep_values :
      (p : V → Bool) (k : String) (m : Dict V)
      → IsMap m
      → lookup k (keep_values p m)
        ≡ elim (lookup k m) [ none ↦ none | some v ↦ if p v then some v else none ]
  unfolding keep_values lookup
  lookup-keep_values p k [] h = refl
  lookup-keep_values p k ((j, w) ∷ m) h = ground (arith, eq_iff j k, lookup-keep_values p k m)

  pub keep_values-IsMap : (p : V → Bool) (m : Dict V) → IsMap m → IsMap (keep_values p m)
  unfolding keep_values
  keep_values-IsMap p [] h = tt
  keep_values-IsMap p ((j, w) ∷ m) h =
      ground (arith, keep_values-IsMap p m, lookup-keep_values p j m)

  pub length-keep_values-le : (p : V → Bool) (m : Dict V) → length (keep_values p m) ≤ length m
  unfolding keep_values
  length-keep_values-le p [] = omega arith
  length-keep_values-le p ((j, w) ∷ m) = ground (arith, length-keep_values-le p m)

  pub length-pos_of_lookup : (k : String) (v : V) (m : Dict V) → lookup k m ≡ some v → 0 < length m
  unfolding lookup
  length-pos_of_lookup k v [] h = cc
  length-pos_of_lookup k v ((j, w) ∷ m) h = omega arith

-- An order in which a `range` may visit a map: each entry once.
pub record IsRange {ℓ} {V : Type ℓ} (order : Dict V → Dict V) : Type ℓ where
  pub once : (m : Dict V) → IsMap m → IsMap (order m)
  pub same : (m : Dict V) (k : String) → IsMap m → lookup k (order m) ≡ lookup k m
