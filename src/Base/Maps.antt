-- ===== src/Base/Maps.antt =====
-- Go maps with string keys, as lists of entries with each key once. What iterates over a map in
-- the source takes the entries in an order that Go does not fix.
use mathlib.Core.Path.{◌≡◌, refl}
use mathlib.Core.Option.{Option, none, some}
use mathlib.Core.List.{List, [], ◌∷◌}
use native.Mathlib.Omega.{arith}
use redis_admin.Base.Tests.{if◌then◌else◌}
use redis_admin.Base.Text.{Str, eq_str, eq_str_iff}

abbrev pub Dict {ℓ} : Type ℓ → Type ℓ
Dict V = List (Str × V)

module _ {ℓ} {V : Type ℓ} where
  -- v, ok := m[k]
  unfoldable pub lookup : Str → Dict V → Option V
  lookup k [] = none
  lookup k ((j, v) ∷ m) = if eq_str j k then some v else lookup k m

  -- m[k] = v
  unfoldable pub insert : Str → V → Dict V → Dict V
  insert k v [] = (k, v) ∷ []
  insert k v ((j, w) ∷ m) = if eq_str j k then (j, v) ∷ m else (j, w) ∷ insert k v m

  -- delete(m, k)
  unfoldable pub remove : Str → Dict V → Dict V
  remove k [] = []
  remove k ((j, w) ∷ m) = let rest = remove k m in if eq_str j k then rest else (j, w) ∷ rest

  pub lookup-insert :
      (k j : Str) (v : V) (m : Dict V)
      → lookup j (insert k v m) ≡ (if eq_str k j then some v else lookup j m)
  unfolding lookup insert
  lookup-insert k j v [] = refl
  lookup-insert k j v ((i, w) ∷ m) =
      ground (arith, eq_str_iff k j, eq_str_iff i k, eq_str_iff i j, lookup-insert k j v m)

  pub lookup-remove :
      (k j : Str) (m : Dict V) → lookup j (remove k m) ≡ (if eq_str k j then none else lookup j m)
  unfolding lookup remove
  lookup-remove k j [] = ground arith
  lookup-remove k j ((i, w) ∷ m) =
      ground (arith, eq_str_iff k j, eq_str_iff i k, eq_str_iff i j, lookup-remove k j m)

-- m[k] on a map of strings, which is "" for a missing key
unfoldable pub lookup_str : Str → Dict Str → Str
unfolding lookup
lookup_str k m = elim (lookup k m) [ none ↦ [] | some v ↦ v ]
