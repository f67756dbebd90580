-- ===== src/Base/Maps.antt =====
-- `BTreeMap` and `HashMap` with string keys, as lists of entries.
use mathlib.Core.Path.{◌≡◌, refl, ap}
use mathlib.Core.Bool.{Bool, true, false, ◌&&◌, ◌||◌}
use mathlib.Core.List.{List, [], ◌∷◌, map}
use mathlib.Core.Option.{Option, none, some}
use native.Mathlib.Omega.{arith}
use burble.Base.Tests.{◌==◌, ltb, if◌then◌else◌}
use burble.Base.Text.{Str, str_eq, str_eq_iff, contains}

-- The order of Rust's strings: by bytes, a prefix first.
unfoldable pub str_lt : Str → Str → Bool
str_lt [] [] = false
str_lt [] (y ∷ ys) = true
str_lt (x ∷ xs) [] = false
str_lt (x ∷ xs) (y ∷ ys) = ltb x y || x == y && str_lt xs ys

abbrev pub keys {ℓ} : {A : Type ℓ} → List (Str × A) → List Str
keys m = map (λ e. e.0) m

-- The keys of a map are distinct.
abbrev pub Distinct : List Str → Type 0
Distinct [] = Unit
Distinct (x ∷ xs) = (contains xs x ≡ false) × Distinct xs

module _ {ℓ} {V : Type ℓ} where
  unfoldable pub lookup : Str → List (Str × V) → Option V
  unfolding str_eq
  lookup k [] = none
  lookup k ((j, v) ∷ m) = if str_eq j k then some v else lookup k m

  unfoldable pub contains_key : Str → List (Str × V) → Bool
  unfolding str_eq
  contains_key k [] = false
  contains_key k ((j, v) ∷ m) = str_eq j k || contains_key k m

  -- `BTreeMap::insert`: the entries stay in key order.
  unfoldable pub btree_insert : Str → V → List (Str × V) → List (Str × V)
  unfolding str_eq str_lt
  btree_insert k v [] = (k, v) ∷ []
  btree_insert k v ((j, w) ∷ m) =
      if str_eq j k
      then (k, v) ∷ m
      else if str_lt k j
      then (k, v) ∷ (j, w) ∷ m
      else (j, w) ∷ btree_insert k v m

  -- `HashMap::insert`
  unfoldable pub hash_insert : Str → V → List (Str × V) → List (Str × V)
  unfolding str_eq
  hash_insert k v [] = (k, v) ∷ []
  hash_insert k v ((j, w) ∷ m) = if str_eq j k then (k, v) ∷ m else (j, w) ∷ hash_insert k v m

  pub lookup-hash_insert :
      (k j : Str) (v : V) (m : List (Str × V))
      → lookup j (hash_insert k v m) ≡ (if str_eq k j then some v else lookup j m)
  unfolding lookup hash_insert
  lookup-hash_insert k j v [] = refl
  lookup-hash_insert k j v ((i, w) ∷ m) =
      ground (arith, str_eq_iff k j, str_eq_iff i k, str_eq_iff i j, lookup-hash_insert k j v m)

  pub lookup-btree_insert :
      (k j : Str) (v : V) (m : List (Str × V))
      → lookup j (btree_insert k v m) ≡ (if str_eq k j then some v else lookup j m)
  unfolding lookup btree_insert
  lookup-btree_insert k j v [] = refl
  lookup-btree_insert k j v ((i, w) ∷ m) =
      ground (arith, str_eq_iff k j, str_eq_iff i k, str_eq_iff i j, lookup-btree_insert k j v m)

  pub lookup-absent :
      (k : Str) (m : List (Str × V)) → contains (keys m) k ≡ false → lookup k m ≡ none
  unfolding lookup contains
  lookup-absent k [] h = refl
  lookup-absent k ((j, v) ∷ m) h = ground (arith, lookup-absent k m)

  pub contains_key-keys : (k : Str) (m : List (Str × V)) → contains_key k m ≡ contains (keys m) k
  unfolding contains_key contains
  contains_key-keys k [] = refl
  contains_key-keys k ((j, v) ∷ m) = ap (λ b. str_eq j k || b) (contains_key-keys k m)

  pub contains_key-hash_insert :
      (k j : Str) (v : V) (m : List (Str × V))
      → contains_key j (hash_insert k v m) ≡ str_eq k j || contains_key j m
  unfolding contains_key hash_insert
  contains_key-hash_insert k j v [] = refl
  contains_key-hash_insert k j v ((i, w) ∷ m) =
      ground
        (arith, str_eq_iff k j, str_eq_iff i k, str_eq_iff i j, contains_key-hash_insert k j v m)
