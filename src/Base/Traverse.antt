-- ===== src/Base/Traverse.antt =====
-- `map` and `collect` or `transpose` of fallible functions: the first error is the result.
use mathlib.Core.List.{List, [], ◌∷◌}
use mathlib.Core.Option.{Option, none, some}
use burble.Base.Results.{Result, ok, ◌>>=◌}

module _ {ℓ} {E A B : Type ℓ} (f : A → Result E B) where
  abbrev pub traverse : List A → Result E (List B)
  traverse [] = ok []
  traverse (x ∷ xs) = do y ← f x; ys ← traverse xs; ok (y ∷ ys)

  abbrev pub traverse_option : Option A → Result E (Option B)
  traverse_option none = ok none
  traverse_option (some x) = do y ← f x; ok (some y)

  -- On the values of a map.
  abbrev pub traverse_values : {K : Type ℓ} → List (K × A) → Result E (List (K × B))
  traverse_values [] = ok []
  traverse_values ((k, x) ∷ m) = do y ← f x; rest ← traverse_values m; ok ((k, y) ∷ rest)
