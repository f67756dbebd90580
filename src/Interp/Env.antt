-- ===== src/Interp/Env.antt =====
-- tools/selur-compose/crates/selur-compose-interp/src/env.rs: layered environments.
pub mod Layers
pub mod Files
use burble.Base.{
  ℕ, Bool, true, false, not, List, [], ◌∷◌, ◌++◌, Option, none, some, Str, Result, ok, err, ◌>>=◌,
  length, get_or, is_empty, lookup, contains_key, hash_insert, if◌then◌else◌,
}

pub record EnvMap : Type 0 where
  pub entries : List (Str × Str)
  pub index : List (Str × ℕ)

abbrev pub empty : EnvMap
empty = record { entries = []; index = [] }

-- The body of every loop that fills a map.
unfoldable pub push_new : EnvMap → Str × Str → EnvMap
unfolding contains_key hash_insert
push_new env (k, v) =
    if not (contains_key k env.index)
    then record {
      entries = env.entries ++ (k, v) ∷ [];
      index = hash_insert k (length env.entries) env.index;
    }
    else env

unfoldable pub push_all : EnvMap → List (Str × Str) → EnvMap
unfolding push_new
push_all env [] = env
push_all env (pair ∷ pairs) = push_all (push_new env pair) pairs

unfoldable pub from_iter : List (Str × Str) → EnvMap
unfolding push_all
from_iter iter = push_all empty iter

-- The index is in range: see Interp.Env.Layers.
unfoldable pub get : EnvMap → Str → Option Str
unfolding lookup
get env name = elim (lookup name env.index) [
  | none ↦ none
  | some idx ↦ some ((get_or env.entries idx ([], [])).1)
]

unfoldable pub with_overrides : EnvMap → List (Str × Str) → EnvMap
unfolding push_all
with_overrides env overrides = push_all (push_all empty overrides) env.entries

unfoldable pub len : EnvMap → ℕ
len env = length env.entries

-- The inner loop of `with_env_files`.
unfoldable pub add_pairs : List (Str × Str) → List (Str × Str) → List (Str × Str)
unfolding contains_key
add_pairs file_pairs [] = file_pairs
add_pairs file_pairs ((k, v) ∷ pairs) =
    add_pairs (if not (contains_key k file_pairs) then file_pairs ++ (k, v) ∷ [] else file_pairs)
      pairs

-- `load_env_file` is a parameter: Interp.EnvFile has it.
module _ {FilePath Error : Type 0}
    (load_env_file : FilePath → Result Error (List (Str × Str))) where
  unfoldable pub add_files : List (Str × Str) → List FilePath → Result Error (List (Str × Str))
  unfolding add_pairs
  add_files file_pairs [] = ok file_pairs
  add_files file_pairs (path ∷ paths) = do
    pairs ← load_env_file path
    add_files (add_pairs file_pairs pairs) paths

  unfoldable pub with_env_files : EnvMap → List FilePath → Result Error EnvMap
  unfolding add_files push_all
  with_env_files env paths = do
    file_pairs ← add_files [] paths
    ok (push_all (push_all empty env.entries) file_pairs)
