-- ===== src/Interp/Env/Files.antt =====
-- Which file a name is looked up in.
use burble.Base.{
  List, [], ◌∷◌, ◌++◌, Str, Result, ok, err, ◌>>=◌, ◌≡◌, refl, sym, ◌∙◌, lookup, contains_key,
  str_eq_iff, arith, Bool-cases, inl, inr,
}
use burble.Interp.Env.{EnvMap, empty, push_all, get, add_pairs, add_files, with_env_files}
use burble.Interp.Env.Layers.{
  IsEnv, or_else, or_else_none, or_else_assoc, lookup-append, contains_key-lookup, get-IsEnv,
  push_all-IsEnv, push_all-lookup, empty-IsEnv,
}

add_pairs-lookup :
    (file_pairs pairs : List (Str × Str)) (j : Str)
    → lookup j (add_pairs file_pairs pairs) ≡ or_else (lookup j file_pairs) (lookup j pairs)
unfolding add_pairs lookup
add_pairs-lookup file_pairs [] j = ground arith
add_pairs-lookup file_pairs ((k, v) ∷ pairs) j = elim (Bool-cases (contains_key k file_pairs)) [
  | inl e ↦
      rw (e, add_pairs-lookup file_pairs pairs j)
        (ground (arith, contains_key-lookup k file_pairs, e, str_eq_iff k j))
  | inr e ↦
      rw (e, add_pairs-lookup (file_pairs ++ (k, v) ∷ []) pairs j, lookup-append)
        (ground (arith, contains_key-lookup k file_pairs, e, str_eq_iff k j))
]

-- The pairs of all files, in order, if every file loads.
abbrev pub load_all :
    {FilePath Error : Type 0}
    → (FilePath → Result Error (List (Str × Str)))
    → List FilePath
    → Result Error (List (Str × Str))
load_all load [] = ok []
load_all load (path ∷ paths) = elim (load path) [
  | err e ↦ err e
  | ok pairs ↦ elim (load_all load paths) [ err e ↦ err e | ok rest ↦ ok (pairs ++ rest) ]
]

module _ {FilePath Error : Type 0}
    (load_env_file : FilePath → Result Error (List (Str × Str))) where
  abbrev FilesOutcome :
      List (Str × Str) → Result Error (List (Str × Str)) → Result Error (List (Str × Str)) → Type 0
  FilesOutcome file_pairs (ok all) (ok r) =
      (j : Str) → lookup j r ≡ or_else (lookup j file_pairs) (lookup j all)
  FilesOutcome file_pairs (err e) (err e') = e ≡ e'
  FilesOutcome file_pairs _ _ = ⊥

  FilesOutcome-cons :
      (file_pairs pairs : List (Str × Str)) (later r : Result Error (List (Str × Str)))
      → FilesOutcome (add_pairs file_pairs pairs) later r
      → FilesOutcome file_pairs (elim later [ err e ↦ err e | ok rest ↦ ok (pairs ++ rest) ]) r
  FilesOutcome-cons file_pairs pairs (ok all) (ok r) o = λ j.
      o j
      ∙ rw (add_pairs-lookup file_pairs pairs j, lookup-append j pairs all)
          (or_else_assoc (lookup j file_pairs) (lookup j pairs) (lookup j all))
  FilesOutcome-cons file_pairs pairs (err e) (err e') o = o
  FilesOutcome-cons file_pairs pairs (ok all) (err e) o = o
  FilesOutcome-cons file_pairs pairs (err e) (ok r) o = o

  add_files-Outcome :
      (file_pairs : List (Str × Str)) (paths : List FilePath)
      → FilesOutcome file_pairs
          (load_all load_env_file paths)
          (add_files load_env_file file_pairs paths)
  unfolding add_files lookup
  add_files-Outcome file_pairs [] = λ j. sym (or_else_none (lookup j file_pairs))
  add_files-Outcome file_pairs (path ∷ paths) =
      go (load_env_file path) (load_all load_env_file paths)
        λ pairs. add_files-Outcome (add_pairs file_pairs pairs) paths
    where
      go :
          (r : Result Error (List (Str × Str))) (later : Result Error (List (Str × Str)))
          → ((pairs : List (Str × Str))
              → FilesOutcome
                  (add_pairs file_pairs pairs)
                  later
                  (add_files load_env_file (add_pairs file_pairs pairs) paths))
          → FilesOutcome file_pairs
              (elim r [
                | err e ↦ err e
                | ok pairs ↦ elim later [ err e ↦ err e | ok rest ↦ ok (pairs ++ rest) ]
              ])
              (r >>= λ pairs. add_files load_env_file (add_pairs file_pairs pairs) paths)
      go (err e) later ih = refl
      go (ok pairs) later ih = FilesOutcome-cons file_pairs pairs later _ (ih pairs)

  abbrev pub LayersOutcome : EnvMap → Result Error (List (Str × Str)) → Result Error EnvMap → Type 0
  LayersOutcome env (ok all) (ok env') =
      IsEnv env' × ((k : Str) → get env' k ≡ or_else (get env k) (lookup k all))
  LayersOutcome env (err e) (err e') = e ≡ e'
  LayersOutcome env _ _ = ⊥

  -- If every file loads, a name keeps its value, and one that had none gets that of its first pair in
  -- the files, the earlier file first. Otherwise the error is that of the first file that fails.
  pub with_env_files-Outcome :
      (env : EnvMap) (paths : List FilePath)
      → IsEnv env
      → LayersOutcome env (load_all load_env_file paths) (with_env_files load_env_file env paths)
  unfolding with_env_files lookup
  with_env_files-Outcome env paths valid =
      go (load_all load_env_file paths) (add_files load_env_file [] paths)
        (add_files-Outcome [] paths)
    where
      go :
          (all r : Result Error (List (Str × Str)))
          → FilesOutcome [] all r
          → LayersOutcome env all
              (r >>= λ file_pairs. ok (push_all (push_all empty env.entries) file_pairs))
      go (ok all) (ok pairs) o =
          let base = push_all-IsEnv empty env.entries empty-IsEnv in
          let above = push_all-IsEnv (push_all empty env.entries) pairs base in
          (
            above,
            λ k.
                get-IsEnv _ above k
                ∙ push_all-lookup (push_all empty env.entries) pairs k base
                ∙ rw (push_all-lookup empty env.entries k empty-IsEnv, get-IsEnv env valid k, o k)
                    refl,
          )
      go (err e) (err e') o = o
      go (ok all) (err e) o = o
      go (err e) (ok pairs) o = o
