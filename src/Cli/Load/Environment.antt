-- ===== src/Cli/Load/Environment.antt =====
-- The environment that `load` interpolates with.
use burble.Base.{
  Bool, true, false, List, [], ◌∷◌, ◌++◌, Str, Option, none, some, Result, ok, err, ◌>>=◌, ◌≡◌,
  refl, sym, ◌∙◌, subst, lookup, if◌then◌else◌, append-nil,
}
use burble.Cli.Load.{Files, dot_env, with_dot_env, with_extra, layered_env, build_env}
use burble.Interp.Env.{EnvMap, from_iter, get, with_env_files, empty}
use burble.Interp.Env.Files.{LayersOutcome, load_all, with_env_files-Outcome}
use burble.Interp.Env.Layers.{
  IsEnv, or_else_none, or_else_assoc, lookup-append, empty-IsEnv, push_all-IsEnv,
}
use burble.Interp.Error.{InterpError}

module _ {FilePath Error : Type 0} (load : FilePath → Result Error (List (Str × Str))) where
  -- Files in two steps are files in one.
  layers-append :
      (env : EnvMap) (pairs : List (Str × Str)) (env' : EnvMap)
      (all : Result Error (List (Str × Str))) (r : Result Error EnvMap)
      → LayersOutcome load env (ok pairs) (ok env')
      → LayersOutcome load env' all r
      → LayersOutcome load env (all >>= λ rest. ok (pairs ++ rest)) r
  layers-append env pairs env' (ok rest) (ok env'') (valid, first) (valid', second) = (
    valid',
    λ k.
        second k
        ∙ rw (first k, lookup-append k pairs rest)
            (or_else_assoc (get env k) (lookup k pairs) (lookup k rest)),
  )
  layers-append env pairs env' (ok rest) (err e) first second = absurd second
  layers-append env pairs env' (err e) (ok env'') first second = absurd second
  layers-append env pairs env' (err e) (err e') first second = second

  -- The pairs of one more file, in front.
  abbrev in_front :
      List (Str × Str) → Result Error (List (Str × Str)) → Result Error (List (Str × Str))
  in_front pairs all = elim all [ err e ↦ err e | ok rest ↦ ok (pairs ++ rest) ]

  in_front-bind :
      (pairs : List (Str × Str)) (all : Result Error (List (Str × Str)))
      → (all >>= λ rest. ok ((pairs ++ []) ++ rest)) ≡ in_front pairs all
  in_front-bind pairs (ok rest) = rw (append-nil pairs) refl
  in_front-bind pairs (err e) = refl

module _ {IoError : Type 0} (files : Files IoError) where
  with_extra-Outcome :
      (extra : List Str) (env : EnvMap)
      → IsEnv env
      → LayersOutcome files.load_env_file env
          (load_all files.load_env_file extra)
          (with_extra files extra env)
  unfolding with_extra lookup
  with_extra-Outcome [] env valid = (valid, λ k. sym (or_else_none (get env k)))
  with_extra-Outcome (path ∷ paths) env valid =
      with_env_files-Outcome files.load_env_file env (path ∷ paths) valid

  two_steps :
      (d : Str) (extra : List Str) (env : EnvMap)
      → IsEnv env
      → LayersOutcome files.load_env_file env
          (load_all files.load_env_file (d ∷ extra))
          (with_env_files files.load_env_file env (d ∷ []) >>= λ e. with_extra files extra e)
  two_steps d extra env valid =
      go (files.load_env_file d) (with_env_files files.load_env_file env (d ∷ []))
        (with_env_files-Outcome files.load_env_file env (d ∷ []) valid)
    where
      go :
          (l : Result InterpError (List (Str × Str))) (r : Result InterpError EnvMap)
          → LayersOutcome files.load_env_file env
              (elim l [ err e ↦ err e | ok pairs ↦ in_front files.load_env_file pairs (ok []) ])
              r
          → LayersOutcome files.load_env_file env
              (elim l [
                | err e ↦ err e
                | ok pairs ↦ in_front files.load_env_file pairs (load_all files.load_env_file extra)
              ])
              (r >>= λ e. with_extra files extra e)
      go (err e) (err e') o = o
      go (err e) (ok env') o = absurd o
      go (ok pairs) (err e) o = absurd o
      go (ok pairs) (ok env') o =
          subst (λ all. LayersOutcome files.load_env_file env all (with_extra files extra env'))
            (in_front-bind files.load_env_file pairs (load_all files.load_env_file extra))
            (layers-append files.load_env_file env (pairs ++ []) env'
              (load_all files.load_env_file extra) (with_extra files extra env') o
              (with_extra-Outcome extra env' o.0))

  -- The files that are read, in order.
  abbrev pub env_paths : (compose_path : Str) → List Str → List Str
  env_paths compose_path extra =
      if files.exists (dot_env files compose_path)
      then dot_env files compose_path ∷ extra
      else extra

  layered_env-Outcome :
      (vars : List (Str × Str)) (compose_path : Str) (extra : List Str)
      → LayersOutcome files.load_env_file
          (from_iter vars)
          (load_all files.load_env_file (env_paths compose_path extra))
          (layered_env files vars compose_path extra)
  unfolding layered_env with_dot_env from_iter
  layered_env-Outcome vars compose_path extra = go (files.exists (dot_env files compose_path))
    where
      process-IsEnv : IsEnv (from_iter vars)
      process-IsEnv = push_all-IsEnv empty vars empty-IsEnv

      go :
          (b : Bool)
          → LayersOutcome files.load_env_file
              (from_iter vars)
              (load_all files.load_env_file
                (if b then dot_env files compose_path ∷ extra else extra))
              ((if b
                  then with_env_files files.load_env_file
                      (from_iter vars)
                      (dot_env files compose_path ∷ [])
                  else ok (from_iter vars))
                >>= λ e. with_extra files extra e)
      go true = two_steps (dot_env files compose_path) extra (from_iter vars) process-IsEnv
      go false = with_extra-Outcome extra (from_iter vars) process-IsEnv

  abbrev pub BuildOutcome :
      (compose_path : Str) → List Str → Option (Result InterpError EnvMap) → Type 0
  BuildOutcome compose_path extra none = files.process_env ≡ none
  BuildOutcome compose_path extra (some r) =
      (vars : List (Str × Str)) × (files.process_env ≡ some vars)
      × LayersOutcome files.load_env_file (from_iter vars)
          (load_all files.load_env_file (env_paths compose_path extra)) r

  -- If a variable of the process is not Unicode, there is a panic. Otherwise a name has its value in the
  -- process, or else that of its first pair in the files: the `.env` file beside the document, if there is
  -- one, and then those of the command line, in order. The error is that of the first of them that fails.
  pub build_env-Outcome :
      (compose_path : Str) (extra : List Str)
      → BuildOutcome compose_path extra (build_env files compose_path extra)
  unfolding build_env
  build_env-Outcome compose_path extra = go files.process_env refl
    where
      go :
          (vars : Option (List (Str × Str)))
          → files.process_env ≡ vars
          → BuildOutcome compose_path extra (elim vars [
            | none ↦ none
            | some vars ↦ some (layered_env files vars compose_path extra)
          ])
      go none e = e
      go (some vars) e = (vars, e, layered_env-Outcome vars compose_path extra)
