-- ===== src/Cli/Load.antt =====
-- tools/selur-compose/crates/selur-compose/src/load.rs. The file system, the variables of the process and
-- what is read by other crates are parameters. `none` stands for a panic.
pub mod Outcome
pub mod Environment
pub mod Interpolated
use burble.Base.{
  ℕ, ◌*◌, Bool, true, false, List, [], ◌∷◌, Option, none, some, Str, codes, Result, ok, err, ◌>>=◌,
  ◌>>◌, map_err, is_empty, if◌then◌else◌,
}
use burble.Interp.Env.{EnvMap, from_iter, with_env_files}
use burble.Interp.Error.{InterpError}
use burble.Interp.Visit.{visit_compose}
use burble.Plan.Error.{PlanError}
use burble.Plan.Ops
use burble.Plan.Ops.{PlanOptions}
use burble.Plan.Planner.{plan}
use burble.Schema.{Compose, Service}
use burble.Schema.Parse.{ParseError, parse_str}

pub record Loaded (Value : Type 0) : Type 0 where
  pub compose : Compose Value
  pub plan : Ops.Plan
  pub compose_path : Str

-- The contexts of anyhow, with their causes.
pub data LoadError (IoError TomlError HashError : Type 0) : Type 0 where
  no_compose_file : LoadError IoError TomlError HashError
  unreadable : (path : Str) → IoError → LoadError IoError TomlError HashError
  unparsable : (path : Str) → ParseError TomlError → LoadError IoError TomlError HashError
  env_files : InterpError → LoadError IoError TomlError HashError
  interpolation : (path : Str) → InterpError → LoadError IoError TomlError HashError
  planning : (path : Str) → PlanError HashError → LoadError IoError TomlError HashError

-- What `load` reads: `read_limited` opens a file and reads at most so many bytes, as text. The variables of
-- the process are `none` if one of them is not Unicode: `std::env::vars` panics there.
pub record Files (IoError : Type 0) : Type 0 where
  pub current_dir : Str
  pub join_path : (dir name : Str) → Str
  pub parent : Str → Str
  pub exists : Str → Bool
  pub read_limited : (limit : ℕ) (path : Str) → Result IoError Str
  pub load_env_file : Str → Result InterpError (List (Str × Str))
  pub process_env : Option (List (Str × Str))

module _ {IoError : Type 0} (files : Files IoError) where
  unfoldable pub find_file : List Str → Option Str
  find_file [] = none
  find_file (name ∷ names) =
      let p = files.join_path files.current_dir name in
      if files.exists p then some p else find_file names

  unfoldable pub resolve_compose_file : Option Str → Option Str
  unfolding find_file
  resolve_compose_file (some p) = some p
  resolve_compose_file none = find_file (codes "selur-compose.toml" ∷ codes "compose.toml" ∷ [])

  abbrev pub dot_env : (compose_path : Str) → Str
  dot_env compose_path = files.join_path (files.parent compose_path) (codes ".env")

  -- The `.env` file beside the compose file, if there is one.
  unfoldable pub with_dot_env : (compose_path : Str) → EnvMap → Result InterpError EnvMap
  unfolding with_env_files
  with_dot_env compose_path env =
      if files.exists (dot_env compose_path)
      then with_env_files files.load_env_file env (dot_env compose_path ∷ [])
      else ok env

  -- The files of `--env-file`.
  unfoldable pub with_extra : List Str → EnvMap → Result InterpError EnvMap
  unfolding with_env_files
  with_extra paths env =
      if is_empty paths then ok env else with_env_files files.load_env_file env paths

  -- Behind the variables of the process.
  unfoldable pub layered_env :
      (vars : List (Str × Str)) (compose_path : Str) → List Str → Result InterpError EnvMap
  unfolding from_iter with_dot_env with_extra
  layered_env vars compose_path extra_env_files = do
    env ← with_dot_env compose_path (from_iter vars)
    with_extra extra_env_files env

  unfoldable pub build_env : (compose_path : Str) → List Str → Option (Result InterpError EnvMap)
  unfolding layered_env
  build_env compose_path extra_env_files = elim files.process_env [
    | none ↦ none
    | some vars ↦ some (layered_env vars compose_path extra_env_files)
  ]

  -- The number of bytes of a compose file that are read.
  abbrev pub read_limit : ℕ
  read_limit = 5 * 1024 * 1024

  module _ {Value TomlError HashError : Type 0} (from_str : Str → Result TomlError (Compose Value))
      (service_hash : Service → Result HashError Str) where
    -- Behind the interpolation.
    unfoldable pub plan_loaded :
        (compose_path : Str)
        → PlanOptions
        → Compose Value
        → Option (Result (LoadError IoError TomlError HashError) (Loaded Value))
    unfolding plan
    plan_loaded compose_path opts compose = elim (plan service_hash compose opts) [
      | none ↦ none
      | some (err e) ↦ some (err (planning compose_path e))
      | some (ok p) ↦
          some (ok (record { compose = compose; plan = p; compose_path = compose_path }))
    ]

    -- Steps 1 and 2 behind the discovery of the file.
    unfoldable pub parsed :
        (compose_path : Str) → Result (LoadError IoError TomlError HashError) (Compose Value)
    unfolding parse_str
    parsed compose_path = do
      toml_src ← map_err (unreadable compose_path) (files.read_limited read_limit compose_path)
      map_err (unparsable compose_path) (parse_str from_str toml_src (some compose_path))

    -- Step 4 behind step 3.
    unfoldable pub expanded :
        (compose_path : Str)
        → Compose Value
        → Result InterpError EnvMap
        → Result (LoadError IoError TomlError HashError) (Compose Value)
    unfolding visit_compose
    expanded compose_path compose env = do
      env' ← map_err env_files env
      map_err (interpolation compose_path) (visit_compose env' compose)

    unfoldable pub interpolated :
        (compose_path : Str)
        → List Str
        → Option (Result (LoadError IoError TomlError HashError) (Compose Value))
    unfolding parsed build_env expanded
    interpolated compose_path env_paths = elim (parsed compose_path) [
      | err e ↦ some (err e)
      | ok compose ↦ elim (build_env compose_path env_paths) [
        | none ↦ none
        | some env ↦ some (expanded compose_path compose env)
      ]
    ]

    unfoldable pub load :
        (file : Option Str)
        → (env_paths profiles : List Str) → (project_name : Option Str) → (services : List Str)
        → Option (Result (LoadError IoError TomlError HashError) (Loaded Value))
    unfolding resolve_compose_file interpolated plan_loaded
    load file env_paths profiles project_name services = elim (resolve_compose_file file) [
      | none ↦ some (err no_compose_file)
      | some compose_path ↦ elim (interpolated compose_path env_paths) [
        | none ↦ none
        | some (err e) ↦ some (err e)
        | some (ok compose) ↦
            plan_loaded compose_path
              (record { profiles = profiles; project_name = project_name; services = services })
              compose
      ]
    ]
