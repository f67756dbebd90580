-- ===== src/Cli/Load/Outcome.antt =====
-- What `load` gives.
use burble.Base.{List, Option, none, some, Str, Result, ok, err}
use burble.Cli.Load.{Loaded, LoadError, planning, no_compose_file, Files}
use burble.Cli.Load.Interpolated.{FindOutcome, Interpolated}
use burble.Plan.Ops.{Plan, PlanOptions}
use burble.Plan.Planner.{plan}
use burble.Plan.Planner.Whole.{WholeOutcome}
use burble.Schema.{Compose, Service}

module _ {IoError Value TomlError HashError : Type 0} (files : Files IoError)
    (from_str : Str → Result TomlError (Compose Value))
    (service_hash : Service → Result HashError Str) where
  -- All of `load`, by how it ends.
  abbrev pub LoadOutcome :
      (file : Option Str) (env_paths : List Str)
      → PlanOptions
      → Option (Result (LoadError IoError TomlError HashError) (Loaded Value))
      → Type 0
  LoadOutcome file paths opts none =
      (path : Str) × FindOutcome files file (some path)
      × Interpolated files from_str service_hash path paths none
  LoadOutcome file paths opts (some (ok loaded)) =
      FindOutcome files file (some loaded.compose_path)
      × Interpolated files from_str service_hash loaded.compose_path paths
          (some (ok loaded.compose))
      × WholeOutcome service_hash loaded.compose opts (some (ok loaded.plan))
  LoadOutcome file paths opts (some (err no_compose_file)) = FindOutcome files file none
  LoadOutcome file paths opts (some (err (planning path e))) =
      (compose : Compose Value) × FindOutcome files file (some path)
      × Interpolated files from_str service_hash path paths (some (ok compose))
      × WholeOutcome service_hash compose opts (some (err e))
  LoadOutcome file paths opts (some (err e)) =
      (path : Str) × FindOutcome files file (some path)
      × Interpolated files from_str service_hash path paths (some (err e))
