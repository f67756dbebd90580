-- ===== src/Driver/Podman.antt =====
-- tools/selur-compose/crates/selur-compose-driver/src/podman.rs: the driver that runs podman. Starting a
-- process, its open output, reading bytes as UTF-8 and serde_json are parameters.
pub mod Json
pub mod Errors
pub mod Again
mod Tests
use Prim.Native.Nat.{◌/◌}
use burble.Base.{
  drop, ℕ, Bool, ◌||◌, List, [], ◌∷◌, Option, none, some, Str, codes, Result, ok, err, is_empty,
  map, str_eq, if◌then◌else◌,
}
use burble.Driver.Argv.{
  build_argv, pull_argv, network_create_argv, volume_create_argv, run_argv, stop_argv, rm_argv,
  inspect_argv, healthcheck_run_argv, logs_argv, ps_argv,
}
use burble.Driver.Healthcheck.{second}
use burble.Driver.Interface.{Driver, Call}
use burble.Driver.Podman.Json.{
  PodmanContainerJson, PodmanPsJson, into_container_state, into_summary,
}
use burble.Driver.Process.{Output, run_podman, has_text, detect_privileged_port}
use burble.Driver.Types.{
  ℤ, pos, HealthState, ContainerState, ContainerSummary, DriverError, no_status, podman,
  healthcheck_timeout, is_unhealthy, privileged_port, io, json,
}
use burble.Interp.EnvFile.{trim, lines_from}
use burble.Plan.Ops.{NetworkSpec, VolumeSpec, BuildSpec, RunSpec}

-- The last line that is not empty.
unfoldable pub last_line : Str → List Str → Str
last_line found [] = found
last_line found (line ∷ lines) = last_line (if is_empty line then found else line) lines

module _ {World IoError JsonError Stream : Type 0} (binary : Str)
    (spawn : (program : Str) (args : List Str) → World → Result IoError Output × World)
    (open_output : (program : Str) (args : List Str) → World → Result IoError Stream × World)
    (utf8_lossy : Str → Str) (to_json : List Str → Option Str)
    (parse_containers : Str → Result JsonError (List PodmanContainerJson))
    (parse_ps : Str → Result JsonError (List PodmanPsJson)) where
  unfoldable pub patch_argv : List Str → List Str
  patch_argv [] = []
  patch_argv (first ∷ rest) = binary ∷ rest

  -- A run of the patched arguments, and a run behind which the text of the output is read.
  unfoldable pub run_argv_of : List Str → Call World IoError JsonError Output
  unfolding patch_argv run_podman
  run_argv_of argv w = run_podman spawn utf8_lossy (patch_argv argv) w

  -- `?`, and a function of the output.
  abbrev pub then_read :
      {A B : Type 0}
      → Result (DriverError IoError JsonError) A × World
      → (A → Result (DriverError IoError JsonError) B)
      → Result (DriverError IoError JsonError) B × World
  then_read (err e, w) k = (err e, w)
  then_read (ok a, w) k = (k a, w)

  unfoldable pub build : BuildSpec → Call World IoError JsonError Str
  unfolding build_argv run_argv_of lines_from last_line trim
  build spec w =
      then_read (run_argv_of (build_argv spec) w)
        (λ out. ok (trim (last_line [] (lines_from [] (utf8_lossy out.stdout)))))

  unfoldable pub pull : Str → Call World IoError JsonError Str
  unfolding pull_argv run_argv_of trim
  pull image w =
      then_read (run_argv_of (pull_argv image) w) (λ out. ok (trim (utf8_lossy out.stdout)))

  -- An error whose text satisfies the test is no error.
  unfoldable pub forgive :
      (Str → Bool)
      → Result (DriverError IoError JsonError) Output × World
      → Result (DriverError IoError JsonError) Unit × World
  forgive harmless (ok out, w) = (ok tt, w)
  forgive harmless (err (podman argv code stderr), w) =
      if harmless stderr then (ok tt, w) else (err (podman argv code stderr), w)
  forgive harmless (err e, w) = (err e, w)

  abbrev pub already_exists : Str → Bool
  unfolding has_text
  already_exists stderr = has_text stderr (codes "already exists")

  abbrev pub no_such_container : Str → Bool
  unfolding has_text
  no_such_container stderr =
      has_text stderr (codes "no such container") || has_text stderr (codes "No such container")

  unfoldable pub create_network : NetworkSpec → Call World IoError JsonError Unit
  unfolding network_create_argv run_argv_of forgive
  create_network n w = forgive already_exists (run_argv_of (network_create_argv n) w)

  unfoldable pub create_volume : VolumeSpec → Call World IoError JsonError Unit
  unfolding volume_create_argv run_argv_of forgive
  create_volume v w = forgive already_exists (run_argv_of (volume_create_argv v) w)

  unfoldable pub read_run :
      Str
      → Result (DriverError IoError JsonError) Output × World
      → Result (DriverError IoError JsonError) Str × World
  unfolding trim detect_privileged_port
  read_run service (ok out, w) = (ok (trim (utf8_lossy out.stdout)), w)
  read_run service (err (podman argv code stderr), w) = elim (detect_privileged_port stderr) [
    | some port ↦ (err (privileged_port service port), w)
    | none ↦ (err (podman argv code stderr), w)
  ]
  read_run service (err e, w) = (err e, w)

  unfoldable pub run : RunSpec → Call World IoError JsonError Str
  unfolding run_argv run_argv_of read_run
  run spec w = read_run spec.service (run_argv_of (run_argv to_json spec) w)

  unfoldable pub inspect : Str → Call World IoError JsonError ContainerState
  unfolding inspect_argv patch_argv run_argv_of into_container_state
  inspect id w = then_read (run_argv_of (inspect_argv id) w) λ out.
      elim (parse_containers (utf8_lossy out.stdout)) [
        | err e ↦ err (json e)
        | ok [] ↦
            err (podman (patch_argv (inspect_argv id)) (pos 0) (codes "empty inspect response"))
        | ok (item ∷ items) ↦ ok (into_container_state item)
      ]

  abbrev pub health_or_none : Option HealthState → HealthState
  health_or_none none = record { status = no_status; failing_streak = 0 }
  health_or_none (some hs) = hs

  unfoldable pub healthcheck_run : Str → Call World IoError JsonError HealthState
  unfolding healthcheck_run_argv run_argv_of inspect
  healthcheck_run id w =
      let (_, w') = run_argv_of (healthcheck_run_argv id) w in
      then_read (inspect id w') (λ state. ok (health_or_none state.health))

  unfoldable pub stop : Str → (grace : ℕ) → Call World IoError JsonError Unit
  unfolding stop_argv run_argv_of
  stop id grace w = then_read (run_argv_of (stop_argv id (grace / second)) w) (λ out. ok tt)

  unfoldable pub rm : Str → (force : Bool) → Call World IoError JsonError Unit
  unfolding rm_argv run_argv_of forgive
  rm id force w = forgive no_such_container (run_argv_of (rm_argv id force) w)

  -- The output's handle is there, since it is asked for. The first argument is the binary.
  unfoldable pub logs : Str → (follow : Bool) → Call World IoError JsonError Stream
  unfolding logs_argv patch_argv
  logs id follow w =
      let (r, w') = open_output binary (drop 1 (patch_argv (logs_argv id follow))) w in
      elim r [ ok stream ↦ (ok stream, w') | err e ↦ (err (io e), w') ]

  unfoldable pub ps : Str → Call World IoError JsonError (List ContainerSummary)
  unfolding ps_argv run_argv_of trim into_summary str_eq
  ps project w = then_read (run_argv_of (ps_argv project) w) λ out.
      let text = utf8_lossy out.stdout in
      if is_empty (trim text) || str_eq (trim text) (codes "null")
      then ok []
      else elim (parse_ps text) [ err e ↦ err (json e) | ok items ↦ ok (map into_summary items) ]

  unfoldable pub podman_cli : Driver World IoError JsonError Stream
  unfolding build pull create_network create_volume run inspect healthcheck_run stop rm logs ps
  podman_cli = record {
    build = build;
    pull = pull;
    create_network = create_network;
    create_volume = create_volume;
    run = run;
    inspect = inspect;
    healthcheck_run = healthcheck_run;
    stop = stop;
    rm = rm;
    logs = logs;
    ps = ps;
  }
