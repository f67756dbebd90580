-- ===== src/Driver/Mock.antt =====
-- tools/selur-compose/crates/selur-compose-driver/src/mock.rs: the driver that records its calls. Its
-- state is the world; a `Mutex` is its contents, since `lock` returns them after a panic too.
-- `Display` of `DriverError`, which a macro derives, and tokio's empty stream are parameters.
pub mod Trace
use burble.Base.{
  ℕ, Bool, List, [], ◌∷◌, ◌++◌, Option, none, some, Str, codes, Result, ok, err, hash_insert,
  lookup,
}
use burble.Driver.Interface.{Driver}
use burble.Driver.Types.{
  ℤ, negsuc, pos, HealthState, ContainerState, ContainerSummary, DriverError, healthy, podman,
}
use burble.Plan.Ops.{NetworkSpec, VolumeSpec, BuildSpec, RunSpec}

pub data MockCall : Type 0 where
  build : BuildSpec → MockCall
  pull : Str → MockCall
  create_network : NetworkSpec → MockCall
  create_volume : VolumeSpec → MockCall
  run : RunSpec → MockCall
  inspect healthcheck_run : Str → MockCall
  stop : (id : Str) (grace : ℕ) → MockCall
  rm : (id : Str) (force : Bool) → MockCall
  logs : (id : Str) (follow : Bool) → MockCall
  ps : Str → MockCall

module _ (IoError JsonError : Type 0) where
  pub record MockDriver : Type 0 where
    pub calls : List MockCall
    pub run_response : Option (Result (DriverError IoError JsonError) Str)
    pub build_response : Option (Result (DriverError IoError JsonError) Str)
    pub pull_response : Option (Result (DriverError IoError JsonError) Str)
    pub inspect_map : List (Str × Result (DriverError IoError JsonError) ContainerState)
    pub healthcheck_map : List (Str × Result (DriverError IoError JsonError) HealthState)
    pub ps_response : Option (Result (DriverError IoError JsonError) (List ContainerSummary))

  abbrev pub new_mock : MockDriver
  new_mock = record {
    calls = [];
    run_response = none;
    build_response = none;
    pull_response = none;
    inspect_map = [];
    healthcheck_map = [];
    ps_response = none;
  }

module _ {IoError JsonError : Type 0} where
  abbrev pub record_call : MockCall → MockDriver IoError JsonError → MockDriver IoError JsonError
  record_call call d = record d { calls = d.calls ++ call ∷ [] }

  abbrev pub set_run_response :
      Result (DriverError IoError JsonError) Str
      → MockDriver IoError JsonError
      → MockDriver IoError JsonError
  set_run_response r d = record d { run_response = some r }

  abbrev pub set_build_response :
      Result (DriverError IoError JsonError) Str
      → MockDriver IoError JsonError
      → MockDriver IoError JsonError
  set_build_response r d = record d { build_response = some r }

  abbrev pub set_pull_response :
      Result (DriverError IoError JsonError) Str
      → MockDriver IoError JsonError
      → MockDriver IoError JsonError
  set_pull_response r d = record d { pull_response = some r }

  abbrev pub set_ps_response :
      Result (DriverError IoError JsonError) (List ContainerSummary)
      → MockDriver IoError JsonError
      → MockDriver IoError JsonError
  set_ps_response r d = record d { ps_response = some r }

  abbrev pub set_inspect_response :
      Str
      → Result (DriverError IoError JsonError) ContainerState
      → MockDriver IoError JsonError
      → MockDriver IoError JsonError
  set_inspect_response id r d = record d { inspect_map = hash_insert id r d.inspect_map }

  abbrev pub set_healthcheck_response :
      Str
      → Result (DriverError IoError JsonError) HealthState
      → MockDriver IoError JsonError
      → MockDriver IoError JsonError
  set_healthcheck_response id r d = record d {
    healthcheck_map = hash_insert id r d.healthcheck_map;
  }

abbrev pub healthy_now : HealthState
healthy_now = record { status = healthy; failing_streak = 0 }

abbrev pub default_container_state : ContainerState
default_container_state = record {
  name = codes "mock_container";
  status = codes "running";
  pid = 1;
  exit_code = pos 0;
  health = some healthy_now;
}

module _ {IoError JsonError Stream : Type 0} (to_string : DriverError IoError JsonError → Str)
    (empty_stream : Stream) where
  abbrev pub mock_error : DriverError IoError JsonError → DriverError IoError JsonError
  mock_error e = podman (codes "mock" ∷ []) (negsuc 0) (to_string e)

  -- The `match` on a canned response.
  abbrev pub replay :
      {A : Type 0}
      → A
      → Option (Result (DriverError IoError JsonError) A)
      → Result (DriverError IoError JsonError) A
  replay default (some (ok a)) = ok a
  replay default (some (err e)) = err (mock_error e)
  replay default none = ok default

  unfoldable pub mock_driver : Driver (MockDriver IoError JsonError) IoError JsonError Stream
  unfolding lookup
  mock_driver = record {
    build = λ spec d. (
      replay (codes "sha256:mock0000build") d.build_response,
      record_call (MockCall.build spec) d,
    );
    pull = λ image d. (
      replay (codes "sha256:mock0000" ++ image) d.pull_response,
      record_call (MockCall.pull image) d,
    );
    create_network = λ n d. (ok tt, record_call (MockCall.create_network n) d);
    create_volume = λ v d. (ok tt, record_call (MockCall.create_volume v) d);
    run = λ spec d. (
      replay (codes "mock_" ++ spec.container_name) d.run_response,
      record_call (MockCall.run spec) d,
    );
    inspect = λ id d. (
      replay default_container_state (lookup id d.inspect_map),
      record_call (MockCall.inspect id) d,
    );
    healthcheck_run = λ id d. (
      replay healthy_now (lookup id d.healthcheck_map),
      record_call (MockCall.healthcheck_run id) d,
    );
    stop = λ id grace d. (ok tt, record_call (MockCall.stop id grace) d);
    rm = λ id force d. (ok tt, record_call (MockCall.rm id force) d);
    logs = λ id follow d. (ok empty_stream, record_call (MockCall.logs id follow) d);
    ps = λ project d. (replay [] d.ps_response, record_call (MockCall.ps project) d);
  }
