-- ===== src/Driver/Types.antt =====
-- tools/selur-compose/crates/selur-compose-driver/src/lib.rs: the states and errors of containers.
use burble.Base.{ℕ, List, Option, Str, codes, str_eq, if◌then◌else◌}

-- An `i32`, as a number and not as its bits.
pub data ℤ : Type 0 where
  pos negsuc : ℕ → ℤ

pub data HealthStatus : Type 0 where
  healthy starting unhealthy no_status : HealthStatus
  unknown : Str → HealthStatus

pub record HealthState : Type 0 where
  pub status : HealthStatus
  pub failing_streak : ℕ

pub record ContainerState : Type 0 where
  pub name : Str
  pub status : Str
  pub pid : ℕ
  pub exit_code : ℤ
  pub health : Option HealthState

-- The errors of std and of serde_json are parameters. A duration is its number of nanoseconds.
pub data DriverError (IoError JsonError : Type 0) : Type 0 where
  podman : (argv : List Str) (code : ℤ) (stderr : Str) → DriverError IoError JsonError
  healthcheck_timeout : (service : Str) (timeout : ℕ) → DriverError IoError JsonError
  is_unhealthy : (service : Str) (streak : ℕ) → DriverError IoError JsonError
  privileged_port : (service : Str) (port : ℕ) → DriverError IoError JsonError
  io : IoError → DriverError IoError JsonError
  json : JsonError → DriverError IoError JsonError

pub record ContainerSummary : Type 0 where
  pub id : Str
  pub name : Str
  pub image : Str
  pub state : Str
  pub ports : List Str
  pub service : Option Str

unfoldable pub health_status_from : Str → HealthStatus
unfolding str_eq
health_status_from s =
    if str_eq s (codes "healthy")
    then healthy
    else if str_eq s (codes "unhealthy")
    then unhealthy
    else if str_eq s (codes "starting")
    then starting
    else if str_eq s (codes "none")
    then no_status
    else unknown s
