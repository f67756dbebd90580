-- ===== src/Schema/Services.antt =====
-- services.rs, build.rs, depends_on.rs, healthcheck.rs, networks.rs, ports.rs, secrets.rs and
-- volumes.rs: what one service holds.
use burble.Base.{ℕ, Bool, List, Option, Str}

pub record Build : Type 0 where
  pub context : Str
  pub dockerfile : Option Str
  pub args : List (Str × Str)
  pub target : Option Str
  pub labels : List (Str × Str)
  pub no_cache : Bool

pub data StringOrList : Type 0 where
  string : Str → StringOrList
  list : List Str → StringOrList

-- The environment block of a service (`EnvMap` of services.rs).
pub data EnvMap : Type 0 where
  empty : EnvMap
  list : List Str → EnvMap
  map : List (Str × Option Str) → EnvMap

pub record PortLong : Type 0 where
  pub host_ip : Option Str
  pub target : ℕ
  pub published : Option Str
  pub protocol : Option Str

pub data PortBinding : Type 0 where
  short : Str → PortBinding
  long : PortLong → PortBinding

pub record BindOptions : Type 0 where
  pub propagation : Option Str
  pub create_host_path : Bool

pub record VolumeOptions : Type 0 where
  pub nocopy : Bool

pub record MountLong : Type 0 where
  pub mount_type : Str
  pub source : Option Str
  pub target : Str
  pub read_only : Bool
  pub bind : Option BindOptions
  pub volume : Option VolumeOptions

pub data MountSpec : Type 0 where
  short : Str → MountSpec
  long : MountLong → MountSpec

pub data NetworkMode : Type 0 where
  bridge host none : NetworkMode
  container custom : Str → NetworkMode

pub data DependsCondition : Type 0 where
  service_started service_healthy service_completed_successfully : DependsCondition

pub record DependsOnSpec : Type 0 where
  pub condition : DependsCondition
  pub restart : Bool

pub data DependsOn : Type 0 where
  empty : DependsOn
  list : List Str → DependsOn
  map : List (Str × DependsOnSpec) → DependsOn

pub data HealthcheckTest : Type 0 where
  shell : Str → HealthcheckTest
  exec : List Str → HealthcheckTest

pub record Healthcheck : Type 0 where
  pub test : HealthcheckTest
  pub interval : Option ℕ
  pub timeout : Option ℕ
  pub retries : Option ℕ
  pub start_period : Option ℕ
  pub disable : Bool

pub data RestartPolicy : Type 0 where
  no_restart always on_failure unless_stopped : RestartPolicy

pub record SecretRefLong : Type 0 where
  pub source : Str
  pub target : Option Str
  pub uid : Option Str
  pub gid : Option Str
  pub mode : Option ℕ

pub data SecretRef : Type 0 where
  name : Str → SecretRef
  long : SecretRefLong → SecretRef

pub record ConfigRefLong : Type 0 where
  pub source : Str
  pub target : Option Str
  pub uid : Option Str
  pub gid : Option Str
  pub mode : Option ℕ

pub data ConfigRef : Type 0 where
  name : Str → ConfigRef
  long : ConfigRefLong → ConfigRef

pub record Service : Type 0 where
  pub image : Option Str
  pub build : Option Build
  pub command : Option StringOrList
  pub entrypoint : Option StringOrList
  pub environment : EnvMap
  pub env_file : List Str
  pub ports : List PortBinding
  pub volumes : List MountSpec
  pub networks : List Str
  pub network_mode : Option NetworkMode
  pub depends_on : DependsOn
  pub healthcheck : Option Healthcheck
  pub restart : RestartPolicy
  pub profiles : List Str
  pub secrets : List SecretRef
  pub configs : List ConfigRef
  pub user : Option Str
  pub working_dir : Option Str
  pub hostname : Option Str
  pub cap_add : List Str
  pub cap_drop : List Str
  pub init : Option Bool
  pub stop_signal : Option Str
  pub stop_grace_period : Option ℕ
