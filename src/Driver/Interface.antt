-- ===== src/Driver/Interface.antt =====
-- tools/selur-compose/crates/selur-compose-driver/src/lib.rs: the trait `Driver`. A method takes the
-- world outside and returns its result with the next world; an image or a container is its identifier.
use burble.Base.{ℕ, Bool, List, Str, Result}
use burble.Driver.Types.{HealthState, ContainerState, ContainerSummary, DriverError}
use burble.Plan.Ops.{NetworkSpec, VolumeSpec, BuildSpec, RunSpec}

-- What a method does to the world.
abbrev pub Call : (World IoError JsonError A : Type 0) → Type 0
Call World IoError JsonError A = World → Result (DriverError IoError JsonError) A × World

-- `Stream` is a `LogStream`.
pub record Driver (World IoError JsonError Stream : Type 0) : Type 0 where
  pub build : BuildSpec → Call World IoError JsonError Str
  pub pull : Str → Call World IoError JsonError Str
  pub create_network : NetworkSpec → Call World IoError JsonError Unit
  pub create_volume : VolumeSpec → Call World IoError JsonError Unit
  pub run : RunSpec → Call World IoError JsonError Str
  pub inspect : Str → Call World IoError JsonError ContainerState
  pub healthcheck_run : Str → Call World IoError JsonError HealthState
  pub stop : Str → (grace : ℕ) → Call World IoError JsonError Unit
  pub rm : Str → (force : Bool) → Call World IoError JsonError Unit
  pub logs : Str → (follow : Bool) → Call World IoError JsonError Stream
  pub ps : Str → Call World IoError JsonError (List ContainerSummary)
