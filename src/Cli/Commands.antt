-- ===== src/Cli/Commands.antt =====
-- tools/selur-compose/crates/selur-compose/src/cmd: down.rs, build.rs, pull.rs and the text of up.rs, behind
-- the loading of the document. What is printed and logged is left out.
pub mod Down
use mathlib.Core.List.{reverse}
use burble.Base.{
  ℕ, ◌*◌, ◌||◌, Bool, true, false, List, [], ◌∷◌, ◌++◌, Str, codes, Result, ok, err, if◌then◌else◌,
}
use burble.Driver.Healthcheck.{second}
use burble.Driver.Interface.{Driver, Call}
use burble.Driver.Types.{ContainerSummary, DriverError}
use burble.Plan.Ops
use burble.Plan.Ops.{Op, Plan, BuildSpec}

-- A line of `up --dry-run`.
unfoldable pub describe_op : Op → Str
describe_op (Op.create_network s) = codes "CreateNetwork   " ++ s.name
describe_op (Op.create_volume s) = codes "CreateVolume    " ++ s.name
describe_op (Op.build_image s) =
    codes "BuildImage      " ++ s.service ++ codes " (tag: " ++ s.tag ++ codes ")"
describe_op (Op.pull_image s) =
    codes "PullImage       " ++ s.service ++ codes " (" ++ s.image ++ codes ")"
describe_op (Op.run_container s) =
    codes "RunContainer    " ++ s.service ++ codes " (" ++ s.image ++ codes ")"
describe_op (Op.wait_healthy s) = codes "WaitHealthy     " ++ s.service
describe_op (Op.stop_container s) = codes "StopContainer   " ++ s.service
describe_op (Op.remove_container s) = codes "RemoveContainer " ++ s.service

module _ {World IoError JsonError Stream : Type 0}
    (driver : Driver World IoError JsonError Stream) where
  -- `?` on a call that is followed by another one.
  abbrev pub and_call :
      {A B : Type 0}
      → Result (DriverError IoError JsonError) A × World
      → Call World IoError JsonError B
      → Result (DriverError IoError JsonError) B × World
  and_call (err e, w) next = (err e, w)
  and_call (ok a, w) next = next w

  -- The loop of `down`.
  unfoldable pub remove_all :
      (grace : ℕ) → List ContainerSummary → Call World IoError JsonError Unit
  remove_all grace [] w = (ok tt, w)
  remove_all grace (container ∷ containers) w =
      and_call (driver.stop container.id grace w)
        (λ w'. and_call (driver.rm container.id false w') (λ w''. remove_all grace containers w''))

  unfoldable pub removed :
      (grace : ℕ)
      → Result (DriverError IoError JsonError) (List ContainerSummary) × World
      → Result (DriverError IoError JsonError) Unit × World
  unfolding remove_all
  removed grace (err e, w) = (err e, w)
  removed grace (ok containers, w) = remove_all grace (reverse containers) w

  unfoldable pub down : Plan → (timeout : ℕ) (dry_run : Bool) → Call World IoError JsonError Unit
  unfolding removed
  down plan timeout dry_run w =
      if dry_run then (ok tt, w) else removed (timeout * second) (driver.ps plan.project_name w)

  abbrev pub effective : (no_cache : Bool) → BuildSpec → BuildSpec
  effective no_cache spec = if no_cache then record spec { no_cache = true } else spec

  -- The loop of `build`.
  unfoldable pub build_all : (no_cache : Bool) → List Op → Call World IoError JsonError Unit
  build_all no_cache [] w = (ok tt, w)
  build_all no_cache (Op.build_image spec ∷ ops) w =
      and_call (driver.build (effective no_cache spec) w) (λ w'. build_all no_cache ops w')
  build_all no_cache (op ∷ ops) w = build_all no_cache ops w

  unfoldable pub build_images : Plan → (no_cache dry_run : Bool) → Call World IoError JsonError Unit
  unfolding build_all
  build_images plan no_cache dry_run w =
      if dry_run then (ok tt, w) else build_all no_cache plan.ops w

  -- The loop of `pull`.
  unfoldable pub pull_all : List Op → Call World IoError JsonError Unit
  pull_all [] w = (ok tt, w)
  pull_all (Op.pull_image spec ∷ ops) w =
      and_call (driver.pull spec.image w) (λ w'. pull_all ops w')
  pull_all (op ∷ ops) w = pull_all ops w

  unfoldable pub pull_images : Plan → (dry_run : Bool) → Call World IoError JsonError Unit
  unfolding pull_all
  pull_images plan dry_run w = if dry_run then (ok tt, w) else pull_all plan.ops w
