-- ===== src/Driver/Executor.antt =====
-- tools/selur-compose/crates/selur-compose-driver/src/executor.rs: `execute`, which runs the operations
-- of a plan one after the other on any driver. `none` stands for a panic, as in Healthcheck. The
-- semaphore of the builds is free whenever it is asked for, since no two builds overlap.
pub mod Report
pub mod Outcome
mod Tests
use burble.Base.{
  ℕ, ◌+◌, ◌*◌, Bool, List, [], ◌∷◌, Option, none, some, Str, Result, ok, err, if◌then◌else◌,
  hash_insert, lookup,
}
use burble.Driver.Healthcheck.{wait_healthy, second}
use burble.Driver.Interface.{Driver, Call}
use burble.Driver.Types.{HealthState, DriverError}
use burble.Plan.Ops
use burble.Plan.Ops.{Op, Plan}

pub record ExecOpts : Type 0 where
  pub no_build : Bool
  pub no_pull : Bool
  pub healthcheck_start_period : Option ℕ

pub record ExecReport : Type 0 where
  pub containers : List (Str × Str)
  pub images_built : ℕ
  pub images_pulled : ℕ
  pub networks_created : ℕ
  pub volumes_created : ℕ

-- The two local variables of the loop.
pub record Progress : Type 0 where
  pub report : ExecReport
  pub container_ids : List (Str × Str)

abbrev pub start : Progress
start = record {
  report = record {
    containers = [];
    images_built = 0;
    images_pulled = 0;
    networks_created = 0;
    volumes_created = 0;
  };
  container_ids = [];
}

-- What the arms of the match do to the report.
abbrev pub network_created : Progress → Progress
network_created p = record p {
  report = record p.report { networks_created = p.report.networks_created + 1 };
}

abbrev pub volume_created : Progress → Progress
volume_created p = record p {
  report = record p.report { volumes_created = p.report.volumes_created + 1 };
}

abbrev pub image_built : Progress → Progress
image_built p = record p { report = record p.report { images_built = p.report.images_built + 1 } }

abbrev pub image_pulled : Progress → Progress
image_pulled p = record p {
  report = record p.report { images_pulled = p.report.images_pulled + 1 };
}

abbrev pub container_started : Str → Str → Progress → Progress
container_started service cid p = record {
  report = record p.report { containers = hash_insert service cid p.report.containers };
  container_ids = hash_insert service cid p.container_ids;
}

abbrev pub or_default : {A : Type 0} → A → Option A → A
or_default a none = a
or_default a (some b) = b

module _ {World IoError JsonError : Type 0} where
  -- A call and what follows it, where an error is returned at once.
  abbrev pub after :
      {A B : Type 0}
      → Result (DriverError IoError JsonError) A × World
      → (A → B)
      → Option (Result (DriverError IoError JsonError) B × World)
  after (ok a, w) k = some (ok (k a), w)
  after (err e, w) k = some (err e, w)

  abbrev pub after_wait :
      {A B : Type 0}
      → Option (Result (DriverError IoError JsonError) A × World)
      → (A → B)
      → Option (Result (DriverError IoError JsonError) B × World)
  after_wait none k = none
  after_wait (some r) k = after r k

module _ {World IoError JsonError Stream : Type 0} (driver : Driver World IoError JsonError Stream)
    (now : World → ℕ) (sleep : ℕ → World → World) (opts : ExecOpts) where
  -- The body of the loop.
  unfoldable pub execute_op :
      Op → Progress → World → Option (Result (DriverError IoError JsonError) Progress × World)
  unfolding wait_healthy lookup
  execute_op (Op.create_network spec) p w =
      after (driver.create_network spec w) (λ _. network_created p)
  execute_op (Op.create_volume spec) p w =
      after (driver.create_volume spec w) (λ _. volume_created p)
  execute_op (Op.build_image spec) p w =
      if opts.no_build then some (ok p, w) else after (driver.build spec w) (λ _. image_built p)
  execute_op (Op.pull_image spec) p w =
      if opts.no_pull
      then some (ok p, w)
      else after (driver.pull spec.image w) (λ _. image_pulled p)
  execute_op (Op.run_container spec) p w =
      after (driver.run spec w) (λ cid. container_started spec.service cid p)
  execute_op (Op.wait_healthy spec) p w =
      let cid = or_default spec.container_name (lookup spec.service p.container_ids) in
      let start_period = or_default 0 opts.healthcheck_start_period in
      after_wait
        (wait_healthy driver.inspect now sleep cid spec.service start_period (30 * second) 3 w)
        (λ _. p)
  execute_op (Op.stop_container spec) p w =
      after (driver.stop spec.container_name (spec.timeout_secs * second) w) (λ _. p)
  execute_op (Op.remove_container spec) p w =
      after (driver.rm spec.container_name spec.force w) (λ _. p)

  -- The loop.
  unfoldable pub execute_ops :
      List Op → Progress → World → Option (Result (DriverError IoError JsonError) Progress × World)
  unfolding execute_op
  execute_ops [] p w = some (ok p, w)
  execute_ops (op ∷ ops) p w = elim (execute_op op p w) [
    | none ↦ none
    | some (err e, w') ↦ some (err e, w')
    | some (ok p', w') ↦ execute_ops ops p' w'
  ]

  unfoldable pub execute :
      Plan → World → Option (Result (DriverError IoError JsonError) ExecReport × World)
  unfolding execute_ops
  execute plan w = after_wait (execute_ops plan.ops start w) (λ p. p.report)
