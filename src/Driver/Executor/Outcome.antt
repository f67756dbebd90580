-- ===== src/Driver/Executor/Outcome.antt =====
-- How an execution ends.
use burble.Base.{
  ℕ, ◌*◌, min, Bool, true, false, List, [], ◌∷◌, ◌++◌, Option, none, some, Str, Result, ok, err,
  ◌≡◌, refl, contains_key, ap, arith, ◌+◌, if◌then◌else◌,
}
use burble.Driver.Executor.{
  image_built, image_pulled, ExecOpts, ExecReport, Progress, start, after, after_wait, execute_op,
  execute_ops, execute, or_default,
}
use burble.Driver.Executor.Report.{
  Advances, execute_ops-Advances, tally, is_network, is_volume, is_build, is_pull, runs, unless,
}
use burble.Driver.Healthcheck.{wait_healthy, default_poll_interval, second, timeout_of}
use burble.Driver.Healthcheck.Polling.{IsClock, Ends, wait_healthy-Ends}
use burble.Driver.Interface.{Driver}
use burble.Driver.Types.{HealthState, DriverError}
use burble.Plan.Ops.{Op, Plan}

-- The report counts the operations that are not skipped, and names the services that are run.
pub record Reports (opts : ExecOpts) (ops : List Op) (report : ExecReport) : Type 0 where
  pub networks : report.networks_created ≡ tally is_network ops
  pub volumes : report.volumes_created ≡ tally is_volume ops
  pub builds : report.images_built ≡ unless opts.no_build (tally is_build ops)
  pub pulls : report.images_pulled ≡ unless opts.no_pull (tally is_pull ops)
  pub containers : (s : Str) → contains_key s report.containers ≡ runs s ops

pub reports :
    {opts : ExecOpts} {ops : List Op} {p : Progress}
    → Advances opts ops start p
    → Reports opts ops p.report
unfolding contains_key
reports a = record {
  networks = omega (arith, a.networks);
  volumes = omega (arith, a.volumes);
  builds = omega (arith, a.builds);
  pulls = omega (arith, a.pulls);
  containers = λ s. ground (arith, a.containers s);
}

module _ {World IoError JsonError Stream : Type 0} (driver : Driver World IoError JsonError Stream)
    (now : World → ℕ) (sleep : ℕ → World → World) (opts : ExecOpts) where
  -- One operation fails with the error, and all before it succeed.
  pub record FailsAt (ops : List Op) (p : Progress) (w : World) (e : DriverError IoError JsonError)
      (w' : World) : Type 0 where
    pub before : List Op
    pub op : Op
    pub behind : List Op
    pub reached : Progress
    pub world : World
    pub split : ops ≡ before ++ op ∷ behind
    pub succeed : execute_ops driver now sleep opts before p w ≡ some (ok reached, world)
    pub fails : execute_op driver now sleep opts op reached world ≡ some (err e, w')

  abbrev pub ExecuteOutcome :
      List Op → World → Option (Result (DriverError IoError JsonError) ExecReport × World) → Type 0
  ExecuteOutcome ops w none = ⊥
  ExecuteOutcome ops w (some (ok report, w')) = Reports opts ops report
  ExecuteOutcome ops w (some (err e, w')) = FailsAt ops start w e w'

  abbrev Goes :
      List Op
      → Progress
      → World
      → Option (Result (DriverError IoError JsonError) Progress × World)
      → Type 0
  Goes ops p w none = ⊥
  Goes ops p w (some (ok p', w')) = Unit
  Goes ops p w (some (err e, w')) = FailsAt ops p w e w'

  abbrev NotNone : {A : Type 0} → Option A → Type 0
  NotNone none = ⊥
  NotNone (some a) = Unit

  after-NotNone :
      {A B : Type 0} (r : Result (DriverError IoError JsonError) A × World) (k : A → B)
      → NotNone (after r k)
  after-NotNone (ok a, w) k = tt
  after-NotNone (err e, w) k = tt

  later :
      (op : Op) (ops : List Op) (p q : Progress) (w v : World)
      → execute_op driver now sleep opts op p w ≡ some (ok q, v)
      → (r : Option (Result (DriverError IoError JsonError) Progress × World)) → Goes ops q v r
      → Goes (op ∷ ops) p w r
  unfolding execute_ops
  later op ops p q w v is none g = g
  later op ops p q w v is (some (ok p', w')) g = tt
  later op ops p q w v is (some (err e, w')) g = record {
    before = op ∷ g.before;
    op = g.op;
    behind = g.behind;
    reached = g.reached;
    world = g.world;
    split = ap (λ ops'. op ∷ ops') g.split;
    succeed = rw (is, execute_ops) g.succeed;
    fails = g.fails;
  }

  module _ (clock : IsClock driver.inspect now sleep) (timeout : ℕ) where
    wait-NotNone :
        (cid service : Str) (start_period : ℕ) (w : World)
        → timeout_of start_period (30 * second) 3 ≡ some timeout
        → {B : Type 0} (k : HealthState → B)
        → NotNone (
            after_wait
              (wait_healthy driver.inspect now sleep cid service start_period (30 * second) 3 w)
              k)
    wait-NotNone cid service start_period w fits k =
        go (wait_healthy driver.inspect now sleep cid service start_period (30 * second) 3 w) (
          wait_healthy-Ends driver.inspect now sleep clock cid service start_period (30 * second) 3
            timeout w (omega arith) fits)
      where
        go :
            (o : Option (Result (DriverError IoError JsonError) HealthState × World))
            → Ends driver.inspect now sleep cid service timeout
                (min (30 * second) default_poll_interval)
                (now w + timeout)
                w
                o
            → NotNone (after_wait o k)
        go none ends = absurd ends
        go (some r) ends = after-NotNone r k

  module _ (clock : IsClock driver.inspect now sleep) (timeout : ℕ)
      (fits : timeout_of (or_default 0 opts.healthcheck_start_period) (30 * second) 3
        ≡ some timeout) where
    execute_op-NotNone :
        (op : Op) (p : Progress) (w : World) → NotNone (execute_op driver now sleep opts op p w)
    unfolding execute_op
    execute_op-NotNone (Op.create_network spec) p w = after-NotNone (driver.create_network spec w) _
    execute_op-NotNone (Op.create_volume spec) p w = after-NotNone (driver.create_volume spec w) _
    execute_op-NotNone (Op.build_image spec) p w = go opts.no_build
      where
        go :
            (skip : Bool)
            → NotNone
                (if skip then some (ok p, w) else after (driver.build spec w) (λ _. image_built p))
        go true = tt
        go false = after-NotNone (driver.build spec w) _
    execute_op-NotNone (Op.pull_image spec) p w = go opts.no_pull
      where
        go :
            (skip : Bool)
            → NotNone (
                if skip
                then some (ok p, w)
                else after (driver.pull spec.image w) (λ _. image_pulled p))
        go true = tt
        go false = after-NotNone (driver.pull spec.image w) _
    execute_op-NotNone (Op.run_container spec) p w = after-NotNone (driver.run spec w) _
    execute_op-NotNone (Op.wait_healthy spec) p w =
        wait-NotNone clock timeout _ spec.service _ w fits _
    execute_op-NotNone (Op.stop_container spec) p w =
        after-NotNone (driver.stop spec.container_name (spec.timeout_secs * second) w) _
    execute_op-NotNone (Op.remove_container spec) p w =
        after-NotNone (driver.rm spec.container_name spec.force w) _

    execute_ops-Goes :
        (ops : List Op) (p : Progress) (w : World)
        → Goes ops p w (execute_ops driver now sleep opts ops p w)
    unfolding execute_ops
    execute_ops-Goes [] p w = tt
    execute_ops-Goes (op ∷ ops) p w =
        go (execute_ops-Goes ops) (execute_op driver now sleep opts op p w) refl
          (execute_op-NotNone op p w)
      where
        go :
            ((q : Progress) (v : World) → Goes ops q v (execute_ops driver now sleep opts ops q v))
            → (r : Option (Result (DriverError IoError JsonError) Progress × World))
            → execute_op driver now sleep opts op p w ≡ r
            → NotNone r
            → Goes
                (op ∷ ops)
                p
                w
                (elim r as (λ _. Option (Result (DriverError IoError JsonError) Progress × World)) [
                  | none ↦ none
                  | some (err e, w') ↦ some (err e, w')
                  | some (ok p', w') ↦ execute_ops driver now sleep opts ops p' w'
                ])
        go rest none is nothing = absurd nothing
        go rest (some (err e, v)) is _ = record {
          before = [];
          op = op;
          behind = ops;
          reached = p;
          world = w;
          split = refl;
          succeed = refl;
          fails = is;
        }
        go rest (some (ok q, v)) is _ =
            later op ops p q w v is (execute_ops driver now sleep opts ops q v) (rest q v)

    -- With a clock that does not run backwards, a sleep as long as it says and a start period that
    -- overflows no `Duration`, every execution ends. It ends well with a report that counts the networks,
    -- the volumes, the builds and the pulls of the plan, the skipped ones left out, and that has a
    -- container for exactly the services that the plan runs. It ends with the error of the first
    -- operation that fails, which is the last one that is tried.
    pub execute-Outcome :
        (plan : Plan) (w : World) → ExecuteOutcome plan.ops w (execute driver now sleep opts plan w)
    unfolding execute
    execute-Outcome plan w =
        go (execute_ops driver now sleep opts plan.ops start w) refl
          (execute_ops-Goes plan.ops start w)
      where
        go :
            (r : Option (Result (DriverError IoError JsonError) Progress × World))
            → execute_ops driver now sleep opts plan.ops start w ≡ r
            → Goes plan.ops start w r
            → ExecuteOutcome plan.ops w (after_wait r (λ p. p.report))
        go none is g = g
        go (some (err e, w')) is g = g
        go (some (ok p, w')) is g =
            reports (execute_ops-Advances driver now sleep opts plan.ops start p w w' is)
