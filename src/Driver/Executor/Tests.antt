-- ===== src/Driver/Executor/Tests.antt =====
-- Plans that the properties of the executor are tried on.
use burble.Base.{
  ℕ, ◌+◌, ◌*◌, false, List, [], ◌∷◌, none, some, Str, codes, ok, err, ◌≡◌, refl, arith,
}
use burble.Driver.Executor.{
  ExecOpts, ExecReport, Progress, start, container_started, execute, execute_ops, network_created,
}
use burble.Driver.Executor.Outcome.{ExecuteOutcome, Reports, execute-Outcome}
use burble.Driver.Executor.Report.{execute_ops-agree}
use burble.Driver.Healthcheck.{second, timeout_of}
use burble.Driver.Healthcheck.Polling.{IsClock}
use burble.Driver.Interface.{Driver}
use burble.Driver.Mock.{MockDriver, new_mock, mock_driver, default_container_state, healthy_now}
use burble.Driver.Mock.Trace.{trace, execute-trace}
use burble.Driver.Types.{DriverError, io}
use burble.Plan.Ops.{Op, Plan, RunSpec}

-- A driver whose world is a clock, and which finds no image to pull.
abbrev clock_driver : Driver ℕ Str Str Unit
clock_driver = record {
  build = λ spec w. (ok (codes "i"), w + 1);
  pull = λ image w. (err (io image), w + 1);
  create_network = λ n w. (ok tt, w + 1);
  create_volume = λ v w. (ok tt, w + 1);
  run = λ spec w. (ok spec.service, w + 1);
  inspect = λ id w. (ok default_container_state, w + 1);
  healthcheck_run = λ id w. (ok healthy_now, w + 1);
  stop = λ id grace w. (ok tt, w + grace);
  rm = λ id force w. (ok tt, w + 1);
  logs = λ id follow w. (ok tt, w);
  ps = λ project w. (ok [], w);
}

abbrev clock_now : ℕ → ℕ
clock_now w = w

abbrev clock_sleep : ℕ → ℕ → ℕ
clock_sleep d w = w + d

clock : IsClock clock_driver.inspect clock_now clock_sleep
clock = record { inspect_later = λ id w. omega arith; sleep_later = λ d w. omega arith }

abbrev options : ExecOpts
options = record { no_build = false; no_pull = false; healthcheck_start_period = none }

abbrev web : RunSpec
web = record {
  service = codes "web";
  image = codes "img";
  container_name = codes "shop_web";
  environment = [];
  ports = [];
  volumes = [];
  networks = [];
  network_mode = none;
  command = none;
  entrypoint = none;
  restart = codes "no";
  labels = [];
}

abbrev started : List Op
started =
    Op.create_network (record { name = codes "net"; driver = none; labels = [] })
    ∷ Op.run_container web
    ∷ []

abbrev steps : List Op
steps =
    Op.create_network (record { name = codes "net"; driver = none; labels = [] })
    ∷ Op.run_container web
    ∷ Op.wait_healthy (record { service = codes "web"; container_name = codes "shop_web" })
    ∷ Op.pull_image (record { service = codes "web"; image = codes "img" })
    ∷ []

abbrev shop : Plan
shop = record { ops = steps; waves = []; project_name = codes "shop" }

execute-Outcome_example :
    ExecuteOutcome clock_driver clock_now clock_sleep options steps 0
      (execute clock_driver clock_now clock_sleep options shop 0)
unfolding timeout_of
execute-Outcome_example =
    execute-Outcome clock_driver clock_now clock_sleep options clock (125 * second) refl shop 0

abbrev reached : Progress
reached = container_started (codes "web") (codes "web") (network_created start)

run-started :
    execute_ops clock_driver clock_now clock_sleep options started start 0 ≡ some (ok reached, 2)
unfolding execute_ops
run-started = refl

execute_ops-agree_example : reached.report.containers ≡ reached.container_ids
execute_ops-agree_example =
    execute_ops-agree clock_driver clock_now clock_sleep options started reached 0 2 run-started

abbrev show : DriverError Str Str → Str
show e = codes "error"

abbrev mock_now : MockDriver Str Str → ℕ
mock_now d = 0

abbrev mock_sleep : ℕ → MockDriver Str Str → MockDriver Str Str
mock_sleep n d = d

execute-trace_example :
    (report : ExecReport) × (execute
        (mock_driver show tt)
        mock_now
        mock_sleep
        options
        shop
        (new_mock Str Str)
      ≡ some (ok report, record (new_mock Str Str) { calls = trace options [] steps }))
    × Reports options steps report
unfolding timeout_of
execute-trace_example = execute-trace show tt mock_now mock_sleep options (125 * second) refl shop
