-- ===== src/Driver/Tests.antt =====
-- A container that the properties of the argument lists are tried on.
use burble.Base.{
  ℕ, ◌+◌, ◌*◌, ◌≤◌, Bool, true, Result, ok, err, arith, List, str_eq, [], ◌∷◌, none, some, Str,
  Option, codes, ◌≡◌, refl, drop,
}
use burble.Driver.Argv.{run_argv, entrypoint_of}
use burble.Driver.Argv.Reading.{read_flags, read_flags-run_argv}
use burble.Driver.Healthcheck.{second, wait_healthy, timeout_of}
use burble.Driver.Healthcheck.Gate.{HealthGate, new_gate, wait, wait-again}
use burble.Driver.Healthcheck.Polling.{IsClock, Ends, wait_healthy-Ends}
use burble.Driver.Types.{HealthState, ContainerState, DriverError, healthy, starting, pos, io}
use burble.Plan.Ops.{RunSpec}

abbrev json : List Str → Option Str
json words = none

-- Its environment holds a text that looks like a flag.
abbrev container : RunSpec
container = record {
  service = codes "web";
  image = codes "img";
  container_name = codes "shop_web";
  environment = codes "--rm" ∷ [];
  ports = [];
  volumes = [];
  networks = codes "net" ∷ [];
  network_mode = none;
  command = some (codes "sh" ∷ []);
  entrypoint = none;
  restart = codes "no";
  labels = [];
}

read_flags-run_argv_example : read_flags (drop 3 (run_argv json container)) ≡ (
  (codes "--name", codes "shop_web")
      ∷ (codes "--network", codes "net")
      ∷ (codes "--env", codes "--rm")
      ∷ [],
  codes "img" ∷ codes "sh" ∷ [],
)
unfolding entrypoint_of str_eq
read_flags-run_argv_example = read_flags-run_argv json container refl

-- A world is the time and the states that the container is going to have.
abbrev World : Type 0
World = ℕ × List (Option HealthState)

abbrev seen : Option HealthState → ContainerState
seen health = record {
  name = codes "shop_web";
  status = codes "running";
  pid = 7;
  exit_code = pos 0;
  health = health;
}

abbrev look : Str → World → Result (DriverError Bool Bool) ContainerState × World
look id (time, []) = (err (io true), (time, []))
look id (time, health ∷ later) = (ok (seen health), (time, later))

abbrev clock_of : World → ℕ
clock_of w = w.0

abbrev rest_for : ℕ → World → World
rest_for d (time, later) = (time + d, later)

look_later : (id : Str) (w : World) → clock_of w ≤ clock_of (look id w).1
look_later id (time, []) = omega arith
look_later id (time, health ∷ later) = omega arith

test_clock : IsClock look clock_of rest_for
test_clock = record { inspect_later = look_later; sleep_later = λ d w. omega arith }

abbrev first_start : World
first_start = (
  0,
  some (record { status = starting; failing_streak = 0 })
      ∷ some (record { status = healthy; failing_streak = 0 })
      ∷ [],
)

wait_healthy-first_start :
    wait_healthy look clock_of rest_for (codes "c") (codes "web") 0 (30 * second) 3 first_start
    ≡ some (ok (record { status = healthy; failing_streak = 0 }), (2 * second, []))
unfolding wait_healthy
wait_healthy-first_start = refl

wait_healthy-Ends_example :
    Ends look clock_of rest_for
      (codes "c")
      (codes "web")
      (125 * second)
      (2 * second)
      (0 + 125 * second)
      first_start
      (wait_healthy look clock_of rest_for (codes "c") (codes "web") 0 (30 * second) 3 first_start)
unfolding timeout_of
wait_healthy-Ends_example =
    wait_healthy-Ends look clock_of rest_for test_clock (codes "c") (codes "web") 0 (30 * second) 3
      (125 * second) first_start (omega arith) refl

abbrev settled_state : HealthState
settled_state = record { status = healthy; failing_streak = 0 }

abbrev full_gate : HealthGate
full_gate = record { service = codes "web"; cell = some (ok settled_state) }

abbrev no_text : DriverError Bool Bool → Str
no_text e = []

wait-first :
    wait no_text look clock_of rest_for
      (new_gate (codes "web"))
      (codes "c")
      0
      (30 * second)
      3
      first_start
    ≡ some (ok settled_state, full_gate, (2 * second, []))
unfolding wait
wait-first = refl

wait-again_example :
    wait no_text look clock_of rest_for full_gate (codes "c") 0 second 1 first_start
    ≡ some (ok settled_state, full_gate, first_start)
wait-again_example =
    wait-again no_text look clock_of rest_for (new_gate (codes "web")) full_gate (codes "c")
      (codes "c") 0 (30 * second) 3 0 second 1 first_start (2 * second, []) first_start
      (ok settled_state) wait-first
