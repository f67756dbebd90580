-- ===== src/Driver/Healthcheck.antt =====
-- tools/selur-compose/crates/selur-compose-driver/src/healthcheck.rs: `wait_healthy`. What is outside
-- of it, a `World`, is a parameter, with the driver's `inspect`, `Instant::now` and tokio's `sleep`.
-- `none` stands for a panic on an overflow, or for a lack of fuel.
pub mod Settled
pub mod Polling
pub mod Gate
use burble.Base.{
  ℕ, zero, suc, ◌+◌, ◌*◌, min, Bool, true, false, ◌||◌, Option, none, some, Str, Result, ok, err,
  leb, ltb, if◌then◌else◌,
}
use burble.Driver.Types.{
  HealthStatus, HealthState, ContainerState, DriverError, healthy, unhealthy, no_status,
  healthcheck_timeout, is_unhealthy,
}

abbrev pub second : ℕ
second = 1000000000

abbrev pub default_poll_interval : ℕ
default_poll_interval = 2 * second

abbrev pub timeout_slack : ℕ
timeout_slack = 5 * second

-- `start_period + interval * (retries + 1) + TIMEOUT_SLACK`: `retries` is a `u32`, and the seconds of
-- a `Duration` are a `u64`. The sum is the greatest of its parts.
unfoldable pub timeout_of : ℕ → ℕ → ℕ → Option ℕ
timeout_of start_period interval retries =
    let timeout = start_period + interval * (retries + 1) + timeout_slack in
    if leb 4294967296 (retries + 1) || leb (18446744073709551616 * second) timeout
    then none
    else some timeout

module _ {World IoError JsonError : Type 0}
    (inspect : Str → World → Result (DriverError IoError JsonError) ContainerState × World)
    (now : World → ℕ) (sleep : ℕ → World → World) where
  -- The two `match`es on a state: the result, unless the polling goes on.
  unfoldable pub settled :
      Str → ContainerState → Option (Result (DriverError IoError JsonError) HealthState)
  settled service state = elim state.health [
    | none ↦ some (ok (record { status = no_status; failing_streak = 0 }))
    | some hs ↦ elim hs.status [
      | healthy ↦ some (ok hs)
      | unhealthy ↦ some (err (is_unhealthy service hs.failing_streak))
      | _ ↦ none
    ]
  ]

  -- The loop.
  unfoldable pub poll_from :
      (fuel : ℕ) (id service : Str) (timeout poll deadline : ℕ)
      → World
      → Option (Result (DriverError IoError JsonError) HealthState × World)
  unfolding settled
  poll_from zero id service timeout poll deadline w = none
  poll_from (suc fuel) id service timeout poll deadline w =
      let (r, w') = inspect id w in
      elim r [
        | err e ↦ some (err e, w')
        | ok state ↦ elim (settled service state) [
          | some done ↦ some (done, w')
          | none ↦ elim (leb deadline (now w')) [
            | true ↦ some (err (healthcheck_timeout service timeout), w')
            | false ↦ poll_from fuel id service timeout poll deadline (sleep poll w')
          ]
        ]
      ]

  -- A round for each nanosecond of the timeout is enough.
  unfoldable pub wait_healthy :
      (id service : Str) (start_period interval retries : ℕ)
      → World
      → Option (Result (DriverError IoError JsonError) HealthState × World)
  unfolding timeout_of poll_from
  wait_healthy id service start_period interval retries w =
      elim (timeout_of start_period interval retries) [
        | none ↦ none
        | some timeout ↦
            poll_from (suc timeout) id service timeout (min interval default_poll_interval)
              (now w + timeout) w
      ]
