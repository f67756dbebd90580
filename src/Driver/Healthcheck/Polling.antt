-- ===== src/Driver/Healthcheck/Polling.antt =====
-- `wait_healthy` of healthcheck.rs ends.
use burble.Base.{
  ℕ, zero, suc, ◌+◌, ◌≤◌, ◌<◌, min, false, Option, none, some, Str, Result, ok, err, leb, ◌≡◌, refl,
  inl, inr, arith, Bool-cases,
}
use burble.Driver.Healthcheck.{settled, poll_from, wait_healthy, timeout_of, default_poll_interval}
use burble.Driver.Healthcheck.Settled.{
  IsHealthy, IsUnhealthy, IsPending, SettledAs, settled-SettledAs,
}
use burble.Driver.Types.{
  HealthState, ContainerState, DriverError, healthcheck_timeout, is_unhealthy, podman,
  privileged_port, io, json,
}

module _ {World IoError JsonError : Type 0}
    (inspect : Str → World → Result (DriverError IoError JsonError) ContainerState × World)
    (now : World → ℕ) (sleep : ℕ → World → World) where
  -- Time does not run backwards, and a sleep is as long as it says.
  pub record IsClock : Type 0 where
    pub inspect_later : (id : Str) (w : World) → now w ≤ now (inspect id w).1
    pub sleep_later : (d : ℕ) (w : World) → now w + d ≤ now (sleep d w)

  -- What the last `inspect` has shown, behind which the world is `w`.
  abbrev pub Shown :
      (id service : Str) (timeout deadline : ℕ)
      → Result (DriverError IoError JsonError) ContainerState
      → World
      → Result (DriverError IoError JsonError) HealthState × World
      → Type 0
  Shown id service timeout deadline (ok state) w (ok hs, w') = (w' ≡ w) × IsHealthy state hs
  Shown id service timeout deadline (ok state) w (err (is_unhealthy s streak), w') =
      (w' ≡ w) × (s ≡ service) × IsUnhealthy state streak
  Shown id service timeout deadline (ok state) w (err (healthcheck_timeout s t), w') =
      (w' ≡ w) × (s ≡ service) × (t ≡ timeout) × (deadline ≤ now w) × IsPending state
  Shown id service timeout deadline (err e) w (r, w') = (w' ≡ w) × (r ≡ err e)
  Shown id service timeout deadline (ok state) w (err e, w') = ⊥

  -- The worlds at which the rounds begin: a round that goes on has seen a pending state before the
  -- deadline, and sleeps.
  pub data Polled (id : Str) (poll deadline : ℕ) (w : World) : World → Type 0 where
    at_first : Polled id poll deadline w w
    next_round :
        {w' : World} (state : ContainerState)
        → Polled id poll deadline w w'
        → (inspect id w').0 ≡ ok state
        → IsPending state
        → now (inspect id w').1 < deadline
        → Polled id poll deadline w (sleep poll (inspect id w').1)

  abbrev pub Ends :
      (id service : Str) (timeout poll deadline : ℕ)
      → World
      → Option (Result (DriverError IoError JsonError) HealthState × World)
      → Type 0
  Ends id service timeout poll deadline w none = ⊥
  Ends id service timeout poll deadline w (some r) =
      (w' : World) × Polled id poll deadline w w'
      × Shown id service timeout deadline (inspect id w').0 (inspect id w').1 r

  SettledAs-Shown :
      (id service : Str) (timeout deadline : ℕ) (state : ContainerState) (w : World)
      (r : Result (DriverError IoError JsonError) HealthState)
      → SettledAs inspect now sleep service state (some r)
      → Shown id service timeout deadline (ok state) w (r, w)
  SettledAs-Shown id service timeout deadline state w (ok hs) h = (refl, h)
  SettledAs-Shown id service timeout deadline state w (err (is_unhealthy s n)) (same, h) =
      (refl, same, h)
  SettledAs-Shown id service timeout deadline state w (err (healthcheck_timeout s t)) h = absurd h
  SettledAs-Shown id service timeout deadline state w (err (podman a c t)) h = absurd h
  SettledAs-Shown id service timeout deadline state w (err (privileged_port s p)) h = absurd h
  SettledAs-Shown id service timeout deadline state w (err (io e)) h = absurd h
  SettledAs-Shown id service timeout deadline state w (err (json e)) h = absurd h

  module _ (clock : IsClock) (id service : Str) (timeout poll deadline : ℕ) (positive : 1 ≤ poll)
      (begin : World) where
    step :
        (fuel : ℕ) (w : World)
        → Polled id poll deadline begin w
        → (leb deadline (now (inspect id w).1) ≡ false
            → Polled id poll deadline begin (sleep poll (inspect id w).1)
            → Ends id service timeout poll deadline begin (
                poll_from inspect now sleep fuel id service timeout poll deadline
                  (sleep poll (inspect id w).1)))
        → Ends id service timeout poll deadline begin
            (poll_from inspect now sleep (suc fuel) id service timeout poll deadline w)
    unfolding poll_from
    step fuel w polled again = go (inspect id w).0 refl
      where
        go :
            (r : Result (DriverError IoError JsonError) ContainerState)
            → (inspect id w).0 ≡ r
            → Ends id service timeout poll deadline begin
                (poll_from inspect now sleep (suc fuel) id service timeout poll deadline w)
        go (err error) e = rw (e, poll_from) (w, polled, rw e (refl, refl))
        go (ok state) e =
            decide (settled inspect now sleep service state) refl
              (settled-SettledAs inspect now sleep service state)
          where
            decide :
                (o : Option (Result (DriverError IoError JsonError) HealthState))
                → settled inspect now sleep service state ≡ o
                → SettledAs inspect now sleep service state o
                → Ends id service timeout poll deadline begin
                    (poll_from inspect now sleep (suc fuel) id service timeout poll deadline w)
            decide (some r) is h =
                rw (e, is, poll_from)
                  (
                    w,
                    polled,
                    rw e (SettledAs-Shown id service timeout deadline state (inspect id w).1 r h),
                  )
            decide none is h = elim (Bool-cases (leb deadline (now (inspect id w).1))) [
              | inl late ↦
                  rw (e, is, late, poll_from)
                    (w, polled, rw e (refl, refl, refl, ground (arith, late), h))
              | inr early ↦
                  rw (e, is, early, poll_from)
                    (again early (next_round state polled e h (ground (arith, early))))
            ]

    poll_from-Ends :
        (fuel : ℕ) (w : World)
        → Polled id poll deadline begin w
        → deadline ≤ now w + fuel
        → Ends id service timeout poll deadline begin
            (poll_from inspect now sleep (suc fuel) id service timeout poll deadline w)
    poll_from-Ends zero w polled enough =
        step zero w polled λ early _. absurd (ground (arith, early, clock.inspect_later id w))
    poll_from-Ends (suc fuel) w polled enough = step (suc fuel) w polled λ early polled'.
        poll_from-Ends fuel (sleep poll (inspect id w).1) polled'
          (omega (arith, clock.inspect_later id w, clock.sleep_later poll (inspect id w).1))

  -- With a clock that does not run backwards, a sleep that is as long as it says and an interval that
  -- is not 0, the polling always ends, if the timeout overflows no `Duration`. It inspects the container,
  -- and goes on with a sleep of the interval, of 2 s at most, as long as there is a check that is neither
  -- healthy nor unhealthy and the deadline is not reached. The last inspection gives the result: its own
  -- error; success for a healthy container or one with no check; the error of an unhealthy one with its
  -- failing streak; and otherwise the timeout, at the deadline or later.
  pub wait_healthy-Ends :
      IsClock
      → (id service : Str) (start_period interval retries timeout : ℕ) (w : World) → 0 < interval
      → timeout_of start_period interval retries ≡ some timeout
      → Ends id service timeout
          (min interval default_poll_interval)
          (now w + timeout)
          w
          (wait_healthy inspect now sleep id service start_period interval retries w)
  unfolding wait_healthy
  wait_healthy-Ends clock id service start_period interval retries timeout w positive e =
      rw (e, wait_healthy)
        (poll_from-Ends clock id service timeout (min interval default_poll_interval)
          (now w + timeout) (ground (arith, positive)) w timeout w at_first (omega arith))
