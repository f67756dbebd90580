-- ===== src/Driver/Healthcheck/Settled.antt =====
-- What `wait_healthy` of healthcheck.rs makes of the state of a container.
use burble.Base.{ℕ, Option, none, some, Str, Result, ok, err, ◌≡◌, ◌≢◌, refl, ◌⊎◌, inl, inr}
use burble.Driver.Healthcheck.{settled}
use burble.Driver.Types.{
  unknown, starting, HealthStatus, HealthState, ContainerState, DriverError, healthy, unhealthy,
  no_status, is_unhealthy,
}

-- A state that ends the polling with success: healthy, or with no check at all.
abbrev pub IsHealthy : ContainerState → HealthState → Type 0
IsHealthy state hs =
    ((state.health ≡ some hs) × (hs.status ≡ healthy))
    ⊎ ((state.health ≡ none) × (hs ≡ record { status = no_status; failing_streak = 0 }))

abbrev pub IsUnhealthy : ContainerState → (streak : ℕ) → Type 0
IsUnhealthy state streak =
    (hs : HealthState) × (state.health ≡ some hs)
    × (hs.status ≡ unhealthy)
    × (streak ≡ hs.failing_streak)

-- A state that the polling goes on from.
abbrev pub IsPending : ContainerState → Type 0
IsPending state =
    (hs : HealthState) × (state.health ≡ some hs) × (hs.status ≢ healthy) × (hs.status ≢ unhealthy)

module _ {World IoError JsonError : Type 0}
    (inspect : Str → World → Result (DriverError IoError JsonError) ContainerState × World)
    (now : World → ℕ) (sleep : ℕ → World → World) where
  -- What a state says: it settles the polling, or the polling goes on.
  abbrev pub SettledAs :
      (service : Str)
      → ContainerState
      → Option (Result (DriverError IoError JsonError) HealthState)
      → Type 0
  SettledAs service state none = IsPending state
  SettledAs service state (some (ok hs)) = IsHealthy state hs
  SettledAs service state (some (err (is_unhealthy s streak))) =
      (s ≡ service) × IsUnhealthy state streak
  SettledAs service state (some (err e)) = ⊥

  pub settled-SettledAs :
      (service : Str) (state : ContainerState)
      → SettledAs service state (settled inspect now sleep service state)
  unfolding settled
  settled-SettledAs service state = go state.health refl
    where
      go :
          (h : Option HealthState)
          → state.health ≡ h
          → SettledAs service state (elim h [
            | none ↦ some (ok (record { status = no_status; failing_streak = 0 }))
            | some hs ↦ elim hs.status [
              | healthy ↦ some (ok hs)
              | unhealthy ↦ some (err (is_unhealthy service hs.failing_streak))
              | _ ↦ none
            ]
          ])
      go none e = inr (e, refl)
      go (some hs) e = status hs.status refl
        where
          status :
              (st : HealthStatus)
              → hs.status ≡ st
              → SettledAs service state
                  (elim st as (λ _. Option (Result (DriverError IoError JsonError) HealthState)) [
                    | healthy ↦ some (ok hs)
                    | unhealthy ↦ some (err (is_unhealthy service hs.failing_streak))
                    | _ ↦ none
                  ])
          status healthy is = inl (e, is)
          status unhealthy is = (refl, (hs, e, is, refl))
          status starting is = (hs, e, (λ x. cc), λ x. cc)
          status no_status is = (hs, e, (λ x. cc), λ x. cc)
          status (unknown s) is = (hs, e, (λ x. cc), λ x. cc)
