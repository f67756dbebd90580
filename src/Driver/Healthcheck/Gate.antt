-- ===== src/Driver/Healthcheck/Gate.antt =====
-- tools/selur-compose/crates/selur-compose-driver/src/healthcheck.rs: `HealthGate`. Its `OnceCell` is
-- empty or full; `get_or_init` lets one caller at a time through, so callers come one after the other.
use burble.Base.{
  ℕ, Option, none, some, Str, Result, ok, err, ◌≡◌, ◌∙◌, refl, subst, ap, inl, inr, Option-cases,
}
use burble.Driver.Healthcheck.{wait_healthy}
use burble.Driver.Types.{HealthState, ContainerState, DriverError, healthcheck_timeout}

pub record HealthGate : Type 0 where
  pub service : Str
  pub cell : Option (Result Str HealthState)

abbrev pub new_gate : Str → HealthGate
new_gate service = record { service = service; cell = none }

none-some : {A : Type 0} {o : Option A} {a : A} → o ≡ none → o ≡ some a → ⊥
none-some is is' = cc

module _ {World IoError JsonError : Type 0} (to_string : DriverError IoError JsonError → Str)
    (inspect : Str → World → Result (DriverError IoError JsonError) ContainerState × World)
    (now : World → ℕ) (sleep : ℕ → World → World) where
  -- What is put into the cell.
  abbrev pub kept : Result (DriverError IoError JsonError) HealthState → Result Str HealthState
  kept (ok hs) = ok hs
  kept (err e) = err (to_string e)

  -- The last `match`.
  abbrev pub surfaced :
      Str → Result Str HealthState → Result (DriverError IoError JsonError) HealthState
  surfaced service (ok hs) = ok hs
  surfaced service (err msg) = err (healthcheck_timeout service 0)

  unfoldable pub wait :
      HealthGate
      → (id : Str) (start_period interval retries : ℕ) → World
      → Option (Result (DriverError IoError JsonError) HealthState × HealthGate × World)
  unfolding wait_healthy
  wait gate id start_period interval retries w = elim gate.cell [
    | some result ↦ some (surfaced gate.service result, gate, w)
    | none ↦ elim (wait_healthy inspect now sleep id gate.service start_period interval retries w) [
      | none ↦ none
      | some (r, w') ↦
          some (surfaced gate.service (kept r), record gate { cell = some (kept r) }, w')
    ]
  ]

  -- The gate holds the answer.
  abbrev Holds : HealthGate → Result (DriverError IoError JsonError) HealthState → Type 0
  Holds gate r =
      (result : Result Str HealthState) × (gate.cell ≡ some result)
      × (surfaced gate.service result ≡ r)

  same_gate :
      (g gate' : HealthGate) (q r : Result (DriverError IoError JsonError) HealthState)
      (v w' : World)
      (o : Option (Result (DriverError IoError JsonError) HealthState × HealthGate × World))
      → o ≡ some (q, g, v)
      → Holds g q
      → o ≡ some (r, gate', w')
      → Holds gate' r
  same_gate g gate' q r v w' o is h e =
      subst (λ x. Holds x r) cc_gate (subst (λ x. Holds g x) cc_result h)
    where
      cc_gate : g ≡ gate'
      cc_gate = cc

      cc_result : q ≡ r
      cc_result = cc

  hit :
      (gate : HealthGate) (result : Result Str HealthState) (id : Str)
      (start_period interval retries : ℕ) (w : World)
      → gate.cell ≡ some result
      → wait gate id start_period interval retries w ≡ some (surfaced gate.service result, gate, w)
  unfolding wait
  hit gate result id start_period interval retries w full =
      ap
        (λ c.
          elim c
            as (λ _.
              Option (Result (DriverError IoError JsonError) HealthState × HealthGate × World)) [
                | some result' ↦ some (surfaced gate.service result', gate, w)
                | none ↦
                    elim (wait_healthy inspect now sleep id gate.service start_period interval
                      retries w) [
                        | none ↦ none
                        | some (r, w') ↦ some (
                          surfaced gate.service (kept r),
                          record gate { cell = some (kept r) },
                          w',
                        )
                      ]
              ])
        full

  wait-Holds :
      (gate gate' : HealthGate) (id : Str) (start_period interval retries : ℕ) (w w' : World)
      (r : Result (DriverError IoError JsonError) HealthState)
      → wait gate id start_period interval retries w ≡ some (r, gate', w')
      → Holds gate' r
  unfolding wait
  wait-Holds gate gate' id start_period interval retries w w' r e = elim (Option-cases gate.cell) [
    | inr (result, full) ↦
        same_gate gate gate' (surfaced gate.service result) r w w' _
          (hit gate result id start_period interval retries w full) (result, full, refl) e
    | inl empty ↦
        elim (Option-cases
          (wait_healthy inspect now sleep id gate.service start_period interval retries w)) [
            | inl lost ↦ absurd (none-some (rw (empty, lost, wait) refl) e)
            | inr ((q, v), is) ↦
                same_gate (record gate { cell = some (kept q) }) gate'
                  (surfaced gate.service (kept q)) r v w' _ (rw (empty, is, wait) refl)
                  (kept q, refl, refl) e
          ]
  ]

  -- Once one caller has waited at a gate, every later one, with whatever arguments, gets the same
  -- answer at once, without a call of the driver and without a sleep.
  pub wait-again :
      (gate gate' : HealthGate) (id id' : Str)
      (start_period interval retries start_period' interval' retries' : ℕ) (w w' later : World)
      (r : Result (DriverError IoError JsonError) HealthState)
      → wait gate id start_period interval retries w ≡ some (r, gate', w')
      → wait gate' id' start_period' interval' retries' later ≡ some (r, gate', later)
  unfolding wait
  wait-again gate gate' id id' start_period interval retries start_period' interval' retries' w w'
        later r e =
      let (result, full, same) = wait-Holds gate gate' id start_period interval retries w w' r e in
      hit gate' result id' start_period' interval' retries' later full
      ∙ ap (λ q. some (q, gate', later)) same
