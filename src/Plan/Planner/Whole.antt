-- ===== src/Plan/Planner/Whole.antt =====
-- `plan` from its first step to its last.
use burble.Base.{
  Distinct, keys, true, false, List, [], ◌∷◌, Option, none, some, Str, Result, ok, err, ◌>>=◌, ◌>>◌,
  ◌≡◌, refl, sym, ◌∙◌, ◌⊎◌, inl, inr, All, contains, contains_key, contains_key-keys, Bool-cases,
  str_eq_iff, arith,
}
use burble.Plan.Error.{PlanError, unknown_service}
use burble.Plan.Ops.{Plan, PlanOptions}
use burble.Plan.Planner.{check_services, select, plan, plan_active, project_name_of}
use burble.Plan.Planner.Outcome.{IsPlan, PlanOutcome, plan_active-Outcome}
use burble.Plan.Profiles.{filter_services}
use burble.Plan.Profiles.Active.{FilterOutcome, filter_services-Outcome}
use burble.Plan.References.{validate_references}
use burble.Plan.References.Declared.{ReferencesOutcome, validate_references-Outcome}
use burble.Schema.{Compose, Service}

check_services-cases :
    {HashError : Type 0} (active : List (Str × Service)) (svcs : List Str)
    → ((check_services {HashError = HashError} active svcs ≡ ok tt)
        × All (λ s. contains (keys active) s ≡ true) svcs)
      ⊎ ((s : Str) × (check_services {HashError = HashError} active svcs ≡ err (unknown_service s))
          × (contains svcs s ≡ true)
          × (contains (keys active) s ≡ false))
unfolding check_services contains
check_services-cases {HashError} active [] = inl (refl, tt)
check_services-cases {HashError} active (svc ∷ svcs) =
    let same = contains_key-keys svc active in
    elim (Bool-cases (contains_key svc active)) [
      | inr e ↦
          inr (svc, rw (e, check_services) refl, ground (arith, str_eq_iff svc svc), sym same ∙ e)
      | inl e ↦ elim (check_services-cases {HashError = HashError} active svcs) [
        | inl (passes, all) ↦ inl (rw (e, check_services) passes, (sym same ∙ e, all))
        | inr (s, fails, among, un) ↦
            inr (s, rw (e, check_services) fails, ground (arith, among), un)
      ]
    ]

module _ {Value HashError : Type 0} (service_hash : Service → Result HashError Str)
    (compose : Compose Value) (opts : PlanOptions) where
  -- The services that pass all checks.
  abbrev pub Selected : List (Str × Service) → Type 0
  Selected active =
      FilterOutcome HashError compose opts.profiles (ok active)
      × All (λ s. contains (keys active) s ≡ true) opts.services
      × ReferencesOutcome HashError compose active (ok tt)

  -- The error names a service of the options that is not active.
  abbrev pub UnknownService : List (Str × Service) → PlanError HashError → Type 0
  UnknownService active (unknown_service s) =
      (contains opts.services s ≡ true) × (contains (keys active) s ≡ false)
  UnknownService active e = ⊥

  -- The error is that of the profiles, of the options or the references, or of the plan.
  abbrev pub Fails : PlanError HashError → Type 0
  Fails e =
      FilterOutcome HashError compose opts.profiles (err e)
      ⊎ ((active : List (Str × Service)) × FilterOutcome HashError compose opts.profiles (ok active)
          × (UnknownService active e
              ⊎ (ReferencesOutcome HashError compose active (err e)
                  ⊎ (Selected active
                      × PlanOutcome service_hash compose (project_name_of service_hash compose opts)
                          active (some (err e))))))

  abbrev pub WholeOutcome : Option (Result (PlanError HashError) Plan) → Type 0
  WholeOutcome none = ⊥
  WholeOutcome (some (ok p)) = (active : List (Str × Service)) × Selected active × IsPlan active p
  WholeOutcome (some (err e)) = Fails e

  abbrev SelectOutcome : Result (PlanError HashError) (List (Str × Service)) → Type 0
  SelectOutcome (ok active) = Selected active
  SelectOutcome (err e) = Fails e

  select-Outcome :
      Distinct (keys compose.services) → SelectOutcome (select service_hash compose opts)
  unfolding select
  select-Outcome distinct =
      filtered (filter_services compose opts.profiles)
        (filter_services-Outcome HashError compose opts.profiles distinct)
    where
      checked :
          (active : List (Str × Service))
          → FilterOutcome HashError compose opts.profiles (ok active)
          → All (λ s. contains (keys active) s ≡ true) opts.services
          → (r : Result (PlanError HashError) (Unit {0}))
          → ReferencesOutcome HashError compose active r
          → SelectOutcome (r >>= λ _. ok active)
      checked active f all (ok done) o = (f, all, o)
      checked active f all (err e) o = inr (active, f, inr (inl o))

      filtered :
          (r : Result (PlanError HashError) (List (Str × Service)))
          → FilterOutcome HashError compose opts.profiles r
          → SelectOutcome (
              r >>= λ active.
              check_services active opts.services
              >> (validate_references compose active >> ok active))
      filtered (err e) o = inl o
      filtered (ok active) o =
          elim (check_services-cases {HashError = HashError} active opts.services) [
            | inr (s, fails, among, un) ↦ rw fails (inr (active, o, inl (among, un)))
            | inl (passes, all) ↦ rw passes (
                checked active o all (validate_references compose active)
                  (validate_references-Outcome HashError compose active))
          ]

  -- For a document whose service names are distinct, `plan` always returns. A plan is that of the
  -- services that have no profiles or an enabled one: every enabled profile belongs to some service,
  -- the services of the options are active, every network and volume that an active service names is
  -- declared (or is the network `default`), and the plan runs every active service exactly once, in
  -- the order of its waves, each behind its dependencies and behind the waits for those that must be
  -- healthy. An error names what fails: an enabled profile that no service has; a service of the
  -- options that is not active; an undeclared network or volume of an active service; a dependency
  -- on no active service; services that each depend on one of them; or the hash of an active
  -- service.
  pub plan-Outcome :
      Distinct (keys compose.services) → WholeOutcome (plan service_hash compose opts)
  unfolding plan
  plan-Outcome distinct = go (select service_hash compose opts) (select-Outcome distinct)
    where
      planned :
          (active : List (Str × Service))
          → Selected active
          → (r : Option (Result (PlanError HashError) Plan))
          → PlanOutcome service_hash compose (project_name_of service_hash compose opts) active r
          → WholeOutcome r
      planned active sel (some (ok p)) o = (active, sel, o)
      planned active sel (some (err e)) o = inr (active, sel.0, inr (inr (sel, o)))
      planned active sel none o = o

      go :
          (r : Result (PlanError HashError) (List (Str × Service)))
          → SelectOutcome r
          → WholeOutcome (elim r [
            | err e ↦ some (err e)
            | ok active ↦
                plan_active service_hash compose (project_name_of service_hash compose opts) active
          ])
      go (err e) o = o
      go (ok active) o = planned active o _ (
          plan_active-Outcome service_hash compose (project_name_of service_hash compose opts)
            active o.0.1)
