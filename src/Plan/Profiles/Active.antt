-- ===== src/Plan/Profiles/Active.antt =====
-- `filter_services` of profiles.rs: the services that it makes active.
use burble.Base.{
  Bool, true, false, ◌||◌, List, [], ◌∷◌, Option, none, some, Str, Result, ok, err, ◌≡◌, refl, sym,
  subst, ◌⊎◌, ◌↔◌, inl, inr, contains, lookup, keys, Distinct, lookup-absent, is_empty,
  if◌then◌else◌, arith, Bool-cases, str_eq, str_eq_iff,
}
use burble.Schema.{Service, Compose}
use burble.Plan.Error.{PlanError, unknown_profile}
use burble.Plan.Profiles.{all_profiles, any_enabled, filter_active, check_profiles, filter_services}

-- The service has no profiles, or one of the enabled ones.
abbrev pub IsActive : List Str → Service → Type 0
IsActive enabled svc =
    (svc.profiles ≡ [])
    ⊎ ((p : Str) × (contains enabled p ≡ true) × (contains svc.profiles p ≡ true))

abbrev is_active : List Str → Service → Bool
is_active enabled svc = is_empty svc.profiles || any_enabled enabled svc.profiles

any_enabled-some :
    (enabled ps : List Str)
    → any_enabled enabled ps ≡ true
    → (p : Str) × (contains enabled p ≡ true) × (contains ps p ≡ true)
unfolding any_enabled contains
any_enabled-some enabled [] h = cc
any_enabled-some enabled (p ∷ ps) h = elim (Bool-cases (contains enabled p)) [
  | inl e ↦ (p, e, ground (arith, str_eq_iff p p))
  | inr e ↦
      let (q, on, in_ps) = any_enabled-some enabled ps (ground (arith, e)) in
      (q, on, ground (arith, in_ps))
]

some-any_enabled :
    (enabled ps : List Str) (p : Str)
    → contains enabled p ≡ true
    → contains ps p ≡ true
    → any_enabled enabled ps ≡ true
unfolding any_enabled contains
some-any_enabled enabled [] p on in_ps = cc
some-any_enabled enabled (q ∷ ps) p on in_ps =
    ground (arith, some-any_enabled enabled ps p on, str_eq_iff q p)

is_empty-nil : (ps : List Str) → (is_empty ps ≡ true) ↔ (ps ≡ [])
is_empty-nil [] = ground arith
is_empty-nil (p ∷ ps) = ground arith

is_active-IsActive :
    (enabled : List Str) (svc : Service) → (is_active enabled svc ≡ true) ↔ IsActive enabled svc
is_active-IsActive enabled svc = (to, from)
  where
    to : is_active enabled svc ≡ true → IsActive enabled svc
    to h = elim (Bool-cases (is_empty svc.profiles)) [
      | inl e ↦ inl ((is_empty-nil svc.profiles).0 e)
      | inr e ↦ inr (any_enabled-some enabled svc.profiles (ground (arith, e)))
    ]

    from : IsActive enabled svc → is_active enabled svc ≡ true
    from (inl e) = ground (arith, (is_empty-nil svc.profiles).1 e)
    from (inr (p, on, has)) = ground (arith, some-any_enabled enabled svc.profiles p on has)

filter_active-cons :
    (enabled : List Str) (name : Str) (svc : Service) (rest : List (Str × Service))
    → filter_active enabled ((name, svc) ∷ rest) ≡ (
        if is_active enabled svc
        then (name, svc) ∷ filter_active enabled rest
        else filter_active enabled rest)
unfolding filter_active
filter_active-cons enabled name svc rest = ground arith

contains-filter_active :
    (enabled : List Str) (services : List (Str × Service)) (n : Str)
    → contains (keys services) n ≡ false
    → contains (keys (filter_active enabled services)) n ≡ false
unfolding filter_active contains
contains-filter_active enabled [] n h = refl
contains-filter_active enabled ((name, svc) ∷ rest) n h =
    ground (arith, contains-filter_active enabled rest n)

pub filter_active-Distinct :
    (enabled : List Str) (services : List (Str × Service))
    → Distinct (keys services)
    → Distinct (keys (filter_active enabled services))
unfolding filter_active
filter_active-Distinct enabled [] d = tt
filter_active-Distinct enabled ((name, svc) ∷ rest) d = elim (Bool-cases (is_active enabled svc)) [
  | inl e ↦
      rw (filter_active-cons, e)
        (contains-filter_active enabled rest name d.0, filter_active-Distinct enabled rest d.1)
  | inr e ↦ rw (filter_active-cons, e) (filter_active-Distinct enabled rest d.1)
]

abbrev kept : List Str → Option Service → Option Service
kept enabled none = none
kept enabled (some svc) = if is_active enabled svc then some svc else none

lookup-filter_active :
    (enabled : List Str) (services : List (Str × Service)) (n : Str)
    → Distinct (keys services)
    → lookup n (filter_active enabled services) ≡ kept enabled (lookup n services)
unfolding filter_active lookup
lookup-filter_active enabled [] n d = refl
lookup-filter_active enabled ((name, svc) ∷ rest) n d = elim (Bool-cases (str_eq name n)) [
  | inl e ↦
      let same = (str_eq_iff name n).0 e in
      let gone =
        lookup-absent n (filter_active enabled rest)
          (contains-filter_active enabled rest n (rw same at d.0)) in
      ground (arith, gone, e)
  | inr e ↦ rw e (ground (arith, lookup-filter_active enabled rest n d.1, e))
]

check_profiles-cases :
    {HashError : Type 0} (known profs : List Str)
    (rest : Result (PlanError HashError) (List (Str × Service)))
    → ((check_profiles known profs rest ≡ rest)
        × ((p : Str) → contains profs p ≡ true → contains known p ≡ true))
      ⊎ ((p : Str) × (check_profiles known profs rest ≡ err (unknown_profile p))
          × (contains profs p ≡ true)
          × (contains known p ≡ false))
unfolding check_profiles contains
check_profiles-cases known [] rest = inl (refl, λ p h. cc)
check_profiles-cases known (prof ∷ profs) rest = elim (Bool-cases (contains known prof)) [
  | inr e ↦ inr (prof, rw (e, check_profiles) refl, ground (arith, str_eq_iff prof prof), e)
  | inl e ↦ elim (check_profiles-cases known profs rest) [
    | inl (same, all) ↦
        inl (rw (e, check_profiles) same, λ p h. ground (arith, all p, str_eq_iff prof p, e))
    | inr (p, fails, in_profs, unknown) ↦
        inr (p, rw (e, check_profiles) fails, ground (arith, in_profs), unknown)
  ]
]

kept-some :
    (enabled : List Str) (o : Option Service) (svc : Service)
    → (kept enabled o ≡ some svc) ↔ ((o ≡ some svc) × IsActive enabled svc)
kept-some enabled none svc = ground arith
kept-some enabled (some svc') svc = elim (Bool-cases (is_active enabled svc')) [
  | inr e ↦ rw e (
    (λ h. cc),
    λ (same, on).
        let same' : svc' ≡ svc = cc in
        cc (e, (is_active-IsActive enabled svc').1 (subst (IsActive enabled) (sym same') on)),
  )
  | inl e ↦ rw e (
    (λ same.
        let same' : svc' ≡ svc = cc in
        (same, subst (IsActive enabled) same' ((is_active-IsActive enabled svc').0 e))),
    λ (same, on). same,
  )
]

module _ {Value : Type 0} (HashError : Type 0) (compose : Compose Value) (enabled : List Str) where
  -- What `filter_services` ends with.
  abbrev pub FilterOutcome : Result (PlanError HashError) (List (Str × Service)) → Type 0
  FilterOutcome (ok active) =
      ((p : Str) → contains enabled p ≡ true → contains (all_profiles compose.services) p ≡ true)
      × Distinct (keys active)
      × ((n : Str) (svc : Service)
          → (lookup n active ≡ some svc)
            ↔ ((lookup n compose.services ≡ some svc) × IsActive enabled svc))
  FilterOutcome (err (unknown_profile p)) =
      (contains enabled p ≡ true) × (contains (all_profiles compose.services) p ≡ false)
  FilterOutcome (err e) = ⊥

  -- Every outcome of `filter_services`, for service maps with distinct names. A profile that no
  -- service has is reported. Otherwise every enabled profile belongs to some service, the active
  -- services have distinct names, and they are the services that have no profiles or an enabled one,
  -- unchanged.
  pub filter_services-Outcome :
      Distinct (keys compose.services) → FilterOutcome (filter_services compose enabled)
  unfolding filter_services
  filter_services-Outcome distinct =
      elim (check_profiles-cases {HashError = HashError} (all_profiles compose.services) enabled
        (ok (filter_active enabled compose.services))) [
          | inl (same, all) ↦ rw same (
            all,
            filter_active-Distinct enabled compose.services distinct,
            λ n svc.
                rw (lookup-filter_active enabled compose.services n distinct)
                  (kept-some enabled (lookup n compose.services) svc),
          )
          | inr (p, fails, on, unknown) ↦ rw fails (on, unknown)
        ]
