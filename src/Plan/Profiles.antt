-- ===== src/Plan/Profiles.antt =====
-- tools/selur-compose/crates/selur-compose-plan/src/profiles.rs: which services are active.
pub mod Active
use burble.Base.{
  Bool, true, false, ◌&&◌, ◌||◌, List, [], ◌∷◌, ◌++◌, Str, Result, ok, err, ◌≡◌, ◌⊎◌, refl,
  contains, is_empty, if◌then◌else◌, arith, Bool-cases, inl, inr,
}
use burble.Schema.{Service, Compose}
use burble.Plan.Error.{PlanError, unknown_profile}

-- `services.values().flat_map(profiles)`
unfoldable pub all_profiles : List (Str × Service) → List Str
all_profiles [] = []
all_profiles ((name, svc) ∷ rest) = svc.profiles ++ all_profiles rest

-- `profiles.iter().any(|p| enabled_set.contains(p))`
unfoldable pub any_enabled : List Str → List Str → Bool
unfolding contains
any_enabled enabled [] = false
any_enabled enabled (p ∷ ps) = contains enabled p || any_enabled enabled ps

unfoldable pub filter_active : List Str → List (Str × Service) → List (Str × Service)
unfolding any_enabled
filter_active enabled [] = []
filter_active enabled ((name, svc) ∷ rest) =
    if is_empty svc.profiles
    then (name, svc) ∷ filter_active enabled rest
    else if any_enabled enabled svc.profiles
    then (name, svc) ∷ filter_active enabled rest
    else filter_active enabled rest

module _ {HashError : Type 0} where
  -- The loop over the enabled profiles; what follows it is the last argument.
  unfoldable pub check_profiles :
      List Str
      → List Str
      → Result (PlanError HashError) (List (Str × Service))
      → Result (PlanError HashError) (List (Str × Service))
  unfolding contains
  check_profiles known [] rest = rest
  check_profiles known (prof ∷ profs) rest =
      if contains known prof then check_profiles known profs rest else err (unknown_profile prof)

module _ {Value HashError : Type 0} where
  unfoldable pub filter_services :
      Compose Value → List Str → Result (PlanError HashError) (List (Str × Service))
  unfolding check_profiles all_profiles filter_active
  filter_services compose enabled =
      check_profiles (all_profiles compose.services) enabled
        (ok (filter_active enabled compose.services))
