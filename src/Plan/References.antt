-- ===== src/Plan/References.antt =====
-- `validate_references` of lib.rs: the networks and volumes that a service names.
pub mod Declared
use burble.Base.{
  ℕ, Bool, true, false, not, ◌&&◌, ◌||◌, List, [], ◌∷◌, Option, none, some, Str, codes, Result, ok,
  err, ◌>>◌, str_eq, contains_key, is_empty, ◌==◌, if◌then◌else◌,
}
use burble.Plan.Error.{PlanError, unknown_network, unknown_volume}
use burble.Schema.{Compose, Service, MountSpec, MountLong}

-- `s.splitn(2, ':').next()`
unfoldable pub before_colon : Str → Str
before_colon [] = []
before_colon (c ∷ cs) = if c == b':' then [] else c ∷ before_colon cs

-- `source.starts_with('.') || source.starts_with('/')`
unfoldable pub is_bind : Str → Bool
is_bind [] = false
is_bind (c ∷ cs) = c == b'.' || c == b'/'

-- Whether the two tests on a network name of a service both pass.
unfoldable pub network_ok {ℓ} : {A : Type ℓ} → List (Str × A) → Str → Bool
unfolding str_eq contains_key
network_ok networks net =
    let has_explicit = not (is_empty networks) in
    if str_eq net (codes "default")
    then true
    else if has_explicit && not (contains_key net networks)
    then false
    else not (not has_explicit && not (str_eq net (codes "default")))

-- The name of the volume that is not declared, if the mount has one.
unfoldable pub undeclared {ℓ} : {A : Type ℓ} → List (Str × A) → MountSpec → Option Str
unfolding before_colon is_bind contains_key str_eq
undeclared volumes (MountSpec.short s) =
    let source = before_colon s in
    if not (is_bind source) && not (contains_key source volumes) then some source else none
undeclared volumes (MountSpec.long l) =
    if str_eq l.mount_type (codes "volume")
    then elim l.source [
      | none ↦ none
      | some src ↦ if not (contains_key src volumes) then some src else none
    ]
    else none

module _ {Value HashError : Type 0} (compose : Compose Value) where
  unfoldable pub check_networks : Str → List Str → Result (PlanError HashError) (Unit {0})
  unfolding network_ok
  check_networks svc_name [] = ok tt
  check_networks svc_name (net ∷ nets) =
      if network_ok compose.networks net
      then check_networks svc_name nets
      else err (unknown_network svc_name net)

  unfoldable pub check_mounts : Str → List MountSpec → Result (PlanError HashError) (Unit {0})
  unfolding undeclared
  check_mounts svc_name [] = ok tt
  check_mounts svc_name (mount ∷ mounts) = elim (undeclared compose.volumes mount) [
    | some volume ↦ err (unknown_volume svc_name volume)
    | none ↦ check_mounts svc_name mounts
  ]

  unfoldable pub validate_references :
      List (Str × Service) → Result (PlanError HashError) (Unit {0})
  unfolding check_networks check_mounts
  validate_references [] = ok tt
  validate_references ((svc_name, svc) ∷ rest) = do
    check_networks svc_name svc.networks
    check_mounts svc_name svc.volumes
    validate_references rest
