-- ===== src/Plan/References/Declared.antt =====
-- `validate_references` of lib.rs: which networks and volumes pass.
use burble.Base.{
  true, false, List, [], ◌∷◌, none, some, Str, codes, Result, ok, err, ◌≡◌, refl, sym, ◌∙◌, ap, ◌⊎◌,
  inl, inr, All, Any, Bool-cases, Option-cases, str_eq, str_eq_iff, contains, contains_key-keys,
  keys, arith,
}
use burble.Plan.Error.{PlanError, unknown_network, unknown_volume}
use burble.Plan.References.{
  before_colon, is_bind, network_ok, undeclared, check_networks, check_mounts, validate_references,
}
use burble.Schema.{Compose, Service, MountSpec}

-- The network is declared, or is the implicit one.
abbrev pub NetworkDeclared {ℓ} : {A : Type ℓ} → List (Str × A) → Str → Type 0
NetworkDeclared networks net = (net ≡ codes "default") ⊎ (contains (keys networks) net ≡ true)

abbrev pub NetworkUndeclared {ℓ} : {A : Type ℓ} → List (Str × A) → Str → Type 0
NetworkUndeclared networks net = ¬ (net ≡ codes "default") × (contains (keys networks) net ≡ false)

-- A short mount is of a path, or of a declared volume; a long one that says it is of a volume and
-- names one names a declared one.
abbrev pub MountDeclared {ℓ} : {A : Type ℓ} → List (Str × A) → MountSpec → Type 0
MountDeclared volumes (MountSpec.short s) =
    (is_bind (before_colon s) ≡ true) ⊎ (contains (keys volumes) (before_colon s) ≡ true)
MountDeclared volumes (MountSpec.long l) =
    (src : Str)
    → l.mount_type ≡ codes "volume"
    → l.source ≡ some src
    → contains (keys volumes) src ≡ true

-- The mount is of the volume, which is not declared.
abbrev pub MountUndeclared {ℓ} : {A : Type ℓ} → List (Str × A) → Str → MountSpec → Type 0
MountUndeclared volumes volume (MountSpec.short s) =
    (before_colon s ≡ volume) × (is_bind volume ≡ false) × (contains (keys volumes) volume ≡ false)
MountUndeclared volumes volume (MountSpec.long l) =
    (l.mount_type ≡ codes "volume")
    × (l.source ≡ some volume)
    × (contains (keys volumes) volume ≡ false)

module _ {ℓ} {A : Type ℓ} where
  network_ok-true :
      (networks : List (Str × A)) (net : Str)
      → network_ok networks net ≡ true
      → NetworkDeclared networks net
  unfolding network_ok
  network_ok-true networks net h = elim (Bool-cases (str_eq net (codes "default"))) [
    | inl e ↦ inl ((str_eq_iff net (codes "default")).0 e)
    | inr e ↦ inr (sym (contains_key-keys net networks) ∙ ground (arith, e))
  ]

  network_ok-false :
      (networks : List (Str × A)) (net : Str)
      → network_ok networks net ≡ false
      → NetworkUndeclared networks net
  unfolding network_ok contains
  network_ok-false [] net h = (λ same. cc (h, (str_eq_iff net (codes "default")).1 same), refl)
  network_ok-false (entry ∷ networks) net h = (
    λ same. ground (arith, h, (str_eq_iff net (codes "default")).1 same),
    sym (contains_key-keys net (entry ∷ networks)) ∙ ground (arith, h),
  )

  undeclared-none :
      (volumes : List (Str × A)) (mount : MountSpec)
      → undeclared volumes mount ≡ none
      → MountDeclared volumes mount
  unfolding undeclared
  undeclared-none volumes (MountSpec.short s) h =
      let same = contains_key-keys (before_colon s) volumes in
      elim (Bool-cases (is_bind (before_colon s))) [
        | inl e ↦ inl e
        | inr e ↦ inr (sym same ∙ ground (arith, h, e))
      ]
  undeclared-none volumes (MountSpec.long l) h = λ src typed named.
      let is_volume = (str_eq_iff l.mount_type (codes "volume")).1 typed in
      sym (contains_key-keys src volumes) ∙ ground (arith, rw (is_volume, named) at h)

  undeclared-some :
      (volumes : List (Str × A)) (mount : MountSpec) (volume : Str)
      → undeclared volumes mount ≡ some volume
      → MountUndeclared volumes volume mount
  unfolding undeclared
  undeclared-some volumes (MountSpec.short s) volume h =
      let same = contains_key-keys (before_colon s) volumes in
      let is : before_colon s ≡ volume = ground (arith, h) in
      (is, rw (sym is) (ground (arith, h)), rw (sym is) (sym same ∙ ground (arith, h)))
  undeclared-some volumes (MountSpec.long l) volume h =
      elim (Bool-cases (str_eq l.mount_type (codes "volume"))) [
        | inr e ↦ cc (h, e)
        | inl e ↦ elim (Option-cases l.source) [
          | inl e' ↦ cc (rw (e, e') at h)
          | inr (src, e') ↦
              let h' = rw (e, e') at h in
              let same : src ≡ volume = ground (arith, h') in
              (
                (str_eq_iff l.mount_type (codes "volume")).0 e,
                e' ∙ ap (λ x. some x) same,
                rw (sym same) (sym (contains_key-keys src volumes) ∙ ground (arith, h')),
              )
        ]
      ]

module _ {Value : Type 0} (HashError : Type 0) (compose : Compose Value) where
  -- What the checks end with.
  abbrev pub ReferencesOutcome :
      List (Str × Service) → Result (PlanError HashError) (Unit {0}) → Type 0
  ReferencesOutcome active (ok done) =
      All {A = Str × Service}
        (λ e.
          All (NetworkDeclared compose.networks) e.1.networks
          × All (MountDeclared compose.volumes) e.1.volumes)
        active
  ReferencesOutcome active (err (unknown_network s net)) =
      Any {A = Str × Service}
        (λ e.
          (e.0 ≡ s) × (contains e.1.networks net ≡ true) × NetworkUndeclared compose.networks net)
        active
  ReferencesOutcome active (err (unknown_volume s volume)) =
      Any {A = Str × Service}
        (λ e. (e.0 ≡ s) × Any (MountUndeclared compose.volumes volume) e.1.volumes) active
  ReferencesOutcome active (err e) = ⊥

  check_networks-cases :
      (svc_name : Str) (nets : List Str)
      → ((check_networks {HashError = HashError} compose svc_name nets ≡ ok tt)
          × All (NetworkDeclared compose.networks) nets)
        ⊎ ((net : Str) × (check_networks {HashError = HashError} compose svc_name nets
              ≡ err (unknown_network svc_name net))
            × (contains nets net ≡ true)
            × NetworkUndeclared compose.networks net)
  unfolding check_networks contains
  check_networks-cases svc_name [] = inl (refl, tt)
  check_networks-cases svc_name (net ∷ nets) = elim (Bool-cases (network_ok compose.networks net)) [
    | inr e ↦ inr (
      net,
      rw (e, check_networks) refl,
      ground (arith, str_eq_iff net net),
      network_ok-false _ net e,
    )
    | inl e ↦ elim (check_networks-cases svc_name nets) [
      | inl (passes, all) ↦ inl (rw (e, check_networks) passes, (network_ok-true _ net e, all))
      | inr (bad, fails, among, un) ↦
          inr (bad, rw (e, check_networks) fails, ground (arith, among), un)
    ]
  ]

  check_mounts-cases :
      (svc_name : Str) (mounts : List MountSpec)
      → ((check_mounts {HashError = HashError} compose svc_name mounts ≡ ok tt)
          × All (MountDeclared compose.volumes) mounts)
        ⊎ ((volume : Str) × (check_mounts {HashError = HashError} compose svc_name mounts
              ≡ err (unknown_volume svc_name volume))
            × Any (MountUndeclared compose.volumes volume) mounts)
  unfolding check_mounts
  check_mounts-cases svc_name [] = inl (refl, tt)
  check_mounts-cases svc_name (mount ∷ mounts) =
      elim (Option-cases (undeclared compose.volumes mount)) [
        | inr (volume, e) ↦
            inr (volume, rw (e, check_mounts) refl, inl (undeclared-some _ mount volume e))
        | inl e ↦ elim (check_mounts-cases svc_name mounts) [
          | inl (passes, all) ↦ inl (rw (e, check_mounts) passes, (undeclared-none _ mount e, all))
          | inr (bad, fails, among) ↦ inr (bad, rw (e, check_mounts) fails, inr among)
        ]
      ]

  ReferencesOutcome-cons :
      (svc_name : Str) (svc : Service) (rest : List (Str × Service))
      (r : Result (PlanError HashError) (Unit {0}))
      → All (NetworkDeclared compose.networks) svc.networks
      → All (MountDeclared compose.volumes) svc.volumes
      → ReferencesOutcome rest r
      → ReferencesOutcome ((svc_name, svc) ∷ rest) r
  ReferencesOutcome-cons svc_name svc rest (ok done) nets mounts o = ((nets, mounts), o)
  ReferencesOutcome-cons svc_name svc rest (err (unknown_network s net)) nets mounts o = inr o
  ReferencesOutcome-cons svc_name svc rest (err (unknown_volume s volume)) nets mounts o = inr o
  ReferencesOutcome-cons svc_name svc rest (err _) nets mounts o = o

  -- The checks pass if every network that an active service names is declared or `default`, and every
  -- volume that it mounts is declared. An error names a service, and a network or volume that it
  -- names and that is not declared.
  pub validate_references-Outcome :
      (active : List (Str × Service))
      → ReferencesOutcome active (validate_references compose active)
  unfolding validate_references
  validate_references-Outcome [] = tt
  validate_references-Outcome ((svc_name, svc) ∷ rest) =
      elim (check_networks-cases svc_name svc.networks) [
        | inr (net, fails, among, un) ↦ rw fails (inl (refl, among, un))
        | inl (passes, nets) ↦ elim (check_mounts-cases svc_name svc.volumes) [
          | inr (volume, fails, among) ↦ rw (passes, fails) (inl (refl, among))
          | inl (passes', mounts) ↦
              rw (passes, passes')
                (ReferencesOutcome-cons svc_name svc rest _ nets mounts
                  (validate_references-Outcome rest))
        ]
      ]
