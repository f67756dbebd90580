-- ===== src/Plan/Planner/Setup.antt =====
-- The operations on networks, volumes and images that a plan starts with.
use burble.Base.{List, [], ◌∷◌, ◌++◌, map, Option-cases, inl, inr, Str, ◌≡◌, refl, ◌∙◌, All, Result}
use burble.Plan.Ops.{
  Op, create_network, create_volume, build_image, pull_image, run_container, wait_healthy,
  stop_container, remove_container,
}
use burble.Plan.Planner.{network_op, volume_op, image_ops, all_image_ops, first_ops}
use burble.Plan.Planner.Gate.{runs, waits, Allowed, Gated}
use burble.Schema.{Compose, Service}

-- An operation on networks, volumes and images: it neither runs a service nor waits for one.
abbrev IsSetup : Op → Type 0
IsSetup (run_container spec) = ⊥
IsSetup (wait_healthy spec) = ⊥
IsSetup op = Unit

All-IsSetup-append : (xs ys : List Op) → All IsSetup xs → All IsSetup ys → All IsSetup (xs ++ ys)
All-IsSetup-append [] ys h k = k
All-IsSetup-append (x ∷ xs) ys h k = (h.0, All-IsSetup-append xs ys h.1 k)

All-IsSetup-map {ℓ} :
    {A : Type ℓ} (f : A → Op) → ((a : A) → IsSetup (f a)) → (xs : List A) → All IsSetup (map f xs)
All-IsSetup-map f h [] = tt
All-IsSetup-map f h (x ∷ xs) = (h x, All-IsSetup-map f h xs)

image_ops-IsSetup :
    (project_name svc_name : Str) (svc : Service)
    → All IsSetup (image_ops project_name (svc_name, svc))
unfolding image_ops
image_ops-IsSetup project_name svc_name svc = elim (Option-cases svc.build) [
  | inr (build, e) ↦ rw (e, image_ops) (tt, tt)
  | inl e ↦ elim (Option-cases svc.image) [
    | inr (image, e') ↦ rw (e, e', image_ops) (tt, tt)
    | inl e' ↦ rw (e, e', image_ops) tt
  ]
]

all_image_ops-IsSetup :
    (project_name : Str) (active : List (Str × Service))
    → All IsSetup (all_image_ops project_name active)
unfolding all_image_ops
all_image_ops-IsSetup project_name [] = tt
all_image_ops-IsSetup project_name ((svc_name, svc) ∷ rest) =
    All-IsSetup-append (image_ops project_name (svc_name, svc)) _
      (image_ops-IsSetup project_name svc_name svc) (all_image_ops-IsSetup project_name rest)

-- Operations that are allowed behind any others.
pub record Neutral (active : List (Str × Service)) (ops : List Op) : Type 0 where
  pub no_runs : runs ops ≡ []
  pub no_waits : waits ops ≡ []
  pub gated : (before : List Op) → Gated active before ops

module _ (active : List (Str × Service)) where
  Neutral-cons :
      (op : Op) (ops : List Op)
      → runs (op ∷ ops) ≡ runs ops
      → waits (op ∷ ops) ≡ waits ops
      → ((before : List Op) → Allowed active before op)
      → Neutral active ops
      → Neutral active (op ∷ ops)
  Neutral-cons op ops same_runs same_waits allowed n = record {
    no_runs = same_runs ∙ n.no_runs;
    no_waits = same_waits ∙ n.no_waits;
    gated = λ before. (allowed before, n.gated _);
  }

  setup-Neutral : (ops : List Op) → All IsSetup ops → Neutral active ops
  setup-Neutral [] h = record { no_runs = refl; no_waits = refl; gated = λ before. tt }
  setup-Neutral (run_container spec ∷ ops) h = elim h.0 [ ]
  setup-Neutral (wait_healthy spec ∷ ops) h = elim h.0 [ ]
  setup-Neutral (create_network spec ∷ ops) h =
      Neutral-cons _ ops refl refl (λ before. tt) (setup-Neutral ops h.1)
  setup-Neutral (create_volume spec ∷ ops) h =
      Neutral-cons _ ops refl refl (λ before. tt) (setup-Neutral ops h.1)
  setup-Neutral (build_image spec ∷ ops) h =
      Neutral-cons _ ops refl refl (λ before. tt) (setup-Neutral ops h.1)
  setup-Neutral (pull_image spec ∷ ops) h =
      Neutral-cons _ ops refl refl (λ before. tt) (setup-Neutral ops h.1)
  setup-Neutral (stop_container spec ∷ ops) h =
      Neutral-cons _ ops refl refl (λ before. tt) (setup-Neutral ops h.1)
  setup-Neutral (remove_container spec ∷ ops) h =
      Neutral-cons _ ops refl refl (λ before. tt) (setup-Neutral ops h.1)

  pub first_ops-Neutral :
      {Value HashError : Type 0} (service_hash : Service → Result HashError Str)
      (compose : Compose Value) (project_name : Str)
      → Neutral active (first_ops service_hash compose project_name active)
  unfolding first_ops
  first_ops-Neutral service_hash compose project_name = setup-Neutral _ (
      All-IsSetup-append
        (map (network_op project_name) compose.networks
          ++ map (volume_op project_name) compose.volumes)
        _
        (All-IsSetup-append (map (network_op project_name) compose.networks) _
          (All-IsSetup-map _ (λ e. tt) compose.networks)
          (All-IsSetup-map _ (λ e. tt) compose.volumes))
        (all_image_ops-IsSetup project_name active))
