-- ===== src/Plan/Planner.antt =====
-- `plan` of lib.rs. `none` stands for a panic of the source, or for a lack of fuel in the sort.
pub mod Gate
pub mod Emission
pub mod Waiting
pub mod Nodes
pub mod Order
pub mod Setup
pub mod Outcome
pub mod Whole
use burble.Base.{
  ℕ, Bool, true, false, not, List, [], ◌∷◌, ◌++◌, map, Option, none, some, Str, codes, Result, ok,
  err, ◌>>=◌, ◌>>◌, contains, contains_key, lookup, btree_insert, if◌then◌else◌,
}
use burble.Plan.Dag.{ServiceGraph, name, build_graph, healthy_dependencies}
use burble.Plan.Dag.Waves.{topological_waves}
use burble.Plan.Error.{PlanError, unknown_service, config_hash}
use burble.Plan.Ops.{
  Op, create_network, create_volume, build_image, pull_image, run_container, wait_healthy, Plan,
  PlanOptions,
}
use burble.Plan.Profiles.{filter_services}
use burble.Plan.References.{validate_references}
use burble.Plan.Render.{container_name_of, tag_of, run_spec, unwrap_or, map_option}
use burble.Schema.{Compose, Service, Network, Volume, Project}

unfoldable pub project_labels : Str → List (Str × Str)
unfolding btree_insert
project_labels project_name = btree_insert (codes "io.podman.compose.project") project_name []

abbrev network_op : Str → Str × Network → Op
network_op project_name (net_name, net) =
    create_network
      (record { name = net_name; driver = net.driver; labels = project_labels project_name })

abbrev volume_op : Str → Str × Volume → Op
volume_op project_name (vol_name, vol) =
    create_volume
      (record { name = vol_name; driver = vol.driver; labels = project_labels project_name })

-- Step 8, for one service.
unfoldable pub image_ops : Str → Str × Service → List Op
image_ops project_name (svc_name, svc) = elim svc.build [
  | some build ↦
      build_image (record {
        service = svc_name;
        context = build.context;
        dockerfile = build.dockerfile;
        args = build.args;
        target = build.target;
        tag = tag_of project_name svc_name;
        no_cache = build.no_cache;
      })
      ∷ []
  | none ↦ elim svc.image [
    | some image ↦ pull_image (record { service = svc_name; image = image }) ∷ []
    | none ↦ []
  ]
]

unfoldable pub all_image_ops : Str → List (Str × Service) → List Op
unfolding image_ops
all_image_ops project_name [] = []
all_image_ops project_name (entry ∷ rest) =
    image_ops project_name entry ++ all_image_ops project_name rest

-- `ops` and `wait_healthy_emitted`.
pub record Emitted : Type 0 where
  pub ops : List Op
  pub waits : List Str

-- `for dep_name in &healthy_deps`
unfoldable pub emit_waits : Str → List Str → Emitted → Emitted
unfolding contains
emit_waits project_name [] s = s
emit_waits project_name (dep_name ∷ deps) s = emit_waits project_name deps (
    if not (contains s.waits dep_name)
    then record s {
      ops =
          s.ops
          ++ wait_healthy (record {
            service = dep_name;
            container_name = container_name_of project_name dep_name;
          })
            ∷ [];
      waits = s.waits ++ dep_name ∷ [];
    }
    else s)

module _ (project_name : Str) (active : List (Str × Service)) (graph : ServiceGraph) where
  -- The first loop over a wave.
  unfoldable pub wave_waits : List ℕ → Emitted → Option Emitted
  unfolding emit_waits lookup healthy_dependencies
  wave_waits [] s = some s
  wave_waits (node ∷ wave) s = elim (lookup (name graph node) active) [
    | none ↦ none
    | some svc ↦ wave_waits wave (emit_waits project_name (healthy_dependencies svc) s)
  ]

module _ {HashError : Type 0} (service_hash : Service → Result HashError Str) (project_name : Str)
    (active : List (Str × Service)) (graph : ServiceGraph) where
  -- The second loop over a wave.
  unfoldable pub wave_runs : List ℕ → List Op → Option (Result (PlanError HashError) (List Op))
  unfolding lookup run_spec
  wave_runs [] ops = some (ok ops)
  wave_runs (node ∷ wave) ops = elim (lookup (name graph node) active) [
    | none ↦ none
    | some svc ↦ elim (service_hash svc) [
      | err source ↦ some (err (config_hash (name graph node) source))
      | ok hash ↦
          wave_runs wave
            (ops ++ run_container (run_spec project_name (name graph node) svc hash) ∷ [])
    ]
  ]

  -- `for wave in &service_waves`
  unfoldable pub wave_ops :
      List (List ℕ) → Emitted → Option (Result (PlanError HashError) (List Op))
  unfolding wave_waits wave_runs
  wave_ops [] s = some (ok s.ops)
  wave_ops (wave ∷ waves) s = elim (wave_waits project_name active graph wave s) [
    | none ↦ none
    | some s' ↦ elim (wave_runs wave s'.ops) [
      | none ↦ none
      | some (err e) ↦ some (err e)
      | some (ok ops) ↦ wave_ops waves (record { ops = ops; waits = s'.waits })
    ]
  ]

-- `for svc in &opts.services`
unfoldable pub check_services :
    {HashError : Type 0} → List (Str × Service) → List Str → Result (PlanError HashError) (Unit {0})
unfolding contains_key
check_services active [] = ok tt
check_services active (svc ∷ svcs) =
    if contains_key svc active then check_services active svcs else err (unknown_service svc)

module _ {Value HashError : Type 0} (service_hash : Service → Result HashError Str)
    (compose : Compose Value) where
  unfoldable pub project_name_of : PlanOptions → Str
  project_name_of opts = elim opts.project_name [
    | some name ↦ name
    | none ↦ elim compose.project [ some project ↦ project.name | none ↦ codes "project" ]
  ]

  -- Steps 7 and 8.
  unfoldable pub first_ops : Str → List (Str × Service) → List Op
  unfolding all_image_ops
  first_ops project_name active =
      map (network_op project_name) compose.networks
      ++ map (volume_op project_name) compose.volumes
      ++ all_image_ops project_name active

  -- Steps 7 to 9, on the waves. `node_wave_index` holds the same waves again.
  unfoldable pub emit_plan :
      Str
      → List (Str × Service)
      → ServiceGraph
      → List (List ℕ)
      → Option (Result (PlanError HashError) Plan)
  unfolding first_ops wave_ops
  emit_plan project_name active graph waves =
      elim (wave_ops service_hash project_name active graph waves
        (record { ops = first_ops project_name active; waits = [] })) [
          | none ↦ none
          | some (err e) ↦ some (err e)
          | some (ok ops) ↦
              some (ok (record { ops = ops; waves = waves; project_name = project_name }))
        ]

  -- Steps 5 to 9.
  unfoldable pub plan_active :
      Str → List (Str × Service) → Option (Result (PlanError HashError) Plan)
  unfolding build_graph topological_waves emit_plan
  plan_active project_name active = elim (build_graph active) [
    | err e ↦ some (err e)
    | ok graph ↦ elim (topological_waves graph) [
      | none ↦ none
      | some (err e) ↦ some (err e)
      | some (ok waves) ↦ emit_plan project_name active graph waves
    ]
  ]

  -- Steps 2 to 4: the active services, checked.
  unfoldable pub select : PlanOptions → Result (PlanError HashError) (List (Str × Service))
  unfolding filter_services check_services validate_references
  select opts = do
    active ← filter_services compose opts.profiles
    check_services active opts.services
    validate_references compose active
    ok active

  unfoldable pub plan : PlanOptions → Option (Result (PlanError HashError) Plan)
  unfolding select plan_active project_name_of
  plan opts = elim (select opts) [
    | err e ↦ some (err e)
    | ok active ↦ plan_active (project_name_of opts) active
  ]
