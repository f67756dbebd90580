-- ===== src/Plan/Tests.antt =====
-- Documents that the properties of the planner are tried on.
use burble.Base.{
  All, replicate, ◌<◌, ℕ, zero, suc, List, [], ◌∷◌, none, some, Str, codes, Result, ok, ◌≡◌, refl,
  subst, Bool, false, Distinct, keys, contains, arith,
}
use burble.Plan.Dag.{ServiceGraph, healthy_before, build_graph}
use burble.Plan.Dag.Acyclic.{IsRanked, topological_waves-IsRanked}
use burble.Plan.Dag.Build.{BuildOutcome, build_graph-Outcome}
use burble.Plan.Dag.Graph.{IsGraph}
use burble.Plan.Dag.Kahn.{Outcome, topological_waves-Outcome}
use burble.Plan.Dag.Schedule.{IsSchedule}
use burble.Plan.Dag.Waves.{topological_waves}
use burble.Plan.Hash.{IsSha256, HashOutcome, service_hash, service_hash-Outcome}
use burble.Plan.Ops.{PlanOptions}
use burble.Plan.Planner.{plan, plan_active}
use burble.Plan.Planner.Outcome.{PlanOutcome, plan_active-Outcome}
use burble.Plan.Planner.Whole.{WholeOutcome, plan-Outcome}
use burble.Plan.Profiles.{filter_services}
use burble.Plan.Profiles.Active.{FilterOutcome, filter_services-Outcome}
use burble.Plan.References.{validate_references}
use burble.Plan.References.Declared.{ReferencesOutcome, validate_references-Outcome}
use burble.Schema.{Compose, Service, EnvMap, DependsOn, DependsCondition, RestartPolicy, MountSpec}

abbrev service : Service
service = record {
  image = some (codes "img");
  build = none;
  command = none;
  entrypoint = none;
  environment = EnvMap.empty;
  env_file = [];
  ports = [];
  volumes = [];
  networks = codes "default" ∷ [];
  network_mode = none;
  depends_on = DependsOn.empty;
  healthcheck = none;
  restart = RestartPolicy.no_restart;
  profiles = [];
  secrets = [];
  configs = [];
  user = none;
  working_dir = none;
  hostname = none;
  cap_add = [];
  cap_drop = [];
  init = none;
  stop_signal = none;
  stop_grace_period = none;
}

abbrev needs_db : DependsOn
needs_db =
    DependsOn.map
      ((codes "db", record { condition = DependsCondition.service_healthy; restart = false }) ∷ [])

abbrev web : Service
web = record service { depends_on = needs_db; profiles = codes "front" ∷ [] }

abbrev db : Service
db = record service {
  volumes = MountSpec.short (codes "data:/var") ∷ MountSpec.short (codes "./x:/x") ∷ [];
}

-- `db` and `web`, which waits for `db`.
abbrev services : List (Str × Service)
services = (codes "db", db) ∷ (codes "web", web) ∷ []

services-Distinct : Distinct (keys services)
unfolding contains
services-Distinct = (refl, (refl, tt))

abbrev compose : Compose Bool
compose = record {
  project = none;
  services = services;
  networks = [];
  volumes =
      (
        codes "data",
        record { driver = none; driver_opts = []; external = false; name = none; labels = [] },
      )
      ∷ [];
  secrets = [];
  configs = [];
  extensions = [];
}

abbrev opts : PlanOptions
opts = record { profiles = codes "front" ∷ []; project_name = none; services = codes "web" ∷ [] }

abbrev hash : Service → Result Bool Str
hash svc = ok (codes "h")

abbrev graph : ServiceGraph
graph = record {
  names = codes "db" ∷ codes "web" ∷ [];
  edges = ((1, healthy_before) ∷ []) ∷ [] ∷ [];
  in_degree = 0 ∷ 1 ∷ [];
}

build_services : build_graph {HashError = Bool} services ≡ ok graph
unfolding build_graph
build_services = refl

waves_of_graph : topological_waves {HashError = Bool} graph ≡ some (ok ((0 ∷ []) ∷ (1 ∷ []) ∷ []))
unfolding topological_waves
waves_of_graph = refl

graph-IsGraph : IsGraph graph
graph-IsGraph =
    (subst (BuildOutcome Bool services) build_services (build_graph-Outcome Bool services)).0

graph-IsRanked : IsRanked (λ v. v) graph
graph-IsRanked zero v edge = ground (arith, edge)
graph-IsRanked (suc zero) v edge = absurd (omega (arith, edge))
graph-IsRanked (suc (suc u)) v edge = absurd (omega (arith, edge))

plan-Outcome_example : WholeOutcome hash compose opts (plan hash compose opts)
plan-Outcome_example = plan-Outcome hash compose opts services-Distinct

plan_active-Outcome_example :
    PlanOutcome hash compose
      (codes "shop")
      services
      (plan_active hash compose (codes "shop") services)
plan_active-Outcome_example =
    plan_active-Outcome hash compose (codes "shop") services services-Distinct

topological_waves-Outcome_example : Outcome Bool graph (topological_waves graph)
topological_waves-Outcome_example = topological_waves-Outcome Bool graph graph-IsGraph

build_graph-Outcome_example : BuildOutcome Bool services (build_graph services)
build_graph-Outcome_example = build_graph-Outcome Bool services

topological_waves-IsRanked_example :
    (waves : List (List ℕ)) × (topological_waves {HashError = Bool} graph ≡ some (ok waves))
    × IsSchedule graph waves
topological_waves-IsRanked_example =
    topological_waves-IsRanked Bool (λ v. v) graph graph-IsGraph graph-IsRanked

filter_services-Outcome_example :
    FilterOutcome Bool compose (codes "front" ∷ []) (filter_services compose (codes "front" ∷ []))
filter_services-Outcome_example =
    filter_services-Outcome Bool compose (codes "front" ∷ []) services-Distinct

validate_references-Outcome_example :
    ReferencesOutcome Bool compose services (validate_references compose services)
validate_references-Outcome_example = validate_references-Outcome Bool compose services

abbrev jcs_of : Service → Result Str (List ℕ)
jcs_of svc = ok []

abbrev digest_of : List ℕ → List ℕ
digest_of bytes = replicate 32 171

digest_of-IsSha256 : IsSha256 (λ svc. svc) jcs_of digest_of
digest_of-IsSha256 bytes = (refl, all_bytes 32)
  where
    all_bytes : (n : ℕ) → All (λ b. b < 256) (replicate n 171)
    all_bytes zero = tt
    all_bytes (suc n) = (omega arith, all_bytes n)

service_hash-Outcome_example :
    HashOutcome (λ svc. svc) jcs_of digest_of db (service_hash (λ svc. svc) jcs_of digest_of db)
service_hash-Outcome_example =
    service_hash-Outcome (λ svc. svc) jcs_of digest_of digest_of-IsSha256 db
