-- ===== src/Plan/Dag.antt =====
-- tools/selur-compose/crates/selur-compose-plan/src/dag.rs: the dependency graph and its waves.
-- A `NodeId` is its index. `edges` and `in_degree` are hash maps whose keys are node ids below
-- `names.len()`: they are lists indexed by the id, with `[]` where the map has no entry.
pub mod Waves
pub mod Release
pub mod Build
pub mod Edges
pub mod Schedule
pub mod Invariant
pub mod Ending
pub mod Kahn
pub mod Acyclic
pub mod Graph
use burble.Base.{
  ℕ, zero, suc, ◌+◌, ◌-◌, Bool, true, false, List, [], ◌∷◌, ◌++◌, map, Option, none, some, Str,
  codes, Result, ok, err, str_eq, ◌==◌, leb, ltb, if◌then◌else◌, length, get_or, set, replicate,
  is_empty, keys,
}
use burble.Schema
use burble.Schema.{Service, DependsOn, DependsOnSpec, DependsCondition}
use burble.Plan.Error.{PlanError, cycle, missing_dependency}

pub data EdgeKind : Type 0 where
  started_before healthy_before completed_before : EdgeKind

pub record ServiceGraph : Type 0 where
  pub names : List Str
  pub edges : List (List (ℕ × EdgeKind))
  pub in_degree : List ℕ

abbrev pub outgoing : ServiceGraph → ℕ → List (ℕ × EdgeKind)
outgoing g node = get_or g.edges node []

-- `&self.names[node.0]`. Node ids are in range: see Plan.Dag.Build.
abbrev pub name : ServiceGraph → ℕ → Str
name g node = get_or g.names node []

-- The `match` on the condition.
unfoldable pub kind_of : DependsCondition → EdgeKind
kind_of DependsCondition.service_started = started_before
kind_of DependsCondition.service_healthy = healthy_before
kind_of DependsCondition.service_completed_successfully = completed_before

unfoldable pub deps_of : Service → List (Str × EdgeKind)
unfolding kind_of
deps_of svc = elim svc.depends_on [
  | DependsOn.empty ↦ []
  | DependsOn.list names ↦ map (λ n. (n, started_before)) names
  | DependsOn.map deps ↦ map (λ d. (d.0, kind_of d.1.condition)) deps
]

-- `.filter(condition == ServiceHealthy).map(name)`
unfoldable pub healthy_names : List (Str × DependsOnSpec) → List Str
healthy_names [] = []
healthy_names ((name, spec) ∷ deps) = elim spec.condition [
  | DependsCondition.service_healthy ↦ name ∷ healthy_names deps
  | _ ↦ healthy_names deps
]

unfoldable pub healthy_dependencies : Service → List Str
unfolding healthy_names
healthy_dependencies svc = elim svc.depends_on [ DependsOn.map deps ↦ healthy_names deps | _ ↦ [] ]

-- `name_to_id.get(name)`: the keys of the service map are distinct, so the first match is the only.
unfoldable pub name_to_id : List Str → Str → Option ℕ
unfolding str_eq
name_to_id [] name = none
name_to_id (n ∷ names) name =
    if str_eq n name
    then some 0
    else elim (name_to_id names name) [ none ↦ none | some i ↦ some (suc i) ]

-- `edges.entry(to).or_default().push((from, kind)); *in_degree.entry(from).or_insert(0) += 1;`
pub add_edge : ServiceGraph → ℕ → ℕ → EdgeKind → ServiceGraph
add_edge g from to kind = record g {
  edges = set g.edges to (outgoing g to ++ (from, kind) ∷ []);
  in_degree = set g.in_degree from (get_or g.in_degree from 0 + 1);
}

module _ {HashError : Type 0} where
  -- The inner loop of `build_graph`, over the dependencies of one service.
  add_deps :
      Str → ℕ → List (Str × EdgeKind) → ServiceGraph → Result (PlanError HashError) ServiceGraph
  unfolding add_edge name_to_id
  add_deps svc_name from [] g = ok g
  add_deps svc_name from ((dep_name, kind) ∷ deps) g = elim (name_to_id g.names dep_name) [
    | none ↦ err (missing_dependency svc_name dep_name)
    | some to ↦ add_deps svc_name from deps (add_edge g from to kind)
  ]

  -- The outer loop, over the services; `from` is the id of the first one.
  add_services : ℕ → List (Str × Service) → ServiceGraph → Result (PlanError HashError) ServiceGraph
  unfolding add_deps deps_of
  add_services from [] g = ok g
  add_services from ((svc_name, svc) ∷ rest) g = elim (add_deps svc_name from (deps_of svc) g) [
    | err e ↦ err e
    | ok g' ↦ add_services (suc from) rest g'
  ]

  unfoldable pub build_graph : List (Str × Service) → Result (PlanError HashError) ServiceGraph
  unfolding add_services
  build_graph active = add_services 0 active (record {
    names = keys active;
    edges = replicate (length active) [];
    in_degree = replicate (length active) 0;
  })
