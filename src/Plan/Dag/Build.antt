-- ===== src/Plan/Dag/Build.antt =====
-- `build_graph` of dag.rs: the graph that it returns is well formed, and its edges are the
-- dependencies of the services.
use burble.Base.{
  keys, All, ℕ, suc, ◌+◌, ◌<◌, Bool, false, List, [], ◌∷◌, Option, none, some, Str, Result, ok, err,
  ◌≡◌, refl, sym, ◌∙◌, ap, subst, ◌⊎◌, ◌==◌, if◌then◌else◌, length, arith, replicate,
  get_or-replicate, length-replicate, length-map, contains, Option-cases, inl, inr,
}
use burble.Base.Counts.{count, sum_below-congr, sum_below-zero}
use burble.Schema.{Service}
use burble.Plan.Dag.{
  ServiceGraph, EdgeKind, deps_of, name_to_id, add_edge, add_deps, add_services, build_graph,
}
use burble.Plan.Dag.Graph.{size, IsGraph}
use burble.Plan.Dag.Release.{targets, mult}
use burble.Plan.Error.{PlanError, missing_dependency, cycle}
use native.Mathlib.Nat.{zero-add}
use burble.Plan.Dag.Edges.{name_to_id-lt, mult-add_edge, add_edge-IsGraph}

name_to_id-none :
    (names : List Str) (s : Str) → name_to_id names s ≡ none → contains names s ≡ false
unfolding name_to_id contains
name_to_id-none [] s h = refl
name_to_id-none (n ∷ names) s h = ground (arith, name_to_id-none names s)

-- How many of the dependencies name the service with id `u`.
abbrev is_id : Option ℕ → ℕ → Bool
is_id none u = false
is_id (some i) u = i == u

abbrev pub dep_count : List Str → ℕ → List (Str × EdgeKind) → ℕ
dep_count names u [] = 0
dep_count names u ((dep_name, kind) ∷ deps) =
    (if is_id (name_to_id names dep_name) u then 1 else 0) + dep_count names u deps

-- The same for the service with id `v`, where the services are numbered from `from` on.
abbrev pub dep_edges : List Str → ℕ → List (Str × Service) → ℕ → ℕ → ℕ
dep_edges names from [] u v = 0
dep_edges names from ((svc_name, svc) ∷ rest) u v =
    (if from == v then dep_count names u (deps_of svc) else 0) + dep_edges names (suc from) rest u v

-- The dependency names an active service.
abbrev pub Resolves : List Str → Str × EdgeKind → Type 0
Resolves names e = (u : ℕ) × (name_to_id names e.0 ≡ some u)

-- The graph that the loops add `more` edges to.
pub record Extends (g g' : ServiceGraph) (more : ℕ → ℕ → ℕ) : Type 0 where
  pub graph : IsGraph g'
  pub names : g'.names ≡ g.names
  pub edges : (u v : ℕ) → mult g' u v ≡ mult g u v + more u v

-- A dependency that names no active service.
abbrev Missing : List Str → Str → List (Str × EdgeKind) → Type 0
Missing names dep_name [] = ⊥
Missing names dep_name ((d, kind) ∷ deps) =
    ((d ≡ dep_name) × (contains names d ≡ false)) ⊎ Missing names dep_name deps

-- The graph before the loops.
abbrev start : List (Str × Service) → ServiceGraph
start active = record {
  names = keys active;
  edges = replicate (length active) [];
  in_degree = replicate (length active) 0;
}

start-mult : (active : List (Str × Service)) (u v : ℕ) → mult (start active) u v ≡ 0
start-mult active u v = ap (λ es. count v (targets es)) (get_or-replicate (length active) u [])

start-IsGraph : (active : List (Str × Service)) → IsGraph (start active)
start-IsGraph active = record {
  edges_size = length-replicate (length active) _ ∙ sym (length-map active _);
  degrees_size = length-replicate (length active) _ ∙ sym (length-map active _);
  degrees = λ v.
      get_or-replicate (length active) v 0
      ∙ sym (
          sum_below-congr (size (start active)) _ (λ _. 0) (λ u _. start-mult active u v)
          ∙ sum_below-zero (size (start active)));
}

module _ (HashError : Type 0) where
  abbrev DepsOutcome :
      Str
      → ℕ
      → List (Str × EdgeKind)
      → ServiceGraph
      → Result (PlanError HashError) ServiceGraph
      → Type 0
  DepsOutcome svc_name from deps g (ok g') =
      Extends g g' (λ u v. if from == v then dep_count g.names u deps else 0)
      × All (Resolves g.names) deps
  DepsOutcome svc_name from deps g (err (missing_dependency f t)) =
      (f ≡ svc_name) × Missing g.names t deps
  DepsOutcome svc_name from deps g (err e) = ⊥

  DepsOutcome-cons :
      (svc_name : Str) (from to : ℕ) (d : Str) (kind : EdgeKind) (deps : List (Str × EdgeKind))
      (g : ServiceGraph) (graph : IsGraph g)
      → from < size g
      → name_to_id g.names d ≡ some to
      → (r : Result (PlanError HashError) ServiceGraph)
      → DepsOutcome svc_name from deps (add_edge g from to kind) r
      → DepsOutcome svc_name from ((d, kind) ∷ deps) g r
  unfolding add_edge
  DepsOutcome-cons svc_name from to d kind deps g graph lt e (ok g') (x, all) =
      let to_lt = name_to_id-lt g.names d to e in
      (
        record {
          graph = x.graph;
          names = x.names;
          edges = λ u v.
              rw e (ground (arith, x.edges u v, mult-add_edge g graph from to kind lt to_lt u v));
        },
        ((to, e), all),
      )
  DepsOutcome-cons svc_name from to d kind deps g graph lt e (err (missing_dependency f t)) x =
      (x.0, inr x.1)
  DepsOutcome-cons svc_name from to d kind deps g graph lt e (err _) x = x

  add_deps-Outcome :
      (svc_name : Str) (from : ℕ) (deps : List (Str × EdgeKind)) (g : ServiceGraph)
      → IsGraph g
      → from < size g
      → DepsOutcome svc_name from deps g (add_deps svc_name from deps g)
  unfolding add_deps
  add_deps-Outcome svc_name from [] g graph lt =
      (record { graph = graph; names = refl; edges = λ u v. ground arith }, tt)
  add_deps-Outcome svc_name from ((d, kind) ∷ deps) g graph lt =
      elim (Option-cases (name_to_id g.names d)) [
        | inl e ↦ rw (e, add_deps) (refl, inl (refl, name_to_id-none g.names d e))
        | inr (to, e) ↦
            rw (e, add_deps)
              (DepsOutcome-cons svc_name from to d kind deps g graph lt e _ (
                add_deps-Outcome svc_name from deps (add_edge g from to kind)
                  (add_edge-IsGraph g graph from to kind lt (name_to_id-lt g.names d to e)) lt))
      ]

  -- Some service has a dependency that names no active service.
  abbrev pub MissingIn : List Str → (from to : Str) → List (Str × Service) → Type 0
  MissingIn names from to [] = ⊥
  MissingIn names from to ((svc_name, svc) ∷ rest) =
      ((from ≡ svc_name) × Missing names to (deps_of svc)) ⊎ MissingIn names from to rest

  abbrev ServicesOutcome :
      ℕ → List (Str × Service) → ServiceGraph → Result (PlanError HashError) ServiceGraph → Type 0
  ServicesOutcome from rest g (ok g') =
      Extends g g' (dep_edges g.names from rest)
      × All (λ e. All (Resolves g.names) (deps_of e.1)) rest
  ServicesOutcome from rest g (err (missing_dependency f t)) = MissingIn g.names f t rest
  ServicesOutcome from rest g (err e) = ⊥

  ServicesOutcome-cons :
      (from : ℕ) (svc_name : Str) (svc : Service) (rest : List (Str × Service))
      (g g' : ServiceGraph)
      → Extends g g' (λ u v. if from == v then dep_count g.names u (deps_of svc) else 0)
      → All (Resolves g.names) (deps_of svc)
      → (r : Result (PlanError HashError) ServiceGraph) → ServicesOutcome (suc from) rest g' r
      → ServicesOutcome from ((svc_name, svc) ∷ rest) g r
  ServicesOutcome-cons from svc_name svc rest g g' a all (ok g'') (b, later_all) = (
    record {
      graph = b.graph;
      names = b.names ∙ a.names;
      edges = λ u v.
          let later = ap (λ names. dep_edges names (suc from) rest u v) a.names in
          omega (arith, a.edges u v, b.edges u v, later);
    },
    (all, subst (λ names. All (λ e. All (Resolves names) (deps_of e.1)) rest) a.names later_all),
  )
  ServicesOutcome-cons from svc_name svc rest g g' a all (err (missing_dependency f t)) b =
      inr (subst (λ names. MissingIn names f t rest) a.names b)
  ServicesOutcome-cons from svc_name svc rest g g' a all (err _) b = b

  add_services-Outcome :
      (from : ℕ) (rest : List (Str × Service)) (g : ServiceGraph)
      → IsGraph g
      → from + length rest ≡ size g
      → ServicesOutcome from rest g (add_services from rest g)
  unfolding add_services
  add_services-Outcome from [] g graph h =
      (record { graph = graph; names = refl; edges = λ u v. omega arith }, tt)
  add_services-Outcome from ((svc_name, svc) ∷ rest) g graph h =
      go (add_services-Outcome (suc from) rest) (add_deps svc_name from (deps_of svc) g)
        (add_deps-Outcome svc_name from (deps_of svc) g graph (omega arith))
    where
      go :
          ((g' : ServiceGraph)
            → IsGraph g'
            → suc from + length rest ≡ size g'
            → ServicesOutcome (suc from) rest g' (add_services (suc from) rest g'))
          → (r : Result (PlanError HashError) ServiceGraph)
          → DepsOutcome svc_name from (deps_of svc) g r
          → ServicesOutcome from
              ((svc_name, svc) ∷ rest)
              g
              (elim r [ err e ↦ err e | ok g' ↦ add_services (suc from) rest g' ])
      go ih (ok g') (a, all) =
          ServicesOutcome-cons from svc_name svc rest g g' a all _
            (ih g' a.graph (omega (arith, h, ap length a.names)))
      go ih (err (missing_dependency f t)) a = inl a
      go ih (err (cycle path)) a = elim a [ ]
      go ih (err _) a = elim a [ ]

  abbrev pub BuildOutcome :
      List (Str × Service) → Result (PlanError HashError) ServiceGraph → Type 0
  BuildOutcome active (ok g) =
      IsGraph g
      × (g.names ≡ keys active)
      × ((u v : ℕ) → mult g u v ≡ dep_edges (keys active) 0 active u v)
      × All (λ e. All (Resolves (keys active)) (deps_of e.1)) active
  BuildOutcome active (err (missing_dependency from to)) = MissingIn (keys active) from to active
  BuildOutcome active (err e) = ⊥

  BuildOutcome-start :
      (active : List (Str × Service)) (r : Result (PlanError HashError) ServiceGraph)
      → ServicesOutcome 0 active (start active) r
      → BuildOutcome active r
  BuildOutcome-start active (ok g) (x, all) =
      (x.graph, x.names, (λ u v. omega (arith, x.edges u v, start-mult active u v)), all)
  BuildOutcome-start active (err (missing_dependency f t)) x = x
  BuildOutcome-start active (err (cycle path)) x = elim x [ ]
  BuildOutcome-start active (err _) x = elim x [ ]

  -- The graph of the active services is well formed, its nodes are their names in order, the edges
  -- from node `u` to node `v` are the dependencies of service `v` on service `u`, as many as there
  -- are, and every dependency names an active service. The only error is a missing dependency: the
  -- service that it names has a dependency on the other name, which no active service has.
  pub build_graph-Outcome :
      (active : List (Str × Service)) → BuildOutcome active (build_graph active)
  unfolding build_graph
  build_graph-Outcome active = BuildOutcome-start active _ (
      add_services-Outcome 0 active (start active) (start-IsGraph active)
        (rw zero-add (sym (length-map active _))))
