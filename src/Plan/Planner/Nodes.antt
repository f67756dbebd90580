-- ===== src/Plan/Planner/Nodes.antt =====
-- What the graph of the planner knows of the active services.
use burble.Base.{
  Distinct, keys, ℕ, zero, suc, ◌+◌, ◌<◌, true, false, List, [], ◌∷◌, some, Str, ◌≡◌, refl, ◌∙◌, ap,
  All, All-map, contains, lookup, get_or, length, arith, str_eq, str_eq_iff, ok, length-map,
  Bool-cases, inl, inr,
}
use burble.Plan.Dag.{ServiceGraph, EdgeKind, name_to_id, deps_of}
use burble.Plan.Dag.Build.{dep_count, dep_edges, Resolves, BuildOutcome}
use burble.Plan.Dag.Graph.{size}
use burble.Plan.Planner.Order.{NodeFacts}
use burble.Schema.{Service}
use native.Mathlib.Nat.{zero-add}

name_to_id-name :
    (names : List Str) (s : Str) (u : ℕ) → name_to_id names s ≡ some u → get_or names u [] ≡ s
unfolding name_to_id
name_to_id-name [] s u h = cc
name_to_id-name (n ∷ names) s zero h = ground (arith, str_eq_iff n s)
name_to_id-name (n ∷ names) s (suc u) h = ground (arith, name_to_id-name names s u)

-- A dependency with an id counts for it.
dep_count-pos :
    (names : List Str) (deps : List (Str × EdgeKind))
    → All (Resolves names) deps
    → All (λ e. (u : ℕ) × (get_or names u [] ≡ e.0) × (0 < dep_count names u deps)) deps
dep_count-pos names [] h = tt
dep_count-pos names ((d, kind) ∷ deps) h =
    let (u, is) = h.0 in
    (
      (u, name_to_id-name names d u is, rw is (ground arith)),
      All-map deps (λ e (w, named, pos). (w, named, omega (arith, pos)))
          (dep_count-pos names deps h.1),
    )

dep_edges-lt :
    (names : List Str) (from : ℕ) (rest : List (Str × Service)) (u v : ℕ)
    → v < from
    → dep_edges names from rest u v ≡ 0
dep_edges-lt names from [] u v h = refl
dep_edges-lt names from ((n, svc) ∷ rest) u v h =
    ground (arith, dep_edges-lt names (suc from) rest u v)

key-contains :
    (active : List (Str × Service)) (v : ℕ)
    → v < length active
    → contains (keys active) (get_or (keys active) v []) ≡ true
unfolding contains
key-contains [] v h = absurd (omega arith)
key-contains ((n, svc) ∷ rest) zero h = ground (arith, str_eq_iff n n)
key-contains ((n, svc) ∷ rest) (suc v) h = ground (arith, key-contains rest v)

-- A later service is not shadowed by the first.
lookup-later :
    (n : Str) (svc : Service) (rest : List (Str × Service)) (v : ℕ)
    → v < length rest
    → contains (keys rest) n ≡ false
    → lookup (get_or (keys rest) v []) ((n, svc) ∷ rest) ≡ lookup (get_or (keys rest) v []) rest
unfolding lookup
lookup-later n svc rest v h new = elim (Bool-cases (str_eq n (get_or (keys rest) v []))) [
  | inl e ↦
      let same = (str_eq_iff n (get_or (keys rest) v [])).0 e in
      cc (same, key-contains rest v h, new)
  | inr e ↦ rw e refl
]

-- The service at a node, with the edges into the node that its dependencies make.
node_at :
    (names : List Str) (from : ℕ) (active : List (Str × Service)) (v : ℕ)
    → v < length active
    → Distinct (keys active)
    → All (λ e. All (Resolves names) (deps_of e.1)) active
    → (svc : Service) × (lookup (get_or (keys active) v []) active ≡ some svc)
      × All (Resolves names) (deps_of svc)
      × ((u : ℕ) → dep_edges names from active u (from + v) ≡ dep_count names u (deps_of svc))
unfolding lookup
node_at names from [] v h distinct all = absurd (omega arith)
node_at names from ((n, svc) ∷ rest) zero h distinct all =
    let here : from + 0 ≡ from = omega arith in
    (
      svc,
      ground (arith, str_eq_iff n n),
      all.0,
      λ u. rw here (ground (arith, dep_edges-lt names (suc from) rest u from)),
    )
node_at names from ((n, svc) ∷ rest) (suc v) h distinct all =
    let next : from + suc v ≡ suc from + v = omega arith in
    let (svc', found, resolved, edges) =
      node_at names (suc from) rest v (omega arith) distinct.1 all.1 in
    (
      svc',
      lookup-later n svc rest v (omega arith) distinct.0 ∙ found,
      resolved,
      λ u. rw next (ground (arith, edges u)),
    )

-- What the graph that `build_graph` returns knows of a node.
pub graph-NodeFacts :
    (HashError : Type 0) (active : List (Str × Service)) (g : ServiceGraph)
    → Distinct (keys active)
    → BuildOutcome HashError active (ok g)
    → (v : ℕ) → v < size g
    → NodeFacts active g v
graph-NodeFacts HashError active g distinct (graph, names, edges, all) v lt =
    let here : get_or g.names v [] ≡ get_or (keys active) v [] = ap (λ ns. get_or ns v []) names in
    let in_range : v < length active =
      omega (arith, lt, ap length names, length-map active (λ e. e.0)) in
    let (svc, found, resolved, into) = node_at (keys active) 0 active v in_range distinct all in
    (
      svc,
      rw here found,
      All-map (deps_of svc)
          (λ e (u, named, pos). (
            u,
            ap (λ ns. get_or ns u []) names ∙ named,
            omega (
              arith,
              pos,
              edges u v,
              into u,
              ap (dep_edges (keys active) 0 active u) (zero-add v),
            ),
          ))
          (dep_count-pos (keys active) (deps_of svc) resolved),
    )
