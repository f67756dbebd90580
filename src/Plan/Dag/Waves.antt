-- ===== src/Plan/Dag/Waves.antt =====
-- `topological_waves` of dag.rs. `none` stands for a panic of the source (a subtraction below 0), or
-- for more rounds than the fuel allows; Plan.Dag.Kahn shows that neither happens on a built graph.
use burble.Base.{
  ℕ, zero, suc, ◌-◌, Bool, List, [], ◌∷◌, ◌++◌, map, Option, none, some, Result, ok, err, ◌==◌, leb,
  ltb, if◌then◌else◌, length, get_or, set,
}
use burble.Base.Counts.{sort}
use burble.Plan.Dag.{ServiceGraph, EdgeKind, outgoing, name}
use burble.Plan.Error.{PlanError, cycle}

-- `a -= b` on `usize`.
abbrev pub checked_sub : ℕ → ℕ → Option ℕ
checked_sub a b = if leb b a then some (a - b) else none

-- The ids of the degrees that satisfy a test, in ascending order; `i` is the id of the first.
unfoldable pub nodes_where : (ℕ → Bool) → ℕ → List ℕ → List ℕ
nodes_where p i [] = []
nodes_where p i (d ∷ degs) =
    if p d then i ∷ nodes_where p (suc i) degs else nodes_where p (suc i) degs

-- `for &(succ, _kind) in graph.outgoing(node)`
unfoldable pub release : List (ℕ × EdgeKind) → List ℕ → List ℕ → Option (List ℕ × List ℕ)
release [] in_degree next_seeds = some (in_degree, next_seeds)
release ((succ, kind) ∷ edges) in_degree next_seeds =
    elim (checked_sub (get_or in_degree succ 0) 1) [
      | none ↦ none
      | some deg ↦
          release edges (set in_degree succ deg)
            (if deg == 0 then next_seeds ++ succ ∷ [] else next_seeds)
    ]

-- `for &node in &wave`
unfoldable pub release_wave : ServiceGraph → List ℕ → List ℕ → List ℕ → Option (List ℕ × List ℕ)
unfolding release
release_wave graph [] in_degree next_seeds = some (in_degree, next_seeds)
release_wave graph (node ∷ wave) in_degree next_seeds =
    elim (release (outgoing graph node) in_degree next_seeds) [
      | none ↦ none
      | some (in_degree', next_seeds') ↦ release_wave graph wave in_degree' next_seeds'
    ]

module _ {HashError : Type 0} where
  -- Behind the loop. The names of a graph are the keys of a `BTreeMap` in order, so ascending ids
  -- give the order of the `BTreeSet` that the source collects them in.
  unfoldable pub finish :
      ServiceGraph → List ℕ → ℕ → List (List ℕ) → Result (PlanError HashError) (List (List ℕ))
  unfolding nodes_where
  finish graph in_degree remaining waves =
      if ltb 0 remaining
      then err (cycle (map (name graph) (nodes_where (λ d. ltb 0 d) 0 in_degree)))
      else ok waves

  -- `while !queue.is_empty()`
  unfoldable pub waves_from :
      (fuel : ℕ) (graph : ServiceGraph) (in_degree : List ℕ) (remaining : ℕ) (queue : List ℕ)
      (waves : List (List ℕ))
      → Option (Result (PlanError HashError) (List (List ℕ)))
  unfolding release_wave finish sort
  waves_from fuel graph in_degree remaining [] waves = some (finish graph in_degree remaining waves)
  waves_from zero graph in_degree remaining (node ∷ queue) waves = none
  waves_from (suc fuel) graph in_degree remaining (node ∷ queue) waves =
      let wave = sort (node ∷ queue) in
      elim (checked_sub remaining (length wave)) [
        | none ↦ none
        | some remaining' ↦ elim (release_wave graph wave in_degree []) [
          | none ↦ none
          | some (in_degree', next_seeds) ↦
              waves_from fuel graph in_degree' remaining' (sort next_seeds) (waves ++ wave ∷ [])
        ]
      ]

  -- Every round places a service, so one round for each service is enough.
  unfoldable pub topological_waves :
      ServiceGraph → Option (Result (PlanError HashError) (List (List ℕ)))
  unfolding waves_from
  topological_waves graph =
      waves_from (length graph.names) graph graph.in_degree (length graph.names)
        (nodes_where (λ d. d == 0) 0 graph.in_degree) []
