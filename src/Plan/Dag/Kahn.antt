-- ===== src/Plan/Dag/Kahn.antt =====
-- `topological_waves` on every well-formed graph.
use burble.Base.{
  ℕ, zero, suc, ◌-◌, ◌≤◌, true, List, [], ◌∷◌, ◌++◌, Option, some, Result, ok, err, ◌≡◌, ◌==◌, leb,
  ltb, length, arith, Bool-cases, inl, inr,
}
use burble.Base.Counts.{sort, length-sort}
use burble.Plan.Dag.{ServiceGraph}
use burble.Plan.Dag.Graph.{size, IsGraph}
use burble.Plan.Dag.Waves.{nodes_where, finish, waves_from, topological_waves}
use burble.Plan.Error.{PlanError, cycle}
use burble.Plan.Dag.Schedule.{IsSchedule, IsStuck}
use burble.Plan.Dag.Invariant.{Inv, step, Inv-step, length-wave-le}
use burble.Plan.Dag.Ending.{nodes_where-ge, count-nodes_where, stuck-IsStuck, finished-IsSchedule}

-- What the planner's sort ends with: never a panic, nor a lack of fuel.
abbrev pub Outcome :
    (HashError : Type 0)
    → ServiceGraph
    → Option (Result (PlanError HashError) (List (List ℕ)))
    → Type 0
Outcome HashError g (some (ok waves)) = IsSchedule g waves
Outcome HashError g (some (err (cycle path))) = IsStuck g path
Outcome HashError g _ = ⊥

module _ (HashError : Type 0) where
  finish-Outcome :
      (g : ServiceGraph) (degs : List ℕ) (remaining : ℕ) (waves : List (List ℕ))
      → IsGraph g
      → Inv g degs remaining [] waves
      → Outcome HashError g (some (finish g degs remaining waves))
  unfolding finish
  finish-Outcome g degs remaining waves graph inv = elim (Bool-cases (ltb 0 remaining)) [
    | inl e ↦ rw e (stuck-IsStuck g graph inv (ground arith))
    | inr e ↦ rw e (finished-IsSchedule g graph inv (ground arith))
  ]

  waves_from-Outcome :
      (fuel : ℕ) (g : ServiceGraph) (degs : List ℕ) (remaining : ℕ) (queue : List ℕ)
      (waves : List (List ℕ))
      → IsGraph g
      → remaining ≤ fuel
      → Inv g degs remaining queue waves
      → Outcome HashError g (waves_from fuel g degs remaining queue waves)
  unfolding waves_from
  waves_from-Outcome fuel g degs remaining [] waves graph enough inv =
      finish-Outcome g degs remaining waves graph inv
  waves_from-Outcome zero g degs remaining (q ∷ qs) waves graph enough inv =
      absurd (omega (arith, length-wave-le g graph inv, length-sort (q ∷ qs)))
  waves_from-Outcome (suc fuel) g degs remaining (q ∷ qs) waves graph enough inv =
      let fits : leb (length (sort (q ∷ qs))) remaining ≡ true =
        ground (arith, length-wave-le g graph inv) in
      let done = step g graph inv in
      let rest =
        waves_from-Outcome fuel g done.degs' (remaining - length (sort (q ∷ qs))) (sort done.seeds')
          (waves ++ sort (q ∷ qs) ∷ []) graph (omega (arith, length-sort (q ∷ qs)))
          (Inv-step g graph inv) in
      rw (fits, done.returns, waves_from) rest

start-Inv :
    (g : ServiceGraph)
    → IsGraph g
    → Inv g g.in_degree (size g) (nodes_where (λ d. d == 0) 0 g.in_degree) []
start-Inv g graph = record {
  degs_size = graph.degrees_size;
  once = λ v. omega arith;
  below = λ v le.
      omega
        (arith, nodes_where-ge (λ d. d == 0) 0 g.in_degree v (rw graph.degrees_size (omega arith)));
  left = omega arith;
  degrees = graph.degrees;
  released = λ v h. absurd (omega arith);
  ready = λ v lt. count-nodes_where (λ d. d == 0) g.in_degree v (rw graph.degrees_size lt);
  ordered = tt;
}

-- On every well-formed graph the sort returns, with no subtraction below 0 and within one round for
-- each service. If it succeeds, every service stands in exactly one wave, nothing else does, and
-- each stands in a later wave than every service with an edge to it. If it fails, the error is a
-- cycle whose listed services are not empty, and each has an edge from a listed one.
pub topological_waves-Outcome :
    (HashError : Type 0) (g : ServiceGraph) → IsGraph g → Outcome HashError g (topological_waves g)
unfolding topological_waves
topological_waves-Outcome HashError g graph =
    waves_from-Outcome HashError (size g) g g.in_degree (size g)
      (nodes_where (λ d. d == 0) 0 g.in_degree) [] graph (omega arith) (start-Inv g graph)
