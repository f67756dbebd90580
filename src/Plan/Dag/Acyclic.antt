-- ===== src/Plan/Dag/Acyclic.antt =====
-- Cycles are reported for cyclic graphs only.
use burble.Base.{
  ℕ, zero, suc, ◌<◌, List, Option, none, some, Result, ok, err, ◌≡◌, refl, arith, Str,
}
use burble.Base.Counts.{count}
use burble.Plan.Dag.{ServiceGraph}
use burble.Plan.Dag.Graph.{IsGraph}
use burble.Plan.Dag.Kahn.{Outcome, topological_waves-Outcome}
use burble.Plan.Dag.Release.{mult}
use burble.Plan.Dag.Schedule.{IsStuck, IsSchedule}
use burble.Plan.Dag.Waves.{topological_waves}
use burble.Plan.Error.{PlanError, cycle}

-- The edges lead upwards, so there is no cycle.
abbrev pub IsRanked : (ℕ → ℕ) → ServiceGraph → Type 0
IsRanked rank g = (u v : ℕ) → 0 < mult g u v → rank u < rank v

module _ (rank : ℕ → ℕ) (g : ServiceGraph) (ranked : IsRanked rank g) where
  descent : {path : List Str} (s : IsStuck g path) (k v : ℕ) → rank v < k → 0 < count v s.nodes → ⊥
  descent s zero v below listed = absurd (omega arith)
  descent s (suc k) v below listed =
      let (u, listed', edge) = s.blocked v listed in
      descent s k u (omega (arith, ranked u v edge)) listed'

  abbrev Scheduled :
      (HashError : Type 0) → Option (Result (PlanError HashError) (List (List ℕ))) → Type 0
  Scheduled HashError r = (waves : List (List ℕ)) × (r ≡ some (ok waves)) × IsSchedule g waves

  Scheduled-Outcome :
      (HashError : Type 0) (r : Option (Result (PlanError HashError) (List (List ℕ))))
      → Outcome HashError g r
      → Scheduled HashError r
  Scheduled-Outcome HashError none o = elim o [ ]
  Scheduled-Outcome HashError (some (ok waves)) o = (waves, refl, o)
  Scheduled-Outcome HashError (some (err (cycle path))) o =
      absurd (descent o (suc (rank o.node)) o.node (omega arith) o.listed)
  Scheduled-Outcome HashError (some (err _)) o = elim o [ ]

-- Every well-formed graph whose edges lead upwards in some ranking, that is one with no cycle, is
-- sorted with no error, and the result is a schedule.
pub topological_waves-IsRanked :
    (HashError : Type 0) (rank : ℕ → ℕ) (g : ServiceGraph)
    → IsGraph g
    → IsRanked rank g
    → (waves : List (List ℕ)) × (topological_waves {HashError = HashError} g ≡ some (ok waves))
      × IsSchedule g waves
topological_waves-IsRanked HashError rank g graph ranked =
    Scheduled-Outcome rank g ranked HashError _ (topological_waves-Outcome HashError g graph)
