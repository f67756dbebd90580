-- ===== src/Plan/Dag/Schedule.antt =====
-- What a result of `topological_waves` promises.
use burble.Base.{ℕ, ◌≤◌, ◌<◌, List, [], ◌∷◌, ◌++◌, ◌≡◌, map, Str}
use burble.Base.Counts.{count, concat}
use burble.Plan.Dag.{ServiceGraph, name}
use burble.Plan.Dag.Graph.{size}
use burble.Plan.Dag.Release.{mult}

-- Each node of a wave has its predecessors in `placed` or in the waves before.
abbrev pub Ordered : ServiceGraph → List ℕ → List (List ℕ) → Type 0
Ordered g placed [] = Unit
Ordered g placed (wave ∷ waves) =
    ((u v : ℕ) → 0 < count v wave → 0 < mult g u v → 0 < count u placed)
    × Ordered g (placed ++ wave) waves

-- Every service stands in exactly one wave, nothing else does, and each service stands in a later
-- wave than those that have an edge to it.
pub record IsSchedule (g : ServiceGraph) (waves : List (List ℕ)) : Type 0 where
  pub placed : (v : ℕ) → v < size g → count v (concat waves) ≡ 1
  pub nothing_else : (v : ℕ) → size g ≤ v → count v (concat waves) ≡ 0
  pub ordered : Ordered g [] waves

-- The services on the path are not empty, and each has an edge from one of them.
pub record IsStuck (g : ServiceGraph) (path : List Str) : Type 0 where
  pub nodes : List ℕ
  pub named : path ≡ map (name g) nodes
  pub node : ℕ
  pub listed : 0 < count node nodes
  pub in_range : (v : ℕ) → 0 < count v nodes → v < size g
  pub blocked : (v : ℕ) → 0 < count v nodes → (u : ℕ) × (0 < count u nodes) × (0 < mult g u v)
