-- ===== src/Plan/Planner/Outcome.antt =====
-- `plan` from its fifth step on, all of it: every plan and every error.
use burble.Base.{
  Distinct, keys, ℕ, ◌<◌, ◌≤◌, List, [], map, Option, none, some, Str, Result, ok, err, ◌≡◌, refl,
  sym, ap, subst, ◌∙◌, get_or, length, length-map, arith, Bool-cases, inl, inr, ltb,
}
use burble.Base.Counts.{count, concat}
use burble.Plan.Dag.{ServiceGraph, build_graph}
use burble.Plan.Dag.Build.{BuildOutcome, MissingIn, build_graph-Outcome}
use burble.Plan.Dag.Graph.{size}
use burble.Plan.Dag.Kahn.{Outcome, topological_waves-Outcome}
use burble.Plan.Dag.Schedule.{IsSchedule, IsStuck}
use burble.Plan.Dag.Waves.{topological_waves}
use burble.Plan.Error.{PlanError, cycle, missing_dependency, config_hash}
use burble.Plan.Ops.{Op, Plan}
use burble.Plan.Planner.Setup.{first_ops-Neutral}
use burble.Plan.Planner.{first_ops, emit_plan, plan_active, Emitted}
use burble.Plan.Planner.Emission.{HashFails}
use burble.Plan.Planner.Gate.{runs, Gated}
use burble.Plan.Planner.Nodes.{graph-NodeFacts}
use burble.Plan.Planner.Order.{OpsOutcome, wave_ops-Outcome}
use burble.Schema.{Compose, Service}

-- Every active service is run exactly once, in the order of the waves, and each operation is allowed
-- behind those before it.
pub record IsPlan (active : List (Str × Service)) (p : Plan) : Type 0 where
  pub gated : Gated active [] p.ops
  pub ran : runs p.ops ≡ map (λ v. get_or (keys active) v []) (concat p.waves)
  pub placed : (v : ℕ) → v < length active → count v (concat p.waves) ≡ 1
  pub nothing_else : (v : ℕ) → length active ≤ v → count v (concat p.waves) ≡ 0

schedule-below :
    (g : ServiceGraph) (waves : List (List ℕ))
    → IsSchedule g waves
    → (v : ℕ) → 0 < count v (concat waves)
    → v < size g
schedule-below g waves schedule v l = elim (Bool-cases (ltb v (size g))) [
  | inl e ↦ ground arith
  | inr e ↦ absurd (omega (arith, l, schedule.nothing_else v (ground arith)))
]

module _ {Value HashError : Type 0} (service_hash : Service → Result HashError Str)
    (compose : Compose Value) (project_name : Str) (active : List (Str × Service)) where
  -- What `plan` ends with.
  abbrev pub PlanOutcome : Option (Result (PlanError HashError) Plan) → Type 0
  PlanOutcome none = ⊥
  PlanOutcome (some (ok p)) = IsPlan active p
  PlanOutcome (some (err (missing_dependency from to))) =
      MissingIn HashError (keys active) from to active
  PlanOutcome (some (err (cycle path))) =
      (g : ServiceGraph) × (build_graph {HashError = HashError} active ≡ ok g) × IsStuck g path
  PlanOutcome (some (err e)) = HashFails active service_hash e

  HashFails-PlanOutcome :
      (e : PlanError HashError) → HashFails active service_hash e → PlanOutcome (some (err e))
  HashFails-PlanOutcome (config_hash s source) h = h
  HashFails-PlanOutcome (missing_dependency from to) h = elim h [ ]
  HashFails-PlanOutcome (cycle path) h = elim h [ ]
  HashFails-PlanOutcome _ h = h

  emit_plan-Outcome :
      Distinct (keys active)
      → (g : ServiceGraph) (waves : List (List ℕ)) → BuildOutcome HashError active (ok g)
      → IsSchedule g waves
      → PlanOutcome (emit_plan service_hash compose project_name active g waves)
  unfolding emit_plan
  emit_plan-Outcome distinct g waves built schedule =
      let first = first_ops-Neutral active service_hash compose project_name in
      let start : Emitted = record {
        ops = first_ops service_hash compose project_name active;
        waits = [];
      } in
      go _ (
        wave_ops-Outcome service_hash project_name active g
          (graph-NodeFacts HashError active g distinct built) waves [] start
          (record { gated = first.gated []; tracked = sym first.no_waits }) first.no_runs
          schedule.ordered (schedule-below g waves schedule))
    where
      same_size : size g ≡ length active
      same_size = ap length built.1 ∙ length-map active (λ e. e.0)

      go :
          (r : Option (Result (PlanError HashError) (List Op)))
          → OpsOutcome service_hash project_name active g
              (graph-NodeFacts HashError active g distinct built)
              (concat waves)
              r
          → PlanOutcome (elim r [
            | none ↦ none
            | some (err e) ↦ some (err e)
            | some (ok ops) ↦
                some (ok (record { ops = ops; waves = waves; project_name = project_name }))
          ])
      go none o = o
      go (some (err e)) o = HashFails-PlanOutcome e o
      go (some (ok ops)) (gated, ran) = record {
        gated = gated;
        ran = subst (λ ns. runs ops ≡ map (λ v. get_or ns v []) (concat waves)) built.1 ran;
        placed = λ v lt. schedule.placed v (omega (arith, lt, same_size));
        nothing_else = λ v le. schedule.nothing_else v (omega (arith, le, same_size));
      }

  -- From its fifth step on, the planner of services with distinct names always returns. A plan runs
  -- every active service exactly once, in the order of its waves; a service is run only after all of
  -- its dependencies were run and those that must be healthy were waited for, and a service is
  -- waited for at most once, after it was run. A missing dependency is an error that names a
  -- service and a dependency of it that no active service has; a cycle lists services of the built
  -- graph that each depend on a listed one; any other error is that of an active service's hash.
  pub plan_active-Outcome :
      Distinct (keys active) → PlanOutcome (plan_active service_hash compose project_name active)
  unfolding plan_active
  plan_active-Outcome distinct =
      built (build_graph active) refl (build_graph-Outcome HashError active)
    where
      sorted :
          (g : ServiceGraph)
          → build_graph {HashError = HashError} active ≡ ok g
          → BuildOutcome HashError active (ok g)
          → (r : Option (Result (PlanError HashError) (List (List ℕ)))) → Outcome HashError g r
          → PlanOutcome (elim r [
            | none ↦ none
            | some (err e) ↦ some (err e)
            | some (ok waves) ↦ emit_plan service_hash compose project_name active g waves
          ])
      sorted g e b none o = elim o [ ]
      sorted g e b (some (ok waves)) o = emit_plan-Outcome distinct g waves b o
      sorted g e b (some (err (cycle path))) o = (g, e, o)
      sorted g e b (some (err _)) o = elim o [ ]

      built :
          (r : Result (PlanError HashError) ServiceGraph)
          → build_graph active ≡ r
          → BuildOutcome HashError active r
          → PlanOutcome (elim r [
            | err e ↦ some (err e)
            | ok graph ↦ elim (topological_waves graph) [
              | none ↦ none
              | some (err e) ↦ some (err e)
              | some (ok waves) ↦ emit_plan service_hash compose project_name active graph waves
            ]
          ])
      built (ok g) e b =
          sorted g e b (topological_waves g) (topological_waves-Outcome HashError g b.0)
      built (err (missing_dependency from to)) e b = b
      built (err (cycle path)) e b = elim b [ ]
      built (err _) e b = elim b [ ]
