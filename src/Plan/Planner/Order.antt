-- ===== src/Plan/Planner/Order.antt =====
-- The loop of `plan` over all waves.
use burble.Base.{
  ℕ, ◌<◌, List, [], ◌∷◌, ◌++◌, map, Option, none, some, Str, Result, ok, err, ◌≡◌, sym, ap, subst,
  ◌∙◌, All, All-map, contains, lookup, arith, append_assoc, append-nil, str_eq_refl,
}
use burble.Base.Counts.{count, count-append, concat}
use burble.Plan.Dag.{ServiceGraph, name, deps_of}
use burble.Plan.Dag.Graph.{size}
use burble.Plan.Dag.Release.{mult}
use burble.Plan.Dag.Schedule.{Ordered}
use burble.Plan.Error.{PlanError}
use burble.Plan.Ops.{Op}
use burble.Plan.Planner.Waiting.{In, IsEmitted}
use burble.Plan.Planner.Emission.{
  Ready, RunsOutcome, HashFails, wave_waits-Waits, wave_runs-Outcome,
}
use burble.Plan.Planner.Gate.{runs, Gated}
use burble.Plan.Planner.{Emitted, wave_ops}
use burble.Schema.{Service}
use mathlib.Core.List.{map-append}

All-count : (P : ℕ → Type 0) (xs : List ℕ) → ((v : ℕ) → 0 < count v xs → P v) → All P xs
All-count P [] h = tt
All-count P (x ∷ xs) h = (h x (ground arith), All-count P xs (λ v l. h v (ground arith)))

All-zip {ℓ} :
    {A : Type ℓ} (P Q : A → Type 0) (xs : List A) → All P xs → All Q xs → All (λ x. P x × Q x) xs
All-zip P Q [] h k = tt
All-zip P Q (x ∷ xs) h k = ((h.0, k.0), All-zip P Q xs h.1 k.1)

In-map : (f : ℕ → Str) (xs : List ℕ) (v : ℕ) → 0 < count v xs → In (map f xs) (f v)
unfolding contains
In-map f [] v h = absurd (omega arith)
In-map f (x ∷ xs) v h = ground (arith, In-map f xs v, str_eq_refl (f v))

-- The node has a service, and an edge from a node for each of its dependencies.
abbrev pub NodeFacts : List (Str × Service) → ServiceGraph → ℕ → Type 0
NodeFacts active g v =
    (svc : Service) × (lookup (name g v) active ≡ some svc)
    × All (λ e. (u : ℕ) × (name g u ≡ e.0) × (0 < mult g u v)) (deps_of svc)

module _ {HashError : Type 0} (service_hash : Service → Result HashError Str) (project_name : Str)
    (active : List (Str × Service)) (g : ServiceGraph)
    (facts : (v : ℕ) → v < size g → NodeFacts active g v) where
  wave-Ready :
      (placed wave : List ℕ)
      → ((u v : ℕ) → 0 < count v wave → 0 < mult g u v → 0 < count u placed)
      → ((v : ℕ) → 0 < count v wave → v < size g)
      → All (Ready active g project_name (map (name g) placed)) wave
  wave-Ready placed wave ordered below =
      All-count (Ready active g project_name (map (name g) placed)) wave λ v l.
        let (svc, found, deps) = facts v (below v l) in
        (
          svc,
          found,
          All-map (deps_of svc)
              (λ e (u, named, edge).
                subst (In (map (name g) placed)) named
                  (In-map (name g) placed u (ordered u v l edge)))
              deps,
        )

  abbrev pub OpsOutcome : List ℕ → Option (Result (PlanError HashError) (List Op)) → Type 0
  OpsOutcome placed none = ⊥
  OpsOutcome placed (some (ok ops)) = Gated active [] ops × (runs ops ≡ map (name g) placed)
  OpsOutcome placed (some (err e)) = HashFails active service_hash e

  pub wave_ops-Outcome :
      (waves : List (List ℕ)) (placed : List ℕ) (s : Emitted)
      → IsEmitted active s
      → runs s.ops ≡ map (name g) placed
      → Ordered g placed waves
      → ((v : ℕ) → 0 < count v (concat waves) → v < size g)
      → OpsOutcome (placed ++ concat waves) (wave_ops service_hash project_name active g waves s)
  unfolding wave_ops
  wave_ops-Outcome [] placed s v ran ordered below = (v.gated, ran ∙ rw append-nil)
  wave_ops-Outcome (wave ∷ waves) placed s v ran ordered below =
      let in_wave = λ (v : ℕ) (l : 0 < count v wave).
        below v (omega (arith, l, count-append v wave (concat waves))) in
      let ready = wave-Ready placed wave ordered.0 in_wave in
      let (s', returns, w, waited) =
        wave_waits-Waits active g project_name wave s v (rw ran ready) in
      let ran' = w.same_runs ∙ ran in
      let runnable =
        All-zip _ _ wave
          (subst (λ names. All (Ready active g project_name names) wave) (sym ran') ready) waited in
      rw (returns, wave_ops)
        (go s' w.valid ran' (wave_ops-Outcome waves (placed ++ wave)) _
          (wave_runs-Outcome active g project_name service_hash wave s'.ops w.valid.gated runnable))
    where
      go :
          (s' : Emitted)
          → IsEmitted active s'
          → runs s'.ops ≡ map (name g) placed
          → ((t : Emitted)
              → IsEmitted active t
              → runs t.ops ≡ map (name g) (placed ++ wave)
              → Ordered g (placed ++ wave) waves
              → ((v : ℕ) → 0 < count v (concat waves) → v < size g)
              → OpsOutcome
                  ((placed ++ wave) ++ concat waves)
                  (wave_ops service_hash project_name active g waves t))
          → (r : Option (Result (PlanError HashError) (List Op)))
          → RunsOutcome active g project_name service_hash wave s'.ops r
          → OpsOutcome (placed ++ (wave ++ concat waves)) (elim r [
            | none ↦ none
            | some (err e) ↦ some (err e)
            | some (ok ops) ↦
                wave_ops service_hash project_name active g waves
                  (record { ops = ops; waits = s'.waits })
          ])
      go s' v' ran' ih none o = o
      go s' v' ran' ih (some (err e)) o = o
      go s' v' ran' ih (some (ok ops)) (gated, ran_all, waited_same) = rw append_assoc at (
          ih (record { ops = ops; waits = s'.waits })
            (record { gated = gated; tracked = v'.tracked ∙ sym waited_same })
            (ran_all
              ∙ ap (λ names. names ++ map (name g) wave) ran'
              ∙ sym (map-append _ placed wave))
            ordered.1 (λ v l. below v (omega (arith, l, count-append v wave (concat waves)))))
