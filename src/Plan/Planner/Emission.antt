-- ===== src/Plan/Planner/Emission.antt =====
-- The loops of `plan` over the waves keep the promised order.
use burble.Base.{
  ℕ, List, [], ◌∷◌, ◌++◌, map, Option, none, some, Str, Result, ok, err, ◌≡◌, refl, sym, subst, ◌∙◌,
  All, All-map, lookup, append_assoc, append-nil,
}
use burble.Plan.Dag.{ServiceGraph, name, deps_of, healthy_dependencies}
use burble.Plan.Error.{PlanError, config_hash}
use burble.Plan.Ops.{Op, RunSpec, run_container}
use burble.Plan.Planner.Gate.{runs, waits, runs-append, waits-append, Allowed, Gated, Gated-snoc}
use burble.Plan.Planner.{Emitted, wave_waits, wave_runs}
use burble.Plan.Render.{run_spec}
use burble.Schema.{Service}
use burble.Plan.Planner.Waiting.{
  In, In-append, IsEmitted, Waits, Waits-refl, emit_waits-Waits, healthy_dependencies-All,
}

-- The hash of the active service that the error names fails, and the error passes its cause on.
abbrev pub HashFails :
    {HashError : Type 0}
    → List (Str × Service)
    → (Service → Result HashError Str)
    → PlanError HashError
    → Type 0
HashFails active service_hash (config_hash s source) =
    (svc : Service) × (lookup s active ≡ some svc) × (service_hash svc ≡ err source)
HashFails active service_hash e = ⊥

module _ (active : List (Str × Service)) (graph : ServiceGraph) (project_name : Str) where
  -- The service at the node, whose dependencies are all in `names`.
  abbrev pub Ready : List Str → ℕ → Type 0
  Ready names v =
      (svc : Service) × (lookup (name graph v) active ≡ some svc)
      × All (λ e. In names e.0) (deps_of svc)

  abbrev pub Waited : List Op → ℕ → Type 0
  Waited ops v =
      (svc : Service)
      → lookup (name graph v) active ≡ some svc
      → All (In (waits ops)) (healthy_dependencies svc)

  pub wave_waits-Waits :
      (wave : List ℕ) (s : Emitted)
      → IsEmitted active s
      → All (Ready (runs s.ops)) wave
      → (s' : Emitted) × (wave_waits project_name active graph wave s ≡ some s')
        × Waits active [] s s'
        × All (Waited s'.ops) wave
  unfolding wave_waits
  wave_waits-Waits [] s v ready = (s, refl, Waits-refl active project_name s v, tt)
  wave_waits-Waits (node ∷ wave) s v ready =
      let (svc, found, ran) = ready.0 in
      let here =
        emit_waits-Waits active project_name (healthy_dependencies svc) s v
          (healthy_dependencies-All (In (runs s.ops)) svc ran) in
      let (s', returns, later, waited) =
        wave_waits-Waits wave _ here.valid (rw here.same_runs ready.1) in
      (
        s',
        rw (found, wave_waits) returns,
        record {
          valid = later.valid;
          same_runs = later.same_runs ∙ here.same_runs;
          keeps = λ d h. later.keeps d (here.keeps d h);
          waited = tt;
        },
        (
          (λ svc' found'.
              let same : svc ≡ svc' = cc (sym found ∙ found') in
              subst (λ x. All (In (waits s'.ops)) (healthy_dependencies x)) same
                (All-map (healthy_dependencies svc) later.keeps here.waited)),
          waited,
        ),
      )

  -- The last loop adds one run for each node, in order, or ends with an error of the hash.
  abbrev pub RunsOutcome :
      {HashError : Type 0}
      → (Service → Result HashError Str)
      → List ℕ
      → List Op
      → Option (Result (PlanError HashError) (List Op))
      → Type 0
  RunsOutcome service_hash wave ops none = ⊥
  RunsOutcome service_hash wave ops (some (ok ops')) =
      Gated active [] ops'
      × (runs ops' ≡ runs ops ++ map (name graph) wave)
      × (waits ops' ≡ waits ops)
  RunsOutcome service_hash wave ops (some (err e)) = HashFails active service_hash e

  -- What a service needs to run.
  abbrev pub Runnable : List Op → ℕ → Type 0
  Runnable ops v = Ready (runs ops) v × Waited ops v

  Allowed-run :
      (ops : List Op) (v : ℕ) (svc : Service) (hash : Str)
      → Runnable ops v
      → Allowed active ops (run_container (run_spec project_name (name graph v) svc hash))
  unfolding run_spec
  Allowed-run ops v svc hash (ready, waited) svc' found =
      let (svc'', found'', ran) = ready in
      let same : svc'' ≡ svc' = cc (sym found'' ∙ found) in
      (subst (λ x. All (λ e. In (runs ops) e.0) (deps_of x)) same ran, waited svc' found)

  Runnable-grow :
      (ops : List Op) (spec : RunSpec) (v : ℕ)
      → Runnable ops v
      → Runnable (ops ++ run_container spec ∷ []) v
  Runnable-grow ops spec v ((svc, found, ran), waited) = (
    (
      svc,
      found,
      rw runs-append
          (All-map (deps_of svc) (λ e. In-append (runs ops) (spec.service ∷ []) e.0) ran),
    ),
    rw (waits-append, append-nil) waited,
  )

  abbrev run_op : ℕ → Service → Str → Op
  run_op node svc hash = run_container (run_spec project_name (name graph node) svc hash)

  RunsOutcome-cons :
      {HashError : Type 0} (service_hash : Service → Result HashError Str) (node : ℕ)
      (wave : List ℕ) (ops : List Op) (svc : Service) (hash : Str)
      (r : Option (Result (PlanError HashError) (List Op)))
      → RunsOutcome service_hash wave (ops ++ run_op node svc hash ∷ []) r
      → RunsOutcome service_hash (node ∷ wave) ops r
  unfolding run_spec
  RunsOutcome-cons service_hash node wave ops svc hash (some (ok ops')) (g, ran, waited) =
      (g, ran ∙ rw (runs-append, append_assoc), waited ∙ rw (waits-append, append-nil))
  RunsOutcome-cons service_hash node wave ops svc hash (some (err e)) o = o
  RunsOutcome-cons service_hash node wave ops svc hash none o = o

  pub wave_runs-Outcome :
      {HashError : Type 0} (service_hash : Service → Result HashError Str) (wave : List ℕ)
      (ops : List Op)
      → Gated active [] ops
      → All (Runnable ops) wave
      → RunsOutcome service_hash wave ops
          (wave_runs service_hash project_name active graph wave ops)
  unfolding wave_runs
  wave_runs-Outcome service_hash [] ops g ready = (g, sym (append-nil _), refl)
  wave_runs-Outcome {HashError} service_hash (node ∷ wave) ops g ready =
      let (svc, found, ran) = ready.0.0 in
      rw (found, wave_runs)
        (go svc found (wave_runs-Outcome service_hash wave) (service_hash svc) refl)
    where
      go :
          (svc : Service)
          → lookup (name graph node) active ≡ some svc
          → ((ops' : List Op)
              → Gated active [] ops'
              → All (Runnable ops') wave
              → RunsOutcome service_hash wave ops'
                  (wave_runs service_hash project_name active graph wave ops'))
          → (r : Result HashError Str) → service_hash svc ≡ r
          → RunsOutcome service_hash (node ∷ wave) ops (elim r [
            | err source ↦ some (err (config_hash (name graph node) source))
            | ok hash ↦
                wave_runs service_hash project_name active graph wave
                  (ops ++ run_op node svc hash ∷ [])
          ])
      go svc found ih (err source) e = (svc, found, e)
      go svc found ih (ok hash) e =
          let spec = run_spec project_name (name graph node) svc hash in
          RunsOutcome-cons service_hash node wave ops svc hash _ (
            ih (ops ++ run_container spec ∷ [])
              (Gated-snoc active [] ops (run_container spec) g
                (Allowed-run ops node svc hash ready.0))
              (All-map wave (Runnable-grow ops spec) ready.1))
