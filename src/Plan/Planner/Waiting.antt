-- ===== src/Plan/Planner/Waiting.antt =====
-- The waits that the planner emits before a wave.
use burble.Base.{
  true, false, List, [], ◌∷◌, ◌++◌, map, Str, ◌≡◌, refl, ap, ◌∙◌, All, All-map, contains,
  contains-append, contains_self, arith, append-nil, Bool-cases, inl, inr,
}
use burble.Plan.Dag.{
  deps_of, healthy_dependencies, healthy_names, kind_of, EdgeKind, started_before,
}
use burble.Plan.Ops.{Op, wait_healthy}
use burble.Plan.Planner.Gate.{runs, waits, runs-append, waits-append, Gated, Gated-snoc}
use burble.Plan.Planner.{Emitted, emit_waits}
use burble.Plan.Render.{container_name_of}
use burble.Schema.{Service, DependsOn, DependsOnSpec, DependsCondition}

-- `names` holds the service.
abbrev pub In : List Str → Str → Type 0
In names s = contains names s ≡ true

pub In-append : (xs ys : List Str) (s : Str) → In xs s → In (xs ++ ys) s
In-append xs ys s h = ground (arith, contains-append xs ys s)

-- `wait_healthy_emitted` holds the services that are waited for.
pub record IsEmitted (active : List (Str × Service)) (s : Emitted) : Type 0 where
  pub gated : Gated active [] s.ops
  pub tracked : s.waits ≡ waits s.ops

-- The step runs nothing, and waits for all of `deps`.
pub record Waits (active : List (Str × Service)) (deps : List Str) (s s' : Emitted) : Type 0 where
  pub valid : IsEmitted active s'
  pub same_runs : runs s'.ops ≡ runs s.ops
  pub keeps : (d : Str) → In (waits s.ops) d → In (waits s'.ops) d
  pub waited : All (In (waits s'.ops)) deps

All-append : (P : Str → Type 0) (xs ys : List Str) → All P xs → All P ys → All P (xs ++ ys)
All-append P [] ys h k = k
All-append P (x ∷ xs) ys h k = (h.0, All-append P xs ys h.1 k)

module _ (active : List (Str × Service)) (project_name : Str) where
  abbrev wait_op : Str → Op
  wait_op dep_name =
      wait_healthy
        (record { service = dep_name; container_name = container_name_of project_name dep_name })

  pub add_wait : Str → Emitted → Emitted
  add_wait dep_name s = record s {
    ops = s.ops ++ wait_op dep_name ∷ [];
    waits = s.waits ++ dep_name ∷ [];
  }

  pub add_wait-Waits :
      (d : Str) (s : Emitted)
      → IsEmitted active s
      → In (runs s.ops) d
      → contains s.waits d ≡ false
      → Waits active (d ∷ []) s (add_wait d s)
  unfolding add_wait
  add_wait-Waits d s v ran new = record {
    valid = record {
      gated = Gated-snoc active [] s.ops (wait_op d) v.gated (ran, rw v.tracked at new);
      tracked = rw waits-append (ap (λ w. w ++ d ∷ []) v.tracked);
    };
    same_runs = rw (runs-append, append-nil);
    keeps = λ e h. rw waits-append (In-append (waits s.ops) (waits (wait_op d ∷ [])) e h);
    waited = (rw waits-append (contains_self (waits s.ops) d), tt);
  }

  pub Waits-refl : (s : Emitted) → IsEmitted active s → Waits active [] s s
  Waits-refl s v = record { valid = v; same_runs = refl; keeps = λ d h. h; waited = tt }

  Waits-trans :
      (ds es : List Str) (s t u : Emitted)
      → Waits active ds s t
      → Waits active es t u
      → Waits active (ds ++ es) s u
  Waits-trans ds es s t u a b = record {
    valid = b.valid;
    same_runs = b.same_runs ∙ a.same_runs;
    keeps = λ d h. b.keeps d (a.keeps d h);
    waited = All-append _ ds es (All-map ds b.keeps a.waited) b.waited;
  }

  pub emit_waits-Waits :
      (deps : List Str) (s : Emitted)
      → IsEmitted active s
      → All (In (runs s.ops)) deps
      → Waits active deps s (emit_waits project_name deps s)
  unfolding emit_waits add_wait
  emit_waits-Waits [] s v ran = Waits-refl s v
  emit_waits-Waits (d ∷ deps) s v ran = elim (Bool-cases (contains s.waits d)) [
    | inl old ↦
        rw (old, emit_waits)
          (Waits-trans (d ∷ []) deps s s _
            (record {
              valid = v;
              same_runs = refl;
              keeps = λ e h. h;
              waited = (rw v.tracked at old, tt);
            })
            (emit_waits-Waits deps s v ran.1))
    | inr new ↦
        let added = add_wait-Waits d s v ran.0 new in
        rw (new, emit_waits)
          (Waits-trans (d ∷ []) deps s (add_wait d s) _ added
            (emit_waits-Waits deps (add_wait d s) added.valid (rw added.same_runs ran.1)))
  ]

-- The dependencies that must be healthy are dependencies.
healthy_names-All :
    (P : Str → Type 0) (deps : List (Str × DependsOnSpec))
    → All {A = Str × EdgeKind} (λ e. P e.0) (map (λ d. (d.0, kind_of d.1.condition)) deps)
    → All P (healthy_names deps)
unfolding healthy_names
healthy_names-All P [] h = tt
healthy_names-All P ((d, spec) ∷ deps) h = go spec.condition (healthy_names-All P deps h.1)
  where
    go :
        (c : DependsCondition)
        → All P (healthy_names deps)
        → All P (elim c [
          | DependsCondition.service_healthy ↦ d ∷ healthy_names deps
          | _ ↦ healthy_names deps
        ])
    go DependsCondition.service_healthy ih = (h.0, ih)
    go DependsCondition.service_started ih = ih
    go DependsCondition.service_completed_successfully ih = ih

pub healthy_dependencies-All :
    (P : Str → Type 0) (svc : Service)
    → All (λ e. P e.0) (deps_of svc)
    → All P (healthy_dependencies svc)
unfolding healthy_dependencies deps_of
healthy_dependencies-All P svc = go svc.depends_on
  where
    go :
        (d : DependsOn)
        → All {A = Str × EdgeKind}
            (λ e. P e.0)
            (elim d [
              | DependsOn.empty ↦ []
              | DependsOn.list names ↦ map (λ n. (n, started_before)) names
              | DependsOn.map deps ↦ map (λ d. (d.0, kind_of d.1.condition)) deps
            ])
        → All {A = Str} P (elim d [ DependsOn.map deps ↦ healthy_names deps | _ ↦ [] ])
    go DependsOn.empty h = tt
    go (DependsOn.list names) h = tt
    go (DependsOn.map deps) h = healthy_names-All P deps h
