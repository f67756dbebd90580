-- ===== src/Plan/Planner/Gate.antt =====
-- The order that a plan promises: what stands before an operation when it is its turn.
use burble.Base.{
  true, false, List, [], ◌∷◌, ◌++◌, some, Str, ◌≡◌, refl, sym, ap, subst, All, contains, lookup,
  append_assoc, append-nil,
}
use burble.Plan.Dag.{deps_of, healthy_dependencies}
use burble.Plan.Ops.{Op, run_container, wait_healthy}
use burble.Schema.{Service}

-- The services that are run, and those that are waited for.
abbrev pub runs : List Op → List Str
runs [] = []
runs (run_container spec ∷ ops) = spec.service ∷ runs ops
runs (op ∷ ops) = runs ops

abbrev pub waits : List Op → List Str
waits [] = []
waits (wait_healthy spec ∷ ops) = spec.service ∷ waits ops
waits (op ∷ ops) = waits ops

pub runs-append : (xs ys : List Op) → runs (xs ++ ys) ≡ runs xs ++ runs ys
runs-append [] ys = refl
runs-append (run_container spec ∷ xs) ys = ap (◌∷◌ spec.service) (runs-append xs ys)
runs-append (_ ∷ xs) ys = runs-append xs ys

pub waits-append : (xs ys : List Op) → waits (xs ++ ys) ≡ waits xs ++ waits ys
waits-append [] ys = refl
waits-append (wait_healthy spec ∷ xs) ys = ap (◌∷◌ spec.service) (waits-append xs ys)
waits-append (_ ∷ xs) ys = waits-append xs ys

-- Behind the operations `before`, a service may be run if its dependencies were run and those that
-- must be healthy were waited for; it may be waited for if it was run, and was not waited for.
abbrev pub Allowed : List (Str × Service) → List Op → Op → Type 0
Allowed active before (run_container spec) =
    (svc : Service)
    → lookup spec.service active ≡ some svc
    → All (λ e. contains (runs before) e.0 ≡ true) (deps_of svc)
      × All (λ d. contains (waits before) d ≡ true) (healthy_dependencies svc)
Allowed active before (wait_healthy spec) =
    (contains (runs before) spec.service ≡ true) × (contains (waits before) spec.service ≡ false)
Allowed active before op = Unit

abbrev pub Gated : List (Str × Service) → List Op → List Op → Type 0
Gated active before [] = Unit
Gated active before (op ∷ ops) = Allowed active before op × Gated active (before ++ op ∷ []) ops

module _ (active : List (Str × Service)) where
  pub Gated-snoc :
      (before ops : List Op) (op : Op)
      → Gated active before ops
      → Allowed active (before ++ ops) op
      → Gated active before (ops ++ op ∷ [])
  Gated-snoc before [] op g a = (subst (λ b. Allowed active b op) (append-nil before) a, tt)
  Gated-snoc before (x ∷ xs) op g a = (
    g.0,
    Gated-snoc (before ++ x ∷ []) xs op g.1
        (subst (λ b. Allowed active b op) (sym (append_assoc before (x ∷ []) xs)) a),
  )

  pub Gated-split :
      (before pre : List Op) (op : Op) (post : List Op)
      → Gated active before (pre ++ op ∷ post)
      → Allowed active (before ++ pre) op
  Gated-split before [] op post g = subst (λ b. Allowed active b op) (sym (append-nil before)) g.0
  Gated-split before (x ∷ pre) op post g =
      subst (λ b. Allowed active b op) (append_assoc before (x ∷ []) pre)
        (Gated-split (before ++ x ∷ []) pre op post g.1)
