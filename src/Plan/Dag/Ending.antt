-- ===== src/Plan/Dag/Ending.antt =====
-- Where the loop of `topological_waves` ends: all is placed, or the rest is stuck.
use burble.Base.{
  ℕ, zero, suc, ◌+◌, ◌≤◌, ◌<◌, dec_lt, Bool, List, [], ◌∷◌, ◌≡◌, refl, ◌∙◌, ltb, if◌then◌else◌,
  length, get_or, arith, map,
}
use burble.Base.Counts.{count, concat, sum_below-full, sum_below-count, absent_below}
use burble.Plan.Dag.{ServiceGraph, name}
use burble.Plan.Dag.Graph.{size, IsGraph, pending-pos}
use burble.Plan.Dag.Waves.{nodes_where}
use native.Mathlib.Nat.{zero-add}
use burble.Plan.Dag.Schedule.{IsSchedule, IsStuck}
use burble.Plan.Dag.Invariant.{Inv}

-- The nodes that a test on their degrees selects.
module _ (p : ℕ → Bool) where
  nodes_where-lt : (i : ℕ) (degs : List ℕ) (v : ℕ) → v < i → count v (nodes_where p i degs) ≡ 0
  unfolding nodes_where
  nodes_where-lt i [] v h = refl
  nodes_where-lt i (d ∷ degs) v h = ground (arith, nodes_where-lt (suc i) degs v)

  pub nodes_where-ge :
      (i : ℕ) (degs : List ℕ) (v : ℕ) → i + length degs ≤ v → count v (nodes_where p i degs) ≡ 0
  unfolding nodes_where
  nodes_where-ge i [] v h = refl
  nodes_where-ge i (d ∷ degs) v h = ground (arith, nodes_where-ge (suc i) degs v)

  nodes_where-in :
      (i : ℕ) (degs : List ℕ) (v : ℕ)
      → v < length degs
      → count (i + v) (nodes_where p i degs) ≡ (if p (get_or degs v 0) then 1 else 0)
  unfolding nodes_where
  nodes_where-in i [] v h = absurd (omega arith)
  nodes_where-in i (d ∷ degs) zero h =
      let here : i + 0 ≡ i = omega arith in rw here (ground (arith, nodes_where-lt (suc i) degs i))
  nodes_where-in i (d ∷ degs) (suc v) h =
      let next : i + suc v ≡ suc i + v = omega arith in
      rw next (ground (arith, nodes_where-in (suc i) degs v))

  pub count-nodes_where :
      (degs : List ℕ) (v : ℕ)
      → v < length degs
      → count v (nodes_where p 0 degs) ≡ (if p (get_or degs v 0) then 1 else 0)
  count-nodes_where degs v h = rw zero-add at (nodes_where-in 0 degs v h)

-- The queue is empty and some service is not placed.
module _ (g : ServiceGraph) (graph : IsGraph g) {degs : List ℕ} {remaining : ℕ}
    {waves : List (List ℕ)} (inv : Inv g degs remaining [] waves) where
  abbrev pub stuck : List ℕ
  stuck = nodes_where (λ d. ltb 0 d) 0 degs

  count-stuck : (v : ℕ) → v < size g → count v stuck ≡ (if ltb 0 (get_or degs v 0) then 1 else 0)
  count-stuck v lt = count-nodes_where (λ d. ltb 0 d) degs v (rw inv.degs_size lt)

  stuck_of_absent : (v : ℕ) → v < size g → count v (concat waves) ≡ 0 → 0 < count v stuck
  stuck_of_absent v lt absent = ground (arith, count-stuck v lt, inv.ready v lt)

  stuck-in_range : (v : ℕ) → 0 < count v stuck → v < size g
  stuck-in_range v h = elim (dec_lt v (size g)) [
    | yes lt ↦ lt
    | no ge ↦
        absurd
          (omega (arith, nodes_where-ge (λ d. ltb 0 d) 0 degs v (rw inv.degs_size (omega arith))))
  ]

  pub stuck-IsStuck : 0 < remaining → IsStuck g (map (name g) stuck)
  stuck-IsStuck pos =
      let (node, lt, absent) =
        absent_below (size g) (concat waves) (λ i le. omega (arith, inv.below i le))
          (omega (arith, inv.left)) in
      record {
        nodes = stuck;
        named = refl;
        node = node;
        listed = stuck_of_absent node lt absent;
        in_range = stuck-in_range;
        blocked = λ v h.
            let (u, ult, free, edge) =
              pending-pos g (concat waves) v
                (ground (arith, count-stuck v (stuck-in_range v h), inv.degrees v)) in
            (u, stuck_of_absent u ult free, edge);
      }

  pub finished-IsSchedule : remaining ≡ 0 → IsSchedule g waves
  finished-IsSchedule none_left = record {
    placed =
        sum_below-full (size g) (λ i. count i (concat waves)) (λ i _. inv.once i)
          (sum_below-count (size g) (concat waves) (λ i le. omega (arith, inv.below i le))
            ∙ omega (arith, inv.left));
    nothing_else = λ v le. omega (arith, inv.below v le);
    ordered = inv.ordered;
  }
