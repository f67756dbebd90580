-- ===== src/Plan/Dag/Invariant.antt =====
-- The invariant of the loop of `topological_waves`, and that a round keeps it.
use burble.Base.{
  ℕ, ◌+◌, ◌-◌, ◌≤◌, ◌<◌, dec_lt, List, [], ◌∷◌, ◌++◌, ◌≡◌, ◌∙◌, ◌==◌, ◌&&◌, if◌then◌else◌, length,
  get_or, arith, append_assoc, append-nil, get_or-ge, length-append,
}
use burble.Base.Counts.{
  count, count-append, concat, concat-snoc, sort, count-sort, sum_below-le, sum_below-one,
  sum_below-count,
}
use burble.Plan.Dag.{ServiceGraph}
use burble.Plan.Dag.Graph.{size, IsGraph, pending, pending-wave, pending-eq-zero}
use burble.Plan.Dag.Release.{mult, wave_mult, Releases, release_wave-Releases}
use burble.Plan.Dag.Waves.{release_wave}
use burble.Plan.Dag.Schedule.{Ordered}

-- The invariant at the head of the `while` loop.
pub record Inv (g : ServiceGraph) (degs : List ℕ) (remaining : ℕ) (queue : List ℕ)
    (waves : List (List ℕ)) : Type 0 where
  pub degs_size : length degs ≡ size g
  pub once : (v : ℕ) → count v (concat waves) ≤ 1
  pub below : (v : ℕ) → size g ≤ v → count v (concat waves) + count v queue ≡ 0
  pub left : remaining + length (concat waves) ≡ size g
  pub degrees : (v : ℕ) → get_or degs v 0 ≡ pending g (concat waves) v
  pub released : (v : ℕ) → 0 < count v (concat waves) → get_or degs v 0 ≡ 0
  pub ready :
      (v : ℕ)
      → v < size g
      → count v queue ≡ (if count v (concat waves) == 0 && get_or degs v 0 == 0 then 1 else 0)
  pub ordered : Ordered g [] waves

Ordered-snoc :
    (g : ServiceGraph) (waves : List (List ℕ)) (placed wave : List ℕ)
    → Ordered g placed waves
    → ((u v : ℕ) → 0 < count v wave → 0 < mult g u v → 0 < count u (placed ++ concat waves))
    → Ordered g placed (waves ++ wave ∷ [])
Ordered-snoc g [] placed wave o h = (rw append-nil at h, tt)
Ordered-snoc g (w ∷ ws) placed wave o h =
    (o.0, Ordered-snoc g ws (placed ++ w) wave o.1 (rw (append_assoc placed w (concat ws)) h))

module _ (g : ServiceGraph) (graph : IsGraph g) {degs : List ℕ} {remaining : ℕ} {queue : List ℕ}
    {waves : List (List ℕ)} (inv : Inv g degs remaining queue waves) where
  abbrev pub wave : List ℕ
  wave = sort queue

  abbrev pub placed : List ℕ
  placed = concat waves

  once-wave : (v : ℕ) → count v placed + count v wave ≤ 1
  once-wave v = elim (dec_lt v (size g)) [
    | yes lt ↦ ground (arith, inv.ready v lt, inv.once v, count-sort v queue)
    | no ge ↦ omega (arith, inv.below v (omega arith), count-sort v queue)
  ]

  pub length-wave-le : length wave ≤ remaining
  length-wave-le =
      let all = placed ++ wave in
      let total =
        sum_below-count (size g) all
          (λ i le. omega (arith, inv.below i le, count-append i placed wave, count-sort i queue)) in
      let bound =
        sum_below-le (size g) (λ i. count i all) (λ _. 1)
          (λ i _. omega (arith, once-wave i, count-append i placed wave)) in
      omega (arith, total, bound, sum_below-one (size g), inv.left, length-append placed wave)

  split : (v : ℕ) → pending g placed v ≡ wave_mult g wave v + pending g (placed ++ wave) v
  split v =
      pending-wave g wave placed v once-wave
        (λ i le. omega (arith, inv.below i le, count-sort i queue))

  pub step : Releases (wave_mult g wave) degs [] (release_wave g wave degs [])
  step = release_wave-Releases g wave degs [] (λ v. omega (arith, inv.degrees v, split v))

  wave-ready : (v : ℕ) → 0 < count v wave → get_or degs v 0 ≡ 0
  wave-ready v h = elim (dec_lt v (size g)) [
    | yes lt ↦ ground (arith, inv.ready v lt, count-sort v queue)
    | no ge ↦ absurd (omega (arith, inv.below v (omega arith), count-sort v queue))
  ]

  settled : (v : ℕ) → 0 < count v (placed ++ wave) → get_or degs v 0 ≡ 0
  settled v h = elim (dec_lt 0 (count v placed)) [
    | yes old ↦ inv.released v old
    | no new ↦ wave-ready v (omega (arith, count-append v placed wave))
  ]

  pub Inv-step : Inv g step.degs' (remaining - length wave) (sort step.seeds') (waves ++ wave ∷ [])
  Inv-step = record {
    degs_size = step.size ∙ inv.degs_size;
    once =
        λ v. rw (concat-snoc waves wave) (omega (arith, once-wave v, count-append v placed wave));
    below = λ v le. rw (concat-snoc waves wave) (
        ground (
          arith,
          inv.below v le,
          count-append v placed wave,
          count-sort v queue,
          count-sort v step.seeds',
          step.frees v,
          step.lowers v,
          get_or-ge degs v 0 (rw inv.degs_size le),
        ));
    left =
        rw (concat-snoc waves wave)
          (omega (arith, inv.left, length-wave-le, length-append placed wave));
    degrees =
        λ v. rw (concat-snoc waves wave) (omega (arith, inv.degrees v, split v, step.lowers v));
    released = λ v. rw (concat-snoc waves wave) (λ h. omega (arith, settled v h, step.lowers v));
    ready = λ v lt. rw (concat-snoc waves wave) (
        ground (
          arith,
          step.frees v,
          step.lowers v,
          count-sort v step.seeds',
          count-sort v queue,
          count-append v placed wave,
          inv.ready v lt,
          settled v,
        ));
    ordered = Ordered-snoc g waves [] wave inv.ordered (λ u v h edge.
        pending-eq-zero g placed v u graph.edges_size (omega (arith, wave-ready v h, inv.degrees v))
          edge);
  }
