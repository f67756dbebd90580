-- ===== src/Plan/Dag/Graph.antt =====
-- Well-formed graphs, and the in-degree that is left once some nodes are placed.
use burble.Base.{
  ℕ, ◌+◌, ◌≤◌, ◌<◌, dec_lt, List, [], ◌∷◌, ◌++◌, ◌≡◌, ap, ◌==◌, if◌then◌else◌, length, get_or,
  arith, append_assoc, append-nil, get_or-ge,
}
use burble.Base.Counts.{
  count, count-append, sum_below, sum_below-term, sum_below-move, sum_below-pos,
}
use burble.Plan.Dag.{ServiceGraph}
use burble.Plan.Dag.Release.{targets, mult, wave_mult}

abbrev pub size : ServiceGraph → ℕ
size g = length g.names

-- The in-degree of a node is the number of edges that end at it.
pub record IsGraph (g : ServiceGraph) : Type 0 where
  pub edges_size : length g.edges ≡ size g
  pub degrees_size : length g.in_degree ≡ size g
  pub degrees : (v : ℕ) → get_or g.in_degree v 0 ≡ sum_below (size g) (λ u. mult g u v)

-- The edges to `v` from the nodes that are not in `placed`.
abbrev pub open_edge : ServiceGraph → List ℕ → ℕ → ℕ → ℕ
open_edge g placed v u = if count u placed == 0 then mult g u v else 0

abbrev pub pending : ServiceGraph → List ℕ → ℕ → ℕ
pending g placed v = sum_below (size g) (open_edge g placed v)

module _ (g : ServiceGraph) where
  pending-place :
      (placed : List ℕ) (u v : ℕ)
      → u < size g
      → count u placed ≡ 0
      → pending g placed v ≡ mult g u v + pending g (placed ++ u ∷ []) v
  pending-place placed u v lt absent =
      let move =
        sum_below-move (size g) (open_edge g placed v) (open_edge g (placed ++ u ∷ []) v) u lt
          (λ i ne. ground (arith, count-append i placed (u ∷ []))) in
      ground (arith, move, count-append u placed (u ∷ []))

  -- Placing a wave closes the edges that leave it.
  pub pending-wave :
      (wave placed : List ℕ) (v : ℕ)
      → ((i : ℕ) → count i placed + count i wave ≤ 1)
      → ((i : ℕ) → size g ≤ i → count i wave ≡ 0)
      → pending g placed v ≡ wave_mult g wave v + pending g (placed ++ wave) v
  pending-wave [] placed v once below = rw append-nil (omega arith)
  pending-wave (u ∷ us) placed v once below =
      let lt : u < size g = ground (arith, below u) in
      let first = pending-place placed u v lt (ground (arith, once u)) in
      let rest =
        pending-wave us (placed ++ u ∷ []) v
          (λ i. ground (arith, once i, count-append i placed (u ∷ [])))
          (λ i le. ground (arith, below i)) in
      let same = ap (λ p. pending g p v) (append_assoc placed (u ∷ []) us) in
      omega (arith, first, rest, same)

  pub pending-eq-zero :
      (placed : List ℕ) (v u : ℕ)
      → length g.edges ≡ size g
      → pending g placed v ≡ 0
      → 0 < mult g u v
      → 0 < count u placed
  pending-eq-zero placed v u edges none_left edge = elim (dec_lt u (size g)) [
    | yes lt ↦ ground (arith, sum_below-term (size g) (open_edge g placed v) u lt)
    | no ge ↦
        let gone = ap (λ es. count v (targets es)) (get_or-ge g.edges u [] (omega arith)) in
        absurd (omega (arith, gone))
  ]

  pub pending-pos :
      (placed : List ℕ) (v : ℕ)
      → 0 < pending g placed v
      → (u : ℕ) × (u < size g) × (count u placed ≡ 0) × (0 < mult g u v)
  pending-pos placed v pos =
      let (u, lt, p) = sum_below-pos (size g) (open_edge g placed v) pos in
      (u, lt, ground arith, ground arith)
