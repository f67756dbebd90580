-- ===== src/Plan/Dag/Edges.antt =====
-- One edge of `build_graph` more.
use burble.Base.{
  ℕ, zero, suc, ◌+◌, ◌<◌, ◌&&◌, List, [], ◌∷◌, ◌++◌, some, Str, ◌≡◌, refl, ◌∙◌, ap, ◌==◌,
  if◌then◌else◌, length, get_or, set, arith, length-set,
}
use burble.Base.Counts.{count, sum_below-move}
use burble.Plan.Dag.{ServiceGraph, EdgeKind, outgoing, name_to_id, add_edge}
use burble.Plan.Dag.Graph.{size, IsGraph}
use burble.Plan.Dag.Release.{targets, mult}

pub name_to_id-lt :
    (names : List Str) (s : Str) (i : ℕ) → name_to_id names s ≡ some i → i < length names
unfolding name_to_id
name_to_id-lt [] s i h = cc
name_to_id-lt (n ∷ names) s zero h = omega arith
name_to_id-lt (n ∷ names) s (suc i) h = ground (arith, name_to_id-lt names s i)

targets-append :
    (xs : List (ℕ × EdgeKind)) (u : ℕ) (kind : EdgeKind) (v : ℕ)
    → count v (targets (xs ++ (u, kind) ∷ [])) ≡ count v (targets xs) + (if u == v then 1 else 0)
targets-append [] u kind v = ground arith
targets-append ((t, k) ∷ xs) u kind v = ground (arith, targets-append xs u kind v)

get_or-set_list {ℓ} :
    {A : Type ℓ} (xs : List A) (i j : ℕ) (v d : A)
    → i < length xs
    → get_or (set xs i v) j d ≡ (if i == j then v else get_or xs j d)
get_or-set_list [] i j v d h = absurd (omega arith)
get_or-set_list (x ∷ xs) zero zero v d h = refl
get_or-set_list (x ∷ xs) zero (suc j) v d h = ground arith
get_or-set_list (x ∷ xs) (suc i) zero v d h = ground arith
get_or-set_list (x ∷ xs) (suc i) (suc j) v d h =
    get_or-set_list xs i j v d (omega arith) ∙ ground arith

module _ (g : ServiceGraph) (graph : IsGraph g) (from to : ℕ) (kind : EdgeKind)
    (from_lt : from < size g) (to_lt : to < size g) where
  pub mult-add_edge :
      (u v : ℕ)
      → mult (add_edge g from to kind) u v ≡ mult g u v + (if to == u && from == v then 1 else 0)
  unfolding add_edge
  mult-add_edge u v =
      let read =
        get_or-set_list g.edges to u (outgoing g to ++ (from, kind) ∷ []) []
          (rw graph.edges_size to_lt) in
      let edges = ap (λ es. count v (targets es)) read in
      ground (arith, edges, targets-append (outgoing g to) from kind v)

  pub add_edge-IsGraph : IsGraph (add_edge g from to kind)
  unfolding add_edge
  add_edge-IsGraph = record {
    edges_size = length-set g.edges to _ ∙ graph.edges_size;
    degrees_size = length-set g.in_degree from _ ∙ graph.degrees_size;
    degrees = λ v.
        let new = λ (u : ℕ). mult (add_edge g from to kind) u v in
        let old = λ (u : ℕ). mult g u v in
        let move =
          sum_below-move (size g) new old to to_lt (λ u ne. ground (arith, mult-add_edge u v)) in
        let read =
          get_or-set_list g.in_degree from v (get_or g.in_degree from 0 + 1) 0
            (rw graph.degrees_size from_lt) in
        ground (arith, move, read, mult-add_edge to v, graph.degrees v);
  }
