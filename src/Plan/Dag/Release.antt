-- ===== src/Plan/Dag/Release.antt =====
-- What one wave does to the in-degrees and to the seeds of the next wave.
use burble.Base.{
  ℕ, ◌+◌, ◌-◌, ◌≤◌, ◌<◌, true, List, [], ◌∷◌, ◌++◌, Option, some, ◌≡◌, refl, ◌∙◌, ◌==◌, leb, ltb,
  ◌&&◌, if◌then◌else◌, length, get_or, set, arith, get_or-set, length-set,
}
use burble.Base.Counts.{count, count-append}
use burble.Plan.Dag.{ServiceGraph, EdgeKind, outgoing}
use burble.Plan.Dag.Waves.{release, release_wave}

-- The ends of the edges of a node, and of the nodes of a wave.
abbrev pub targets : List (ℕ × EdgeKind) → List ℕ
targets [] = []
targets ((succ, kind) ∷ edges) = succ ∷ targets edges

-- The number of edges from `u` to `v`.
abbrev pub mult : ServiceGraph → ℕ → ℕ → ℕ
mult g u v = count v (targets (outgoing g u))

abbrev pub wave_mult : ServiceGraph → List ℕ → ℕ → ℕ
wave_mult g [] v = 0
wave_mult g (u ∷ us) v = mult g u v + wave_mult g us v

-- 1 for a node that loses all the edges it has left, of which there are some.
abbrev pub freed : (lost left : ℕ) → ℕ
freed lost left = if ltb 0 lost && left == 0 then 1 else 0

-- The step takes `lost v` from the in-degree of each node `v`, and adds the freed nodes to the seeds.
pub record Releases (lost : ℕ → ℕ) (degs seeds : List ℕ) (r : Option (List ℕ × List ℕ))
    : Type 0 where
  pub degs' : List ℕ
  pub seeds' : List ℕ
  pub returns : r ≡ some (degs', seeds')
  pub size : length degs' ≡ length degs
  pub lowers : (v : ℕ) → get_or degs' v 0 + lost v ≡ get_or degs v 0
  pub frees : (v : ℕ) → count v seeds' ≡ count v seeds + freed (lost v) (get_or degs' v 0)

release-Releases :
    (edges : List (ℕ × EdgeKind)) (degs seeds : List ℕ)
    → ((v : ℕ) → count v (targets edges) ≤ get_or degs v 0)
    → Releases (λ v. count v (targets edges)) degs seeds (release edges degs seeds)
unfolding release
release-Releases [] degs seeds h = record {
  degs' = degs;
  seeds' = seeds;
  returns = refl;
  size = refl;
  lowers = λ v. omega arith;
  frees = λ v. ground arith;
}
release-Releases ((t, kind) ∷ edges) degs seeds h =
    let d = get_or degs t 0 in
    let pos : 0 < d = ground (arith, h t) in
    let step : leb 1 d ≡ true = ground arith in
    let degs1 = set degs t (d - 1) in
    let seeds1 = if d - 1 == 0 then seeds ++ t ∷ [] else seeds in
    let read = λ (v : ℕ). get_or-set degs t (d - 1) v pos in
    let rest = release-Releases edges degs1 seeds1 (λ v. ground (arith, h v, read v, h t)) in
    record {
      degs' = rest.degs';
      seeds' = rest.seeds';
      returns = rw (step, release) rest.returns;
      size = rest.size ∙ length-set degs t (d - 1);
      lowers = λ v. ground (arith, rest.lowers v, read v, h t);
      frees = λ v.
          ground (arith, rest.frees v, rest.lowers v, read v, h v, count-append v seeds (t ∷ []));
    }

pub release_wave-Releases :
    (g : ServiceGraph) (wave degs seeds : List ℕ)
    → ((v : ℕ) → wave_mult g wave v ≤ get_or degs v 0)
    → Releases (wave_mult g wave) degs seeds (release_wave g wave degs seeds)
unfolding release_wave
release_wave-Releases g [] degs seeds h = record {
  degs' = degs;
  seeds' = seeds;
  returns = refl;
  size = refl;
  lowers = λ v. omega arith;
  frees = λ v. ground arith;
}
release_wave-Releases g (u ∷ us) degs seeds h =
    let here = release-Releases (outgoing g u) degs seeds (λ v. omega (arith, h v)) in
    let rest =
      release_wave-Releases g us here.degs' here.seeds' (λ v. omega (arith, h v, here.lowers v)) in
    record {
      degs' = rest.degs';
      seeds' = rest.seeds';
      returns = rw (here.returns, release_wave) rest.returns;
      size = omega (arith, rest.size, here.size);
      lowers = λ v. omega (arith, rest.lowers v, here.lowers v);
      frees = λ v. ground (arith, rest.frees v, rest.lowers v, here.frees v, here.lowers v);
    }
