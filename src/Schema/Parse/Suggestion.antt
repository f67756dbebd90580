-- ===== src/Schema/Parse/Suggestion.antt =====
-- What `did_you_mean` suggests.
use burble.Base.{
  ℕ, ◌≤◌, ◌<◌, Bool, true, false, ◌&&◌, List, [], ◌∷◌, ◌++◌, All, Option, none, some, Str, ◌≡◌,
  refl, ap, subst, sym, ◌⊎◌, inl, inr, if◌then◌else◌, arith, leb, ltb,
}
use burble.Schema.Parse.{closest, did_you_mean}

module _ (distance : Str → ℕ) where
  -- It is within the bound, nearer than all before it and as near as any behind it.
  abbrev pub IsFirstClosest : List Str → Str → Type 0
  IsFirstClosest cs b =
      (before : List Str) × (after : List Str) × (cs ≡ before ++ b ∷ after)
      × (distance b ≤ 3)
      × All (λ c. distance b < distance c) before
      × All (λ c. distance b ≤ distance c) after

  abbrev pub Suggested : List Str → Option Str → Type 0
  Suggested cs none = All (λ c. 3 < distance c) cs
  Suggested cs (some b) = IsFirstClosest cs b

  -- The best so far is kept, or another one is nearer.
  abbrev Improved : (b : Str) → List Str → Option Str → Type 0
  Improved b cs none = ⊥
  Improved b cs (some r) =
      ((r ≡ b) × All (λ c. distance b ≤ distance c) cs)
      ⊎ ((distance r < distance b) × IsFirstClosest cs r)

  -- What improves on the head of a list is the head or behind it.
  head-IsFirstClosest :
      (c : Str) (cs : List Str) (r : Option Str)
      → distance c ≤ 3
      → Improved c cs r
      → Suggested (c ∷ cs) r
  head-IsFirstClosest c cs none near h = absurd h
  head-IsFirstClosest c cs (some r) near (inl (e, all)) =
      subst (λ x. IsFirstClosest (c ∷ cs) x) (sym e) ([], cs, refl, near, tt, all)
  head-IsFirstClosest c cs (some r) near (inr (lt, (before, after, e, le, first, rest))) =
      (c ∷ before, after, ap (λ l. c ∷ l) e, le, (lt, first), rest)

  Improved-le :
      (c : Str) (cs : List Str) (r : Str) → Improved c cs (some r) → distance r ≤ distance c
  Improved-le c cs r (inl (e, all)) = rw e (omega arith)
  Improved-le c cs r (inr (lt, first)) = omega arith

  nearer :
      (b c : Str) (cs : List Str) (r : Option Str)
      → distance c ≤ 3
      → distance c < distance b
      → Improved c cs r
      → Improved b (c ∷ cs) r
  nearer b c cs none near lt h = absurd h
  nearer b c cs (some r) near lt h =
      inr ((let le = Improved-le c cs r h in omega arith), head-IsFirstClosest c cs (some r) near h)

  farther :
      (b c : Str) (cs : List Str) (r : Option Str)
      → distance b ≤ distance c
      → Improved b cs r
      → Improved b (c ∷ cs) r
  farther b c cs none le h = absurd h
  farther b c cs (some r) le (inl (e, all)) = inl (e, (le, all))
  farther b c cs (some r) le (inr (lt, (before, after, e, near, first, rest))) =
      inr (lt, (c ∷ before, after, ap (λ l. c ∷ l) e, near, (omega arith, first), rest))

  closest-Improved :
      (cs : List Str) (b : Str) → distance b ≤ 3 → Improved b cs (closest distance (some b) cs)
  unfolding closest
  closest-Improved [] b near = inl (refl, tt)
  closest-Improved (c ∷ cs) b near =
      go (λ x h. closest-Improved cs x h) (leb (distance c) 3 && ltb (distance c) (distance b)) refl
    where
      go :
          ((x : Str) → distance x ≤ 3 → Improved x cs (closest distance (some x) cs))
          → (t : Bool) → leb (distance c) 3 && ltb (distance c) (distance b) ≡ t
          → Improved b (c ∷ cs) (closest distance (if t then some c else some b) cs)
      go rest true e =
          nearer b c cs _ (ground (arith, e)) (ground (arith, e)) (rest c (ground (arith, e)))
      go rest false e = farther b c cs _ (ground (arith, e)) (rest b near)

  closest-Suggested : (cs : List Str) → Suggested cs (closest distance none cs)
  unfolding closest
  closest-Suggested [] = tt
  closest-Suggested (c ∷ cs) = go (closest-Suggested cs) (leb (distance c) 3) refl
    where
      skip : (r : Option Str) → 3 < distance c → Suggested cs r → Suggested (c ∷ cs) r
      skip none lt h = (lt, h)
      skip (some b) lt (before, after, e, near, first, rest) =
          (c ∷ before, after, ap (λ l. c ∷ l) e, near, (omega arith, first), rest)

      go :
          Suggested cs (closest distance none cs)
          → (t : Bool) → leb (distance c) 3 ≡ t
          → Suggested (c ∷ cs) (closest distance (if t then some c else none) cs)
      go h true e =
          head-IsFirstClosest c cs _ (ground (arith, e)) (closest-Improved cs c (ground (arith, e)))
      go h false e = skip _ (ground (arith, e)) h

-- A suggestion is a candidate whose distance to the input is at most 3, smaller than that of all
-- candidates before it and no greater than that of any behind it; if there is none, every candidate is
-- farther away than 3.
pub did_you_mean-Suggested :
    (levenshtein : Str → Str → ℕ) (input : Str) (candidates : List Str)
    → Suggested (levenshtein input) candidates (did_you_mean levenshtein input candidates)
unfolding did_you_mean
did_you_mean-Suggested levenshtein input candidates =
    closest-Suggested (levenshtein input) candidates
