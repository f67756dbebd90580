-- ===== src/Base/Counts.antt =====
-- How often a number stands in a list, sums over the numbers below a bound, and sorting.
use Prim.Native.Nat.{ℕ, zero, suc, ◌+◌, ◌-◌, ◌≤◌, ◌<◌}
use mathlib.Core.Path.{◌≡◌, refl}
use mathlib.Core.List.{List, [], ◌∷◌, ◌++◌, append-nil, append_assoc}
use mathlib.Core.Logic.{◌≢◌, inl, inr}
use native.Mathlib.Omega.{arith}
use burble.Base.Lists.{length}
use burble.Base.Tests.{◌==◌, leb, ltb, if◌then◌else◌, Bool-cases}

abbrev pub count : ℕ → List ℕ → ℕ
count node [] = 0
count node (first ∷ others) = (if first == node then 1 else 0) + count node others

pub count-append :
    (node : ℕ) (front back : List ℕ)
    → count node (front ++ back) ≡ count node front + count node back
count-append node [] back = ground arith
count-append node (first ∷ others) back = ground (arith, count-append node others back)

pub count-one : (a b : ℕ) → count a (b ∷ []) ≡ (if b == a then 1 else 0)
count-one a b = ground arith

-- `sort_unstable` on node ids: equal ids are the same value, so any sort gives this list.
insert : ℕ → List ℕ → List ℕ
insert a [] = a ∷ []
insert a (x ∷ xs) = if leb a x then a ∷ x ∷ xs else x ∷ insert a xs

unfoldable pub sort : List ℕ → List ℕ
unfolding insert
sort [] = []
sort (x ∷ xs) = insert x (sort xs)

count-insert : (a b : ℕ) (xs : List ℕ) → count a (insert b xs) ≡ count a (b ∷ xs)
unfolding insert
count-insert a b [] = refl
count-insert a b (x ∷ xs) = ground (arith, count-insert a b xs)

pub count-sort : (a : ℕ) (xs : List ℕ) → count a (sort xs) ≡ count a xs
unfolding sort
count-sort a [] = refl
count-sort a (x ∷ xs) = ground (arith, count-insert a x (sort xs), count-sort a xs)

length-insert : (b : ℕ) (xs : List ℕ) → length (insert b xs) ≡ suc (length xs)
unfolding insert
length-insert b [] = refl
length-insert b (x ∷ xs) = ground (arith, length-insert b xs)

pub length-sort : (xs : List ℕ) → length (sort xs) ≡ length xs
unfolding sort
length-sort [] = refl
length-sort (x ∷ xs) = ground (arith, length-insert x (sort xs), length-sort xs)

abbrev pub concat {ℓ} : {A : Type ℓ} → List (List A) → List A
concat [] = []
concat (xs ∷ xss) = xs ++ concat xss

abbrev pub sum_below : ℕ → (ℕ → ℕ) → ℕ
sum_below zero f = 0
sum_below (suc n) f = f n + sum_below n f

pub sum_below-le :
    (n : ℕ) (f g : ℕ → ℕ) → ((i : ℕ) → i < n → f i ≤ g i) → sum_below n f ≤ sum_below n g
sum_below-le zero f g h = omega arith
sum_below-le (suc n) f g h =
    omega (arith, h n (omega arith), sum_below-le n f g (λ i lt. h i (omega arith)))

pub sum_below-congr :
    (n : ℕ) (f g : ℕ → ℕ) → ((i : ℕ) → i < n → f i ≡ g i) → sum_below n f ≡ sum_below n g
sum_below-congr zero f g h = refl
sum_below-congr (suc n) f g h =
    omega (arith, h n (omega arith), sum_below-congr n f g (λ i lt. h i (omega arith)))

pub sum_below-one : (n : ℕ) → sum_below n (λ i. 1) ≡ n
sum_below-one zero = refl
sum_below-one (suc n) = omega (arith, sum_below-one n)

pub sum_below-zero : (n : ℕ) → sum_below n (λ i. 0) ≡ 0
sum_below-zero zero = refl
sum_below-zero (suc n) = omega (arith, sum_below-zero n)

pub sum_below-add :
    (n : ℕ) (f g : ℕ → ℕ) → sum_below n (λ i. f i + g i) ≡ sum_below n f + sum_below n g
sum_below-add zero f g = omega arith
sum_below-add (suc n) f g = omega (arith, sum_below-add n f g)

-- A term of a sum is at most the sum.
pub sum_below-term : (n : ℕ) (f : ℕ → ℕ) (i : ℕ) → i < n → f i ≤ sum_below n f
sum_below-term zero f i h = absurd (omega arith)
sum_below-term (suc n) f i h = elim (Bool-cases (i == n)) [
  | inl e ↦ ground arith
  | inr e ↦ let rest = sum_below-term n f i (ground arith) in omega (arith, rest)
]

-- If the sum is not 0, some term is not.
pub sum_below-pos : (n : ℕ) (f : ℕ → ℕ) → 0 < sum_below n f → (i : ℕ) × (i < n) × (0 < f i)
sum_below-pos zero f h = absurd (omega arith)
sum_below-pos (suc n) f h = elim (Bool-cases (f n == 0)) [
  | inl e ↦ let (i, lt, p) = sum_below-pos n f (ground arith) in (i, omega arith, p)
  | inr e ↦ (n, omega arith, ground arith)
]

-- Changing one term changes the sum by as much.
pub sum_below-move :
    (n : ℕ) (f g : ℕ → ℕ) (k : ℕ)
    → k < n
    → ((i : ℕ) → i ≢ k → f i ≡ g i)
    → sum_below n f + g k ≡ sum_below n g + f k
sum_below-move zero f g k h same = absurd (omega arith)
sum_below-move (suc n) f g k h same = elim (Bool-cases (k == n)) [
  | inl e ↦
      let k_is : k ≡ n = ground arith in
      let rest = sum_below-congr n f g (λ i lt. same i (omega arith)) in ground (arith, rest)
  | inr e ↦
      let k_ne : k ≢ n = ground arith in
      omega (arith, sum_below-move n f g k (omega arith) same, same n (omega arith))
]

sum_below-indicator :
    (n k : ℕ) → sum_below n (λ i. if k == i then 1 else 0) ≡ (if ltb k n then 1 else 0)
sum_below-indicator zero k = ground arith
sum_below-indicator (suc n) k = ground (arith, sum_below-indicator n k)

-- If all members of a list are below `n`, the counts of the numbers below `n` add up to its length.
pub sum_below-count :
    (n : ℕ) (xs : List ℕ)
    → ((i : ℕ) → n ≤ i → count i xs ≡ 0)
    → sum_below n (λ i. count i xs) ≡ length xs
sum_below-count n [] h = sum_below-zero n
sum_below-count n (x ∷ xs) h =
    let rest = sum_below-count n xs (λ i le. ground (arith, h i le)) in
    let split = sum_below-add n (λ i. if x == i then 1 else 0) (λ i. count i xs) in
    ground (arith, rest, split, sum_below-indicator n x, h x)

-- Terms of at most 1 that add up to `n` are all 1.
pub sum_below-full :
    (n : ℕ) (f : ℕ → ℕ)
    → ((i : ℕ) → i < n → f i ≤ 1)
    → sum_below n f ≡ n
    → (i : ℕ) → i < n
    → f i ≡ 1
sum_below-full zero f h e i lt = absurd (omega arith)
sum_below-full (suc n) f h e i lt =
    let small = sum_below-le n f (λ _. 1) (λ j l. h j (omega arith)) in
    let last = h n (omega arith) in
    let total = sum_below-one n in
    elim (Bool-cases (i == n)) [
      | inl same ↦ ground arith
      | inr other ↦ sum_below-full n f (λ j l. h j (omega arith)) (omega arith) i (ground arith)
    ]

-- If a list holds fewer than `n` items, all below `n`, some number below `n` does not stand in it.
pub absent_below :
    (n : ℕ) (xs : List ℕ)
    → ((i : ℕ) → n ≤ i → count i xs ≡ 0)
    → length xs < n
    → (i : ℕ) × (i < n) × (count i xs ≡ 0)
absent_below n xs h short =
    let gap = λ (i : ℕ). 1 - count i xs in
    let total = sum_below-add n (λ i. count i xs) gap in
    let bound = sum_below-le n (λ _. 1) (λ i. count i xs + gap i) (λ i _. omega arith) in
    let (i, lt, pos) =
      sum_below-pos n gap (omega (arith, total, bound, sum_below-one n, sum_below-count n xs h)) in
    (i, lt, omega arith)

pub concat-snoc {ℓ} :
    {A : Type ℓ} (ws : List (List A)) (w : List A) → concat (ws ++ w ∷ []) ≡ concat ws ++ w
concat-snoc [] w = append-nil w
concat-snoc (x ∷ ws) w = simp (concat-snoc ws w, append_assoc)
