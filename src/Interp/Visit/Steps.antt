-- ===== src/Interp/Visit/Steps.antt =====
-- A chain of fallible steps, and the strings that it expands.
use burble.Base.{
  List, [], ◌∷◌, ◌++◌, Option, none, some, Str, Result, ok, err, ◌>>=◌, traverse, traverse_option,
  traverse_values, ◌≡◌, sym, subst, refl, ap, ◌∙◌,
}

-- The strings of the parts.
abbrev pub one : Str → List Str
one s = s ∷ []

module _ {A : Type 0} (strings : A → List Str) where
  abbrev pub in_option : Option A → List Str
  in_option none = []
  in_option (some a) = strings a ++ []

  abbrev pub in_list : List A → List Str
  in_list [] = []
  in_list (a ∷ as') = strings a ++ in_list as'

  abbrev pub in_values : List (Str × A) → List Str
  in_values [] = []
  in_values ((k, a) ∷ m) = strings a ++ in_values m

module _ {E : Type 0} (f : Str → Result E Str) where
  traverse-append :
      (xs ys : List Str)
      → traverse f (xs ++ ys) ≡ (traverse f xs >>= λ us. traverse f ys >>= λ vs. ok (us ++ vs))
  traverse-append [] ys = go (traverse f ys)
    where
      go : (r : Result E (List Str)) → r ≡ (r >>= λ vs. ok ([] ++ vs))
      go (ok vs) = refl
      go (err e) = refl
  traverse-append (x ∷ xs) ys =
      go (f x) (traverse f xs) (traverse f ys) (traverse f (xs ++ ys)) (traverse-append xs ys)
    where
      go :
          (first : Result E Str) (front back all : Result E (List Str))
          → all ≡ (front >>= λ us. back >>= λ vs. ok (us ++ vs))
          → (first >>= λ y. all >>= λ zs. ok (y ∷ zs))
            ≡ ((first >>= λ y. front >>= λ zs. ok (y ∷ zs)) >>= λ us. back >>= λ vs. ok (us ++ vs))
      go (err e) front back all h = refl
      go (ok y) (err e) back all h = rw h refl
      go (ok y) (ok us) (err e) all h = rw h refl
      go (ok y) (ok us) (ok vs) all h = rw h refl

-- The steps expand the strings `inputs` by `f`, in order. If one fails, that is how they end; if none
-- does, the result has the property with the expanded strings.
pub data Steps {E A : Type 0} (f : Str → Result E Str) (m : Result E A) (inputs : List Str)
    (P : List Str → A → Type 0) : Type 0 where
  returns :
      (a : A) (out : List Str)
      → m ≡ ok a
      → traverse f inputs ≡ ok out
      → P out a
      → Steps f m inputs P
  fails : (e : E) → m ≡ err e → traverse f inputs ≡ err e → Steps f m inputs P

-- The result holds the expanded strings, and has the property `R`.
abbrev pub Field :
    {E A : Type 0}
    → (Str → Result E Str)
    → Result E A
    → List Str
    → (A → List Str)
    → (A → Type 0)
    → Type 0
Field f m inputs strings R = Steps f m inputs (λ out a. (out ≡ strings a) × R a)

module _ {E A B : Type 0} {f : Str → Result E Str} {P : List Str → B → Type 0}
    {strings : A → List Str} {R : A → Type 0} {m : Result E A} {k : A → Result E B}
    {front behind : List Str} where
  -- The rule for one step of a chain.
  pub Steps-bind :
      Field f m front strings R
      → ((a : A) → R a → Steps f (k a) behind (λ rest b. P (strings a ++ rest) b))
      → Steps f (m >>= k) (front ++ behind) P
  Steps-bind (fails e is front_fails) next =
      fails e (rw is refl) (traverse-append f front behind ∙ rw front_fails refl)
  Steps-bind (returns a out is front_returns (same, r)) next = after (next a r)
    where
      after :
          Steps f (k a) behind (λ rest b. P (strings a ++ rest) b)
          → Steps f (m >>= k) (front ++ behind) P
      after (fails e is' back_fails) =
          fails e (rw is is') (traverse-append f front behind ∙ rw (front_returns, back_fails) refl)
      after (returns b rest is' back_returns p) =
          returns b (strings a ++ rest) (rw is is')
            (traverse-append f front behind ∙ rw (front_returns, back_returns, same) refl) p

-- The end of a chain.
pub Steps-ok :
    {E A : Type 0} {f : Str → Result E Str} {a : A} {P : List Str → A → Type 0}
    → P [] a
    → Steps f (ok a) [] P
Steps-ok {a = a} p = returns a [] refl refl p

module _ {E : Type 0} (f : Str → Result E Str) where
  pub one-Field : (s : Str) → Field f (f s) (one s) one (λ t. f s ≡ ok t)
  one-Field s = go (f s) refl
    where
      go : (r : Result E Str) → f s ≡ r → Field f (f s) (one s) one (λ t. f s ≡ ok t)
      go (ok t) e = returns t (t ∷ []) e (rw e refl) (refl, e)
      go (err x) e = fails x e (rw e refl)

module _ {A : Type 0} (R : A → A → Type 0) where
  -- The entries have the same keys in the same order, and related values.
  abbrev pub EachValue : List (Str × A) → List (Str × A) → Type 0
  EachValue [] [] = Unit
  EachValue ((k, a) ∷ xs) ((l, b) ∷ ys) = (k ≡ l) × R a b × EachValue xs ys
  EachValue _ _ = ⊥

  abbrev pub EachItem : List A → List A → Type 0
  EachItem [] [] = Unit
  EachItem (a ∷ xs) (b ∷ ys) = R a b × EachItem xs ys
  EachItem _ _ = ⊥

  abbrev pub EachOption : Option A → Option A → Type 0
  EachOption none none = Unit
  EachOption (some a) (some b) = R a b
  EachOption _ _ = ⊥

module _ {E A : Type 0} {f : Str → Result E Str} {strings : A → List Str} {R : A → A → Type 0}
    {visit : A → Result E A} (field : (a : A) → Field f (visit a) (strings a) strings (R a)) where
  pub option-Field :
      (o : Option A)
      → Field f (traverse_option visit o) (in_option strings o) (in_option strings) (EachOption R o)
  option-Field none = Steps-ok (refl, tt)
  option-Field (some a) = Steps-bind (field a) (λ b r. Steps-ok (refl, r))

  pub list-Field :
      (l : List A) → Field f (traverse visit l) (in_list strings l) (in_list strings) (EachItem R l)
  list-Field [] = Steps-ok (refl, tt)
  list-Field (a ∷ l) = Steps-bind (field a) (λ b r. last b r (list-Field l))
    where
      last :
          (b : A)
          → R a b
          → Field f (traverse visit l) (in_list strings l) (in_list strings) (EachItem R l)
          → Steps f
              (traverse visit l >>= λ bs. ok (b ∷ bs))
              (in_list strings l)
              (λ rest c. (strings b ++ rest ≡ in_list strings c) × EachItem R (a ∷ l) c)
      last b r (fails e is g) = fails e (rw is refl) g
      last b r (returns bs out is g (same, each)) =
          returns (b ∷ bs) out (rw is refl) g (ap (λ rest. strings b ++ rest) same, (r, each))

  pub values-Field :
      (m : List (Str × A))
      → Field f (traverse_values visit m) (in_values strings m) (in_values strings) (EachValue R m)
  values-Field [] = Steps-ok (refl, tt)
  values-Field ((k, a) ∷ m) = Steps-bind (field a) (λ b r. last b r (values-Field m))
    where
      last :
          (b : A)
          → R a b
          → Field f
              (traverse_values visit m)
              (in_values strings m)
              (in_values strings)
              (EachValue R m)
          → Steps f
              (traverse_values visit m >>= λ bs. ok ((k, b) ∷ bs))
              (in_values strings m)
              (λ rest c. (strings b ++ rest ≡ in_values strings c) × EachValue R ((k, a) ∷ m) c)
      last b r (fails e is g) = fails e (rw is refl) g
      last b r (returns bs out is g (same, each)) =
          returns ((k, b) ∷ bs) out (rw is refl) g
            (ap (λ rest. strings b ++ rest) same, (refl, r, each))

-- What the steps return has the property.
pub Steps-result :
    {E A : Type 0} {f : Str → Result E Str} {m : Result E A} {inputs : List Str}
    {P : List Str → A → Type 0} (a : A)
    → Steps f m inputs P
    → m ≡ ok a
    → (out : List Str) × P out a
Steps-result a (fails x is g) e = absurd (err-ok x a (sym is ∙ e))
  where
    err-ok : {E A : Type 0} (x : E) (a : A) → err x ≡ ok a → ⊥
    err-ok x a e = cc
Steps-result {P = P} a (returns b out is g p) e = (out, subst (λ c. P out c) (ok-inj _ b a is e) p)
  where
    ok-inj : {E A : Type 0} (r : Result E A) (a b : A) → r ≡ ok a → r ≡ ok b → a ≡ b
    ok-inj r a b is is' = cc
