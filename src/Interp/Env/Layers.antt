-- ===== src/Interp/Env/Layers.antt =====
-- Which layer of an environment a name is looked up in.
use burble.Base.{
  ℕ, suc, true, false, List, [], ◌∷◌, ◌++◌, Option, none, some, Str, ◌≡◌, refl, sym, ◌∙◌, length,
  get_or, lookup, contains_key, lookup-hash_insert, str_eq, str_eq_iff, if◌then◌else◌, arith,
  Bool-cases, inl, inr,
}
use burble.Interp.Env.{EnvMap, empty, push_new, push_all, from_iter, get, with_overrides}

-- Where the first entry of the name stands.
abbrev position : Str → List (Str × Str) → Option ℕ
position k [] = none
position k ((j, v) ∷ m) =
    if str_eq j k then some 0 else elim (position k m) [ none ↦ none | some i ↦ some (suc i) ]

-- The index leads to the first entry of each name.
abbrev pub IsEnv : EnvMap → Type 0
IsEnv env = (k : Str) → lookup k env.index ≡ position k env.entries

abbrev pub or_else : Option Str → Option Str → Option Str
or_else (some v) w = some v
or_else none w = w

pub or_else_none : (o : Option Str) → or_else o none ≡ o
or_else_none none = refl
or_else_none (some v) = refl

pub or_else_assoc : (a b c : Option Str) → or_else (or_else a b) c ≡ or_else a (or_else b c)
or_else_assoc none b c = refl
or_else_assoc (some v) b c = refl

pub lookup-append :
    (k : Str) (xs ys : List (Str × Str)) → lookup k (xs ++ ys) ≡ or_else (lookup k xs) (lookup k ys)
unfolding lookup
lookup-append k [] ys = refl
lookup-append k ((j, v) ∷ xs) ys = ground (arith, lookup-append k xs ys)

pub contains_key-lookup {ℓ} :
    {V : Type ℓ} (k : Str) (m : List (Str × V))
    → contains_key k m ≡ elim (lookup k m) [ none ↦ false | some v ↦ true ]
unfolding contains_key lookup
contains_key-lookup k [] = refl
contains_key-lookup k ((j, v) ∷ m) = ground (arith, contains_key-lookup k m)

position-append :
    (k : Str) (xs : List (Str × Str)) (j v : Str)
    → position k (xs ++ (j, v) ∷ []) ≡ elim (position k xs) [
      | some i ↦ some i
      | none ↦ if str_eq j k then some (length xs) else none
    ]
position-append k [] j v = ground arith
position-append k ((i, w) ∷ xs) j v = ground (arith, position-append k xs j v)

get_or-position :
    (k : Str) (xs : List (Str × Str))
    → lookup k xs ≡ elim (position k xs) [ none ↦ none | some i ↦ some ((get_or xs i ([], [])).1) ]
unfolding lookup
get_or-position k [] = refl
get_or-position k ((j, v) ∷ xs) = ground (arith, get_or-position k xs)

pub get-IsEnv : (env : EnvMap) → IsEnv env → (k : Str) → get env k ≡ lookup k env.entries
unfolding get
get-IsEnv env valid k = rw (get, valid k) (sym (get_or-position k env.entries))

push_new-IsEnv : (env : EnvMap) (k v : Str) → IsEnv env → IsEnv (push_new env (k, v))
unfolding push_new
push_new-IsEnv env k v valid j = elim (Bool-cases (contains_key k env.index)) [
  | inl e ↦ rw e (valid j)
  | inr e ↦
      let here = position-append j env.entries k v in
      let inserted = lookup-hash_insert k j (length env.entries) env.index in
      rw (e, inserted, here)
        (ground (arith, valid j, valid k, contains_key-lookup k env.index, e, str_eq_iff k j))
]

-- A name that a map has keeps its value; any other gets that of the new entry.
push_new-entries :
    (env : EnvMap) (k v j : Str)
    → IsEnv env
    → lookup j (push_new env (k, v)).entries ≡ lookup j (env.entries ++ (k, v) ∷ [])
unfolding push_new lookup
push_new-entries env k v j valid = elim (Bool-cases (contains_key k env.index)) [
  | inr e ↦ rw e refl
  | inl e ↦
      rw (e, lookup-append)
        (ground (
          arith,
          valid k,
          contains_key-lookup k env.index,
          e,
          get_or-position j env.entries,
          str_eq_iff k j,
        ))
]

pub push_all-IsEnv :
    (env : EnvMap) (pairs : List (Str × Str)) → IsEnv env → IsEnv (push_all env pairs)
unfolding push_all
push_all-IsEnv env [] valid = valid
push_all-IsEnv env ((k, v) ∷ pairs) valid =
    push_all-IsEnv (push_new env (k, v)) pairs (push_new-IsEnv env k v valid)

pub push_all-lookup :
    (env : EnvMap) (pairs : List (Str × Str)) (j : Str)
    → IsEnv env
    → lookup j (push_all env pairs).entries ≡ or_else (lookup j env.entries) (lookup j pairs)
unfolding push_all lookup
push_all-lookup env [] j valid = ground arith
push_all-lookup env ((k, v) ∷ pairs) j valid =
    push_all-lookup (push_new env (k, v)) pairs j (push_new-IsEnv env k v valid)
    ∙ rw (push_new-entries env k v j valid, lookup-append) (ground arith)

pub empty-IsEnv : IsEnv empty
unfolding lookup
empty-IsEnv k = refl

-- The value of a name is that of its first pair.
pub get-from_iter : (pairs : List (Str × Str)) (k : Str) → get (from_iter pairs) k ≡ lookup k pairs
unfolding from_iter lookup
get-from_iter pairs k =
    get-IsEnv (push_all empty pairs) (push_all-IsEnv empty pairs empty-IsEnv) k
    ∙ push_all-lookup empty pairs k empty-IsEnv

-- A name has the value of its first override, and its old value if there is none.
pub get-with_overrides :
    (env : EnvMap) (overrides : List (Str × Str)) (k : Str)
    → IsEnv env
    → get (with_overrides env overrides) k ≡ or_else (lookup k overrides) (get env k)
unfolding with_overrides lookup
get-with_overrides env overrides k valid =
    let base = push_all-IsEnv empty overrides empty-IsEnv in
    get-IsEnv (push_all (push_all empty overrides) env.entries) (push_all-IsEnv _ env.entries base)
      k
    ∙ push_all-lookup (push_all empty overrides) env.entries k base
    ∙ rw (push_all-lookup empty overrides k empty-IsEnv, get-IsEnv env valid k) refl
