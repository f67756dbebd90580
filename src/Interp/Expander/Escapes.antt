-- ===== src/Interp/Expander/Escapes.antt =====
-- Text in which every `$` is doubled stands for itself.
use burble.Base.{
  ℕ, ◌+◌, List, [], ◌∷◌, ◌++◌, append_assoc, append-nil, Str, Result, ok, err, ◌>>=◌, map_err, ◌≡◌,
  ◌⊎◌, refl, sym, ap, ◌∙◌, All, Bool-cases, inl, inr, ◌==◌, if◌then◌else◌, drop, arith,
}
use burble.Interp.Env.{EnvMap}
use burble.Interp.Error.{unterminated}
use burble.Interp.Expander.{push_tokens, push_token, expand_tokens, expand}
use burble.Interp.Expander.Values.{expand_tokens-push_tokens}
use burble.Interp.Lexer.{
  Token, LexError, literal, escape, var_plain, var_default, var_required, keep, emit, action_at,
  dollar_at, flush_literal, lex,
}
use burble.Interp.Lexer.Rule.{Rule, lex_ind}

abbrev pub escape_dollars : Str → Str
escape_dollars [] = []
escape_dollars (c ∷ s) = if c == b'$' then b'$' ∷ b'$' ∷ escape_dollars s else c ∷ escape_dollars s

-- Tokens with no variable, and their text.
abbrev IsPlain : Token → Type 0
IsPlain (literal s) = Unit
IsPlain escape = Unit
IsPlain t = ⊥

abbrev text : List Token → Str
text [] = []
text (literal s ∷ tokens) = s ++ text tokens
text (escape ∷ tokens) = b'$' ∷ text tokens
text (t ∷ tokens) = text tokens

text-append : (xs ys : List Token) → text (xs ++ ys) ≡ text xs ++ text ys
text-append [] ys = refl
text-append (literal s ∷ xs) ys =
    ap (λ t. s ++ t) (text-append xs ys) ∙ sym (append_assoc s (text xs) (text ys))
text-append (escape ∷ xs) ys = ap (λ t. b'$' ∷ t) (text-append xs ys)
text-append (var_plain n o ∷ xs) ys = text-append xs ys
text-append (var_default n d c o ∷ xs) ys = text-append xs ys
text-append (var_required n m c o ∷ xs) ys = text-append xs ys

IsPlain-snoc :
    (xs : List Token) (t : Token) → All IsPlain xs → IsPlain t → All IsPlain (xs ++ t ∷ [])
IsPlain-snoc [] t h p = (p, tt)
IsPlain-snoc (x ∷ xs) t h p = (h.0, IsPlain-snoc xs t h.1 p)

flush_literal-IsPlain :
    (lit : Str) (tokens : List Token) → All IsPlain tokens → All IsPlain (flush_literal lit tokens)
flush_literal-IsPlain [] tokens h = h
flush_literal-IsPlain (c ∷ lit) tokens h = IsPlain-snoc tokens (literal (c ∷ lit)) h tt

text-flush_literal :
    (lit : Str) (tokens : List Token) → text (flush_literal lit tokens) ≡ text tokens ++ lit
text-flush_literal [] tokens = sym (append-nil _)
text-flush_literal (c ∷ lit) tokens =
    text-append tokens (literal (c ∷ lit) ∷ []) ∙ ap (λ l. text tokens ++ l) (append-nil (c ∷ lit))

push_tokens-IsPlain :
    (input : Str) (env : EnvMap) (out : Str) (tokens : List Token)
    → All IsPlain tokens
    → push_tokens input env out tokens ≡ ok (out ++ text tokens)
unfolding push_tokens push_token
push_tokens-IsPlain input env out [] h = ap (λ o. ok o) (sym (append-nil out))
push_tokens-IsPlain input env out (literal s ∷ tokens) h =
    push_tokens-IsPlain input env (out ++ s) tokens h.1
    ∙ ap (λ o. ok o) (append_assoc out s (text tokens))
push_tokens-IsPlain input env out (escape ∷ tokens) h =
    push_tokens-IsPlain input env (out ++ b'$' ∷ []) tokens h.1
    ∙ ap (λ o. ok o) (append_assoc out (b'$' ∷ []) (text tokens))
push_tokens-IsPlain input env out (var_plain n o ∷ tokens) h = elim h.0 [ ]
push_tokens-IsPlain input env out (var_default n d c o ∷ tokens) h = elim h.0 [ ]
push_tokens-IsPlain input env out (var_required n m c o ∷ tokens) h = elim h.0 [ ]

-- The action at the first byte of an escaped text.
view :
    (i : ℕ) (left : Str) (c : ℕ) (rest : Str)
    → c ∷ rest ≡ escape_dollars left
    → ((left' : Str) × (left ≡ b'$' ∷ left')
        × (action_at i c rest ≡ emit escape 1)
        × (drop 1 rest ≡ escape_dollars left'))
      ⊎ ((left' : Str) × (left ≡ c ∷ left')
          × (action_at i c rest ≡ keep)
          × (rest ≡ escape_dollars left'))
unfolding action_at dollar_at
view i [] c rest e = cc
view i (d ∷ left) c rest e = elim (Bool-cases (d == b'$')) [
  | inl is ↦
      let e' = rw is at e in
      let first : c ≡ b'$' = cc in
      let behind : rest ≡ b'$' ∷ escape_dollars left = cc in
      let dollar : d ≡ b'$' = ground arith in
      inl (left, rw dollar refl, rw (first, behind) refl, rw behind refl)
  | inr isnt ↦
      let e' = rw isnt at e in
      let first : c ≡ d = cc in
      let behind : rest ≡ escape_dollars left = cc in
      inr (left, rw first refl, rw (first, isnt) refl, behind)
]

module _ (s : Str) where
  -- The bytes left are those of a text `left`, escaped, that completes `s`.
  record Inv (i : ℕ) (lit : Str) (tokens : List Token) (rest : Str) : Type 0 where
    left : Str
    escaped : rest ≡ escape_dollars left
    so_far : (text tokens ++ lit) ++ left ≡ s
    plain : All IsPlain tokens

  abbrev Post : Result (ℕ × LexError) (List Token) → Type 0
  Post (ok tokens) = All IsPlain tokens × (text tokens ≡ s)
  Post (err e) = ⊥

  nothing_left : (left : Str) → [] ≡ escape_dollars left → left ≡ []
  nothing_left [] e = refl
  nothing_left (d ∷ left) e = ground arith

  Inv-keep :
      (i : ℕ) (lit : Str) (tokens : List Token) (c : ℕ) (rest : Str)
      → Inv i lit tokens (c ∷ rest)
      → action_at i c rest ≡ keep
      → Inv (i + 1) (lit ++ c ∷ []) tokens rest
  Inv-keep i lit tokens c rest inv e = elim (view i inv.left c rest inv.escaped) [
    | inl (left, is, act, behind) ↦ cc (e, act)
    | inr (left, is, act, behind) ↦ record {
      left = left;
      escaped = behind;
      so_far =
          ap (λ l. l ++ left) (sym (append_assoc (text tokens) lit (c ∷ [])))
          ∙ append_assoc (text tokens ++ lit) (c ∷ []) left
          ∙ ap (λ l. (text tokens ++ lit) ++ l) (sym is)
          ∙ inv.so_far;
      plain = inv.plain;
    }
  ]

  Inv-emit :
      (i : ℕ) (lit : Str) (tokens : List Token) (c : ℕ) (rest : Str) (t : Token) (n : ℕ)
      → Inv i lit tokens (c ∷ rest)
      → action_at i c rest ≡ emit t n
      → Inv (i + 1 + n) [] (flush_literal lit tokens ++ t ∷ []) (drop n rest)
  Inv-emit i lit tokens c rest t n inv e = elim (view i inv.left c rest inv.escaped) [
    | inr (left, is, act, behind) ↦ cc (e, act)
    | inl (left, is, act, behind) ↦
        let token : escape ≡ t = cc (sym act ∙ e) in
        let one : 1 ≡ n = cc (sym act ∙ e) in
        rw (← token, ← one)
          (record {
            left = left;
            escaped = behind;
            so_far =
                ap (λ l. l ++ left)
                  (append-nil _
                    ∙ text-append (flush_literal lit tokens) (escape ∷ [])
                    ∙ ap (λ l. l ++ b'$' ∷ []) (text-flush_literal lit tokens))
                ∙ append_assoc (text tokens ++ lit) (b'$' ∷ []) left
                ∙ ap (λ l. (text tokens ++ lit) ++ l) (sym is)
                ∙ inv.so_far;
            plain =
                IsPlain-snoc (flush_literal lit tokens) escape
                  (flush_literal-IsPlain lit tokens inv.plain) tt;
          })
  ]

  escapes : Rule Inv Post
  escapes = record {
    finishes = λ i lit tokens inv.
        let done = nothing_left inv.left inv.escaped in
        (
          flush_literal-IsPlain lit tokens inv.plain,
          text-flush_literal lit tokens
              ∙ sym (append-nil (text tokens ++ lit))
              ∙ ap (λ l. (text tokens ++ lit) ++ l) (sym done)
              ∙ inv.so_far,
        );
    keeps = Inv-keep;
    emits = Inv-emit;
    fails = λ i lit tokens c rest pos msg inv e. elim (view i inv.left c rest inv.escaped) [
      | inl (left, is, act, behind) ↦ cc (e, act)
      | inr (left, is, act, behind) ↦ cc (e, act)
    ];
  }

-- Expansion of a text in which every `$` is doubled gives the text back, whatever the environment is.
pub expand-escape_dollars : (env : EnvMap) (s : Str) → expand (escape_dollars s) env ≡ ok s
unfolding expand
expand-escape_dollars env s = go (lex (escape_dollars s)) (
    lex_ind (escapes s) (escape_dollars s)
      (record { left = s; escaped = refl; so_far = refl; plain = tt }))
  where
    go :
        (r : Result (ℕ × LexError) (List Token))
        → Post s r
        → (map_err (λ (pos, _). unterminated (escape_dollars s) pos) r
            >>= expand_tokens (escape_dollars s) env)
          ≡ ok s
    go (err e) o = elim o [ ]
    go (ok tokens) o =
        expand_tokens-push_tokens (escape_dollars s) env tokens
        ∙ push_tokens-IsPlain (escape_dollars s) env [] tokens o.0
        ∙ ap (λ t. ok t) o.1
