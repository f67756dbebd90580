-- ===== src/Interp/Expander/Values.antt =====
-- The text that each token stands for.
use burble.Base.{
  ℕ, ◌+◌, Bool, false, ◌&&◌, List, [], ◌∷◌, ◌++◌, append_assoc, append-nil, Option, none, some, Str,
  Result, ok, err, ◌>>=◌, map_err, is_empty, length, if◌then◌else◌, ◌≡◌, refl, sym, ap, ◌∙◌, arith,
}
use burble.Interp.Env.{EnvMap, get}
use burble.Interp.Error.{InterpError, undefined, missing_required, unterminated}
use burble.Interp.Expander.{push_token, push_tokens, expand_tokens, expand}
use burble.Interp.Lexer.{
  Token, LexError, literal, escape, var_plain, var_default, var_required, lex,
}
use burble.Interp.Lexer.Positions.{Opens, lex-Opens}

abbrev pub behind : Str → Result InterpError Str → Result InterpError Str
behind out (err e) = err e
behind out (ok v) = ok (out ++ v)

behind-nil : (r : Result InterpError Str) → behind [] r ≡ r
behind-nil (err e) = refl
behind-nil (ok v) = refl

behind-behind :
    (out v : Str) (r : Result InterpError Str) → behind (out ++ v) r ≡ behind out (behind v r)
behind-behind out v (err e) = refl
behind-behind out v (ok w) = ap (λ o. ok o) (append_assoc out v w)

module _ (input : Str) (env : EnvMap) where
  -- The value of the name; with a colon, an empty one does not count.
  abbrev set_value : Str → Bool → Option Str
  set_value name colon = elim (get env name) [
    | none ↦ none
    | some v ↦ if colon && is_empty v then none else some v
  ]

  abbrev pub value_of : Token → Result InterpError Str
  value_of (literal s) = ok s
  value_of escape = ok (b'$' ∷ [])
  value_of (var_plain name offset) = elim (set_value name false) [
    | some v ↦ ok v
    | none ↦ err (undefined name input)
  ]
  value_of (var_default name default colon offset) = elim (set_value name colon) [
    | some v ↦ ok v
    | none ↦ ok default
  ]
  value_of (var_required name msg colon offset) = elim (set_value name colon) [
    | some v ↦ ok v
    | none ↦ err (missing_required name msg (offset, offset + length name + 3))
  ]

  abbrev pub values : List Token → Result InterpError Str
  values [] = ok []
  values (token ∷ tokens) = elim (value_of token) [
    | err e ↦ err e
    | ok v ↦ behind v (values tokens)
  ]

  push_token-value_of :
      (out : Str) (token : Token) → push_token input env out token ≡ behind out (value_of token)
  unfolding push_token
  push_token-value_of out (literal s) = refl
  push_token-value_of out escape = refl
  push_token-value_of out (var_plain name offset) = ground arith
  push_token-value_of out (var_default name default colon offset) = ground arith
  push_token-value_of out (var_required name msg colon offset) = ground arith

  push_tokens-values :
      (out : Str) (tokens : List Token)
      → push_tokens input env out tokens ≡ behind out (values tokens)
  unfolding push_tokens
  push_tokens-values out [] = ap (λ o. ok o) (sym (append-nil out))
  push_tokens-values out (token ∷ tokens) =
      rw (push_token-value_of out token)
        (go (value_of token) (λ v. push_tokens-values (out ++ v) tokens))
    where
      go :
          (r : Result InterpError Str)
          → ((v : Str)
              → push_tokens input env (out ++ v) tokens ≡ behind (out ++ v) (values tokens))
          → (behind out r >>= λ out'. push_tokens input env out' tokens)
            ≡ behind out (elim r [ err e ↦ err e | ok v ↦ behind v (values tokens) ])
      go (err e) ih = refl
      go (ok v) ih = ih v ∙ behind-behind out v (values tokens)

  -- The early returns change nothing.
  pub expand_tokens-push_tokens :
      (tokens : List Token) → expand_tokens input env tokens ≡ push_tokens input env [] tokens
  unfolding expand_tokens push_tokens push_token
  expand_tokens-push_tokens [] = refl
  expand_tokens-push_tokens (literal s ∷ []) = refl
  expand_tokens-push_tokens (literal s ∷ t ∷ ts) = refl
  expand_tokens-push_tokens (escape ∷ ts) = refl
  expand_tokens-push_tokens (var_plain n o ∷ ts) = refl
  expand_tokens-push_tokens (var_default n d c o ∷ ts) = refl
  expand_tokens-push_tokens (var_required n m c o ∷ ts) = refl

  pub expand_tokens-values : (tokens : List Token) → expand_tokens input env tokens ≡ values tokens
  expand_tokens-values tokens =
      expand_tokens-push_tokens tokens ∙ push_tokens-values [] tokens ∙ behind-nil (values tokens)

  -- What an expansion ends with, by what the lexer makes of the text.
  abbrev pub Expands : Result (ℕ × LexError) (List Token) → Result InterpError Str → Type 0
  Expands (ok tokens) r = r ≡ values tokens
  Expands (err (pos, msg)) r = (r ≡ err (unterminated input pos)) × Opens input pos msg

  -- A text that the lexer accepts expands to the values of its tokens, one behind the other, or to the
  -- error of the first that has none. Any other text is reported as unterminated, at the byte of a
  -- `${`, whatever the lexer found wrong there.
  pub expand-Expands : Expands (lex input) (expand input env)
  unfolding expand
  expand-Expands = go (lex input) (lex-Opens input)
    where
      go :
          (r : Result (ℕ × LexError) (List Token))
          → ((pos : ℕ) (msg : LexError) → r ≡ err (pos, msg) → Opens input pos msg)
          → Expands r (map_err (λ (pos, _). unterminated input pos) r >>= expand_tokens input env)
      go (ok tokens) opens = expand_tokens-values tokens
      go (err (pos, msg)) opens = (refl, opens pos msg refl)
