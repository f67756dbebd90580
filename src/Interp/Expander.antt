-- ===== src/Interp/Expander.antt =====
-- tools/selur-compose/crates/selur-compose-interp/src/expander.rs
pub mod Values
pub mod Escapes
use burble.Base.{
  ℕ, ◌+◌, Bool, true, false, not, ◌&&◌, List, [], ◌∷◌, ◌++◌, Option, none, some, Str, Result, ok,
  err, ◌>>=◌, map_err, is_empty, length, if◌then◌else◌,
}
use burble.Interp.Env.{EnvMap, get}
use burble.Interp.Error.{InterpError, undefined, missing_required, unterminated}
use burble.Interp.Lexer.{Token, literal, escape, var_plain, var_default, var_required, lex}

module _ (input : Str) (env : EnvMap) where
  -- The body of the loop.
  unfoldable pub push_token : Str → Token → Result InterpError Str
  unfolding get
  push_token out (literal s) = ok (out ++ s)
  push_token out escape = ok (out ++ b'$' ∷ [])
  push_token out (var_plain name offset) = elim (get env name) [
    | some val ↦ ok (out ++ val)
    | none ↦ err (undefined name input)
  ]
  push_token out (var_default name default colon offset) = elim (get env name) [
    | none ↦ ok (out ++ default)
    | some v ↦ if colon && is_empty v then ok (out ++ default) else ok (out ++ v)
  ]
  push_token out (var_required name msg colon offset) = elim (get env name) [
    | some v ↦
        if not (colon && is_empty v)
        then ok (out ++ v)
        else err (missing_required name msg (offset, offset + length name + 3))
    | none ↦ err (missing_required name msg (offset, offset + length name + 3))
  ]

  unfoldable pub push_tokens : Str → List Token → Result InterpError Str
  unfolding push_token
  push_tokens out [] = ok out
  push_tokens out (token ∷ tokens) = do out' ← push_token out token; push_tokens out' tokens

  -- Behind the lexer, with its two early returns.
  unfoldable pub expand_tokens : List Token → Result InterpError Str
  unfolding push_tokens
  expand_tokens [] = ok []
  expand_tokens (literal s ∷ []) = ok s
  expand_tokens tokens = push_tokens [] tokens

  unfoldable pub expand : Result InterpError Str
  unfolding lex expand_tokens
  expand = do
    tokens ← map_err (λ (pos, _). unterminated input pos) (lex input)
    expand_tokens tokens
