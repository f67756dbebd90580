-- ===== src/Interp/Lexer/Rule.antt =====
-- A proof rule for the loop of `lex`.
use burble.Base.{
  ℕ, zero, suc, ◌+◌, ◌≤◌, List, [], ◌∷◌, ◌++◌, Str, Result, ok, err, ◌≡◌, refl, length, drop,
  length-drop_le, arith,
}
use burble.Interp.Lexer.{
  LexError, Token, Action, keep, emit, fail, action_at, flush_literal, lex_from, lex,
}

-- What to show of an invariant `P i lit tokens rest` and a postcondition `Q`.
pub record Rule (P : ℕ → Str → List Token → Str → Type 0)
    (Q : Result (ℕ × LexError) (List Token) → Type 0) : Type 0 where
  pub finishes :
      (i : ℕ) (lit : Str) (tokens : List Token)
      → P i lit tokens []
      → Q (ok (flush_literal lit tokens))
  pub keeps :
      (i : ℕ) (lit : Str) (tokens : List Token) (c : ℕ) (rest : Str)
      → P i lit tokens (c ∷ rest)
      → action_at i c rest ≡ keep
      → P (i + 1) (lit ++ c ∷ []) tokens rest
  pub emits :
      (i : ℕ) (lit : Str) (tokens : List Token) (c : ℕ) (rest : Str) (t : Token) (n : ℕ)
      → P i lit tokens (c ∷ rest)
      → action_at i c rest ≡ emit t n
      → P (i + 1 + n) [] (flush_literal lit tokens ++ t ∷ []) (drop n rest)
  pub fails :
      (i : ℕ) (lit : Str) (tokens : List Token) (c : ℕ) (rest : Str) (pos : ℕ) (msg : LexError)
      → P i lit tokens (c ∷ rest)
      → action_at i c rest ≡ fail pos msg
      → Q (err (pos, msg))

module _ {P : ℕ → Str → List Token → Str → Type 0} {Q : Result (ℕ × LexError) (List Token) → Type 0}
    (rule : Rule P Q) where
  open rule use {finishes, keeps, emits, fails}

  lex_from_ind :
      (bound i : ℕ) (lit : Str) (tokens : List Token) (rest : Str) (h : length rest ≤ bound)
      → P i lit tokens rest
      → Q (lex_from bound i lit tokens rest h)
  unfolding lex_from
  lex_from_ind bound i lit tokens [] h p = finishes i lit tokens p
  lex_from_ind zero i lit tokens (c ∷ rest) h p = absurd (omega arith)
  lex_from_ind (suc bound) i lit tokens (c ∷ rest) h p =
      go (lex_from_ind bound) (action_at i c rest) refl
    where
      go :
          ((i' : ℕ) (lit' : Str) (tokens' : List Token) (rest' : Str) (h' : length rest' ≤ bound)
            → P i' lit' tokens' rest'
            → Q (lex_from bound i' lit' tokens' rest' h'))
          → (a : Action) → action_at i c rest ≡ a
          → Q (elim a [
            | keep ↦ lex_from bound (i + 1) (lit ++ c ∷ []) tokens rest (omega arith)
            | emit token n ↦
                lex_from bound
                  (i + 1 + n)
                  []
                  (flush_literal lit tokens ++ token ∷ [])
                  (drop n rest)
                  (omega (arith, length-drop_le n rest))
            | fail pos msg ↦ err (pos, msg)
          ])
      go ih keep e = ih _ _ _ _ _ (keeps i lit tokens c rest p e)
      go ih (emit t n) e = ih _ _ _ _ _ (emits i lit tokens c rest t n p e)
      go ih (fail pos msg) e = fails i lit tokens c rest pos msg p e

  pub lex_ind : (input : Str) → P 0 [] [] input → Q (lex input)
  unfolding lex
  lex_ind input p = lex_from_ind (length input) 0 [] [] input _ p
