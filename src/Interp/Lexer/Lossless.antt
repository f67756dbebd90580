-- ===== src/Interp/Lexer/Lossless.antt =====
-- The tokens, written out again, are the input.
use burble.Base.{
  ℕ, zero, suc, ◌+◌, Bool, true, false, List, [], ◌∷◌, ◌++◌, some, Str, Result, ok, err, ◌≡◌, refl,
  sym, ap, subst, ◌∙◌, take, drop, arith, append_assoc, append-nil, ==_iff, Bool-cases,
  Option-cases, inl, inr, take-append-drop, ◌==◌,
}
use burble.Interp.Lexer.{
  LexError, Token, literal, escape, var_plain, var_default, var_required, memchr_byte, modifier,
  parse_expansion, name_length, Action, emit, fail, expansion_at, dollar_at, action_at,
  flush_literal, lex,
}
use burble.Interp.Lexer.Rule.{Rule, lex_ind}

-- The bytes that a token stands for.
abbrev mark : Bool → ℕ → Str → Str
mark true c s = b':' ∷ c ∷ s
mark false c s = c ∷ s

abbrev braced : Str → Str
braced s = b'$' ∷ b'{' ∷ (s ++ b'}' ∷ [])

abbrev pub render_token : Token → Str
render_token (literal s) = s
render_token escape = b'$' ∷ b'$' ∷ []
render_token (var_plain name offset) = braced name
render_token (var_default name default colon offset) = braced (name ++ mark colon b'-' default)
render_token (var_required name msg colon offset) = braced (name ++ mark colon b'?' msg)

abbrev pub render : List Token → Str
render [] = []
render (t ∷ ts) = render_token t ++ render ts

pub render-append : (xs ys : List Token) → render (xs ++ ys) ≡ render xs ++ render ys
render-append [] ys = refl
render-append (x ∷ xs) ys = simp (render-append xs ys, append_assoc)

pub render-flush_literal :
    (lit : Str) (tokens : List Token) → render (flush_literal lit tokens) ≡ render tokens ++ lit
render-flush_literal [] tokens = sym (append-nil _)
render-flush_literal (c ∷ lit) tokens = simp (render-append, append-nil)

modifier-render :
    (name rest : Str) (offset : ℕ) (t : Token)
    → modifier name rest offset ≡ ok t
    → render_token t ≡ braced (name ++ rest)
unfolding modifier
modifier-render name [] offset t h = ground (arith, append-nil name)
modifier-render name (b ∷ []) offset t h = ground arith
modifier-render name (b ∷ c ∷ rest) offset t h = ground arith

parse_expansion-render :
    (inner : Str) (offset : ℕ) (t : Token)
    → parse_expansion inner offset ≡ ok t
    → render_token t ≡ braced inner
unfolding parse_expansion
parse_expansion-render inner offset t h =
    let n = name_length inner in
    ground (arith, modifier-render (take n inner) (drop n inner) offset t, take-append-drop n inner)

-- The bytes up to the brace that `memchr_byte` found, the brace, and what follows.
memchr_byte-split :
    (b : ℕ) (bs : Str) (k : ℕ) → memchr_byte b bs ≡ some k → take k bs ++ b ∷ drop (suc k) bs ≡ bs
unfolding memchr_byte
memchr_byte-split b [] k h = cc
memchr_byte-split b (c ∷ bs) zero h = ground arith
memchr_byte-split b (c ∷ bs) (suc k) h = ground (arith, memchr_byte-split b bs k)

-- An emitted token stands for the byte read and the `n` bytes behind it.
abbrev pub Emits : ℕ → Str → Action → Type 0
Emits c rest (emit t n) = render_token t ++ drop n rest ≡ c ∷ rest
Emits c rest _ = Unit

expansion_at-Emits : (i : ℕ) (rest : Str) → Emits b'$' (b'{' ∷ rest) (expansion_at i rest)
unfolding expansion_at
expansion_at-Emits i rest = elim (Option-cases (memchr_byte b'}' rest)) [
  | inl e ↦ rw (e, expansion_at) tt
  | inr (rel, e) ↦ rw (e, expansion_at) (go rel e (parse_expansion (take rel rest) i) refl)
]
  where
    go :
        (rel : ℕ)
        → memchr_byte b'}' rest ≡ some rel
        → (r : Result LexError Token) → parse_expansion (take rel rest) i ≡ r
        → Emits b'$'
            (b'{' ∷ rest)
            (elim r [ err msg ↦ fail i msg | ok token ↦ emit token (rel + 2) ])
    go rel e (err msg) q = tt
    go rel e (ok t) q =
        let n : rel + 2 ≡ suc (suc rel) = omega arith in
        rw (n, parse_expansion-render (take rel rest) i t q, append_assoc)
          (ap (λ s. b'$' ∷ b'{' ∷ s) (memchr_byte-split b'}' rest rel e))

dollar_at-Emits : (i : ℕ) (rest : Str) → Emits b'$' rest (dollar_at i rest)
unfolding dollar_at
dollar_at-Emits i [] = tt
dollar_at-Emits i (d ∷ rest) = elim (Bool-cases (d == b'$')) [
  | inl e ↦ rw e (ground arith)
  | inr e ↦ rw e (elim (Bool-cases (d == b'{')) [
    | inl e' ↦ rw e' (rw ((==_iff d b'{').0 e') (expansion_at-Emits i rest))
    | inr e' ↦ rw e' tt
  ])
]

pub action_at-Emits : (i c : ℕ) (rest : Str) → Emits c rest (action_at i c rest)
unfolding action_at
action_at-Emits i c rest = elim (Bool-cases (c == b'$')) [
  | inl e ↦ rw e (rw ((==_iff c b'$').0 e) (dollar_at-Emits i rest))
  | inr e ↦ rw e tt
]

-- The bytes read so far are those of the tokens and of the open literal.
abbrev pub Covers : Str → ℕ → Str → List Token → Str → Type 0
Covers text i lit tokens rest = render tokens ++ (lit ++ rest) ≡ text

abbrev Renders : Str → Result (ℕ × LexError) (List Token) → Type 0
Renders text (ok ts) = render ts ≡ text
Renders text (err e) = Unit

pub Covers-keep :
    (text : Str) (i : ℕ) (lit : Str) (tokens : List Token) (c : ℕ) (rest : Str)
    → Covers text i lit tokens (c ∷ rest)
    → Covers text (i + 1) (lit ++ c ∷ []) tokens rest
Covers-keep text i lit tokens c rest p = rw append_assoc p

pub Covers-emit :
    (text : Str) (i : ℕ) (lit : Str) (tokens : List Token) (c : ℕ) (rest : Str) (t : Token) (n : ℕ)
    → Covers text i lit tokens (c ∷ rest)
    → action_at i c rest ≡ emit t n
    → Covers text (i + 1 + n) [] (flush_literal lit tokens ++ t ∷ []) (drop n rest)
Covers-emit text i lit tokens c rest t n p e =
    simp (render-append, render-flush_literal, append_assoc, append-nil)
      (rw (subst (Emits c rest) e (action_at-Emits i c rest)) p)

lossless : (text : Str) → Rule (Covers text) (Renders text)
lossless text = record {
  finishes = λ i lit tokens p. render-flush_literal lit tokens ∙ rw append-nil at p;
  keeps = λ i lit tokens c rest p e. Covers-keep text i lit tokens c rest p;
  emits = λ i lit tokens c rest t n p e. Covers-emit text i lit tokens c rest t n p e;
  fails = λ i lit tokens c rest pos msg p e. tt;
}

-- Whenever the lexer accepts a text, its tokens, written out in order, are that text: no byte is
-- lost, added or moved.
pub render-lex : (input : Str) (ts : List Token) → lex input ≡ ok ts → render ts ≡ input
render-lex input ts e = subst (Renders input) e (lex_ind (lossless input) input refl)
