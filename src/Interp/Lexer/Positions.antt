-- ===== src/Interp/Lexer/Positions.antt =====
-- The byte offsets in the lexer's tokens and errors.
use burble.Base.{
  ℕ, zero, suc, ◌+◌, ◌<◌, List, [], ◌∷◌, ◌++◌, none, some, Str, codes, Result, ok, err, ◌≡◌, ◌↔◌,
  refl, ap, subst, ◌∙◌, length, take, drop, arith, append_assoc, append-nil, ==_iff, Bool-cases,
  Option-cases, inl, inr, ◌==◌, length-append, drop-append, length-drop,
}
use native.Mathlib.Nat.{zero-add}
use burble.Interp.Lexer.{
  LexError, unterminated, Token, literal, var_plain, var_default, var_required, memchr_byte,
  modifier, parse_expansion, name_length, Action, keep, emit, fail, expansion_at, dollar_at,
  action_at, flush_literal, lex,
}
use burble.Interp.Lexer.Lossless.{
  render_token, render, Covers, Covers-keep, Covers-emit, Emits, action_at-Emits, render-append,
  render-flush_literal,
}
use burble.Interp.Lexer.Rule.{Rule, lex_ind}

abbrev pub OffsetIs : ℕ → Token → Type 0
OffsetIs i (var_plain name offset) = offset ≡ i
OffsetIs i (var_default name default colon offset) = offset ≡ i
OffsetIs i (var_required name msg colon offset) = offset ≡ i
OffsetIs i _ = Unit

-- Each token of a list that is written out from byte `i` on has its place as its offset.
abbrev pub Located : ℕ → List Token → Type 0
Located i [] = Unit
Located i (t ∷ ts) = OffsetIs i t × Located (i + length (render_token t)) ts

modifier-OffsetIs :
    (name rest : Str) (offset : ℕ) (t : Token)
    → modifier name rest offset ≡ ok t
    → OffsetIs offset t
unfolding modifier
modifier-OffsetIs name [] offset t h = ground arith
modifier-OffsetIs name (b ∷ []) offset t h = ground arith
modifier-OffsetIs name (b ∷ c ∷ rest) offset t h = ground arith

parse_expansion-OffsetIs :
    (inner : Str) (offset : ℕ) (t : Token) → parse_expansion inner offset ≡ ok t → OffsetIs offset t
unfolding parse_expansion
parse_expansion-OffsetIs inner offset t h =
    let n = name_length inner in
    ground (arith, modifier-OffsetIs (take n inner) (drop n inner) offset t)

-- A refusal at `pos` is about the `${` that stands there.
abbrev pub Opens : Str → ℕ → LexError → Type 0
Opens text pos msg =
    (take 2 (drop pos text) ≡ codes "${")
    × ((msg ≡ unterminated) ↔ (memchr_byte b'}' (drop 2 (drop pos text)) ≡ none))

abbrev Placed : ℕ → Str → Action → Type 0
Placed i rest keep = Unit
Placed i rest (emit t n) = OffsetIs i t × (n < length rest)
Placed i rest (fail pos msg) = (pos ≡ i) × Opens rest 0 msg

parse_expansion-ne-unterminated :
    (inner : Str) (offset : ℕ) → parse_expansion inner offset ≡ err unterminated → ⊥
unfolding parse_expansion modifier
parse_expansion-ne-unterminated inner offset h = ground arith

memchr_byte-lt : (b : ℕ) (bs : Str) (k : ℕ) → memchr_byte b bs ≡ some k → k < length bs
unfolding memchr_byte
memchr_byte-lt b [] k h = cc
memchr_byte-lt b (c ∷ bs) zero h = omega arith
memchr_byte-lt b (c ∷ bs) (suc k) h = ground (arith, memchr_byte-lt b bs k)

expansion_at-Placed : (i : ℕ) (rest : Str) → Placed i (b'$' ∷ b'{' ∷ rest) (expansion_at i rest)
unfolding expansion_at
expansion_at-Placed i rest = elim (Option-cases (memchr_byte b'}' rest)) [
  | inl e ↦ rw (e, expansion_at) (refl, (refl, ((λ _. e), (λ _. refl))))
  | inr (rel, e) ↦ rw (e, expansion_at) (go rel e (parse_expansion (take rel rest) i) refl)
]
  where
    go :
        (rel : ℕ)
        → memchr_byte b'}' rest ≡ some rel
        → (r : Result LexError Token) → parse_expansion (take rel rest) i ≡ r
        → Placed i
            (b'$' ∷ b'{' ∷ rest)
            (elim r [ err msg ↦ fail i msg | ok token ↦ emit token (rel + 2) ])
    go rel e (err msg) q = (
      refl,
      (
        refl,
        (
          (λ u. absurd (parse_expansion-ne-unterminated (take rel rest) i (q ∙ ap err u))),
          (λ n. cc),
        ),
      ),
    )
    go rel e (ok t) q = (
      parse_expansion-OffsetIs (take rel rest) i t q,
      omega (arith, memchr_byte-lt b'}' rest rel e),
    )

dollar_at-Placed : (i : ℕ) (rest : Str) → Placed i (b'$' ∷ rest) (dollar_at i rest)
unfolding dollar_at
dollar_at-Placed i [] = tt
dollar_at-Placed i (d ∷ rest) = elim (Bool-cases (d == b'$')) [
  | inl e ↦ rw e (tt, omega arith)
  | inr e ↦ rw e (elim (Bool-cases (d == b'{')) [
    | inl e' ↦ rw e' (rw ((==_iff d b'{').0 e') (expansion_at-Placed i rest))
    | inr e' ↦ rw e' tt
  ])
]

action_at-Placed : (i c : ℕ) (rest : Str) → Placed i (c ∷ rest) (action_at i c rest)
unfolding action_at
action_at-Placed i c rest = elim (Bool-cases (c == b'$')) [
  | inl e ↦ rw e (rw ((==_iff c b'$').0 e) (dollar_at-Placed i rest))
  | inr e ↦ rw e tt
]

Located-append :
    (i : ℕ) (xs : List Token) (t : Token)
    → Located i xs
    → OffsetIs (i + length (render xs)) t
    → Located i (xs ++ t ∷ [])
Located-append i [] t l o = (subst (λ k. OffsetIs k t) (omega arith) o, tt)
Located-append i (x ∷ xs) t l o = (
  l.0,
  Located-append (i + length (render_token x)) xs t l.1
      (subst (λ k. OffsetIs k t) (omega (arith, length-append (render_token x) (render xs))) o),
)

Located-flush_literal :
    (lit : Str) (tokens : List Token) → Located 0 tokens → Located 0 (flush_literal lit tokens)
Located-flush_literal [] tokens l = l
Located-flush_literal (c ∷ lit) tokens l = Located-append 0 tokens (literal (c ∷ lit)) l tt

record Inv (text : Str) (i : ℕ) (lit : Str) (tokens : List Token) (rest : Str) : Type 0 where
  covers : Covers text i lit tokens rest
  here : i ≡ length (render tokens ++ lit)
  located : Located 0 tokens

abbrev Post : Str → Result (ℕ × LexError) (List Token) → Type 0
Post text (ok ts) = Located 0 ts
Post text (err (pos, msg)) = Opens text pos msg

module _ (text : Str) (i : ℕ) (lit : Str) (tokens : List Token) (c : ℕ) (rest : Str)
    (inv : Inv text i lit tokens (c ∷ rest)) where
  -- The bytes from `i` on.
  here-drop : drop i text ≡ c ∷ rest
  here-drop =
      rw (inv.here, ← inv.covers, ← append_assoc (render tokens) lit (c ∷ rest))
        (drop-append (render tokens ++ lit) (c ∷ rest))

  Inv-keep : Inv text (i + 1) (lit ++ c ∷ []) tokens rest
  Inv-keep = record {
    covers = Covers-keep text i lit tokens c rest inv.covers;
    here = omega (
      arith,
      inv.here,
      length-append (render tokens) lit,
      length-append (render tokens) (lit ++ c ∷ []),
      length-append lit (c ∷ []),
    );
    located = inv.located;
  }

  Inv-emit :
      (t : Token) (n : ℕ)
      → action_at i c rest ≡ emit t n
      → Inv text (i + 1 + n) [] (flush_literal lit tokens ++ t ∷ []) (drop n rest)
  Inv-emit t n e =
      let (at, fits) = subst (Placed i (c ∷ rest)) e (action_at-Placed i c rest) in
      let bytes = ap length (subst (Emits c rest) e (action_at-Emits i c rest)) in
      record {
        covers = Covers-emit text i lit tokens c rest t n inv.covers e;
        here =
            rw (append-nil, render-append, render-flush_literal, append-nil)
              (omega (
                arith,
                bytes,
                fits,
                inv.here,
                length-append (render_token t) (drop n rest),
                length-append (render tokens ++ lit) (render_token t),
                length-drop n rest,
              ));
        located =
            Located-append 0 (flush_literal lit tokens) t
              (Located-flush_literal lit tokens inv.located)
              (rw (render-flush_literal, ← inv.here, zero-add) at);
      }

  Opens-fail : (pos : ℕ) (msg : LexError) → action_at i c rest ≡ fail pos msg → Opens text pos msg
  Opens-fail pos msg e =
      let (at, opens) = subst (Placed i (c ∷ rest)) e (action_at-Placed i c rest) in
      rw (at, here-drop) opens

positions : (text : Str) → Rule (Inv text) (Post text)
positions text = record {
  finishes = λ i lit tokens inv. Located-flush_literal lit tokens inv.located;
  keeps = λ i lit tokens c rest inv e. Inv-keep text i lit tokens c rest inv;
  emits = λ i lit tokens c rest t n inv e. Inv-emit text i lit tokens c rest inv t n e;
  fails = λ i lit tokens c rest pos msg inv e. Opens-fail text i lit tokens c rest inv pos msg e;
}

-- Whenever the lexer accepts a text, the offset in each variable token is the byte position at
-- which the token, written out, begins in the text.
pub lex-Located : (input : Str) (ts : List Token) → lex input ≡ ok ts → Located 0 ts
lex-Located input ts e =
    subst (Post input) e
      (lex_ind (positions input) input (record { covers = refl; here = refl; located = tt }))

-- Whenever the lexer refuses a text, the bytes at the reported position are `${`, and the message
-- is the one for an unterminated expansion exactly when no `}` follows them.
pub lex-Opens :
    (input : Str) (pos : ℕ) (msg : LexError) → lex input ≡ err (pos, msg) → Opens input pos msg
lex-Opens input pos msg e =
    subst (Post input) e
      (lex_ind (positions input) input (record { covers = refl; here = refl; located = tt }))
