-- ===== src/Interp/Lexer.antt =====
-- tools/selur-compose/crates/selur-compose-interp/src/lexer.rs: the template lexer.
-- A slice of the input is a value here. The loop's `i` is the byte offset, `lit` is the slice
-- `input[lit_start..i]`, and the bytes from `i` on are the last list.
pub mod Rule
pub mod Lossless
pub mod Positions
use burble.Base.{
  ℕ, zero, suc, ◌+◌, ◌≤◌, Bool, true, false, not, ◌&&◌, ◌||◌, List, [], ◌∷◌, ◌++◌, Option, none,
  some, Str, Result, ok, err, ◌>>=◌, map_err, ◌==◌, leb, if◌then◌else◌, is_empty, length, take,
  drop, length-drop_le, arith,
}

pub data Token : Type 0 where
  literal : Str → Token
  escape : Token
  var_plain : (name : Str) (offset : ℕ) → Token
  var_default : (name default : Str) (colon : Bool) (offset : ℕ) → Token
  var_required : (name msg : Str) (colon : Bool) (offset : ℕ) → Token

-- The texts of the messages are one constructor each.
pub data LexError : Type 0 where
  unterminated empty_name invalid_name unrecognised_modifier : LexError

-- `u8::is_ascii_alphanumeric() || b == b'_'`
unfoldable pub is_name_char : ℕ → Bool
is_name_char b =
    leb b'a' b && leb b b'z' || leb b'A' b && leb b b'Z' || leb b'0' b && leb b b'9' || b == b'_'

-- `haystack.iter().position(|&b| b == needle)`
unfoldable pub memchr_byte : ℕ → Str → Option ℕ
memchr_byte needle [] = none
memchr_byte needle (b ∷ bs) =
    if b == needle
    then some 0
    else elim (memchr_byte needle bs) [ none ↦ none | some k ↦ some (suc k) ]

-- `position(|&b| !is_name_char(b)).unwrap_or(bytes.len())`
unfoldable pub name_length : Str → ℕ
unfolding is_name_char
name_length [] = 0
name_length (b ∷ bs) = if is_name_char b then suc (name_length bs) else 0

-- The `match` on the bytes behind the name.
unfoldable pub modifier : Str → Str → ℕ → Result LexError Token
modifier name [] offset = ok (var_plain name offset)
modifier name (b ∷ []) offset =
    if b == b'-'
    then ok (var_default name [] false offset)
    else if b == b'?'
    then ok (var_required name [] false offset)
    else err unrecognised_modifier
modifier name (b ∷ c ∷ rest) offset =
    if b == b':' && c == b'-'
    then ok (var_default name rest true offset)
    else if b == b'-'
    then ok (var_default name (c ∷ rest) false offset)
    else if b == b':' && c == b'?'
    then ok (var_required name rest true offset)
    else if b == b'?'
    then ok (var_required name (c ∷ rest) false offset)
    else err unrecognised_modifier

unfoldable pub parse_expansion : Str → ℕ → Result LexError Token
unfolding name_length modifier
parse_expansion inner offset =
    let name_end = name_length inner in
    if is_empty inner
    then err empty_name
    else if name_end == 0
    then err invalid_name
    else modifier (take name_end inner) (drop name_end inner) offset

-- What the body of the loop does at one byte: it leaves the byte in the literal, or emits a token
-- for the byte and the `n` bytes behind it, or returns an error.
pub data Action : Type 0 where
  keep : Action
  emit : (token : Token) (n : ℕ) → Action
  fail : (pos : ℕ) (msg : LexError) → Action

-- The arm `b'{'`, on the bytes behind the brace.
expansion_at : ℕ → Str → Action
unfolding memchr_byte parse_expansion
expansion_at dollar_pos rest = elim (memchr_byte b'}' rest) [
  | none ↦ fail dollar_pos unterminated
  | some rel ↦ elim (parse_expansion (take rel rest) dollar_pos) [
    | err msg ↦ fail dollar_pos msg
    | ok token ↦ emit token (rel + 2)
  ]
]

-- Behind a `$`.
unfoldable pub dollar_at : ℕ → Str → Action
unfolding expansion_at
dollar_at i [] = keep
dollar_at i (d ∷ rest) =
    if d == b'$' then emit escape 1 else if d == b'{' then expansion_at i rest else keep

unfoldable pub action_at : ℕ → ℕ → Str → Action
unfolding dollar_at
action_at i c rest = if not (c == b'$') then keep else dollar_at i rest

-- `flush_literal!`
abbrev pub flush_literal : Str → List Token → List Token
flush_literal [] tokens = tokens
flush_literal (c ∷ lit) tokens = tokens ++ literal (c ∷ lit) ∷ []

-- The `while` loop. It recurses on a proved bound for the number of bytes left.
lex_from :
    (bound i : ℕ) (lit : Str) (tokens : List Token) (rest : Str)
    → length rest ≤ bound
    → Result (ℕ × LexError) (List Token)
unfolding action_at
lex_from bound i lit tokens [] h = ok (flush_literal lit tokens)
lex_from zero i lit tokens (c ∷ rest) h = absurd (omega arith)
lex_from (suc bound) i lit tokens (c ∷ rest) h = elim (action_at i c rest) [
  | keep ↦ lex_from bound (i + 1) (lit ++ c ∷ []) tokens rest (omega arith)
  | emit token n ↦
      lex_from bound (i + 1 + n) [] (flush_literal lit tokens ++ token ∷ []) (drop n rest)
        (omega (arith, length-drop_le n rest))
  | fail pos msg ↦ err (pos, msg)
]

unfoldable pub lex : Str → Result (ℕ × LexError) (List Token)
unfolding lex_from
lex input = lex_from (length input) 0 [] [] input (omega arith)
