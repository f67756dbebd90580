-- ===== src/Interp/EnvFile.antt =====
-- `load_env_file`, `parse_env_str` and `strip_quotes` of env.rs, with what they take from std.
pub mod Entries
use burble.Base.{
  ℕ, zero, suc, ◌+◌, ◌-◌, Bool, true, false, ◌&&◌, ◌||◌, List, [], ◌∷◌, ◌++◌, Option, none, some,
  Str, codes, Result, ok, err, ◌>>=◌, map_err, ◌==◌, leb, if◌then◌else◌, is_empty, length, take,
  drop,
}
use burble.Base.Decimal.{to_string}
use burble.Interp.Error.{InterpError, env_file}

-- How many bytes the white space character at the front has: the code points with the property
-- `White_Space`, in UTF-8. 0 where there is none.
unfoldable pub whitespace_at : Str → ℕ
whitespace_at (c ∷ d ∷ e ∷ cs) =
    if leb 9 c && leb c 13 || c == 32
    then 1
    else if c == 0xC2 && (d == 0x85 || d == 0xA0)
    then 2
    else if c == 0xE1 && d == 0x9A && e == 0x80
    then 3
    else if c == 0xE2
        && d == 0x80
        && (leb 0x80 e && leb e 0x8A || e == 0xA8 || e == 0xA9 || e == 0xAF)
    then 3
    else if c == 0xE2 && d == 0x81 && e == 0x9F
    then 3
    else if c == 0xE3 && d == 0x80 && e == 0x80
    then 3
    else 0
whitespace_at (c ∷ d ∷ []) =
    if leb 9 c && leb c 13 || c == 32
    then 1
    else if c == 0xC2 && (d == 0x85 || d == 0xA0)
    then 2
    else 0
whitespace_at (c ∷ []) = if leb 9 c && leb c 13 || c == 32 then 1 else 0
whitespace_at [] = 0

-- `str::trim_start`, behind the first `k` bytes.
unfoldable pub trim_skip : ℕ → Str → Str
unfolding whitespace_at
trim_skip k [] = []
trim_skip (suc k) (c ∷ cs) = trim_skip k cs
trim_skip zero (c ∷ cs) = elim (whitespace_at (c ∷ cs)) [ zero ↦ c ∷ cs | suc n ↦ trim_skip n cs ]

-- `str::trim_end`: no other character has bytes that read as white space.
unfoldable pub trim_end : Str → Str
unfolding trim_skip
trim_end [] = []
trim_end (c ∷ cs) = if is_empty (trim_skip 0 (c ∷ cs)) then [] else c ∷ trim_end cs

unfoldable pub trim : Str → Str
unfolding trim_skip trim_end
trim s = trim_end (trim_skip 0 s)

-- A line that ends in `\r\n` loses both.
unfoldable pub strip_cr : Str → Str
strip_cr [] = []
strip_cr (c ∷ []) = if c == 13 then [] else c ∷ []
strip_cr (c ∷ d ∷ cs) = c ∷ strip_cr (d ∷ cs)

-- `str::lines`, behind the bytes `line` of the line so far.
unfoldable pub lines_from : Str → Str → List Str
unfolding strip_cr
lines_from [] [] = []
lines_from (c ∷ line) [] = (c ∷ line) ∷ []
lines_from line (c ∷ cs) = elim (c == 10) [
  | true ↦ strip_cr line ∷ lines_from [] cs
  | false ↦ lines_from (line ++ c ∷ []) cs
]

-- `line.find('=')` and the slices on its two sides.
unfoldable pub split_eq : Str → Option (Str × Str)
split_eq [] = none
split_eq (c ∷ cs) =
    if c == b'='
    then some ([], cs)
    else elim (split_eq cs) [ none ↦ none | some (key, value) ↦ some (c ∷ key, value) ]

unfoldable pub starts_with : ℕ → Str → Bool
starts_with c [] = false
starts_with c (d ∷ ds) = d == c

unfoldable pub ends_with : ℕ → Str → Bool
ends_with c [] = false
ends_with c (d ∷ []) = d == c
ends_with c (d ∷ e ∷ ds) = ends_with c (e ∷ ds)

unfoldable pub strip_quotes : Str → Str
unfolding trim_end starts_with ends_with
strip_quotes s =
    let t = trim_end s in
    if leb 2 (length t)
      && (starts_with b'"' t && ends_with b'"' t || starts_with b'\'' t && ends_with b'\'' t)
    then take (length t - 2) (drop 1 t)
    else t

module _ {FilePath : Type 0} (display : FilePath → Str) (path : FilePath) where
  -- The loop over the lines; `line_no` counts from 0.
  unfoldable pub parse_lines :
      ℕ → List (Str × Str) → List Str → Result InterpError (List (Str × Str))
  unfolding trim split_eq strip_quotes to_string starts_with
  parse_lines line_no pairs [] = ok pairs
  parse_lines line_no pairs (raw ∷ lines) =
      let line = trim raw in
      elim (is_empty line || starts_with b'#' line) [
        | true ↦ parse_lines (line_no + 1) pairs lines
        | false ↦ elim (split_eq line) [
          | none ↦ parse_lines (line_no + 1) pairs lines
          | some (before, raw_val) ↦
              let key = trim before in
              elim (is_empty key) [
                | true ↦ err (
                    env_file (display path)
                      (codes "line " ++ to_string (line_no + 1) ++ codes ": empty key"))
                | false ↦
                    parse_lines (line_no + 1) (pairs ++ (key, strip_quotes raw_val) ∷ []) lines
              ]
        ]
      ]

  unfoldable pub parse_env_str : Str → Result InterpError (List (Str × Str))
  unfolding parse_lines lines_from
  parse_env_str content = parse_lines 0 [] (lines_from [] content)

  -- `read` opens the file and reads at most 1 MiB of it; its error is the text of std's.
  unfoldable pub load_env_file : (FilePath → Result Str Str) → Result InterpError (List (Str × Str))
  unfolding parse_env_str
  load_env_file read = do
    content ← map_err (env_file (display path)) (read path)
    parse_env_str content
