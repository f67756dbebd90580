-- ===== src/Driver/Process.antt =====
-- tools/selur-compose/crates/selur-compose-driver/src/exec.rs: a run of podman, and the search of its
-- error text for a refused port, with what they take from std. Starting a process and reading bytes as
-- UTF-8 are parameters.
pub mod Ports
use burble.Base.{
  ℕ, zero, suc, ◌+◌, ◌*◌, ◌-◌, Bool, true, false, not, ◌&&◌, ◌||◌, List, [], ◌∷◌, ◌++◌, Option,
  none, some, Str, codes, Result, ok, err, ◌==◌, leb, ltb, is_empty, if◌then◌else◌,
}
use burble.Driver.Types.{ℤ, pos, negsuc, DriverError, podman, io}
use burble.Interp.EnvFile.{whitespace_at}

-- `std::process::Output`: a process that a signal has ended has no code.
pub record Output : Type 0 where
  pub code : Option ℤ
  pub stdout : Str
  pub stderr : Str

-- `ExitStatus::success`
abbrev pub success : Option ℤ → Bool
success (some (pos zero)) = true
success _ = false

abbrev pub code_or : ℤ → Option ℤ → ℤ
code_or d none = d
code_or d (some c) = c

module _ {World IoError JsonError : Type 0}
    (spawn : (program : Str) (args : List Str) → World → Result IoError Output × World)
    (utf8_lossy : Str → Str) where
  -- What `run_podman` does with the end of the process.
  unfoldable pub judge :
      (argv : List Str)
      → Result IoError Output × World
      → Result (DriverError IoError JsonError) Output × World
  judge argv (err e, w) = (err (io e), w)
  judge argv (ok output, w) =
      if success output.code
      then (ok output, w)
      else (err (podman argv (code_or (negsuc 0) output.code) (utf8_lossy output.stderr)), w)

  unfoldable pub run_podman :
      (argv : List Str) → World → Result (DriverError IoError JsonError) Output × World
  unfolding judge
  run_podman [] w = judge [] (spawn (codes "podman") [] w)
  run_podman (program ∷ args) w = judge (program ∷ args) (spawn program args w)

-- `str::starts_with` and `str::contains`
unfoldable pub has_prefix : (text prefix : Str) → Bool
has_prefix text [] = true
has_prefix [] (p ∷ ps) = false
has_prefix (c ∷ cs) (p ∷ ps) = c == p && has_prefix cs ps

unfoldable pub has_text : (text part : Str) → Bool
unfolding has_prefix
has_text [] part = has_prefix [] part
has_text (c ∷ cs) part = has_prefix (c ∷ cs) part || has_text cs part

-- `split_whitespace`, behind the bytes `token` of the token so far, with `k` bytes to pass over.
unfoldable pub split_from : (k : ℕ) (token text : Str) → List Str
unfolding whitespace_at
split_from k token [] = if is_empty token then [] else token ∷ []
split_from (suc k) token (c ∷ cs) = split_from k token cs
split_from zero token (c ∷ cs) = elim (whitespace_at (c ∷ cs)) [
  | zero ↦ split_from zero (token ++ c ∷ []) cs
  | suc n ↦ if is_empty token then split_from n [] cs else token ∷ split_from n [] cs
]

abbrev pub is_trailing : ℕ → Bool
is_trailing c = c == b',' || c == b'.' || c == b';' || c == b':'

-- `trim_end_matches([',', '.', ';', ':'])`
unfoldable pub trim_trailing : Str → Str
trim_trailing [] = []
trim_trailing (c ∷ cs) =
    let rest = trim_trailing cs in if is_empty rest && is_trailing c then [] else c ∷ rest

-- `rsplit(':').next()`, behind the bytes since the last colon.
unfoldable pub last_segment : (since text : Str) → Str
last_segment since [] = since
last_segment since (c ∷ cs) =
    if c == b':' then last_segment [] cs else last_segment (since ++ c ∷ []) cs

-- The value of decimal digits, behind those of the value `n`.
unfoldable pub digits_value : ℕ → Str → Option ℕ
digits_value n [] = some n
digits_value n (c ∷ cs) =
    let rest = digits_value (n * 10 + (c - 48)) cs in if leb 48 c && leb c 57 then rest else none

abbrev pub below : ℕ → Option ℕ → Option ℕ
below bound none = none
below bound (some n) = if ltb n bound then some n else none

-- `str::parse::<u16>`: a sign `+` may stand in front.
unfoldable pub parse_u16 : Str → Option ℕ
unfolding digits_value
parse_u16 [] = none
parse_u16 (c ∷ []) = below 65536 (digits_value 0 (c ∷ []))
parse_u16 (c ∷ d ∷ cs) =
    if c == b'+'
    then below 65536 (digits_value 0 (d ∷ cs))
    else below 65536 (digits_value 0 (c ∷ d ∷ cs))

-- The body of the loop: the port that a token names, if it is a privileged one.
unfoldable pub token_port : Str → Option ℕ
unfolding trim_trailing last_segment parse_u16
token_port token = below 1024 (parse_u16 (last_segment [] (trim_trailing token)))

unfoldable pub first_port : List Str → Option ℕ
unfolding token_port
first_port [] = none
first_port (token ∷ tokens) = elim (token_port token) [
  | some port ↦ some port
  | none ↦ first_port tokens
]

unfoldable pub detect_privileged_port : Str → Option ℕ
unfolding has_text split_from first_port
detect_privileged_port stderr =
    if not (has_text stderr (codes "permission denied")) && not (has_text stderr (codes "EACCES"))
    then none
    else first_port (split_from 0 [] stderr)
