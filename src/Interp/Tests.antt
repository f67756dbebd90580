-- ===== src/Interp/Tests.antt =====
-- Templates and environments that the properties of the interpolation are tried on.
use burble.Base.{true, lookup, List, [], ◌∷◌, ◌++◌, some, Str, codes, Result, ok, err, ◌≡◌, refl}
use burble.Interp.Env.{EnvMap, empty, from_iter, get, with_overrides, with_env_files}
use burble.Interp.Env.Files.{LayersOutcome, load_all, with_env_files-Outcome}
use burble.Interp.Env.Layers.{
  IsEnv, or_else, empty-IsEnv, push_all-IsEnv, get-from_iter, get-with_overrides,
}
use burble.Interp.EnvFile.{lines_from, parse_env_str}
use burble.Interp.EnvFile.Entries.{ParseOutcome, parse_env_str-Outcome}
use burble.Interp.Expander.{expand}
use burble.Interp.Expander.Escapes.{expand-escape_dollars}
use burble.Interp.Expander.Values.{Expands, expand-Expands}
use burble.Interp.Lexer.{Token, LexError, literal, escape, var_default, lex}
use burble.Interp.Lexer.Lossless.{render, render-lex}
use burble.Interp.Lexer.Positions.{Located, Opens, lex-Located, lex-Opens}

abbrev template : Str
template = codes "a${HOST:-db}$$"

abbrev template_tokens : List Token
template_tokens = literal (codes "a") ∷ var_default (codes "HOST") (codes "db") true 1 ∷ escape ∷ []

lex-template : lex template ≡ ok template_tokens
unfolding lex
lex-template = refl

abbrev broken : Str
broken = codes "a${HOST"

lex-broken : lex broken ≡ err (1, LexError.unterminated)
unfolding lex
lex-broken = refl

abbrev process : List (Str × Str)
process = (codes "HOST", codes "here") ∷ (codes "PORT", codes "80") ∷ []

abbrev process_env : EnvMap
process_env = from_iter process

process_env-IsEnv : IsEnv process_env
unfolding from_iter
process_env-IsEnv = push_all-IsEnv empty process empty-IsEnv

abbrev load : Str → Result Str (List (Str × Str))
load path = ok ((codes "USER", path) ∷ (codes "HOST", path) ∷ [])

expand-template : expand template process_env ≡ ok (codes "ahere$")
unfolding expand from_iter
expand-template = refl

render-lex_example : render template_tokens ≡ template
render-lex_example = render-lex template template_tokens lex-template

lex-Located_example : Located 0 template_tokens
lex-Located_example = lex-Located template template_tokens lex-template

lex-Opens_example : Opens broken 1 LexError.unterminated
lex-Opens_example = lex-Opens broken 1 LexError.unterminated lex-broken

expand-Expands_example : Expands template process_env (lex template) (expand template process_env)
expand-Expands_example = expand-Expands template process_env

expand-escape_dollars_example : expand (codes "$$5$$$$") process_env ≡ ok (codes "$5$$")
expand-escape_dollars_example = expand-escape_dollars process_env (codes "$5$$")

get-from_iter_example : get process_env (codes "PORT") ≡ some (codes "80")
unfolding lookup
get-from_iter_example = get-from_iter process (codes "PORT")

get-with_overrides_example :
    get (with_overrides process_env ((codes "PORT", codes "81") ∷ [])) (codes "PORT")
    ≡ or_else
        (lookup (codes "PORT") ((codes "PORT", codes "81") ∷ []))
        (get process_env (codes "PORT"))
get-with_overrides_example =
    get-with_overrides process_env ((codes "PORT", codes "81") ∷ []) (codes "PORT")
      process_env-IsEnv

with_env_files-Outcome_example :
    LayersOutcome load process_env
      (load_all load (codes "a" ∷ codes "b" ∷ []))
      (with_env_files load process_env (codes "a" ∷ codes "b" ∷ []))
with_env_files-Outcome_example =
    with_env_files-Outcome load process_env (codes "a" ∷ codes "b" ∷ []) process_env-IsEnv

abbrev file : Str
file = codes "# c" ++ 10 ∷ codes " A='x y' " ++ 10 ∷ codes "B" ++ 10 ∷ []

parse-file : parse_env_str (λ path. path) (codes "f") file ≡ ok ((codes "A", codes "x y") ∷ [])
unfolding parse_env_str
parse-file = refl

parse_env_str-Outcome_example :
    ParseOutcome
      (λ path. path)
      (codes "f")
      0
      []
      (lines_from [] file)
      (parse_env_str (λ path. path) (codes "f") file)
parse_env_str-Outcome_example = parse_env_str-Outcome (λ path. path) (codes "f") file
