-- ===== src/Cli/Load/Interpolated.antt =====
-- The steps of `load` up to the interpolation.
use burble.Base.{
  Bool, true, false, List, [], ◌∷◌, keys, Distinct, Option, none, some, Str, codes, Result, ok, err,
  ◌>>=◌, map_err, ◌≡◌, ◌⊎◌, inl, inr, refl, subst, traverse, if◌then◌else◌,
}
use burble.Cli.Load.{
  LoadError, planning, no_compose_file, Files, find_file, resolve_compose_file, parsed, expanded,
  interpolated, build_env, read_limit, unreadable, unparsable, env_files, interpolation,
}
use burble.Cli.Load.Environment.{BuildOutcome, build_env-Outcome}
use burble.Interp.Env.{EnvMap}
use burble.Interp.Error.{InterpError}
use burble.Interp.Visit.{expand_in, visit_compose}
use burble.Interp.Visit.Expanded.{InService, IsExpanded}
use burble.Interp.Visit.Fields.{visit_compose-Field}
use burble.Interp.Visit.Steps.{Field, returns, fails, EachValue}
use burble.Interp.Visit.Strings.{in_compose}
use burble.Schema.{Compose, Service}
use burble.Schema.Parse.Outcome.{ParseOutcome, parse_str-Outcome}
use burble.Schema.Parse.{ParseError, parse_str}

EachValue-keys :
    {A : Type 0} (R : A → A → Type 0) (m m' : List (Str × A)) → EachValue R m m' → keys m ≡ keys m'
EachValue-keys R [] [] h = refl
EachValue-keys R ((k, a) ∷ m) ((l, b) ∷ m') (same, r, h) = cc (same, EachValue-keys R m m' h)
EachValue-keys R [] (b ∷ m') h = absurd h
EachValue-keys R (a ∷ m) [] h = absurd h

module _ {IoError : Type 0} (files : Files IoError) where
  abbrev here : (name : Str) → Str
  here name = files.join_path files.current_dir name

  abbrev first_name : Str
  first_name = here (codes "selur-compose.toml")

  abbrev second_name : Str
  second_name = here (codes "compose.toml")

  -- The path of the command line, or else the first of two names that there is in the current directory.
  abbrev pub FindOutcome : (file found : Option Str) → Type 0
  FindOutcome (some p) found = found ≡ some p
  FindOutcome none (some path) =
      ((files.exists first_name ≡ true) × (path ≡ first_name))
      ⊎ ((files.exists first_name ≡ false)
          × (files.exists second_name ≡ true)
          × (path ≡ second_name))
  FindOutcome none none = (files.exists first_name ≡ false) × (files.exists second_name ≡ false)

  pub resolve_compose_file-Outcome :
      (file : Option Str) → FindOutcome file (resolve_compose_file files file)
  unfolding resolve_compose_file find_file
  resolve_compose_file-Outcome (some p) = refl
  resolve_compose_file-Outcome none =
      go (files.exists first_name) (files.exists second_name) refl refl
    where
      go :
          (b c : Bool)
          → files.exists first_name ≡ b
          → files.exists second_name ≡ c
          → FindOutcome none (if b then some first_name else if c then some second_name else none)
      go true c e e' = inl (e, refl)
      go false true e e' = inr (e, e', refl)
      go false false e e' = (e, e')

  module _ {Value TomlError HashError : Type 0} (from_str : Str → Result TomlError (Compose Value))
      (service_hash : Service → Result HashError Str) where
    -- A table of a document that is read from TOML holds each name once.
    abbrev pub HasDistinctNames : Type 0
    HasDistinctNames =
        (s : Str) (c : Compose Value) → from_str s ≡ ok c → Distinct (keys c.services)

    -- What the file, or the part of it that is read, is parsed to.
    abbrev pub IsParsed : (path : Str) → Result (ParseError TomlError) (Compose Value) → Type 0
    IsParsed path r =
        (text : Str) × (files.read_limited (read_limit files) path ≡ ok text)
        × ParseOutcome from_str text (some path) r

    -- The steps up to the interpolation, by how they end.
    abbrev pub Interpolated :
        (path : Str) (env_paths : List Str)
        → Option (Result (LoadError IoError TomlError HashError) (Compose Value))
        → Type 0
    Interpolated path paths none =
        (c : Compose Value) × IsParsed path (ok c) × BuildOutcome files path paths none
    Interpolated path paths (some (ok c')) =
        (c : Compose Value) × (env : EnvMap) × IsParsed path (ok c)
        × BuildOutcome files path paths (some (ok env))
        × IsExpanded env c c'
    Interpolated path paths (some (err (unreadable p e))) =
        (p ≡ path) × (files.read_limited (read_limit files) path ≡ err e)
    Interpolated path paths (some (err (unparsable p e))) = (p ≡ path) × IsParsed path (err e)
    Interpolated path paths (some (err (env_files e))) =
        (c : Compose Value) × IsParsed path (ok c) × BuildOutcome files path paths (some (err e))
    Interpolated path paths (some (err (interpolation p e))) =
        (c : Compose Value) × (env : EnvMap) × (p ≡ path)
        × IsParsed path (ok c)
        × BuildOutcome files path paths (some (ok env))
        × (traverse (expand_in env) (in_compose c) ≡ err e)
    Interpolated path paths (some (err e)) = ⊥

    -- The result of reading and parsing.
    abbrev Parsed :
        (path : Str) → Result (LoadError IoError TomlError HashError) (Compose Value) → Type 0
    Parsed path (ok c) = IsParsed path (ok c)
    Parsed path (err (unreadable p e)) =
        (p ≡ path) × (files.read_limited (read_limit files) path ≡ err e)
    Parsed path (err (unparsable p e)) = (p ≡ path) × IsParsed path (err e)
    Parsed path (err e) = ⊥

    parsed-Parsed : (path : Str) → Parsed path (parsed files from_str service_hash path)
    unfolding parsed
    parsed-Parsed path = read (files.read_limited (read_limit files) path) refl
      where
        parse :
            (text : Str)
            → files.read_limited (read_limit files) path ≡ ok text
            → (r : Result (ParseError TomlError) (Compose Value))
            → ParseOutcome from_str text (some path) r
            → Parsed path (map_err (unparsable path) r)
        parse text e (ok c) h = (text, e, h)
        parse text e (err x) h = (refl, (text, e, h))

        read :
            (r : Result IoError Str)
            → files.read_limited (read_limit files) path ≡ r
            → Parsed path (
                map_err (unreadable path) r >>= λ s.
                map_err (unparsable path) (parse_str from_str s (some path)))
        read (err x) e = (refl, e)
        read (ok s) e =
            parse s e (parse_str from_str s (some path)) (parse_str-Outcome from_str s (some path))

    expanded-Interpolated :
        (path : Str) (paths : List Str) (c : Compose Value)
        → IsParsed path (ok c)
        → (r : Result InterpError EnvMap) → BuildOutcome files path paths (some r)
        → Interpolated path paths (some (expanded files from_str service_hash path c r))
    unfolding expanded
    expanded-Interpolated path paths c h (err e) o = (c, h, o)
    expanded-Interpolated path paths c h (ok env) o = go (visit_compose-Field env c)
      where
        go :
            Field (expand_in env) (visit_compose env c) (in_compose c) in_compose (IsExpanded env c)
            → Interpolated path paths (some (map_err (interpolation path) (visit_compose env c)))
        go (returns c' out is g (same, exp)) = rw is (c, env, h, o, exp)
        go (fails e is g) = rw is (c, env, refl, h, o, g)

    pub interpolated-Interpolated :
        (path : Str) (paths : List Str)
        → Interpolated path paths (interpolated files from_str service_hash path paths)
    unfolding interpolated
    interpolated-Interpolated path paths =
        go (parsed files from_str service_hash path) (parsed-Parsed path)
      where
        with_env :
            (c : Compose Value)
            → IsParsed path (ok c)
            → (r : Option (Result InterpError EnvMap)) → BuildOutcome files path paths r
            → Interpolated path paths (elim r [
              | none ↦ none
              | some env ↦ some (expanded files from_str service_hash path c env)
            ])
        with_env c h none o = (c, h, o)
        with_env c h (some env) o = expanded-Interpolated path paths c h env o

        go :
            (r : Result (LoadError IoError TomlError HashError) (Compose Value))
            → Parsed path r
            → Interpolated path paths (elim r [
              | err e ↦ some (err e)
              | ok c ↦ elim (build_env files path paths) [
                | none ↦ none
                | some env ↦ some (expanded files from_str service_hash path c env)
              ]
            ])
        go (ok c) h = with_env c h (build_env files path paths) (build_env-Outcome files path paths)
        go (err (unreadable p e)) h = h
        go (err (unparsable p e)) h = h
        go (err no_compose_file) h = absurd h
        go (err (env_files e)) h = absurd h
        go (err (interpolation p e)) h = absurd h
        go (err (planning p e)) h = absurd h

    -- The interpolated document has the names of the one that is parsed.
    pub Interpolated-Distinct :
        HasDistinctNames
        → (path : Str) (paths : List Str) (c' : Compose Value)
        → Interpolated path paths (some (ok c'))
        → Distinct (keys c'.services)
    Interpolated-Distinct names path paths c'
          (c, env, (text, e, (is, checks)), o, (p, services, n, v, s, k, x)) =
        subst (λ ks. Distinct ks) (EachValue-keys (InService env) c.services c'.services services)
          (names text c is)
