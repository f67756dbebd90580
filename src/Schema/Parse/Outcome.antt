-- ===== src/Schema/Parse/Outcome.antt =====
-- What `parse_str` gives.
use burble.Base.{
  Bool, true, false, List, [], ◌∷◌, All, Option, Str, Result, ok, err, ◌≡◌, refl, ◌⊎◌, inl, inr,
  if◌then◌else◌, map_err, ◌>>=◌, ◌>>◌,
}
use burble.Schema.Parse.{
  ParseError, toml, unknown_field, missing_image_or_build, lacks_both, validate_services, path_or,
  parse_str,
}
use burble.Schema.Resources.{Compose}
use burble.Schema.Services.{Service}

-- The first service with neither an image nor a build has the name.
abbrev pub FirstLacking : Str → List (Str × Service) → Type 0
FirstLacking name [] = ⊥
FirstLacking name ((n, svc) ∷ services) =
    ((lacks_both svc ≡ true) × (name ≡ n)) ⊎ ((lacks_both svc ≡ false) × FirstLacking name services)

module _ {Value TomlError : Type 0} (from_str : Str → Result TomlError (Compose Value)) where
  abbrev pub ParseOutcome :
      Str → Option Str → Result (ParseError TomlError) (Compose Value) → Type 0
  ParseOutcome s path (ok c) =
      (from_str s ≡ ok c) × All (λ entry. lacks_both entry.1 ≡ false) c.services
  ParseOutcome s path (err (toml file e)) = (file ≡ path_or path) × (from_str s ≡ err e)
  ParseOutcome s path (err (missing_image_or_build name)) =
      (c : Compose Value) × (from_str s ≡ ok c) × FirstLacking name c.services
  ParseOutcome s path (err (unknown_field section field suggestion)) = ⊥

  abbrev Checks : List (Str × Service) → Result (ParseError TomlError) Unit → Type 0
  Checks services (ok done) = All (λ entry. lacks_both entry.1 ≡ false) services
  Checks services (err (missing_image_or_build name)) = FirstLacking name services
  Checks services (err e) = ⊥

  validate_services-Checks :
      (services : List (Str × Service)) → Checks services (validate_services services)
  unfolding validate_services
  validate_services-Checks [] = tt
  validate_services-Checks ((n, svc) ∷ services) =
      go (lacks_both svc) refl (validate_services services) (validate_services-Checks services)
    where
      go :
          (b : Bool)
          → lacks_both svc ≡ b
          → (r : Result (ParseError TomlError) Unit) → Checks services r
          → Checks ((n, svc) ∷ services) (if b then err (missing_image_or_build n) else r)
      go true e r h = inl (e, refl)
      go false e (ok done) h = (e, h)
      go false e (err (missing_image_or_build name)) h = inr (e, h)
      go false e (err (toml file x)) h = absurd h
      go false e (err (unknown_field a b c)) h = absurd h

  -- A document that is parsed is the one that the text holds, and each of its services has an image or a
  -- build. An error is that of the text, under the path of its source, or names the first service that has
  -- neither.
  pub parse_str-Outcome :
      (s : Str) (path : Option Str) → ParseOutcome s path (parse_str from_str s path)
  unfolding parse_str
  parse_str-Outcome s path = go (from_str s) refl
    where
      checked :
          (c : Compose Value)
          → from_str s ≡ ok c
          → (r : Result (ParseError TomlError) Unit) → Checks c.services r
          → ParseOutcome s path (r >> ok c)
      checked c e (ok done) h = (e, h)
      checked c e (err (missing_image_or_build name)) h = (c, e, h)
      checked c e (err (toml file x)) h = absurd h
      checked c e (err (unknown_field x y z)) h = absurd h

      go :
          (r : Result TomlError (Compose Value))
          → from_str s ≡ r
          → ParseOutcome s path
              (map_err (λ e. toml (path_or path) e) r >>= λ c. validate_services c.services >> ok c)
      go (ok c) e = checked c e (validate_services c.services) (validate_services-Checks c.services)
      go (err x) e = (refl, e)
