-- ===== src/Schema/Parse.antt =====
-- lib.rs and error.rs: `parse_str` and its checks. The reading of TOML (crate toml, by serde) and the
-- Levenshtein distance (crate strsim) are parameters.
pub mod Outcome
pub mod Suggestion
use burble.Base.{
  ℕ, Bool, true, false, ◌&&◌, List, [], ◌∷◌, Option, none, some, Str, codes, Result, ok, err, ◌>>=◌,
  ◌>>◌, map_err, leb, ltb, if◌then◌else◌, ◌≡◌, refl, All,
}
use burble.Schema.Resources.{Compose}
use burble.Schema.Services.{Service}

pub data ParseError (TomlError : Type 0) : Type 0 where
  toml : (file : Str) (source : TomlError) → ParseError TomlError
  unknown_field : (section field suggestion : Str) → ParseError TomlError
  missing_image_or_build : (service : Str) → ParseError TomlError

abbrev pub is_none {ℓ} : {A : Type ℓ} → Option A → Bool
is_none none = true
is_none (some a) = false

abbrev pub lacks_both : Service → Bool
lacks_both svc = is_none svc.image && is_none svc.build

-- The loop of `validate`.
unfoldable pub validate_services :
    {TomlError : Type 0} → List (Str × Service) → Result (ParseError TomlError) Unit
validate_services [] = ok tt
validate_services ((name, svc) ∷ services) =
    if lacks_both svc then err (missing_image_or_build name) else validate_services services

abbrev pub path_or : Option Str → Str
path_or none = codes "<input>"
path_or (some path) = path

module _ {Value TomlError : Type 0} (from_str : Str → Result TomlError (Compose Value)) where
  unfoldable pub parse_str :
      Str → (source_path : Option Str) → Result (ParseError TomlError) (Compose Value)
  unfolding validate_services
  parse_str s source_path = do
    compose ← map_err (λ e. toml (path_or source_path) e) (from_str s)
    validate_services compose.services
    ok compose

-- The first of the closest candidates within a distance of 3.
unfoldable pub closest : (distance : Str → ℕ) → (best : Option Str) → List Str → Option Str
closest distance best [] = best
closest distance none (c ∷ candidates) =
    closest distance (if leb (distance c) 3 then some c else none) candidates
closest distance (some b) (c ∷ candidates) =
    closest distance
      (if leb (distance c) 3 && ltb (distance c) (distance b) then some c else some b) candidates

unfoldable pub did_you_mean : (levenshtein : Str → Str → ℕ) (input : Str) → List Str → Option Str
unfolding closest
did_you_mean levenshtein input candidates = closest (levenshtein input) none candidates
