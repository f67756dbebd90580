-- ===== src/Driver/Process/Ports.antt =====
-- What `detect_privileged_port` finds.
use burble.Base.{
  ℕ, ◌<◌, Bool, true, false, not, ◌&&◌, ◌||◌, List, [], ◌∷◌, ◌++◌, Option, none, some, Str, codes,
  ◌≡◌, refl, ap, if◌then◌else◌, All, arith, subst, ltb,
}
use burble.Driver.Process.{
  below, token_port, first_port, has_text, split_from, detect_privileged_port, parse_u16,
  last_segment, trim_trailing,
}

-- The text speaks of a refusal.
abbrev pub denies : Str → Bool
unfolding has_text
denies stderr = has_text stderr (codes "permission denied") || has_text stderr (codes "EACCES")

abbrev pub NamesNone : Str → Type 0
unfolding token_port
NamesNone token = token_port token ≡ none

-- The port is the one of the first token that names a privileged port.
pub record Finds (tokens : List Str) (port : ℕ) : Type 0 where
  pub before : List Str
  pub token : Str
  pub behind : List Str
  pub split : tokens ≡ before ++ token ∷ behind
  pub passed : All NamesNone before
  pub names : parse_u16 (last_segment [] (trim_trailing token)) ≡ some port
  pub privileged : port < 1024

abbrev pub FirstOutcome : List Str → Option ℕ → Type 0
FirstOutcome tokens none = All NamesNone tokens
FirstOutcome tokens (some port) = Finds tokens port

abbrev pub DetectOutcome : Str → Bool → Option ℕ → Type 0
unfolding split_from
DetectOutcome stderr false found = found ≡ none
DetectOutcome stderr true found = FirstOutcome (split_from 0 [] stderr) found

some-inj : {A : Type 0} {a b : A} → some a ≡ some b → a ≡ b
some-inj e = cc

below-some : (bound n : ℕ) (o : Option ℕ) → below bound o ≡ some n → (o ≡ some n) × (n < bound)
below-some bound n none e = cc
below-some bound n (some m) e = go (ltb m bound) refl e
  where
    go :
        (b : Bool)
        → ltb m bound ≡ b
        → (if b then some m else none) ≡ some n
        → (some m ≡ some n) × (n < bound)
    go false less e = cc
    go true less e = (e, subst (λ k. k < bound) (some-inj e) (ground (arith, less)))

names_first :
    (token : Str) (tokens : List Str) (port : ℕ)
    → token_port token ≡ some port
    → Finds (token ∷ tokens) port
unfolding token_port
names_first token tokens port e =
    let (names, privileged) =
      below-some 1024 port (parse_u16 (last_segment [] (trim_trailing token))) e in
    record {
      before = [];
      token = token;
      behind = tokens;
      split = refl;
      passed = tt;
      names = names;
      privileged = privileged;
    }

first_port-Outcome : (tokens : List Str) → FirstOutcome tokens (first_port tokens)
unfolding first_port
first_port-Outcome [] = tt
first_port-Outcome (token ∷ tokens) =
    go (token_port token) refl (first_port tokens) (first_port-Outcome tokens)
  where
    go :
        (o : Option ℕ)
        → token_port token ≡ o
        → (rest : Option ℕ) → FirstOutcome tokens rest
        → FirstOutcome (token ∷ tokens) (elim o [ some port ↦ some port | none ↦ rest ])
    go (some port) e rest h = names_first token tokens port e
    go none e none h = (e, h)
    go none e (some port) h = record {
      before = token ∷ h.before;
      token = h.token;
      behind = h.behind;
      split = ap (λ t. token ∷ t) h.split;
      passed = (e, h.passed);
      names = h.names;
      privileged = h.privileged;
    }

-- A text that speaks of no refusal gives no port. Otherwise the result is the port below 1024 that the
-- first of its words to name one names behind its last colon, the punctuation at its end left out, and
-- none if no word does.
pub detect_privileged_port-Outcome :
    (stderr : Str) → DetectOutcome stderr (denies stderr) (detect_privileged_port stderr)
unfolding detect_privileged_port
detect_privileged_port-Outcome stderr =
    go (has_text stderr (codes "permission denied")) (has_text stderr (codes "EACCES"))
      (first_port (split_from 0 [] stderr)) (first_port-Outcome (split_from 0 [] stderr))
  where
    go :
        (permission eacces : Bool) (found : Option ℕ)
        → FirstOutcome (split_from 0 [] stderr) found
        → DetectOutcome stderr
            (permission || eacces)
            (if not permission && not eacces then none else found)
    go true eacces found h = h
    go false true found h = h
    go false false found h = refl
