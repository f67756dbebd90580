-- ===== src/Interp/EnvFile/Entries.antt =====
-- `parse_env_str` of env.rs: which lines make entries, and which one fails.
use burble.Base.{
  ℕ, suc, ◌+◌, true, false, ◌||◌, List, [], ◌∷◌, ◌++◌, append_assoc, append-nil, Option, none, some,
  Str, codes, Result, ok, err, ◌≡◌, refl, sym, ap, ◌∙◌, All, get_elem?, is_empty, Bool-cases,
  Option-cases, inl, inr, arith, if◌then◌else◌,
}
use burble.Base.Decimal.{to_string}
use burble.Interp.Error.{InterpError, env_file}
use burble.Interp.EnvFile.{
  trim, starts_with, split_eq, strip_quotes, lines_from, parse_lines, parse_env_str,
}

-- The parts of a line around its first `=`, unless it is blank or a comment.
abbrev assignment : Str → Option (Str × Str)
assignment raw =
    if is_empty (trim raw) || starts_with b'#' (trim raw) then none else split_eq (trim raw)

abbrev entry_of : Option (Str × Str) → List (Str × Str)
entry_of none = []
entry_of (some (before, value)) = (trim before, strip_quotes value) ∷ []

abbrev pub entries : List Str → List (Str × Str)
entries [] = []
entries (raw ∷ lines) = entry_of (assignment raw) ++ entries lines

-- The line assigns to no name.
abbrev pub IsNameless : Str → Type 0
IsNameless raw =
    (before value : Str) × (assignment raw ≡ some (before, value)) × (is_empty (trim before) ≡ true)

All-named-append :
    (xs ys : List (Str × Str))
    → All (λ e. is_empty e.0 ≡ false) xs
    → All (λ e. is_empty e.0 ≡ false) ys
    → All (λ e. is_empty e.0 ≡ false) (xs ++ ys)
All-named-append [] ys h k = k
All-named-append (x ∷ xs) ys h k = (h.0, All-named-append xs ys h.1 k)

module _ {FilePath : Type 0} (display : FilePath → Str) (path : FilePath) where
  abbrev pub message : ℕ → InterpError
  message line = env_file (display path) (codes "line " ++ to_string line ++ codes ": empty key")

  -- What the lines end with, where the first of them has the number `start`.
  abbrev pub ParseOutcome :
      ℕ → List (Str × Str) → List Str → Result InterpError (List (Str × Str)) → Type 0
  ParseOutcome start pairs lines (ok r) =
      (r ≡ pairs ++ entries lines) × All (λ e. is_empty e.0 ≡ false) (entries lines)
  ParseOutcome start pairs lines (err e) =
      (n : ℕ) × (raw : Str) × (get_elem? lines n ≡ some raw)
      × IsNameless raw
      × (e ≡ message (start + n + 1))

  ParseOutcome-cons :
      (start : ℕ) (pairs : List (Str × Str)) (raw : Str) (lines : List Str)
      (r : Result InterpError (List (Str × Str)))
      → All (λ e. is_empty e.0 ≡ false) (entry_of (assignment raw))
      → ParseOutcome (start + 1) (pairs ++ entry_of (assignment raw)) lines r
      → ParseOutcome start pairs (raw ∷ lines) r
  ParseOutcome-cons start pairs raw lines (ok r) named o = (
    o.0 ∙ append_assoc pairs (entry_of (assignment raw)) (entries lines),
    All-named-append (entry_of (assignment raw)) (entries lines) named o.1,
  )
  ParseOutcome-cons start pairs raw lines (err e) named (n, found, at, nameless, is) =
      let next : start + 1 + n + 1 ≡ start + suc n + 1 = omega arith in
      (suc n, found, at, nameless, is ∙ ap message next)

  parse_lines-cons :
      (start : ℕ) (pairs : List (Str × Str)) (raw : Str) (lines : List Str)
      → parse_lines display path start pairs (raw ∷ lines) ≡ elim (assignment raw) [
        | none ↦ parse_lines display path (start + 1) pairs lines
        | some (before, value) ↦ elim (is_empty (trim before)) [
          | true ↦ err (message (start + 1))
          | false ↦
              parse_lines display path
                (start + 1)
                (pairs ++ (trim before, strip_quotes value) ∷ [])
                lines
        ]
      ]
  unfolding parse_lines
  parse_lines-cons start pairs raw lines =
      elim (Bool-cases (is_empty (trim raw) || starts_with b'#' (trim raw))) [
        | inl e ↦ rw (e, parse_lines) refl
        | inr e ↦ rw (e, parse_lines) refl
      ]

  parse_lines-Outcome :
      (start : ℕ) (pairs : List (Str × Str)) (lines : List Str)
      → ParseOutcome start pairs lines (parse_lines display path start pairs lines)
  unfolding parse_lines
  parse_lines-Outcome start pairs [] = (sym (append-nil pairs), tt)
  parse_lines-Outcome start pairs (raw ∷ lines) =
      let first : start + 1 ≡ start + 0 + 1 = omega arith in
      rw (parse_lines-cons start pairs raw lines) (elim (Option-cases (assignment raw)) [
        | inl e ↦ rw e (
            ParseOutcome-cons start pairs raw lines _ (rw e tt)
              (rw (e, append-nil) (parse_lines-Outcome (start + 1) pairs lines)))
        | inr ((before, value), e) ↦ elim (Bool-cases (is_empty (trim before))) [
          | inl blank ↦ rw (e, blank) (0, raw, refl, (before, value, e, blank), ap message first)
          | inr named ↦
              rw (e, named)
                (ParseOutcome-cons start pairs raw lines _ (rw e (named, tt)) (
                  rw e (
                    parse_lines-Outcome (start + 1)
                      (pairs ++ (trim before, strip_quotes value) ∷ []) lines)))
        ]
      ])

  -- Every outcome of the parser. The pairs are those of the lines with a `=` that are neither blank nor
  -- a comment, in order, and every name has a character. An error gives the number of a line, from
  -- 1 on, that assigns to no name.
  pub parse_env_str-Outcome :
      (content : Str)
      → ParseOutcome 0 [] (lines_from [] content) (parse_env_str display path content)
  unfolding parse_env_str
  parse_env_str-Outcome content = parse_lines-Outcome 0 [] (lines_from [] content)
