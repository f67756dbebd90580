-- ===== src/Driver/Argv/Reading.antt =====
-- How a program reads the arguments of `podman run`: flags, each with its value, up to the image.
use burble.Base.{
  Bool, true, false, not, ◌&&◌, List, [], ◌∷◌, ◌++◌, append_assoc, map, Option, none, some, Str,
  codes, str_eq, is_empty, if◌then◌else◌, ◌≡◌, refl, sym, ap, ◌∙◌, All, drop, ◌==◌,
}
use burble.Driver.Argv.{flag, flags, opt_flag, key_flags, entrypoint_of, run_flags, run_argv}
use burble.Plan.Ops.{RunSpec}
use burble.Plan.Render.{unwrap_or}

abbrev pub is_flag : Str → Bool
is_flag (c ∷ d ∷ s) = c == b'-' && d == b'-'
is_flag _ = false

-- The flags with their values, and the arguments behind them.
abbrev pub read_flags : List Str → List (Str × Str) × List Str
read_flags [] = ([], [])
read_flags (f ∷ []) = ([], f ∷ [])
read_flags (f ∷ value ∷ args) =
    let rest = read_flags args in
    if is_flag f then ((f, value) ∷ rest.0, rest.1) else ([], f ∷ value ∷ args)

abbrev written : List (Str × Str) → List Str
written [] = []
written ((f, value) ∷ ps) = f ∷ value ∷ written ps

abbrev pub named : Str → List Str → List (Str × Str)
named f values = map (λ value. (f, value)) values

abbrev pub opt_list {ℓ} : {A : Type ℓ} → Option A → List A
opt_list none = []
opt_list (some a) = a ∷ []

-- The flags that a container is run with.
abbrev pub options : (List Str → Option Str) → RunSpec → List (Str × Str)
options to_json spec =
    named (codes "--network")
      (elim spec.network_mode [ some mode ↦ mode ∷ [] | none ↦ spec.networks ])
    ++ named (codes "--restart") (
        if not (is_empty spec.restart) && not (str_eq spec.restart (codes "no"))
        then spec.restart ∷ []
        else [])
    ++ named (codes "--env") spec.environment
    ++ named (codes "--volume") spec.volumes
    ++ named (codes "--publish") spec.ports
    ++ named (codes "--label") (map (λ e. e.0 ++ codes "=" ++ e.1) spec.labels)
    ++ named (codes "--entrypoint") (opt_list (entrypoint_of to_json spec.entrypoint))

written-append : (ps qs : List (Str × Str)) → written (ps ++ qs) ≡ written ps ++ written qs
written-append [] qs = refl
written-append ((f, value) ∷ ps) qs = ap (λ args. f ∷ value ∷ args) (written-append ps qs)

All-flags-append :
    (ps qs : List (Str × Str))
    → All (λ p. is_flag p.0 ≡ true) ps
    → All (λ p. is_flag p.0 ≡ true) qs
    → All (λ p. is_flag p.0 ≡ true) (ps ++ qs)
All-flags-append [] qs h k = k
All-flags-append (p ∷ ps) qs h k = (h.0, All-flags-append ps qs h.1 k)

-- The arguments are the flags with their values.
record Writes (args : List Str) (ps : List (Str × Str)) : Type 0 where
  same : args ≡ written ps
  flagged : All (λ p. is_flag p.0 ≡ true) ps

Writes-append :
    {xs ys : List Str} {ps qs : List (Str × Str)}
    → Writes xs ps
    → Writes ys qs
    → Writes (xs ++ ys) (ps ++ qs)
Writes-append {xs} {ys} {ps} {qs} a b = record {
  same = rw (a.same, b.same) (sym (written-append ps qs));
  flagged = All-flags-append ps qs a.flagged b.flagged;
}

module _ (f : Str) (is : is_flag f ≡ true) where
  flags-Writes : (values : List Str) → Writes (flags f values) (named f values)
  unfolding flags flag
  flags-Writes [] = record { same = refl; flagged = tt }
  flags-Writes (value ∷ values) =
      let rest = flags-Writes values in
      record { same = ap (λ args. f ∷ value ∷ args) rest.same; flagged = (is, rest.flagged) }

  key_flags-Writes :
      (entries : List (Str × Str))
      → Writes (key_flags f entries) (named f (map (λ e. e.0 ++ codes "=" ++ e.1) entries))
  unfolding key_flags flag
  key_flags-Writes [] = record { same = refl; flagged = tt }
  key_flags-Writes ((key, val) ∷ entries) =
      let rest = key_flags-Writes entries in
      record {
        same = ap (λ args. f ∷ (key ++ codes "=" ++ val) ∷ args) rest.same;
        flagged = (is, rest.flagged);
      }

  opt_flag-Writes : (value : Option Str) → Writes (opt_flag f value) (named f (opt_list value))
  unfolding opt_flag flag
  opt_flag-Writes none = record { same = refl; flagged = tt }
  opt_flag-Writes (some value) = record { same = refl; flagged = (is, tt) }

  if-Writes :
      (b : Bool) (value : Str)
      → Writes (if b then flag f value else []) (named f (if b then value ∷ [] else []))
  unfolding flag
  if-Writes true value = record { same = refl; flagged = (is, tt) }
  if-Writes false value = record { same = refl; flagged = tt }

  mode-Writes :
      (mode : Option Str) (networks : List Str)
      → Writes
          (elim mode [ some m ↦ flag f m | none ↦ flags f networks ])
          (named f (elim mode [ some m ↦ m ∷ [] | none ↦ networks ]))
  unfolding flag
  mode-Writes none networks = flags-Writes networks
  mode-Writes (some m) networks = record { same = refl; flagged = (is, tt) }

-- Values that follow no flag of their own are not read as flags.
read_flags-written :
    (ps : List (Str × Str)) (args : List Str)
    → All (λ p. is_flag p.0 ≡ true) ps
    → read_flags args ≡ ([], args)
    → read_flags (written ps ++ args) ≡ (ps, args)
read_flags-written [] args h stops = stops
read_flags-written ((f, value) ∷ ps) args h stops =
    rw (h.0, read_flags-written ps args h.1 stops) refl

stops_at :
    (image : Str) (cmd : List Str)
    → is_flag image ≡ false
    → read_flags (image ∷ cmd) ≡ ([], image ∷ cmd)
stops_at image [] h = refl
stops_at image (c ∷ cmd) h = rw h refl

module _ (to_json : List Str → Option Str) (spec : RunSpec) where
  run_flags-Writes : Writes (run_flags to_json spec) (options to_json spec)
  unfolding run_flags
  run_flags-Writes =
      let network = mode-Writes (codes "--network") refl spec.network_mode spec.networks in
      let restart =
        if-Writes (codes "--restart") refl
          (not (is_empty spec.restart) && not (str_eq spec.restart (codes "no"))) spec.restart in
      let env = flags-Writes (codes "--env") refl spec.environment in
      let volumes = flags-Writes (codes "--volume") refl spec.volumes in
      let ports = flags-Writes (codes "--publish") refl spec.ports in
      let labels = key_flags-Writes (codes "--label") refl spec.labels in
      let entrypoint =
        opt_flag-Writes (codes "--entrypoint") refl (entrypoint_of to_json spec.entrypoint) in
      Writes-append
        (Writes-append
          (Writes-append (Writes-append (Writes-append (Writes-append network restart) env) volumes)
            ports)
          labels)
        entrypoint

  -- The arguments of `podman run`, read from the name of the container on, for an image whose name is
  -- no flag, are the name, the options of the container each with its value, whatever the values are, and
  -- behind them the image and the words of the command.
  pub read_flags-run_argv :
      is_flag spec.image ≡ false
      → read_flags (drop 3 (run_argv to_json spec)) ≡ (
        (codes "--name", spec.container_name) ∷ options to_json spec,
        spec.image ∷ unwrap_or spec.command [],
      )
  unfolding run_argv
  read_flags-run_argv plain =
      let w = run_flags-Writes in
      let cmd = unwrap_or spec.command [] in
      let rest =
        read_flags-written (options to_json spec) (spec.image ∷ cmd) w.flagged
          (stops_at spec.image cmd plain) in
      let behind =
        append_assoc (run_flags to_json spec) (spec.image ∷ []) cmd
        ∙ ap (λ args. args ++ spec.image ∷ cmd) w.same in
      ap (λ r. ((codes "--name", spec.container_name) ∷ r.0, r.1)) (ap read_flags behind ∙ rest)
