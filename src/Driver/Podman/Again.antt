-- ===== src/Driver/Podman/Again.antt =====
-- The creation of a network or a volume that is there already.
use burble.Base.{
  drop, Bool, true, false, ◌||◌, List, ◌∷◌, Option, Str, Result, ok, err, ◌≡◌, refl, sym, subst,
  if◌then◌else◌, ap,
}
use burble.Driver.Argv.{network_create_argv}
use burble.Driver.Podman.{forgive, already_exists, create_network}
use burble.Driver.Podman.Json.{PodmanContainerJson, PodmanPsJson}
use burble.Driver.Process.{Output, success, code_or, judge}
use burble.Driver.Types.{DriverError, podman, negsuc}
use burble.Plan.Ops.{NetworkSpec}

either : (a : Bool) {b : Bool} → b ≡ true → (a || b) ≡ true
either true e = refl
either false e = e

decided :
    {E W : Type 0} (e : E) (b : Bool) (w w' : W)
    → ◌≡◌ {A = Result E Unit × W} (if b then (ok tt, w) else (err e, w)) (ok tt, w')
    → (w ≡ w') × (b ≡ true)
decided e true w w' h = (cc, refl)
decided e false w w' h = cc

same_output : {E : Type 0} (r : Result E Output) (a b : Output) → r ≡ ok a → r ≡ ok b → a ≡ b
same_output r a b is is' = cc

module _ {World IoError JsonError Stream : Type 0} (binary : Str)
    (spawn : (program : Str) (args : List Str) → World → Result IoError Output × World)
    (open_output : (program : Str) (args : List Str) → World → Result IoError Stream × World)
    (utf8_lossy : Str → Str) (to_json : List Str → Option Str)
    (parse_containers : Str → Result JsonError (List PodmanContainerJson))
    (parse_ps : Str → Result JsonError (List PodmanPsJson)) where
  -- podman's text says that the name is in use.
  abbrev in_use : Output → Bool
  in_use out =
      already_exists binary spawn open_output utf8_lossy to_json parse_containers parse_ps
        (utf8_lossy out.stderr)

  -- What podman documents of a creation: a name that it has made, or that it says is in use, is said to be
  -- in use, with a code that is not 0, when it is asked for again.
  abbrev pub StaysInUse : List Str → Type 0
  StaysInUse args =
      (w w' : World) (out : Output)
      → spawn binary args w ≡ (ok out, w')
      → (success out.code || in_use out) ≡ true
      → (again : Output) × ((spawn binary args w').0 ≡ ok again) × (in_use again ≡ true)

  -- A creation with the arguments.
  abbrev ensured :
      List Str → Result IoError Output × World → Result (DriverError IoError JsonError) Unit × World
  unfolding forgive judge
  ensured args r =
      forgive binary spawn open_output utf8_lossy to_json parse_containers parse_ps
        (already_exists binary spawn open_output utf8_lossy to_json parse_containers parse_ps)
        (judge spawn utf8_lossy (binary ∷ args) r)

  -- It succeeds where the output says one or the other.
  ensured-ok :
      (args : List Str) (r : Result IoError Output × World) (out : Output)
      → r.0 ≡ ok out
      → (success out.code || in_use out) ≡ true
      → (ensured args r).0 ≡ ok tt
  unfolding forgive judge
  ensured-ok args (err e, w) out same said = cc
  ensured-ok args (ok out', w) out same said =
      go (success out'.code)
        (already_exists binary spawn open_output utf8_lossy to_json parse_containers parse_ps)
        (subst (λ o. (success o.code || in_use o) ≡ true)
          (sym (same_output (ok out') out' out refl same)) said)
    where
      go :
          (good : Bool) (harmless : Str → Bool)
          → (good || harmless (utf8_lossy out'.stderr)) ≡ true
          → (forgive binary spawn open_output utf8_lossy to_json parse_containers parse_ps harmless
              (if good then (ok out', w) else (
                err (
                    podman (binary ∷ args) (code_or (negsuc 0) out'.code) (utf8_lossy out'.stderr)),
                w,
              ))).0
            ≡ ok tt
      go true harmless h = refl
      go false harmless h = rw h refl

  -- And only there.
  ok-ensured :
      (args : List Str) (r : Result IoError Output × World) (w' : World)
      → ensured args r ≡ (ok tt, w')
      → (out : Output) × (r ≡ (ok out, w')) × ((success out.code || in_use out) ≡ true)
  unfolding forgive judge
  ok-ensured args (err e, w) w' h = cc
  ok-ensured args (ok out, w) w' h =
      let (same, said) =
        go (success out.code)
          (already_exists binary spawn open_output utf8_lossy to_json parse_containers parse_ps)
          h in
      (out, ap (λ v. (ok out, v)) same, said)
    where
      go :
          (good : Bool) (harmless : Str → Bool)
          → forgive binary spawn open_output utf8_lossy to_json parse_containers parse_ps harmless (
              if good then (ok out, w) else (
                err (podman (binary ∷ args) (code_or (negsuc 0) out.code) (utf8_lossy out.stderr)),
                w,
              ))
            ≡ (ok tt, w')
          → (w ≡ w') × ((good || harmless (utf8_lossy out.stderr)) ≡ true)
      go true harmless h = (cc, refl)
      go false harmless h = decided _ (harmless (utf8_lossy out.stderr)) w w' h

  again :
      (args : List Str) (w w' : World)
      → StaysInUse args
      → ensured args (spawn binary args w) ≡ (ok tt, w')
      → (ensured args (spawn binary args w')).0 ≡ ok tt
  again args w w' stays e =
      let (out, is, said) = ok-ensured args (spawn binary args w) w' e in
      let (out', is', used) = stays w w' out is said in
      ensured-ok args (spawn binary args w') out' is' (either (success out'.code) used)

  -- A network that has been created, or that was found to be there, can be created again: the call
  -- succeeds.
  pub create_network-again :
      (n : NetworkSpec) (w w' : World)
      → StaysInUse (drop 1 (network_create_argv n))
      → create_network binary spawn open_output utf8_lossy to_json parse_containers parse_ps n w
        ≡ (ok tt, w')
      → (create_network binary spawn open_output utf8_lossy to_json parse_containers parse_ps n
          w').0
        ≡ ok tt
  unfolding create_network network_create_argv
  create_network-again n w w' stays e = again (drop 1 (network_create_argv n)) w w' stays e
