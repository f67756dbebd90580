-- ===== src/Driver/Podman/Errors.antt =====
-- What the driver makes of podman's refusals.
use burble.Base.{
  drop, zero, suc, ℕ, List, ◌∷◌, Option, none, some, Str, Result, ok, err, sym, ◌∙◌, ◌≡◌, ◌≢◌, refl,
  if◌then◌else◌, ap,
}
use burble.Driver.Argv.{run_argv}
use burble.Driver.Podman.{patch_argv, run_argv_of, read_run, run}
use burble.Driver.Podman.Json.{PodmanContainerJson, PodmanPsJson}
use burble.Driver.Process.{code_or, Output, success, judge, run_podman}
use burble.Driver.Process.Ports.{DetectOutcome, denies, detect_privileged_port-Outcome}
use burble.Driver.Types.{ℤ, pos, negsuc, DriverError, podman, privileged_port, io}
use burble.Interp.EnvFile.{trim}
use burble.Plan.Ops.{RunSpec}

module _ {World IoError JsonError Stream : Type 0} (binary : Str)
    (spawn : (program : Str) (args : List Str) → World → Result IoError Output × World)
    (open_output : (program : Str) (args : List Str) → World → Result IoError Stream × World)
    (utf8_lossy : Str → Str) (to_json : List Str → Option Str)
    (parse_containers : Str → Result JsonError (List PodmanContainerJson))
    (parse_ps : Str → Result JsonError (List PodmanPsJson)) where
  -- The process that a start of a container runs.
  abbrev pub started : RunSpec → World → Result IoError Output × World
  unfolding run_argv
  started spec w = spawn binary (drop 1 (run_argv to_json spec)) w

  -- How the process ends, read as a result of the driver.
  abbrev pub EndsAs :
      RunSpec
      → Result IoError Output × World
      → Result (DriverError IoError JsonError) Str × World
      → Type 0
  EndsAs spec end (ok id, w') =
      (out : Output) × (end ≡ (ok out, w'))
      × (out.code ≡ some (pos 0))
      × (id ≡ trim (utf8_lossy out.stdout))
  EndsAs spec end (err (io e), w') = end ≡ (err e, w')
  EndsAs spec end (err (privileged_port service port), w') =
      (out : Output) × (end ≡ (ok out, w'))
      × (out.code ≢ some (pos 0))
      × (service ≡ spec.service)
      × DetectOutcome (utf8_lossy out.stderr) (denies (utf8_lossy out.stderr)) (some port)
  EndsAs spec end (err (podman argv code stderr), w') =
      (out : Output) × (end ≡ (ok out, w'))
      × (out.code ≢ some (pos 0))
      × (argv ≡ binary ∷ drop 1 (run_argv to_json spec))
      × (code ≡ code_or (negsuc 0) out.code)
      × (stderr ≡ utf8_lossy out.stderr)
      × DetectOutcome stderr (denies stderr) none
  EndsAs spec end (err e, w') = ⊥

  read_run-EndsAs :
      (spec : RunSpec) (end : Result IoError Output × World)
      → EndsAs spec end (
          read_run binary spawn open_output utf8_lossy to_json parse_containers parse_ps
            spec.service
            (judge {JsonError = JsonError} spawn utf8_lossy
              (binary ∷ drop 1 (run_argv to_json spec))
              end))
  unfolding read_run judge run_argv
  read_run-EndsAs spec (err e, w) = refl
  read_run-EndsAs spec (ok out, w) = go out.code refl
    where
      text : Str
      text = utf8_lossy out.stderr

      failed :
          (c : Option ℤ)
          → out.code ≡ c
          → c ≢ some (pos 0)
          → (o : Option ℕ) → DetectOutcome text (denies text) o
          → EndsAs spec
              (ok out, w)
              (elim o as (λ _. Result (DriverError IoError JsonError) Str × World) [
                | some port ↦ (err (privileged_port spec.service port), w)
                | none ↦ (
                  err (
                      podman (binary ∷ drop 1 (run_argv to_json spec)) (code_or (negsuc 0) c) text),
                  w,
                )
              ])
      failed c e fails none h = (
        out,
        refl,
        (λ z. fails (sym e ∙ z)),
        refl,
        ap (λ x. code_or (negsuc 0) x) (sym e),
        refl,
        h,
      )
      failed c e fails (some port) h = (out, refl, (λ z. fails (sym e ∙ z)), refl, h)

      go :
          (c : Option ℤ)
          → out.code ≡ c
          → EndsAs spec
              (ok out, w)
              (read_run binary spawn open_output utf8_lossy to_json parse_containers parse_ps
                spec.service
                (if success c then (ok out, w) else (
                  err (
                      podman (binary ∷ drop 1 (run_argv to_json spec)) (code_or (negsuc 0) c) text),
                  w,
                )))
      go none e = failed none e (λ h. cc) _ (detect_privileged_port-Outcome text)
      go (some (pos zero)) e = (out, refl, e, refl)
      go (some (pos (suc n))) e = failed _ e (λ h. cc) _ (detect_privileged_port-Outcome text)
      go (some (negsuc n)) e = failed _ e (λ h. cc) _ (detect_privileged_port-Outcome text)

  -- The result of a start is how the process ends. If podman did not start, that is the error. If it
  -- ends with the code 0, the container's identifier is its trimmed output. With any other code, or none,
  -- the error is that of a privileged port of the service, which is the port that
  -- `detect_privileged_port` promises of its error text, if there is one, and otherwise podman's own, with
  -- its arguments, its code, or -1, and its error text.
  pub run-Outcome :
      (spec : RunSpec) (w : World)
      → EndsAs spec
          (started spec w)
          (run binary spawn open_output utf8_lossy to_json parse_containers parse_ps spec w)
  unfolding run run_argv_of run_podman run_argv patch_argv
  run-Outcome spec w = read_run-EndsAs spec (started spec w)
