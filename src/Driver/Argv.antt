-- ===== src/Driver/Argv.antt =====
-- tools/selur-compose/crates/selur-compose-driver/src/argv.rs: the argument lists for podman.
-- `serde_json::to_string` on the entrypoint is a parameter; it returns `none` where it fails.
pub mod Reading
use burble.Base.{
  ℕ, Bool, not, ◌&&◌, List, [], ◌∷◌, ◌++◌, Option, none, some, Str, codes, str_eq, is_empty,
  if◌then◌else◌,
}
use burble.Base.Decimal.{to_string}
use burble.Plan.Ops.{BuildSpec, NetworkSpec, VolumeSpec, RunSpec}
use burble.Plan.Render.{unwrap_or}

-- `argv.push(flag); argv.push(value)`
unfoldable pub flag : Str → Str → List Str
flag name value = name ∷ value ∷ []

-- The same if there is a value.
unfoldable pub opt_flag : Str → Option Str → List Str
unfolding flag
opt_flag name none = []
opt_flag name (some value) = flag name value

-- The same for each value.
unfoldable pub flags : Str → List Str → List Str
unfolding flag
flags name [] = []
flags name (value ∷ values) = flag name value ++ flags name values

-- The same for each entry, as `{key}={val}`.
unfoldable pub key_flags : Str → List (Str × Str) → List Str
unfolding flag
key_flags name [] = []
key_flags name ((key, val) ∷ entries) =
    flag name (key ++ codes "=" ++ val) ++ key_flags name entries

unfoldable pub build_argv : BuildSpec → List Str
unfolding flag opt_flag key_flags
build_argv spec =
    codes "podman" ∷ codes "build" ∷ []
    ++ (if spec.no_cache then codes "--no-cache" ∷ [] else [])
    ++ flag (codes "--tag") spec.tag
    ++ opt_flag (codes "--file") spec.dockerfile
    ++ opt_flag (codes "--target") spec.target
    ++ key_flags (codes "--build-arg") spec.args
    ++ spec.context ∷ []

unfoldable pub pull_argv : Str → List Str
pull_argv image = codes "podman" ∷ codes "pull" ∷ image ∷ []

unfoldable pub network_create_argv : NetworkSpec → List Str
unfolding opt_flag key_flags
network_create_argv spec =
    codes "podman" ∷ codes "network" ∷ codes "create" ∷ []
    ++ opt_flag (codes "--driver") spec.driver
    ++ key_flags (codes "--label") spec.labels
    ++ spec.name ∷ []

unfoldable pub volume_create_argv : VolumeSpec → List Str
unfolding opt_flag key_flags
volume_create_argv spec =
    codes "podman" ∷ codes "volume" ∷ codes "create" ∷ []
    ++ opt_flag (codes "--driver") spec.driver
    ++ key_flags (codes "--label") spec.labels
    ++ spec.name ∷ []

-- `ep.join(" ")`
unfoldable pub join : List Str → Str
join [] = []
join (s ∷ []) = s
join (s ∷ t ∷ ss) = s ++ codes " " ++ join (t ∷ ss)

module _ (to_json : List Str → Option Str) where
  -- `serde_json::to_string(ep).unwrap_or_else(..)`, where there is an entrypoint.
  unfoldable pub entrypoint_of : Option (List Str) → Option Str
  unfolding join
  entrypoint_of none = none
  entrypoint_of (some ep) = elim (to_json ep) [ none ↦ some (join ep) | some json ↦ some json ]

  -- The flags of `podman run`, behind the name.
  unfoldable pub run_flags : RunSpec → List Str
  unfolding flag opt_flag flags key_flags entrypoint_of str_eq
  run_flags spec =
      elim spec.network_mode [
        | some mode ↦ flag (codes "--network") mode
        | none ↦ flags (codes "--network") spec.networks
      ]
      ++ (if not (is_empty spec.restart) && not (str_eq spec.restart (codes "no"))
          then flag (codes "--restart") spec.restart
          else [])
      ++ flags (codes "--env") spec.environment
      ++ flags (codes "--volume") spec.volumes
      ++ flags (codes "--publish") spec.ports
      ++ key_flags (codes "--label") spec.labels
      ++ opt_flag (codes "--entrypoint") (entrypoint_of spec.entrypoint)

  unfoldable pub run_argv : RunSpec → List Str
  unfolding run_flags
  run_argv spec =
      codes "podman" ∷ codes "run" ∷ codes "--detach" ∷ codes "--name" ∷ spec.container_name ∷ []
      ++ run_flags spec
      ++ spec.image ∷ []
      ++ unwrap_or spec.command []

unfoldable pub stop_argv : Str → ℕ → List Str
unfolding to_string
stop_argv id grace_secs =
    codes "podman" ∷ codes "stop" ∷ codes "--time" ∷ to_string grace_secs ∷ id ∷ []

unfoldable pub rm_argv : Str → Bool → List Str
rm_argv id force =
    codes "podman" ∷ codes "rm" ∷ [] ++ (if force then codes "--force" ∷ [] else []) ++ id ∷ []

unfoldable pub inspect_argv : Str → List Str
inspect_argv id = codes "podman" ∷ codes "inspect" ∷ codes "--format" ∷ codes "json" ∷ id ∷ []

unfoldable pub healthcheck_run_argv : Str → List Str
healthcheck_run_argv id = codes "podman" ∷ codes "healthcheck" ∷ codes "run" ∷ id ∷ []

unfoldable pub logs_argv : Str → Bool → List Str
logs_argv id follow =
    codes "podman" ∷ codes "logs" ∷ []
    ++ (if follow then codes "--follow" ∷ [] else [])
    ++ codes "--timestamps" ∷ id ∷ []

unfoldable pub ps_argv : Str → List Str
ps_argv project =
    codes "podman"
    ∷ codes "ps"
    ∷ codes "--all"
    ∷ codes "--filter"
    ∷ (codes "label=io.podman.compose.project=" ++ project)
    ∷ codes "--format"
    ∷ codes "json"
    ∷ []

unfoldable pub network_ls_argv : Str → List Str
network_ls_argv project =
    codes "podman"
    ∷ codes "network"
    ∷ codes "ls"
    ∷ codes "--filter"
    ∷ (codes "label=io.podman.compose.project=" ++ project)
    ∷ codes "--format"
    ∷ codes "json"
    ∷ []

unfoldable pub volume_ls_argv : Str → List Str
volume_ls_argv project =
    codes "podman"
    ∷ codes "volume"
    ∷ codes "ls"
    ∷ codes "--filter"
    ∷ (codes "label=io.podman.compose.project=" ++ project)
    ∷ codes "--format"
    ∷ codes "json"
    ∷ []
