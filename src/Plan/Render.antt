-- ===== src/Plan/Render.antt =====
-- `plan` of lib.rs, step 9: the `RunSpec` of one service.
use burble.Base.{
  List, [], ◌∷◌, ◌++◌, map, Option, none, some, Str, codes, if◌then◌else◌, btree_insert,
}
use burble.Base.Decimal.{to_string}
use burble.Plan.Ops.{RunSpec}
use burble.Schema.{
  Service, EnvMap, PortBinding, MountSpec, NetworkMode, StringOrList, RestartPolicy,
}

-- `format!("{project_name}_{svc_name}")`
abbrev pub container_name_of : Str → Str → Str
container_name_of project_name svc_name = project_name ++ codes "_" ++ svc_name

abbrev pub tag_of : Str → Str → Str
tag_of project_name svc_name = project_name ++ codes "_" ++ svc_name ++ codes ":latest"

abbrev pub unwrap_or {ℓ} : {A : Type ℓ} → Option A → A → A
unwrap_or none d = d
unwrap_or (some a) d = a

unfoldable pub image_of : Str → Str → Service → Str
image_of project_name svc_name svc = elim svc.build [
  | some build ↦ tag_of project_name svc_name
  | none ↦ unwrap_or svc.image []
]

unfoldable pub labels_of : Str → Str → Str → List (Str × Str)
unfolding btree_insert
labels_of project_name svc_name config_hash =
    btree_insert (codes "io.podman.compose.config-hash") config_hash (
      btree_insert (codes "io.podman.compose.service") svc_name
        (btree_insert (codes "io.podman.compose.project") project_name []))

env_entry : Str × Option Str → Str
env_entry (k, none) = k
env_entry (k, some val) = k ++ codes "=" ++ val

unfoldable pub environment_of : EnvMap → List Str
unfolding env_entry
environment_of EnvMap.empty = []
environment_of (EnvMap.list l) = l
environment_of (EnvMap.map m) = map env_entry m

-- The `match` on the host address and the published port.
port_long : Option Str → Option Str → Str → Str → Str
port_long (some ip) (some published) target proto =
    ip ++ codes ":" ++ published ++ codes ":" ++ target ++ codes "/" ++ proto
port_long none (some published) target proto =
    published ++ codes ":" ++ target ++ codes "/" ++ proto
port_long _ none target proto = target ++ codes "/" ++ proto

unfoldable pub port_of : PortBinding → Str
unfolding port_long to_string
port_of (PortBinding.short s) = s
port_of (PortBinding.long l) =
    port_long l.host_ip l.published (to_string l.target) (unwrap_or l.protocol (codes "tcp"))

unfoldable pub mount_of : MountSpec → Str
mount_of (MountSpec.short s) = s
mount_of (MountSpec.long l) =
    let src = unwrap_or l.source [] in
    if l.read_only
    then src ++ codes ":" ++ l.target ++ codes ":ro"
    else src ++ codes ":" ++ l.target

unfoldable pub network_mode_of : NetworkMode → Str
network_mode_of NetworkMode.bridge = codes "bridge"
network_mode_of NetworkMode.host = codes "host"
network_mode_of NetworkMode.none = codes "none"
network_mode_of (NetworkMode.container id) = codes "container:" ++ id
network_mode_of (NetworkMode.custom s) = s

abbrev pub map_option {ℓ κ} : {A : Type ℓ} {B : Type κ} → (A → B) → Option A → Option B
map_option f none = none
map_option f (some a) = some (f a)

unfoldable pub words_of : StringOrList → List Str
words_of (StringOrList.string s) = s ∷ []
words_of (StringOrList.list l) = l

unfoldable pub restart_of : RestartPolicy → Str
restart_of RestartPolicy.no_restart = codes "no"
restart_of RestartPolicy.always = codes "always"
restart_of RestartPolicy.on_failure = codes "on-failure"
restart_of RestartPolicy.unless_stopped = codes "unless-stopped"

unfoldable pub run_spec : Str → Str → Service → Str → RunSpec
unfolding image_of labels_of environment_of port_of mount_of network_mode_of words_of restart_of
run_spec project_name svc_name svc config_hash = record {
  service = svc_name;
  image = image_of project_name svc_name svc;
  container_name = container_name_of project_name svc_name;
  environment = environment_of svc.environment;
  ports = map port_of svc.ports;
  volumes = map mount_of svc.volumes;
  networks = elim svc.network_mode [ some mode ↦ [] | none ↦ svc.networks ];
  network_mode = map_option network_mode_of svc.network_mode;
  command = map_option words_of svc.command;
  entrypoint = map_option words_of svc.entrypoint;
  restart = restart_of svc.restart;
  labels = labels_of project_name svc_name config_hash;
}
