-- ===== src/Driver/Podman/Json.antt =====
-- The JSON records of podman.rs and what they become.
use burble.Base.{
  ℕ, List, [], ◌∷◌, ◌++◌, Option, none, some, Str, codes, is_empty, lookup, map, if◌then◌else◌,
}
use burble.Base.Decimal.{to_string}
use burble.Driver.Types.{ℤ, HealthState, ContainerState, ContainerSummary, health_status_from}

pub record PodmanHealthJson : Type 0 where
  pub status : Str
  pub failing_streak : ℕ

pub record PodmanStateJson : Type 0 where
  pub status : Str
  pub pid : ℕ
  pub exit_code : ℤ
  pub health : Option PodmanHealthJson

pub record PodmanContainerJson : Type 0 where
  pub name : Str
  pub state : PodmanStateJson

pub record PodmanPortJson : Type 0 where
  pub host_ip : Str
  pub container_port : ℕ
  pub host_port : ℕ
  pub protocol : Str

pub record PodmanPsJson : Type 0 where
  pub id : Str
  pub names : List Str
  pub image : Str
  pub state : Str
  pub ports : Option (List PodmanPortJson)
  pub labels : List (Str × Str)

unfoldable pub into_health : Option PodmanHealthJson → Option HealthState
unfolding health_status_from
into_health none = none
into_health (some h) =
    some (record { status = health_status_from h.status; failing_streak = h.failing_streak })

unfoldable pub into_container_state : PodmanContainerJson → ContainerState
unfolding into_health
into_container_state item = record {
  name = item.name;
  status = item.state.status;
  pid = item.state.pid;
  exit_code = item.state.exit_code;
  health = into_health item.state.health;
}

unfoldable pub port_text : PodmanPortJson → Str
unfolding to_string
port_text p =
    let binding =
      to_string p.host_port ++ codes ":" ++ to_string p.container_port ++ codes "/" ++ p.protocol in
    if is_empty p.host_ip then binding else p.host_ip ++ codes ":" ++ binding

abbrev pub first_name : List Str → Str
first_name [] = []
first_name (name ∷ names) = name

abbrev pub ports_or_none : Option (List PodmanPortJson) → List PodmanPortJson
ports_or_none none = []
ports_or_none (some ports) = ports

unfoldable pub into_summary : PodmanPsJson → ContainerSummary
unfolding port_text lookup
into_summary item = record {
  id = item.id;
  name = first_name item.names;
  image = item.image;
  state = item.state;
  ports = map port_text (ports_or_none item.ports);
  service = lookup (codes "io.podman.compose.service") item.labels;
}
