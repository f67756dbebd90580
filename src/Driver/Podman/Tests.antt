-- ===== src/Driver/Podman/Tests.antt =====
-- Processes that the properties of the podman driver are tried on.
use burble.Base.{
  Bool, true, false, List, [], Option, none, some, Str, codes, Result, ok, err, ◌≡◌, refl, subst,
  drop,
}
use burble.Driver.Argv.{network_create_argv}
use burble.Driver.Podman.{run, create_network}
use burble.Driver.Podman.Again.{StaysInUse, create_network-again}
use burble.Driver.Podman.Errors.{EndsAs, started, run-Outcome}
use burble.Driver.Podman.Json.{PodmanContainerJson, PodmanPsJson}
use burble.Driver.Process.{Output, has_text, detect_privileged_port}
use burble.Driver.Process.Ports.{DetectOutcome, denies, detect_privileged_port-Outcome}
use burble.Driver.Types.{pos}
use burble.Plan.Ops.{NetworkSpec, RunSpec}

abbrev refusal : Str
refusal = codes "listen tcp 0.0.0.0:80: bind: permission denied"

detect-refusal : detect_privileged_port refusal ≡ some 80
unfolding detect_privileged_port
detect-refusal = refl

-- A number that is no port, in a text that speaks of a refusal.
detect-exit_code : detect_privileged_port (codes "permission denied, exit code 126") ≡ some 126
unfolding detect_privileged_port
detect-exit_code = refl

detect_privileged_port-Outcome_example :
    DetectOutcome refusal (denies refusal) (detect_privileged_port refusal)
detect_privileged_port-Outcome_example = detect_privileged_port-Outcome refusal

-- The world is whether there is a network; a container's port is refused.
abbrev spawn : Str → List Str → Bool → Result Str Output × Bool
spawn program args true = (
  ok (record { code = some (pos 125); stdout = []; stderr = codes "network already exists" }),
  true,
)
spawn program args false =
    (ok (record { code = some (pos 0); stdout = codes "net"; stderr = refusal }), true)

abbrev refuse : Str → List Str → Bool → Result Str Output × Bool
refuse program args w = (ok (record { code = some (pos 126); stdout = []; stderr = refusal }), w)

abbrev open_output : Str → List Str → Bool → Result Str Unit × Bool
open_output program args w = (ok tt, w)

abbrev lossy : Str → Str
lossy bytes = bytes

abbrev no_json : List Str → Option Str
no_json words = none

abbrev no_containers : Str → Result Str (List PodmanContainerJson)
no_containers text = err text

abbrev no_ps : Str → Result Str (List PodmanPsJson)
no_ps text = err text

abbrev net : NetworkSpec
net = record { name = codes "net"; driver = none; labels = [] }

abbrev web : RunSpec
web = record {
  service = codes "web";
  image = codes "img";
  container_name = codes "shop_web";
  environment = [];
  ports = [];
  volumes = [];
  networks = [];
  network_mode = none;
  command = none;
  entrypoint = none;
  restart = codes "no";
  labels = [];
}

run-Outcome_example :
    EndsAs
      (codes "podman")
      refuse
      open_output
      lossy
      no_json
      no_containers
      no_ps
      web
      (started (codes "podman") refuse open_output lossy no_json no_containers no_ps web false)
      (run (codes "podman") refuse open_output lossy no_json no_containers no_ps web false)
run-Outcome_example =
    run-Outcome (codes "podman") refuse open_output lossy no_json no_containers no_ps web false

there :
    (w w' : Bool) (args : List Str) (out : Output)
    → spawn (codes "podman") args w ≡ (ok out, w')
    → true ≡ w'
there true w' args out e = cc
there false w' args out e = cc

stays :
    StaysInUse
      (codes "podman")
      spawn
      open_output
      lossy
      no_json
      no_containers
      no_ps
      (drop 1 (network_create_argv net))
unfolding has_text network_create_argv
stays w w' out e said =
    subst
      (λ v.
        (again : Output) × ((spawn (codes "podman") (drop 1 (network_create_argv net)) v).0
          ≡ ok again)
        × (has_text (lossy again.stderr) (codes "already exists") ≡ true))
      (there w w' (drop 1 (network_create_argv net)) out e)
      (
        record { code = some (pos 125); stdout = []; stderr = codes "network already exists" },
        refl,
        refl,
      )

created :
    create_network (codes "podman") spawn open_output lossy no_json no_containers no_ps net false
    ≡ (ok tt, true)
unfolding create_network
created = refl

create_network-again_example :
    (create_network (codes "podman") spawn open_output lossy no_json no_containers no_ps net true).0
    ≡ ok tt
create_network-again_example =
    create_network-again (codes "podman") spawn open_output lossy no_json no_containers no_ps net
      false true stays created
