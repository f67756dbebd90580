-- ===== src/Cli/Tests.antt =====
-- Files that the properties of the loading are tried on.
use burble.Base.{
  ℕ, ◌*◌, ◌+◌, ◌-◌, length, true, false, List, [], ◌∷◌, ◌++◌, none, some, Str, codes, Result, ok,
  ◌≡◌, refl,
}
use burble.Cli.Commands.{down}
use burble.Cli.Commands.Down.{finding, removals, down-removals}
use burble.Driver.Healthcheck.{second}
use burble.Driver.Mock.{MockCall, mock_driver}
use burble.Driver.Types.{ContainerSummary, DriverError}
use burble.Cli.Load.{Files, build_env}
use burble.Cli.Load.Environment.{BuildOutcome, build_env-Outcome}
use burble.Interp.Error.{InterpError}
use burble.Plan.Ops.{Plan, PlanOptions}
use burble.Schema.{Compose, Service, EnvMap, DependsOn, RestartPolicy}
use burble.Schema.Parse.{parse_str, did_you_mean}
use burble.Schema.Parse.Suggestion.{Suggested, did_you_mean-Suggested}
use burble.Schema.Parse.Outcome.{ParseOutcome, parse_str-Outcome}

abbrev pairs : Str → Result InterpError (List (Str × Str))
pairs path = ok ((codes "FROM", path) ∷ [])

abbrev disk : Files Str
disk = record {
  current_dir = codes "/w";
  join_path = λ dir name. dir ++ codes "/" ++ name;
  parent = λ path. codes "/w";
  exists = λ path. true;
  read_limited = λ limit path. ok path;
  load_env_file = pairs;
  process_env = some ((codes "HOME", codes "/h") ∷ []);
}

abbrev service : Service
service = record {
  image = some (codes "img:${TAG:-1}");
  build = none;
  command = none;
  entrypoint = none;
  environment = EnvMap.empty;
  env_file = [];
  ports = [];
  volumes = [];
  networks = codes "default" ∷ [];
  network_mode = none;
  depends_on = DependsOn.empty;
  healthcheck = none;
  restart = RestartPolicy.no_restart;
  profiles = [];
  secrets = [];
  configs = [];
  user = none;
  working_dir = none;
  hostname = none;
  cap_add = [];
  cap_drop = [];
  init = none;
  stop_signal = none;
  stop_grace_period = none;
}

abbrev document : Compose Str
document = record {
  project = some (record { name = codes "shop${FROM}" });
  services = (codes "web", service) ∷ [];
  networks = [];
  volumes = [];
  secrets = [];
  configs = [];
  extensions = [];
}

abbrev from_str : Str → Result Str (Compose Str)
from_str s = ok document

abbrev hash : Service → Result Str Str
hash svc = ok []

abbrev all_services : PlanOptions
all_services = record { profiles = []; project_name = none; services = [] }

build_env-Outcome_example :
    BuildOutcome disk
      (codes "/w/compose.toml")
      (codes "a" ∷ [])
      (build_env disk (codes "/w/compose.toml") (codes "a" ∷ []))
build_env-Outcome_example = build_env-Outcome disk (codes "/w/compose.toml") (codes "a" ∷ [])

parse_str-Outcome_example : ParseOutcome from_str [] none (parse_str from_str [] none)
parse_str-Outcome_example = parse_str-Outcome from_str [] none

abbrev show : DriverError Str Str → Str
show e = []

abbrev container : ContainerSummary
container = record {
  id = codes "c1";
  name = codes "shop_web";
  image = codes "img";
  state = codes "running";
  ports = [];
  service = none;
}

abbrev shop : Plan
shop = record { ops = []; waves = []; project_name = codes "shop" }

down-removals_example :
    down (mock_driver show tt) shop 10 false (finding show tt (container ∷ container ∷ []) []) ≡ (
      ok tt,
      finding show tt
          (container ∷ container ∷ [])
          (MockCall.ps (codes "shop") ∷ removals (10 * second) (container ∷ container ∷ [])),
    )
down-removals_example = down-removals show tt (container ∷ container ∷ []) shop 10

-- The lengths differ by so much.
abbrev gap : Str → Str → ℕ
gap a b = (length a - length b) + (length b - length a)

abbrev sections : List Str
sections = codes "networks" ∷ codes "services" ∷ codes "secrets" ∷ []

did_you_mean-Suggested_example :
    Suggested (gap (codes "service")) sections (did_you_mean gap (codes "service") sections)
did_you_mean-Suggested_example = did_you_mean-Suggested gap (codes "service") sections

suggests_secrets : did_you_mean gap (codes "service") sections ≡ some (codes "secrets")
unfolding did_you_mean
suggests_secrets = refl
