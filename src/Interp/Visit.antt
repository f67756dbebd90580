-- ===== src/Interp/Visit.antt =====
-- tools/selur-compose/crates/selur-compose-interp/src/visit.rs: `expand` on the strings of a document.
-- A `BTreeMap` that is collected from the entries of another has its keys in the same order.
pub mod Steps
pub mod Strings
pub mod Expanded
pub mod Fields
mod Tests
use burble.Base.{List, Option, Str, Result, ok, ◌>>=◌, traverse, traverse_option, traverse_values}
use burble.Interp.Env.{EnvMap}
use burble.Interp.Error.{InterpError}
use burble.Interp.Expander.{expand}
use burble.Schema
use burble.Schema.{
  Build, Compose, Config, ConfigRef, DependsOn, Healthcheck, HealthcheckTest, MountSpec, Network,
  NetworkMode, Project, Secret, SecretRef, Service, StringOrList, Volume,
}

module _ (env : EnvMap) where
  -- `|s| expand(&s, env)`
  abbrev pub expand_in : Str → Result InterpError Str
  expand_in s = expand s env

  unfoldable pub visit_project : Project → Result InterpError Project
  visit_project p = do name ← expand_in p.name; ok (record { name = name })

  unfoldable pub visit_build : Build → Result InterpError Build
  visit_build b = do
    args ← traverse_values expand_in b.args
    target ← traverse_option expand_in b.target
    labels ← traverse_values expand_in b.labels
    ok (record {
      context = b.context;
      dockerfile = b.dockerfile;
      args = args;
      target = target;
      labels = labels;
      no_cache = b.no_cache;
    })

  unfoldable pub visit_string_or_list : StringOrList → Result InterpError StringOrList
  visit_string_or_list (StringOrList.string s) = do s' ← expand_in s; ok (StringOrList.string s')
  visit_string_or_list (StringOrList.list items) = do
    expanded ← traverse expand_in items
    ok (StringOrList.list expanded)

  unfoldable pub visit_env_map : Schema.EnvMap → Result InterpError Schema.EnvMap
  visit_env_map Schema.EnvMap.empty = ok Schema.EnvMap.empty
  visit_env_map (Schema.EnvMap.list items) = do
    expanded ← traverse expand_in items
    ok (Schema.EnvMap.list expanded)
  visit_env_map (Schema.EnvMap.map m) = do
    expanded ← traverse_values (traverse_option expand_in) m
    ok (Schema.EnvMap.map expanded)

  unfoldable pub visit_mount : MountSpec → Result InterpError MountSpec
  visit_mount (MountSpec.short s) = do s' ← expand_in s; ok (MountSpec.short s')
  visit_mount (MountSpec.long l) = ok (MountSpec.long l)

  unfoldable pub visit_network_mode : NetworkMode → Result InterpError NetworkMode
  visit_network_mode (NetworkMode.custom s) = do s' ← expand_in s; ok (NetworkMode.custom s')
  visit_network_mode (NetworkMode.container s) = do s' ← expand_in s; ok (NetworkMode.container s')
  visit_network_mode other = ok other

  unfoldable pub visit_depends_on : DependsOn → Result InterpError DependsOn
  visit_depends_on d = ok d

  unfoldable pub visit_healthcheck_test : HealthcheckTest → Result InterpError HealthcheckTest
  visit_healthcheck_test (HealthcheckTest.shell s) = do
    s' ← expand_in s
    ok (HealthcheckTest.shell s')
  visit_healthcheck_test (HealthcheckTest.exec items) = do
    expanded ← traverse expand_in items
    ok (HealthcheckTest.exec expanded)

  unfoldable pub visit_healthcheck : Healthcheck → Result InterpError Healthcheck
  unfolding visit_healthcheck_test
  visit_healthcheck h = do test ← visit_healthcheck_test h.test; ok (record h { test = test })

  unfoldable pub visit_secret_ref : SecretRef → Result InterpError SecretRef
  visit_secret_ref (SecretRef.name n) = do n' ← expand_in n; ok (SecretRef.name n')
  visit_secret_ref (SecretRef.long l) = do
    source ← expand_in l.source
    uid ← traverse_option expand_in l.uid
    gid ← traverse_option expand_in l.gid
    ok (SecretRef.long (record l { source = source; uid = uid; gid = gid }))

  unfoldable pub visit_config_ref : ConfigRef → Result InterpError ConfigRef
  visit_config_ref (ConfigRef.name n) = do n' ← expand_in n; ok (ConfigRef.name n')
  visit_config_ref (ConfigRef.long l) = do
    source ← expand_in l.source
    uid ← traverse_option expand_in l.uid
    gid ← traverse_option expand_in l.gid
    ok (ConfigRef.long (record l { source = source; uid = uid; gid = gid }))

  unfoldable pub visit_service : Service → Result InterpError Service
  unfolding visit_build visit_string_or_list visit_env_map visit_mount visit_network_mode
      visit_depends_on visit_healthcheck visit_secret_ref visit_config_ref
  visit_service svc = do
    image ← traverse_option expand_in svc.image
    build ← traverse_option visit_build svc.build
    command ← traverse_option visit_string_or_list svc.command
    entrypoint ← traverse_option visit_string_or_list svc.entrypoint
    environment ← visit_env_map svc.environment
    volumes ← traverse visit_mount svc.volumes
    networks ← traverse expand_in svc.networks
    network_mode ← traverse_option visit_network_mode svc.network_mode
    depends_on ← visit_depends_on svc.depends_on
    healthcheck ← traverse_option visit_healthcheck svc.healthcheck
    profiles ← traverse expand_in svc.profiles
    secrets ← traverse visit_secret_ref svc.secrets
    configs ← traverse visit_config_ref svc.configs
    user ← traverse_option expand_in svc.user
    working_dir ← traverse_option expand_in svc.working_dir
    hostname ← traverse_option expand_in svc.hostname
    cap_add ← traverse expand_in svc.cap_add
    cap_drop ← traverse expand_in svc.cap_drop
    stop_signal ← traverse_option expand_in svc.stop_signal
    ok (record {
      image = image;
      build = build;
      command = command;
      entrypoint = entrypoint;
      environment = environment;
      env_file = svc.env_file;
      ports = svc.ports;
      volumes = volumes;
      networks = networks;
      network_mode = network_mode;
      depends_on = depends_on;
      healthcheck = healthcheck;
      restart = svc.restart;
      profiles = profiles;
      secrets = secrets;
      configs = configs;
      user = user;
      working_dir = working_dir;
      hostname = hostname;
      cap_add = cap_add;
      cap_drop = cap_drop;
      init = svc.init;
      stop_signal = stop_signal;
      stop_grace_period = svc.stop_grace_period;
    })

  unfoldable pub visit_network : Network → Result InterpError Network
  visit_network n = do
    driver ← traverse_option expand_in n.driver
    driver_opts ← traverse_values expand_in n.driver_opts
    name ← traverse_option expand_in n.name
    labels ← traverse_values expand_in n.labels
    ok (record n { driver = driver; driver_opts = driver_opts; name = name; labels = labels })

  unfoldable pub visit_volume : Volume → Result InterpError Volume
  visit_volume v = do
    driver ← traverse_option expand_in v.driver
    driver_opts ← traverse_values expand_in v.driver_opts
    name ← traverse_option expand_in v.name
    labels ← traverse_values expand_in v.labels
    ok (record v { driver = driver; driver_opts = driver_opts; name = name; labels = labels })

  unfoldable pub visit_secret : Secret → Result InterpError Secret
  visit_secret s = do name ← traverse_option expand_in s.name; ok (record s { name = name })

  unfoldable pub visit_config_def : Config → Result InterpError Config
  visit_config_def c = do name ← traverse_option expand_in c.name; ok (record c { name = name })

  unfoldable pub visit_compose :
      {Value : Type 0} → Compose Value → Result InterpError (Compose Value)
  unfolding visit_project visit_service visit_network visit_volume visit_secret visit_config_def
  visit_compose compose = do
    project ← traverse_option visit_project compose.project
    services ← traverse_values visit_service compose.services
    networks ← traverse_values visit_network compose.networks
    volumes ← traverse_values visit_volume compose.volumes
    secrets ← traverse_values visit_secret compose.secrets
    configs ← traverse_values visit_config_def compose.configs
    ok (record {
      project = project;
      services = services;
      networks = networks;
      volumes = volumes;
      secrets = secrets;
      configs = configs;
      extensions = compose.extensions;
    })
