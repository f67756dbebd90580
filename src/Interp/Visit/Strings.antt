-- ===== src/Interp/Visit/Strings.antt =====
-- The strings of a document that `visit_compose` expands, in the order of its fields.
use burble.Base.{List, [], ◌∷◌, Str}
use burble.Base.Counts.{concat}
use burble.Interp.Visit.Steps.{one, in_option, in_list, in_values}
use burble.Schema
use burble.Schema.{
  Build, Compose, Config, ConfigRef, Healthcheck, HealthcheckTest, MountSpec, Network, NetworkMode,
  Project, Secret, SecretRef, Service, StringOrList, Volume,
}

abbrev pub in_project : Project → List Str
in_project p = concat (one p.name ∷ [])

abbrev pub in_build : Build → List Str
in_build b = concat (in_values one b.args ∷ in_option one b.target ∷ in_values one b.labels ∷ [])

abbrev pub in_string_or_list : StringOrList → List Str
in_string_or_list (StringOrList.string s) = concat (one s ∷ [])
in_string_or_list (StringOrList.list items) = concat (in_list one items ∷ [])

abbrev pub in_env_map : Schema.EnvMap → List Str
in_env_map Schema.EnvMap.empty = []
in_env_map (Schema.EnvMap.list items) = concat (in_list one items ∷ [])
in_env_map (Schema.EnvMap.map m) = concat (in_values (in_option one) m ∷ [])

abbrev pub in_mount : MountSpec → List Str
in_mount (MountSpec.short s) = concat (one s ∷ [])
in_mount (MountSpec.long l) = []

abbrev pub in_network_mode : NetworkMode → List Str
in_network_mode (NetworkMode.custom s) = concat (one s ∷ [])
in_network_mode (NetworkMode.container s) = concat (one s ∷ [])
in_network_mode other = []

abbrev pub in_healthcheck_test : HealthcheckTest → List Str
in_healthcheck_test (HealthcheckTest.shell s) = concat (one s ∷ [])
in_healthcheck_test (HealthcheckTest.exec items) = concat (in_list one items ∷ [])

abbrev pub in_healthcheck : Healthcheck → List Str
in_healthcheck h = concat (in_healthcheck_test h.test ∷ [])

abbrev pub in_secret_ref : SecretRef → List Str
in_secret_ref (SecretRef.name n) = concat (one n ∷ [])
in_secret_ref (SecretRef.long l) =
    concat (one l.source ∷ in_option one l.uid ∷ in_option one l.gid ∷ [])

abbrev pub in_config_ref : ConfigRef → List Str
in_config_ref (ConfigRef.name n) = concat (one n ∷ [])
in_config_ref (ConfigRef.long l) =
    concat (one l.source ∷ in_option one l.uid ∷ in_option one l.gid ∷ [])

abbrev pub in_service : Service → List Str
in_service svc = concat (
    (in_option one svc.image)
    ∷ (in_option in_build svc.build)
    ∷ (in_option in_string_or_list svc.command)
    ∷ (in_option in_string_or_list svc.entrypoint)
    ∷ (in_env_map svc.environment)
    ∷ (in_list in_mount svc.volumes)
    ∷ (in_list one svc.networks)
    ∷ (in_option in_network_mode svc.network_mode)
    ∷ (in_option in_healthcheck svc.healthcheck)
    ∷ (in_list one svc.profiles)
    ∷ (in_list in_secret_ref svc.secrets)
    ∷ (in_list in_config_ref svc.configs)
    ∷ (in_option one svc.user)
    ∷ (in_option one svc.working_dir)
    ∷ (in_option one svc.hostname)
    ∷ (in_list one svc.cap_add)
    ∷ (in_list one svc.cap_drop)
    ∷ (in_option one svc.stop_signal)
    ∷ [])

abbrev pub in_network : Network → List Str
in_network n = concat (
    (in_option one n.driver)
    ∷ (in_values one n.driver_opts)
    ∷ (in_option one n.name)
    ∷ (in_values one n.labels)
    ∷ [])

abbrev pub in_volume : Volume → List Str
in_volume v = concat (
    (in_option one v.driver)
    ∷ (in_values one v.driver_opts)
    ∷ (in_option one v.name)
    ∷ (in_values one v.labels)
    ∷ [])

abbrev pub in_secret : Secret → List Str
in_secret s = concat (in_option one s.name ∷ [])

abbrev pub in_config : Config → List Str
in_config c = concat (in_option one c.name ∷ [])

abbrev pub in_compose : {Value : Type 0} → Compose Value → List Str
in_compose compose = concat (
    (in_option in_project compose.project)
    ∷ (in_values in_service compose.services)
    ∷ (in_values in_network compose.networks)
    ∷ (in_values in_volume compose.volumes)
    ∷ (in_values in_secret compose.secrets)
    ∷ (in_values in_config compose.configs)
    ∷ [])
