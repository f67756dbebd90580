-- ===== src/Interp/Visit/Fields.antt =====
-- The visit of each part of a document expands the strings of the part.
use burble.Base.{List, Str, Result, refl}
use burble.Interp.Env.{EnvMap}
use burble.Interp.Error.{InterpError}
use burble.Interp.Visit.{
  expand_in, visit_project, visit_build, visit_string_or_list, visit_env_map, visit_mount,
  visit_network_mode, visit_depends_on, visit_healthcheck_test, visit_healthcheck, visit_secret_ref,
  visit_config_ref, visit_service, visit_network, visit_volume, visit_secret, visit_config_def,
  visit_compose,
}
use burble.Interp.Visit.Expanded.{
  InString, InProject, InBuild, InStringOrList, InEnvMap, InMount, InNetworkMode, InHealthcheckTest,
  InHealthcheck, InSecretRef, InConfigRef, InService, InNetwork, InVolume, InSecret, InConfig,
  IsExpanded,
}
use burble.Interp.Visit.Steps.{
  one, Field, Steps-bind, Steps-ok, one-Field, option-Field, list-Field, values-Field,
}
use burble.Interp.Visit.Strings.{
  in_project, in_build, in_string_or_list, in_env_map, in_mount, in_network_mode,
  in_healthcheck_test, in_healthcheck, in_secret_ref, in_config_ref, in_service, in_network,
  in_volume, in_secret, in_config, in_compose,
}
use burble.Schema
use burble.Schema.{
  Build, Compose, Config, ConfigRef, Healthcheck, HealthcheckTest, MountSpec, Network, NetworkMode,
  Project, Secret, SecretRef, Service, StringOrList, Volume,
}

module _ (env : EnvMap) where
  -- The visit of a part, all of whose strings are `strings`.
  abbrev Visits :
      {A : Type 0} → (A → Result InterpError A) → (A → List Str) → (A → A → Type 0) → Type 0
  Visits {A} visit strings R = (a : A) → Field (expand_in env) (visit a) (strings a) strings (R a)

  string : Visits (expand_in env) one (InString env)
  string s = one-Field (expand_in env) s

  visit_project-Field : Visits (visit_project env) in_project (InProject env)
  unfolding visit_project
  visit_project-Field p = Steps-bind (string p.name) (λ _ n. Steps-ok (refl, n))

  visit_build-Field : Visits (visit_build env) in_build (InBuild env)
  unfolding visit_build
  visit_build-Field b = Steps-bind (values-Field string b.args) (λ _ args.
      Steps-bind (option-Field string b.target) (λ _ target.
        Steps-bind (values-Field string b.labels)
          (λ _ labels. Steps-ok (refl, (refl, refl, args, target, labels, refl)))))

  visit_string_or_list-Field :
      Visits (visit_string_or_list env) in_string_or_list (InStringOrList env)
  unfolding visit_string_or_list
  visit_string_or_list-Field (StringOrList.string s) =
      Steps-bind (string s) (λ _ e. Steps-ok (refl, e))
  visit_string_or_list-Field (StringOrList.list items) =
      Steps-bind (list-Field string items) (λ _ e. Steps-ok (refl, e))

  visit_env_map-Field : Visits (visit_env_map env) in_env_map (InEnvMap env)
  unfolding visit_env_map
  visit_env_map-Field Schema.EnvMap.empty = Steps-ok (refl, tt)
  visit_env_map-Field (Schema.EnvMap.list items) =
      Steps-bind (list-Field string items) (λ _ e. Steps-ok (refl, e))
  visit_env_map-Field (Schema.EnvMap.map m) =
      Steps-bind (values-Field (option-Field string) m) (λ _ e. Steps-ok (refl, e))

  visit_mount-Field : Visits (visit_mount env) in_mount (InMount env)
  unfolding visit_mount
  visit_mount-Field (MountSpec.short s) = Steps-bind (string s) (λ _ e. Steps-ok (refl, e))
  visit_mount-Field (MountSpec.long l) = Steps-ok (refl, refl)

  visit_network_mode-Field : Visits (visit_network_mode env) in_network_mode (InNetworkMode env)
  unfolding visit_network_mode
  visit_network_mode-Field NetworkMode.bridge = Steps-ok (refl, refl)
  visit_network_mode-Field NetworkMode.host = Steps-ok (refl, refl)
  visit_network_mode-Field NetworkMode.none = Steps-ok (refl, refl)
  visit_network_mode-Field (NetworkMode.container s) =
      Steps-bind (string s) (λ _ e. Steps-ok (refl, e))
  visit_network_mode-Field (NetworkMode.custom s) =
      Steps-bind (string s) (λ _ e. Steps-ok (refl, e))

  visit_healthcheck_test-Field :
      Visits (visit_healthcheck_test env) in_healthcheck_test (InHealthcheckTest env)
  unfolding visit_healthcheck_test
  visit_healthcheck_test-Field (HealthcheckTest.shell s) =
      Steps-bind (string s) (λ _ e. Steps-ok (refl, e))
  visit_healthcheck_test-Field (HealthcheckTest.exec items) =
      Steps-bind (list-Field string items) (λ _ e. Steps-ok (refl, e))

  visit_healthcheck-Field : Visits (visit_healthcheck env) in_healthcheck (InHealthcheck env)
  unfolding visit_healthcheck
  visit_healthcheck-Field h =
      Steps-bind (visit_healthcheck_test-Field h.test)
        (λ _ test. Steps-ok (refl, (test, refl, refl, refl, refl, refl)))

  visit_secret_ref-Field : Visits (visit_secret_ref env) in_secret_ref (InSecretRef env)
  unfolding visit_secret_ref
  visit_secret_ref-Field (SecretRef.name n) = Steps-bind (string n) (λ _ e. Steps-ok (refl, e))
  visit_secret_ref-Field (SecretRef.long l) = Steps-bind (string l.source) (λ _ source.
      Steps-bind (option-Field string l.uid) (λ _ uid.
        Steps-bind (option-Field string l.gid)
          (λ _ gid. Steps-ok (refl, (source, refl, uid, gid, refl)))))

  visit_config_ref-Field : Visits (visit_config_ref env) in_config_ref (InConfigRef env)
  unfolding visit_config_ref
  visit_config_ref-Field (ConfigRef.name n) = Steps-bind (string n) (λ _ e. Steps-ok (refl, e))
  visit_config_ref-Field (ConfigRef.long l) = Steps-bind (string l.source) (λ _ source.
      Steps-bind (option-Field string l.uid) (λ _ uid.
        Steps-bind (option-Field string l.gid)
          (λ _ gid. Steps-ok (refl, (source, refl, uid, gid, refl)))))

  visit_service-Field : Visits (visit_service env) in_service (InService env)
  unfolding visit_service visit_depends_on
  visit_service-Field svc = Steps-bind (option-Field string svc.image) (λ _ image.
      Steps-bind (option-Field visit_build-Field svc.build) (λ _ build.
        Steps-bind (option-Field visit_string_or_list-Field svc.command) (λ _ command.
          Steps-bind (option-Field visit_string_or_list-Field svc.entrypoint) (λ _ entrypoint.
            Steps-bind (visit_env_map-Field svc.environment) (λ _ environment.
              Steps-bind (list-Field visit_mount-Field svc.volumes) (λ _ volumes.
                Steps-bind (list-Field string svc.networks) (λ _ networks.
                  Steps-bind (option-Field visit_network_mode-Field svc.network_mode) (λ _ mode.
                    Steps-bind (option-Field visit_healthcheck-Field svc.healthcheck)
                      (λ _ healthcheck. Steps-bind (list-Field string svc.profiles) (λ _ profiles.
                        Steps-bind (list-Field visit_secret_ref-Field svc.secrets) (λ _ secrets.
                          Steps-bind (list-Field visit_config_ref-Field svc.configs) (λ _ configs.
                            Steps-bind (option-Field string svc.user) (λ _ user.
                              Steps-bind (option-Field string svc.working_dir) (λ _ dir.
                                Steps-bind (option-Field string svc.hostname) (λ _ hostname.
                                  Steps-bind (list-Field string svc.cap_add) (λ _ adds.
                                    Steps-bind (list-Field string svc.cap_drop) (λ _ drops.
                                      Steps-bind (option-Field string svc.stop_signal) (λ _ signal.
                                        Steps-ok (
                                          refl,
                                          (
                                            image, build, command, entrypoint, environment, refl,
                                            refl, volumes, networks, mode, refl, healthcheck, refl,
                                            profiles, secrets, configs, user, dir, hostname, adds,
                                            drops, refl, signal, refl,
                                          ),
                                        )))))))))))))))))))

  visit_network-Field : Visits (visit_network env) in_network (InNetwork env)
  unfolding visit_network
  visit_network-Field n = Steps-bind (option-Field string n.driver) (λ _ driver.
      Steps-bind (values-Field string n.driver_opts) (λ _ opts.
        Steps-bind (option-Field string n.name) (λ _ name.
          Steps-bind (values-Field string n.labels)
            (λ _ labels. Steps-ok (refl, (driver, opts, refl, name, refl, labels, refl))))))

  visit_volume-Field : Visits (visit_volume env) in_volume (InVolume env)
  unfolding visit_volume
  visit_volume-Field n = Steps-bind (option-Field string n.driver) (λ _ driver.
      Steps-bind (values-Field string n.driver_opts) (λ _ opts.
        Steps-bind (option-Field string n.name) (λ _ name.
          Steps-bind (values-Field string n.labels)
            (λ _ labels. Steps-ok (refl, (driver, opts, refl, name, labels))))))

  visit_secret-Field : Visits (visit_secret env) in_secret (InSecret env)
  unfolding visit_secret
  visit_secret-Field s =
      Steps-bind (option-Field string s.name) (λ _ name. Steps-ok (refl, (refl, refl, name)))

  visit_config_def-Field : Visits (visit_config_def env) in_config (InConfig env)
  unfolding visit_config_def
  visit_config_def-Field s =
      Steps-bind (option-Field string s.name) (λ _ name. Steps-ok (refl, (refl, refl, name)))

  pub visit_compose-Field :
      {Value : Type 0} (c : Compose Value)
      → Field (expand_in env) (visit_compose env c) (in_compose c) in_compose (IsExpanded env c)
  unfolding visit_compose
  visit_compose-Field c = Steps-bind (option-Field visit_project-Field c.project) (λ _ project.
      Steps-bind (values-Field visit_service-Field c.services) (λ _ services.
        Steps-bind (values-Field visit_network-Field c.networks) (λ _ networks.
          Steps-bind (values-Field visit_volume-Field c.volumes) (λ _ volumes.
            Steps-bind (values-Field visit_secret-Field c.secrets) (λ _ secrets.
              Steps-bind (values-Field visit_config_def-Field c.configs) (λ _ configs.
                Steps-ok
                  (refl, (project, services, networks, volumes, secrets, configs, refl))))))))
