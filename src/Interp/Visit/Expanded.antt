-- ===== src/Interp/Visit/Expanded.antt =====
-- What an expanded document is: every template is replaced by its expansion in its own place, and all
-- else is as it was.
use burble.Base.{Str, ok, ◌≡◌}
use burble.Interp.Env.{EnvMap}
use burble.Interp.Expander.{expand}
use burble.Interp.Visit.Steps.{EachValue, EachOption, EachItem}
use burble.Schema
use burble.Schema.{
  Build, Compose, Config, ConfigRef, Healthcheck, HealthcheckTest, MountSpec, Network, NetworkMode,
  Project, Secret, SecretRef, Service, StringOrList, Volume,
}

module _ (env : EnvMap) where
  abbrev pub InString : Str → Str → Type 0
  InString s t = expand s env ≡ ok t

  abbrev pub InProject : Project → Project → Type 0
  InProject p p' = InString p.name p'.name

  abbrev pub InBuild : Build → Build → Type 0
  InBuild b b' =
      (b'.context ≡ b.context)
      × (b'.dockerfile ≡ b.dockerfile)
      × EachValue InString b.args b'.args
      × EachOption InString b.target b'.target
      × EachValue InString b.labels b'.labels
      × (b'.no_cache ≡ b.no_cache)

  abbrev pub InStringOrList : StringOrList → StringOrList → Type 0
  InStringOrList (StringOrList.string s) (StringOrList.string t) = InString s t
  InStringOrList (StringOrList.list l) (StringOrList.list l') = EachItem InString l l'
  InStringOrList _ _ = ⊥

  abbrev pub InEnvMap : Schema.EnvMap → Schema.EnvMap → Type 0
  InEnvMap Schema.EnvMap.empty Schema.EnvMap.empty = Unit
  InEnvMap (Schema.EnvMap.list l) (Schema.EnvMap.list l') = EachItem InString l l'
  InEnvMap (Schema.EnvMap.map m) (Schema.EnvMap.map m') = EachValue (EachOption InString) m m'
  InEnvMap _ _ = ⊥

  abbrev pub InMount : MountSpec → MountSpec → Type 0
  InMount (MountSpec.short s) (MountSpec.short t) = InString s t
  InMount (MountSpec.long l) (MountSpec.long l') = l' ≡ l
  InMount _ _ = ⊥

  abbrev pub InNetworkMode : NetworkMode → NetworkMode → Type 0
  InNetworkMode (NetworkMode.custom s) (NetworkMode.custom t) = InString s t
  InNetworkMode (NetworkMode.container s) (NetworkMode.container t) = InString s t
  InNetworkMode (NetworkMode.custom s) m = ⊥
  InNetworkMode (NetworkMode.container s) m = ⊥
  InNetworkMode m m' = m' ≡ m

  abbrev pub InHealthcheckTest : HealthcheckTest → HealthcheckTest → Type 0
  InHealthcheckTest (HealthcheckTest.shell s) (HealthcheckTest.shell t) = InString s t
  InHealthcheckTest (HealthcheckTest.exec l) (HealthcheckTest.exec l') = EachItem InString l l'
  InHealthcheckTest _ _ = ⊥

  abbrev pub InHealthcheck : Healthcheck → Healthcheck → Type 0
  InHealthcheck h h' =
      InHealthcheckTest h.test h'.test
      × (h'.interval ≡ h.interval)
      × (h'.timeout ≡ h.timeout)
      × (h'.retries ≡ h.retries)
      × (h'.start_period ≡ h.start_period)
      × (h'.disable ≡ h.disable)

  abbrev pub InSecretRef : SecretRef → SecretRef → Type 0
  InSecretRef (SecretRef.name s) (SecretRef.name t) = InString s t
  InSecretRef (SecretRef.long l) (SecretRef.long l') =
      InString l.source l'.source
      × (l'.target ≡ l.target)
      × EachOption InString l.uid l'.uid
      × EachOption InString l.gid l'.gid
      × (l'.mode ≡ l.mode)
  InSecretRef _ _ = ⊥

  abbrev pub InConfigRef : ConfigRef → ConfigRef → Type 0
  InConfigRef (ConfigRef.name s) (ConfigRef.name t) = InString s t
  InConfigRef (ConfigRef.long l) (ConfigRef.long l') =
      InString l.source l'.source
      × (l'.target ≡ l.target)
      × EachOption InString l.uid l'.uid
      × EachOption InString l.gid l'.gid
      × (l'.mode ≡ l.mode)
  InConfigRef _ _ = ⊥

  abbrev pub InService : Service → Service → Type 0
  InService svc svc' =
      EachOption InString svc.image svc'.image
      × EachOption InBuild svc.build svc'.build
      × EachOption InStringOrList svc.command svc'.command
      × EachOption InStringOrList svc.entrypoint svc'.entrypoint
      × InEnvMap svc.environment svc'.environment
      × (svc'.env_file ≡ svc.env_file)
      × (svc'.ports ≡ svc.ports)
      × EachItem InMount svc.volumes svc'.volumes
      × EachItem InString svc.networks svc'.networks
      × EachOption InNetworkMode svc.network_mode svc'.network_mode
      × (svc'.depends_on ≡ svc.depends_on)
      × EachOption InHealthcheck svc.healthcheck svc'.healthcheck
      × (svc'.restart ≡ svc.restart)
      × EachItem InString svc.profiles svc'.profiles
      × EachItem InSecretRef svc.secrets svc'.secrets
      × EachItem InConfigRef svc.configs svc'.configs
      × EachOption InString svc.user svc'.user
      × EachOption InString svc.working_dir svc'.working_dir
      × EachOption InString svc.hostname svc'.hostname
      × EachItem InString svc.cap_add svc'.cap_add
      × EachItem InString svc.cap_drop svc'.cap_drop
      × (svc'.init ≡ svc.init)
      × EachOption InString svc.stop_signal svc'.stop_signal
      × (svc'.stop_grace_period ≡ svc.stop_grace_period)

  abbrev pub InNetwork : Network → Network → Type 0
  InNetwork n n' =
      EachOption InString n.driver n'.driver
      × EachValue InString n.driver_opts n'.driver_opts
      × (n'.external ≡ n.external)
      × EachOption InString n.name n'.name
      × (n'.ipam ≡ n.ipam)
      × EachValue InString n.labels n'.labels
      × (n'.internal ≡ n.internal)

  abbrev pub InVolume : Volume → Volume → Type 0
  InVolume v v' =
      EachOption InString v.driver v'.driver
      × EachValue InString v.driver_opts v'.driver_opts
      × (v'.external ≡ v.external)
      × EachOption InString v.name v'.name
      × EachValue InString v.labels v'.labels

  abbrev pub InSecret : Secret → Secret → Type 0
  InSecret s s' =
      (s'.file ≡ s.file) × (s'.external ≡ s.external) × EachOption InString s.name s'.name

  abbrev pub InConfig : Config → Config → Type 0
  InConfig c c' =
      (c'.file ≡ c.file) × (c'.external ≡ c.external) × EachOption InString c.name c'.name

  abbrev pub IsExpanded : {Value : Type 0} → Compose Value → Compose Value → Type 0
  IsExpanded c c' =
      EachOption InProject c.project c'.project
      × EachValue InService c.services c'.services
      × EachValue InNetwork c.networks c'.networks
      × EachValue InVolume c.volumes c'.volumes
      × EachValue InSecret c.secrets c'.secrets
      × EachValue InConfig c.configs c'.configs
      × (c'.extensions ≡ c.extensions)
