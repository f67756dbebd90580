-- ===== src/Interp/Visit/Tests.antt =====
-- A document that the interpolation is tried on.
use burble.Base.{[], ◌∷◌, none, some, Str, codes, false}
use burble.Interp.Env.{EnvMap, from_iter}
use burble.Schema.{Compose}

abbrev document : Compose Str
document = record {
  project = some (record { name = codes "$APP" });
  services = [];
  networks = [];
  volumes =
      (
        codes "data",
        record {
          driver = none;
          driver_opts = (codes "o", codes "${O:-x}") ∷ [];
          external = false;
          name = none;
          labels = [];
        },
      )
      ∷ [];
  secrets = [];
  configs = [];
  extensions = [];
}

abbrev document_env : EnvMap
document_env = from_iter ((codes "APP", codes "shop") ∷ [])
