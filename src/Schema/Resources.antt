-- ===== src/Schema/Resources.antt =====
-- lib.rs, networks.rs, volumes.rs and secrets.rs: the document and its top-level tables.
use burble.Base.{Bool, List, Option, Str}
use burble.Schema.Services.{Service}

pub record Project : Type 0 where
  pub name : Str

pub record Ipam : Type 0 where
  pub driver : Option Str
  pub config : List (List (Str × Str))

pub record Network : Type 0 where
  pub driver : Option Str
  pub driver_opts : List (Str × Str)
  pub external : Bool
  pub name : Option Str
  pub ipam : Option Ipam
  pub labels : List (Str × Str)
  pub internal : Bool

pub record Volume : Type 0 where
  pub driver : Option Str
  pub driver_opts : List (Str × Str)
  pub external : Bool
  pub name : Option Str
  pub labels : List (Str × Str)

pub record Secret : Type 0 where
  pub file : Option Str
  pub external : Bool
  pub name : Option Str

pub record Config : Type 0 where
  pub file : Option Str
  pub external : Bool
  pub name : Option Str

-- `Value` is `toml::Value`, which stands in no operation of the planner.
pub record Compose (Value : Type 0) : Type 0 where
  pub project : Option Project
  pub services : List (Str × Service)
  pub networks : List (Str × Network)
  pub volumes : List (Str × Volume)
  pub secrets : List (Str × Secret)
  pub configs : List (Str × Config)
  pub extensions : List (Str × Value)
