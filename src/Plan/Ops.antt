-- ===== src/Plan/Ops.antt =====
-- lib.rs: the operations of a plan, the planner's options and its result.
use burble.Base.{ℕ, Bool, List, Option, Str}

pub record NetworkSpec : Type 0 where
  pub name : Str
  pub driver : Option Str
  pub labels : List (Str × Str)

pub record VolumeSpec : Type 0 where
  pub name : Str
  pub driver : Option Str
  pub labels : List (Str × Str)

pub record BuildSpec : Type 0 where
  pub service : Str
  pub context : Str
  pub dockerfile : Option Str
  pub args : List (Str × Str)
  pub target : Option Str
  pub tag : Str
  pub no_cache : Bool

pub record PullSpec : Type 0 where
  pub service : Str
  pub image : Str

pub record RunSpec : Type 0 where
  pub service : Str
  pub image : Str
  pub container_name : Str
  pub environment : List Str
  pub ports : List Str
  pub volumes : List Str
  pub networks : List Str
  pub network_mode : Option Str
  pub command : Option (List Str)
  pub entrypoint : Option (List Str)
  pub restart : Str
  pub labels : List (Str × Str)

pub record WaitHealthySpec : Type 0 where
  pub service : Str
  pub container_name : Str

pub record StopSpec : Type 0 where
  pub service : Str
  pub container_name : Str
  pub timeout_secs : ℕ

pub record RemoveSpec : Type 0 where
  pub service : Str
  pub container_name : Str
  pub force : Bool

pub data Op : Type 0 where
  create_network : NetworkSpec → Op
  create_volume : VolumeSpec → Op
  build_image : BuildSpec → Op
  pull_image : PullSpec → Op
  run_container : RunSpec → Op
  wait_healthy : WaitHealthySpec → Op
  stop_container : StopSpec → Op
  remove_container : RemoveSpec → Op

pub record PlanOptions : Type 0 where
  pub profiles : List Str
  pub project_name : Option Str
  pub services : List Str

pub record Plan : Type 0 where
  pub ops : List Op
  pub waves : List (List ℕ)
  pub project_name : Str
