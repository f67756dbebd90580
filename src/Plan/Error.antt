-- ===== src/Plan/Error.antt =====
-- lib.rs: the planner's errors. `Schema` and `Interp` are raised nowhere in the planner.
use burble.Base.{List, Str}

-- `HashError` is `ijson_jcs::CanonicalizationError`.
pub data PlanError (HashError : Type 0) : Type 0 where
  cycle : (path : List Str) → PlanError HashError
  missing_dependency : (from to : Str) → PlanError HashError
  unknown_network : (service network : Str) → PlanError HashError
  unknown_volume : (service volume : Str) → PlanError HashError
  unknown_profile : (profile : Str) → PlanError HashError
  unknown_service : (service : Str) → PlanError HashError
  config_hash : (service : Str) (source : HashError) → PlanError HashError
