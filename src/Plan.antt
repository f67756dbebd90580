-- ===== src/Plan.antt =====
-- tools/selur-compose/crates/selur-compose-plan: from a compose document to a list of operations.
-- The children follow its files: Error, Ops, Reference, Render and Planner are src/lib.rs, Profiles
-- is src/profiles.rs and Dag is src/dag.rs.
pub mod Error
pub mod Ops
pub mod Profiles
pub mod Dag
pub mod References
pub mod Render
pub mod Planner
pub mod Hash
mod Tests
