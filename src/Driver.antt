-- ===== src/Driver.antt =====
-- tools/selur-compose/crates/selur-compose-driver/src: how a plan is carried out.
pub mod Types
pub mod Interface
pub mod Argv
pub mod Healthcheck
pub mod Executor
pub mod Mock
pub mod Process
pub mod Podman
mod Tests
