-- ===== src/Cli.antt =====
-- tools/selur-compose/crates/selur-compose/src: the command line, which puts the other parts together.
pub mod Load
pub mod Commands
mod Tests
