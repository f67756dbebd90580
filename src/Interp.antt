-- ===== src/Interp.antt =====
-- tools/selur-compose/crates/selur-compose-interp: `${VAR}` templates and their environment.
pub mod Error
pub mod Lexer
pub mod Env
pub mod EnvFile
pub mod Expander
pub mod Visit
mod Tests
