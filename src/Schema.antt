-- ===== src/Schema.antt =====
-- tools/selur-compose/crates/selur-compose-schema/src: the compose document. A `BTreeMap` is the list
-- of its entries in key order; a `PathBuf` is its text; a `Duration` is its number of nanoseconds.
mod Services
mod Resources
pub mod Parse
pub use Services.*
pub use Resources.*
