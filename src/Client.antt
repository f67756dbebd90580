-- ===== src/Client.antt =====
-- client/rust/src: the client of a channel of the server, and of a game session on it.
pub mod Error
pub mod Interface
pub mod Frame
pub mod Phoenix
pub mod Game
mod Tests
