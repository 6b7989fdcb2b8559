-- ===== src/Client.antt =====
-- The client library of crates/client: its reader of the event stream.
pub mod Sse
pub mod Calls
pub mod Spawn
pub mod Api
