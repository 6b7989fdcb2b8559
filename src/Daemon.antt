-- ===== src/Daemon.antt =====
-- crates/daemon: the event queue, the registry, and the calls that change them.
pub mod Events
pub mod Queue
pub mod Registry
pub mod State
pub mod Api
pub mod Host
pub mod Rpc
pub mod Sse
pub mod Server
pub mod Options
pub mod Lock
pub mod Skills
pub mod Kernel
pub mod Manager
