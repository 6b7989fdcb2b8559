-- ===== src/Protocol.antt =====
-- crates/protocol: the types of every wire contract, and the pure functions on them.
pub mod Target
pub mod Child
pub mod Event
pub mod Rpc
pub mod Envelope
pub mod Host
pub mod Kernel
pub mod Cell
pub mod Bounds
pub mod Name
pub mod Skill
pub mod Method
