-- ===== src/Mcp.antt =====
-- crates/mcp/src: the MCP server, a client of the daemon for one target.
pub mod Session
pub mod Format
pub mod Tools
pub mod Lines
