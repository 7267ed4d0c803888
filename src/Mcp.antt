-- ===== src/Mcp.antt =====
-- The protocol crates: crates/mcp-core and crates/mcp-server.
pub mod Error
pub mod Jsonrpc
pub mod Protocol
pub mod Registry
pub mod Methods
pub mod Server
pub mod Handling
pub mod Elicit
pub mod Client
pub mod Stdio
