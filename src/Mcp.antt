-- ===== src/Mcp.antt =====
-- crates/barbacane/src/mcp/: the MCP server, its sessions, tools and JSON-RPC messages.
pub mod Sessions
pub mod Arguments
pub mod Tools
pub mod Server
pub mod Indexed
pub mod Endpoint
pub mod Calls
pub mod Admission
pub mod Notifications
pub mod Sanitized
mod Runs
