-- ===== src/Server.antt =====
-- crates/mjx-acp-server: what stands between a browser and its agent.
pub mod IdBridge
pub mod Sessions
pub mod Relay
pub mod Mcp
pub mod McpHost
pub mod Interceptor
