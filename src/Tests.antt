-- ===== src/Tests.antt =====
-- The theorems at concrete inputs, with serde_json's readers and the protocol's types instantiated by small
-- functions and types.
mod Data
mod Core
mod Server
mod Relay
mod Mcp
mod Host
mod Json
mod Interceptor
mod Thread
mod Workspace
mod Mention
mod Catalog
