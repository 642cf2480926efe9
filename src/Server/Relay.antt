-- ===== src/Server/Relay.antt =====
-- crates/mjx-acp-server/src/relay.rs: the state that a relay keeps for the browsers that come and go.
pub mod Handshake
pub mod Capabilities
pub mod Sink
pub mod Routing
pub mod Handle
