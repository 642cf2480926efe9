-- ===== src/Server/Sessions.antt =====
-- crates/mjx-acp-server/src/sessions.rs: the store of thread state, its two observers and what they decode.
pub mod Store
pub mod Client
pub mod Agent
pub mod Threads
pub mod Demultiplex
pub mod Covers
pub mod Tracked
pub mod Reachable
pub mod Turns
pub mod Forgetting
