-- ===== src/Thread.antt =====
-- crates/mjx-acp-thread: a session's updates folded into a thread.
pub mod Schema
pub mod Model
pub mod Elicitations
pub mod Fold
pub mod Paths
pub mod Mention
