-- ===== src/Thread/Fold.antt =====
-- crates/mjx-acp-thread/src/fold.rs: one update folded into the thread, and what it changed.
pub mod Blocks
pub mod Chunks
pub mod ToolCalls
pub mod Apply
