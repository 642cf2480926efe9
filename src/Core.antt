-- ===== src/Core.antt =====
-- crates/mjx-acp-core: JSON-RPC frames, method names and the correlator.
pub mod Frame
pub mod Method
pub mod Correlator
