-- ===== src/Workspace.antt =====
-- crates/mjx-workspace.
pub mod Output
pub mod Disk
pub mod Files
pub mod Listing
pub mod Terminals
pub mod Connection
