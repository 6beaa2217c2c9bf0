-- ===== src/Nfs41/Layout.antt =====
-- nfs41/layout.rs: the layouts of files, as they come from LAYOUTGET, and the ranges that were
-- written through them and wait for a LAYOUTCOMMIT.
pub mod Decode
pub mod Dirty
pub mod Merge
pub mod Caches
mod Tests
