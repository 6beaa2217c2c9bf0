-- ===== src/Nfs40.antt =====
-- nfs40/: the parts of the NFSv4.0 client.
pub mod Owner
pub mod Locks
pub mod Opens
pub mod Compound
mod Tests
