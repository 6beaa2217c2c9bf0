-- ===== src/Nfs4.antt =====
-- src/nfs4: the wire primitives that the minor versions of NFSv4 share.
pub mod Acl
pub mod Attrs
pub mod Compound
mod Tests
