-- ===== src/Rpc.antt =====
-- src/rpc: what the client writes in front of a call (auth.rs, header.rs), and how it takes a reply
-- apart (mod.rs).
pub mod Call
pub mod Record
pub mod Reply
mod Tests
