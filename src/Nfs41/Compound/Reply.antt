-- ===== src/Nfs41/Compound/Reply.antt =====
-- nfs41/compound.rs: the decoder of a reply. The result of each operation is skipped, so that the
-- next one is found, and its bytes are kept with all that follows them. Extensions: the decoders of
-- nfs41/v42_ops.rs and nfs41/v42_xattr.rs that this uses.
pub mod Extensions
pub mod Skip
pub mod Session
pub mod Results
pub mod Decode
pub mod SkipSafe
pub mod ExtensionsSafe
pub mod Safe
pub mod Rules
pub mod Grammar
pub mod Loops
pub mod SessionSkips
pub mod ResultSkips
pub mod Exact
mod Tests
