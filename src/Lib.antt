-- ===== src/Lib.antt =====
-- nfs-rs: an NFS client library for NFSv3, NFSv4.0, NFSv4.1 and NFSv4.2.
--
-- A request is encoded behind an RPC call header, sent as a record over TCP, and matched with its
-- reply by the call id. NFSv4.1 requests use a slot of a session, whose sequence number tells the
-- server whether a request is new. pNFS splits a range of a file over data servers. What goes wrong
-- on the way is classified, so that a change that may have taken effect is not repeated.
--
-- The files:
--   Common: lists, tests and the library names that the other files share.
--   Assoc: std::collections::HashMap as a list of pairs.
--   Errors: src/error.rs. NfsError and its predicates; Classify: the classification of failed
--     requests.
--   Retry: src/retry.rs, the budget of an operation for the waits after a busy reply, with what it
--     reads of the clock, the random numbers and the timer as arguments.
--   Wire: byte strings and the readers of bytes::Bytes, which panic where too few bytes remain. Safe:
--     readers that do not panic. Words, Opaque, Utf8: big-endian words, XDR opaque data (xdr_opaque,
--     take_opaque of src/nfs4/compound.rs; decode_opaque, decode_utf8str of src/nfs4/attrs.rs).
--   Rpc.Call: src/rpc/auth.rs and src/rpc/header.rs. Rpc.Record: read_one_response of
--     src/rpc/mod.rs. Rpc.Reply: parse_rpc_response of src/rpc/mod.rs.
--   Nfs4.Acl: src/nfs4/acl.rs. Nfs4.Attrs: the decoders of src/nfs4/attrs.rs, the long function
--     decode_fattr4_to_attr as three tables of attribute numbers and their parts. Nfs4.Compound: src/nfs4/compound.rs.
--   Nfs40.Owner, Nfs40.Locks, Nfs40.Opens: src/nfs40/state.rs, the open owners (OpenState) and the
--     locks (LockState) over a store of shared lanes. Spec: what each promises; Steps: the two side
--     by side.
--   Nfs40.Compound: src/nfs40/compound.rs, the methods of CompoundBuilder. Busy: retryable_busy_response;
--     Calls: requests as calls of the builder.
--   Nfs41.Compound: src/nfs41/compound.rs, which requests may be repeated (can_retry_busy) and which
--     ask the server to keep their reply (apply_sequence_cache_policy). Nfs41.Compound.Ops: the
--     methods of CompoundBuilder that append an operation. Request: a call of a method as data;
--     Fields: what it asks; Arguments: the grammar of the protocol, which a server reads by.
--     Nfs41.Compound.Reply: CompoundResponse with skip_op_result, whose match is a table from the
--     number of an operation, and the decoders of src/nfs41/v42_ops.rs and src/nfs41/v42_xattr.rs.
--     Grammar: the results as the protocol has a server write them; Rules, Loops, SessionSkips,
--     ResultSkips: what the parts of the decoder take.
--   Nfs41.ReadPlus: clip_read_plus of src/nfs41/v42_ops.rs.
--   Nfs41.State: StateManager of src/nfs41/state.rs, the reference counts of open files.
--   Nfs41.Slots: SlotTable and AcquiredSlot of src/nfs41/session.rs, with the tasks that share a
--     table as a step relation. Nfs41.Stripes: split_into_stripes of src/nfs41/layout.rs.
--   Nfs41.Layout: the decoders of LAYOUTGET, the merge of segments and the ranges that wait for
--     LAYOUTCOMMIT, of src/nfs41/layout.rs. Nfs41.Layout.Caches: the caches of LayoutManager, which
--     tasks share; a change of session is the steps that the tasks may come between.
--   Nfs41.Callback: src/nfs41/callback.rs, the calls that the server makes on the back channel. Parse:
--     the readers; Replies: the replies; Handle: a call from its bytes to the reply; Frame: a
--     description of the bytes of a call apart from that code; Served, Steps: what a call changes.
--
-- State and numbers: a struct is a record and a method that changes it a function to the new record;
-- integers are natural numbers, and a sum that the source does not guard wraps at its width. A reader
-- takes the bytes left and gives a value with the bytes behind it, an error or a panic. `usize` has
-- 64 bits.
--
-- Fuel: the loop over the fragments of a record has one unit for each byte of the stream, since each
-- fragment takes at least the four bytes of its header; the loop over the stripes of a range has one
-- unit for each byte of the range, since each chunk has a byte or more.
--
-- Not modelled: sockets, timers and the asynchronous runtime; the multiplexer of a connection; the
-- generated XDR types of NFSv3 and of the NFSv4 status numbers (which numbers are known is a
-- parameter); the Python adapter and the programs.
pub mod Common
pub mod Assoc
pub mod Errors
pub mod Retry
pub mod Wire
pub mod Rpc
pub mod Nfs4
pub mod Nfs40
pub mod Nfs41
