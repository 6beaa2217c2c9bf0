-- ===== src/Nfs41/Callback/Replies.antt =====
-- nfs41/callback.rs: the replies to the server.
use nfs_rs.Common.{ℕ, ◌%◌, ◌^◌, List, [], ◌++◌, length}
use nfs_rs.Wire.Words.{be32, concat_map}
use nfs_rs.Wire.Opaque.{xdr_opaque}
use nfs_rs.Nfs41.Callback.Parse.{SequenceArgs}

unfoldable pub op_status : ℕ → ℕ → List ℕ
op_status opcode status = be32 opcode ++ be32 status

unfoldable pub sequence_reply : SequenceArgs → ℕ → List ℕ → List ℕ
unfolding op_status
sequence_reply sequence max_slot session_id =
    op_status 11 0
    ++ (session_id
        ++ (be32 sequence.sequence_id
            ++ (be32 sequence.slot_id ++ (be32 max_slot ++ be32 max_slot))))

unfoldable pub compound_body : List ℕ → ℕ → List (List ℕ) → List ℕ
compound_body tag status replies =
    be32 status
    ++ (xdr_opaque tag ++ (be32 (length replies % 2 ^ 32) ++ concat_map (λ reply. reply) replies))

unfoldable pub compound_error_body : List ℕ → ℕ → List ℕ
unfolding compound_body
compound_error_body tag status = compound_body tag status []

unfoldable pub build_rpc_reply : ℕ → List ℕ → List ℕ
build_rpc_reply xid body =
    be32 xid ++ (be32 1 ++ (be32 0 ++ (be32 0 ++ (be32 0 ++ (be32 0 ++ body)))))
