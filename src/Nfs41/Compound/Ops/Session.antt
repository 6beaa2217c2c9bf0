-- ===== src/Nfs41/Compound/Ops/Session.antt =====
-- nfs41/compound.rs: the operations that set up and end a session.
use nfs_rs.Common.{ℕ, Bool, List, ◌++◌}
use nfs_rs.Wire.Words.{be32, be64}
use nfs_rs.Wire.Opaque.{xdr_opaque}
use nfs_rs.Nfs41.Compound.{OpNum, CompoundBuilder}
use nfs_rs.Nfs41.Compound.Ops.{push, xdr_bool}

pub record ChannelAttrsArgs : Type 0 where
  pub headerpadsize : ℕ
  pub maxrequestsize : ℕ
  pub maxresponsesize : ℕ
  pub maxresponsesize_cached : ℕ
  pub maxoperations : ℕ
  pub maxrequests : ℕ

-- The attributes, the empty array ca_rdma_ird, and what follows them in the buffer.
unfoldable pub encode_channel : ChannelAttrsArgs → List ℕ → List ℕ
encode_channel a rest =
    be32 a.headerpadsize
    ++ (be32 a.maxrequestsize
        ++ (be32 a.maxresponsesize
            ++ (be32 a.maxresponsesize_cached
                ++ (be32 a.maxoperations ++ (be32 a.maxrequests ++ (be32 0 ++ rest))))))

unfoldable pub exchange_id :
    List ℕ → List ℕ → ℕ → List ℕ → List ℕ → CompoundBuilder → CompoundBuilder
unfolding push
exchange_id co_verifier co_ownerid flags impl_domain impl_name = push OpNum.exchange_id (
    co_verifier
    ++ (xdr_opaque co_ownerid
        ++ (be32 flags
            ++ (be32 0
                ++ (be32 1
                    ++ (xdr_opaque impl_domain ++ (xdr_opaque impl_name ++ (be64 0 ++ be32 0))))))))

unfoldable pub create_session :
    ℕ → ℕ → ℕ → ChannelAttrsArgs → ChannelAttrsArgs → ℕ → CompoundBuilder → CompoundBuilder
unfolding push encode_channel
create_session client_id sequence_id flags fore_attrs back_attrs cb_program =
    push OpNum.create_session (
      be64 client_id
      ++ (be32 sequence_id
          ++ (be32 flags
              ++ encode_channel fore_attrs
                  (encode_channel back_attrs (be32 cb_program ++ (be32 1 ++ be32 0))))))

unfoldable pub destroy_session : List ℕ → CompoundBuilder → CompoundBuilder
unfolding push
destroy_session session_id = push OpNum.destroy_session session_id

unfoldable pub bind_conn_to_session : List ℕ → ℕ → Bool → CompoundBuilder → CompoundBuilder
unfolding push
bind_conn_to_session session_id dir use_conn_in_rdma_mode =
    push OpNum.bind_conn_to_session (session_id ++ (be32 dir ++ xdr_bool use_conn_in_rdma_mode))

unfoldable pub reclaim_complete : Bool → CompoundBuilder → CompoundBuilder
unfolding push
reclaim_complete one_fs = push OpNum.reclaim_complete (xdr_bool one_fs)

unfoldable pub destroy_client_id : ℕ → CompoundBuilder → CompoundBuilder
unfolding push
destroy_client_id client_id = push OpNum.destroy_client_id (be64 client_id)
