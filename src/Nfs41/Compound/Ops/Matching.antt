-- ===== src/Nfs41/Compound/Ops/Matching.antt =====
-- What the methods of CompoundBuilder are given follows the grammar of the operation.
use nfs_rs.Common.{
  ℕ, ◌%◌, ◌*◌, ◌^◌, ◌<◌, ◌≡◌, ◌≢◌, refl, true, false, List, length, none, some, inl, inr, ==_self,
  arith, Bool-cases,
}
use nfs_rs.Assoc.{nat_eq, find}
use nfs_rs.Wire.Grammar.{Field, Grammar, matches}
use nfs_rs.Nfs41.Compound.{OpNum, op_number}
use nfs_rs.Nfs41.Compound.Ops.Request.{
  Request, sequence_request, exchange_id_request, create_session_request, destroy_session_request,
  bind_conn_to_session_request, reclaim_complete_request, destroy_client_id_request,
  putrootfh_request, putfh_request, getfh_request, savefh_request, restorefh_request,
  openattr_request, lookup_request, lookupp_request, getattr_request, setattr_request,
  access_request, read_request, write_request, commit_request, readdir_request, readlink_request,
  open_file_request, open_guarded_request, close_request, create_request, create_symlink_request,
  remove_request, rename_request, link_request, layoutget_request, layoutcommit_request,
  layoutreturn_request, getdeviceinfo_request, lock_request, lockt_request, locku_request,
  test_stateid_request, delegreturn_request, free_stateid_request, space_request, seek_request,
  read_plus_request, copy_range_request, offload_cancel_request, getxattr_request, setxattr_request,
  listxattrs_request, removexattr_request,
}
use nfs_rs.Nfs41.Compound.Ops.Fields.{open_fields, request_op, fields}
use nfs_rs.Nfs41.Compound.Ops.Arguments.{arguments}

-- The method `create` is for the types that have no data of their own: not for block devices (3),
-- character devices (4) and symbolic links (5). OPENATTR and FREE_STATEID are left out: the source
-- numbers them 20, which is OPEN_CONFIRM, and 56, which is WANT_DELEGATION, where the protocol has
-- 19 and 45.
unfoldable pub IsStandard : Request → Type 0
IsStandard (create_request objtype _ _ _) = (objtype ≢ 3) × (objtype ≢ 4) × (objtype ≢ 5)
IsStandard (openattr_request _) = ⊥
IsStandard (free_stateid_request _) = ⊥
IsStandard _ = Unit

unfoldable pub Follows : ℕ → List Field → Type 0
Follows opcode fs = (g : Grammar) × (find opcode arguments ≡ some g) × (matches g fs ≡ true)

pub request-Follows : (q : Request) → IsStandard q → Follows (op_number (request_op q)) (fields q)
unfolding Follows IsStandard matches arguments find request_op fields op_number open_fields
request-Follows (sequence_request session_id sequence_id slot_id highest_slot_id) h =
    (_, refl, refl)
request-Follows (exchange_id_request co_verifier co_ownerid flags impl_domain impl_name) h =
    (_, refl, refl)
request-Follows
      (create_session_request client_id sequence_id flags fore_attrs back_attrs cb_program) h =
    (_, refl, refl)
request-Follows (destroy_session_request session_id) h = (_, refl, refl)
request-Follows (bind_conn_to_session_request session_id dir use_conn_in_rdma_mode) h =
    (_, refl, refl)
request-Follows (reclaim_complete_request one_fs) h = (_, refl, refl)
request-Follows (destroy_client_id_request client_id) h = (_, refl, refl)
request-Follows putrootfh_request h = (_, refl, refl)
request-Follows (putfh_request fh) h = (_, refl, refl)
request-Follows getfh_request h = (_, refl, refl)
request-Follows savefh_request h = (_, refl, refl)
request-Follows restorefh_request h = (_, refl, refl)
request-Follows (openattr_request create_dir) h = absurd h
request-Follows (lookup_request name) h = (_, refl, refl)
request-Follows lookupp_request h = (_, refl, refl)
request-Follows (getattr_request bitmap) h = (_, refl, refl)
request-Follows (setattr_request stateid attrmask attr_vals) h = (_, refl, refl)
request-Follows (access_request access_mask) h = (_, refl, refl)
request-Follows (read_request stateid offset count) h = (_, refl, refl)
request-Follows (write_request stateid offset stable bytes) h = (_, refl, refl)
request-Follows (commit_request offset count) h = (_, refl, refl)
request-Follows (readdir_request cookie cookieverf dircount maxcount attr_request) h =
    (_, refl, refl)
request-Follows readlink_request h = (_, refl, refl)
request-Follows (open_file_request open_args) h =
    (_, refl, elim (Bool-cases open_args.create) [ inl c ↦ rw c refl | inr c ↦ rw c refl ])
request-Follows (open_guarded_request open_args) h =
    (_, refl, elim (Bool-cases open_args.create) [ inl c ↦ rw c refl | inr c ↦ rw c refl ])
request-Follows (close_request seqid stateid) h = (_, refl, refl)
request-Follows (create_request objtype name attrmask attr_vals) h = (_, refl, ground (arith, h))
request-Follows (create_symlink_request name link_target attrmask attr_vals) h = (_, refl, refl)
request-Follows (remove_request name) h = (_, refl, refl)
request-Follows (rename_request oldname newname) h = (_, refl, refl)
request-Follows (link_request newname) h = (_, refl, refl)
request-Follows
      (layoutget_request signal_layout_avail layout_type iomode offset len min_length stateid
        max_count)
      h =
    (_, refl, refl)
request-Follows (layoutcommit_request offset len reclaim stateid none layout_type) h =
    (_, refl, refl)
request-Follows (layoutcommit_request offset len reclaim stateid (some off) layout_type) h =
    (_, refl, refl)
request-Follows (layoutreturn_request reclaim layout_type iomode return_type offset len stateid) h =
    (_, refl, ground arith)
request-Follows (getdeviceinfo_request device_id layout_type max_count) h = (_, refl, refl)
request-Follows
      (lock_request lock_type reclaim offset len true open_stateid lock_seqid open_seqid lock_owner
        client_id)
      h =
    (_, refl, refl)
request-Follows
      (lock_request lock_type reclaim offset len false open_stateid lock_seqid open_seqid lock_owner
        client_id)
      h =
    (_, refl, refl)
request-Follows (lockt_request lock_type offset len lock_owner client_id) h = (_, refl, refl)
request-Follows (locku_request lock_type seqid lock_stateid offset len) h = (_, refl, refl)
request-Follows (test_stateid_request stateids) h =
    (_, refl, rw (==_self (16 * (length stateids % 2 ^ 32))) refl)
request-Follows (delegreturn_request stateid) h = (_, refl, refl)
request-Follows (free_stateid_request stateid) h = absurd h
request-Follows (space_request true stateid offset len) h = (_, refl, refl)
request-Follows (space_request false stateid offset len) h = (_, refl, refl)
request-Follows (seek_request stateid offset what) h = (_, refl, refl)
request-Follows (read_plus_request stateid offset count) h = (_, refl, refl)
request-Follows (copy_range_request true source destination source_offset destination_offset count)
      h =
    (_, refl, refl)
request-Follows (copy_range_request false source destination source_offset destination_offset count)
      h =
    (_, refl, refl)
request-Follows (offload_cancel_request stateid) h = (_, refl, refl)
request-Follows (getxattr_request name) h = (_, refl, refl)
request-Follows (setxattr_request name value mode) h = (_, refl, refl)
request-Follows (listxattrs_request cookie maxcount) h = (_, refl, refl)
request-Follows (removexattr_request name) h = (_, refl, refl)

pub op_number-lt : (o : OpNum) → op_number o < 100
unfolding op_number
op_number-lt o = ground arith
