-- ===== src/Nfs41/Compound/Ops/Request.antt =====
-- The operations of nfs41/compound.rs as data: one constructor for each method of CompoundBuilder
-- that appends a whole operation, and the builder that a list of them makes. write_header, whose
-- data are sent apart from the body, has none.
use nfs_rs.Common.{ℕ, Bool, List, [], ◌∷◌, Option}
use nfs_rs.Nfs41.Compound.{CompoundBuilder, sequence}
use nfs_rs.Nfs41.Compound.Ops.Session.{
  ChannelAttrsArgs, exchange_id, create_session, destroy_session, bind_conn_to_session,
  reclaim_complete, destroy_client_id,
}
use nfs_rs.Nfs41.Compound.Ops.Files.{
  OpenArgs, putrootfh, putfh, getfh, savefh, restorefh, openattr, lookup, lookupp, getattr, setattr,
  access, read, write, commit, readdir, readlink, open_file, open_guarded, close, create,
  create_symlink, remove, rename, link,
}
use nfs_rs.Nfs41.Compound.Ops.Layouts.{
  layoutget, layoutcommit, layoutreturn, getdeviceinfo, lock, lockt, locku, test_stateid,
  delegreturn, free_stateid,
}
use nfs_rs.Nfs41.Compound.Ops.Extensions.{
  SeekContent, XattrSetMode, space, seek, read_plus, copy_range, offload_cancel, getxattr, setxattr,
  listxattrs, removexattr,
}

pub data Request : Type 0 where
  sequence_request : List ℕ → ℕ → ℕ → ℕ → Request
  exchange_id_request : List ℕ → List ℕ → ℕ → List ℕ → List ℕ → Request
  create_session_request : ℕ → ℕ → ℕ → ChannelAttrsArgs → ChannelAttrsArgs → ℕ → Request
  destroy_session_request : List ℕ → Request
  bind_conn_to_session_request : List ℕ → ℕ → Bool → Request
  reclaim_complete_request : Bool → Request
  destroy_client_id_request : ℕ → Request
  putrootfh_request : Request
  putfh_request : List ℕ → Request
  getfh_request : Request
  savefh_request : Request
  restorefh_request : Request
  openattr_request : Bool → Request
  lookup_request : List ℕ → Request
  lookupp_request : Request
  getattr_request : List ℕ → Request
  setattr_request : List ℕ → List ℕ → List ℕ → Request
  access_request : ℕ → Request
  read_request : List ℕ → ℕ → ℕ → Request
  write_request : List ℕ → ℕ → ℕ → List ℕ → Request
  commit_request : ℕ → ℕ → Request
  readdir_request : ℕ → List ℕ → ℕ → ℕ → List ℕ → Request
  readlink_request : Request
  open_file_request : OpenArgs → Request
  open_guarded_request : OpenArgs → Request
  close_request : ℕ → List ℕ → Request
  create_request : ℕ → List ℕ → List ℕ → List ℕ → Request
  create_symlink_request : List ℕ → List ℕ → List ℕ → List ℕ → Request
  remove_request : List ℕ → Request
  rename_request : List ℕ → List ℕ → Request
  link_request : List ℕ → Request
  layoutget_request : Bool → ℕ → ℕ → ℕ → ℕ → ℕ → List ℕ → ℕ → Request
  layoutcommit_request : ℕ → ℕ → Bool → List ℕ → Option ℕ → ℕ → Request
  layoutreturn_request : Bool → ℕ → ℕ → ℕ → ℕ → ℕ → List ℕ → Request
  getdeviceinfo_request : List ℕ → ℕ → ℕ → Request
  lock_request : ℕ → Bool → ℕ → ℕ → Bool → List ℕ → ℕ → ℕ → List ℕ → ℕ → Request
  lockt_request : ℕ → ℕ → ℕ → List ℕ → ℕ → Request
  locku_request : ℕ → ℕ → List ℕ → ℕ → ℕ → Request
  test_stateid_request : List (List ℕ) → Request
  delegreturn_request : List ℕ → Request
  free_stateid_request : List ℕ → Request
  space_request : Bool → List ℕ → ℕ → ℕ → Request
  seek_request : List ℕ → ℕ → SeekContent → Request
  read_plus_request : List ℕ → ℕ → ℕ → Request
  copy_range_request : Bool → List ℕ → List ℕ → ℕ → ℕ → ℕ → Request
  offload_cancel_request : List ℕ → Request
  getxattr_request : List ℕ → Request
  setxattr_request : List ℕ → List ℕ → XattrSetMode → Request
  listxattrs_request : ℕ → ℕ → Request
  removexattr_request : List ℕ → Request

unfoldable pub apply : Request → CompoundBuilder → CompoundBuilder
apply (sequence_request session_id sequence_id slot_id highest_slot_id) =
    sequence session_id sequence_id slot_id highest_slot_id
apply (exchange_id_request co_verifier co_ownerid flags impl_domain impl_name) =
    exchange_id co_verifier co_ownerid flags impl_domain impl_name
apply (create_session_request client_id sequence_id flags fore_attrs back_attrs cb_program) =
    create_session client_id sequence_id flags fore_attrs back_attrs cb_program
apply (destroy_session_request session_id) = destroy_session session_id
apply (bind_conn_to_session_request session_id dir use_conn_in_rdma_mode) =
    bind_conn_to_session session_id dir use_conn_in_rdma_mode
apply (reclaim_complete_request one_fs) = reclaim_complete one_fs
apply (destroy_client_id_request client_id) = destroy_client_id client_id
apply putrootfh_request = putrootfh
apply (putfh_request fh) = putfh fh
apply getfh_request = getfh
apply savefh_request = savefh
apply restorefh_request = restorefh
apply (openattr_request create_dir) = openattr create_dir
apply (lookup_request name) = lookup name
apply lookupp_request = lookupp
apply (getattr_request bitmap) = getattr bitmap
apply (setattr_request stateid attrmask attr_vals) = setattr stateid attrmask attr_vals
apply (access_request access_mask) = access access_mask
apply (read_request stateid offset count) = read stateid offset count
apply (write_request stateid offset stable bytes) = write stateid offset stable bytes
apply (commit_request offset count) = commit offset count
apply (readdir_request cookie cookieverf dircount maxcount attr_request) =
    readdir cookie cookieverf dircount maxcount attr_request
apply readlink_request = readlink
apply (open_file_request open_args) = open_file open_args
apply (open_guarded_request open_args) = open_guarded open_args
apply (close_request seqid stateid) = close seqid stateid
apply (create_request objtype name attrmask attr_vals) = create objtype name attrmask attr_vals
apply (create_symlink_request name link_target attrmask attr_vals) =
    create_symlink name link_target attrmask attr_vals
apply (remove_request name) = remove name
apply (rename_request oldname newname) = rename oldname newname
apply (link_request newname) = link newname
apply
      (layoutget_request signal_layout_avail layout_type iomode offset len min_length stateid
        max_count) =
    layoutget signal_layout_avail layout_type iomode offset len min_length stateid max_count
apply (layoutcommit_request offset len reclaim stateid last_write_offset layout_type) =
    layoutcommit offset len reclaim stateid last_write_offset layout_type
apply (layoutreturn_request reclaim layout_type iomode return_type offset len stateid) =
    layoutreturn reclaim layout_type iomode return_type offset len stateid
apply (getdeviceinfo_request device_id layout_type max_count) =
    getdeviceinfo device_id layout_type max_count
apply
      (lock_request lock_type reclaim offset len new_lock_owner open_stateid lock_seqid open_seqid
        lock_owner client_id) =
    lock lock_type reclaim offset len new_lock_owner open_stateid lock_seqid open_seqid lock_owner
      client_id
apply (lockt_request lock_type offset len lock_owner client_id) =
    lockt lock_type offset len lock_owner client_id
apply (locku_request lock_type seqid lock_stateid offset len) =
    locku lock_type seqid lock_stateid offset len
apply (test_stateid_request stateids) = test_stateid stateids
apply (delegreturn_request stateid) = delegreturn stateid
apply (free_stateid_request stateid) = free_stateid stateid
apply (space_request allocate stateid offset len) = space allocate stateid offset len
apply (seek_request stateid offset what) = seek stateid offset what
apply (read_plus_request stateid offset count) = read_plus stateid offset count
apply (copy_range_request clone source destination source_offset destination_offset count) =
    copy_range clone source destination source_offset destination_offset count
apply (offload_cancel_request stateid) = offload_cancel stateid
apply (getxattr_request name) = getxattr name
apply (setxattr_request name value mode) = setxattr name value mode
apply (listxattrs_request cookie maxcount) = listxattrs cookie maxcount
apply (removexattr_request name) = removexattr name

-- The requests in their order.
unfoldable pub build : List Request → CompoundBuilder → CompoundBuilder
unfolding apply
build [] b = b
build (q ∷ qs) b = build qs (apply q b)
