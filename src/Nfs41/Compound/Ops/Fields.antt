-- ===== src/Nfs41/Compound/Ops/Fields.antt =====
-- What each request asks: the number of its operation and its arguments as fields.
use nfs_rs.Common.{
  ℕ, ◌%◌, ◌*◌, ◌^◌, Bool, true, false, List, [], ◌∷◌, length, Option, none, some, ◌==◌,
  if◌then◌else◌,
}
use nfs_rs.Wire.Grammar.{Field, word, wide, fixed, text, words}
use nfs_rs.Nfs41.Compound.{OpNum}
use nfs_rs.Nfs41.Compound.Ops.Session.{ChannelAttrsArgs}
use nfs_rs.Nfs41.Compound.Ops.Files.{OpenArgs, wanted_access}
use nfs_rs.Nfs41.Compound.Ops.Layouts.{joined}
use nfs_rs.Nfs41.Compound.Ops.Extensions.{what_number, mode_number}
use nfs_rs.Nfs41.Compound.Ops.Request.{
  Request, sequence_request, exchange_id_request, create_session_request, destroy_session_request,
  bind_conn_to_session_request, reclaim_complete_request, destroy_client_id_request,
  putrootfh_request, putfh_request, getfh_request, savefh_request, restorefh_request,
  openattr_request, lookup_request, lookupp_request, getattr_request, setattr_request,
  access_request, read_request, write_request, commit_request, readdir_request, readlink_request,
  open_file_request, open_guarded_request, close_request, create_request, create_symlink_request,
  remove_request, rename_request, link_request, layoutget_request, layoutcommit_request,
  layoutreturn_request, getdeviceinfo_request, lock_request, lockt_request, locku_request,
  test_stateid_request, delegreturn_request, free_stateid_request, space_request, seek_request,
  read_plus_request, copy_range_request, offload_cancel_request, getxattr_request, setxattr_request,
  listxattrs_request, removexattr_request,
}

abbrev flag : Bool → Field
flag b = word (if b then 1 else 0)

abbrev channel_fields : ChannelAttrsArgs → List Field → List Field
channel_fields a rest =
    word a.headerpadsize
    ∷ word a.maxrequestsize
    ∷ word a.maxresponsesize
    ∷ word a.maxresponsesize_cached
    ∷ word a.maxoperations
    ∷ word a.maxrequests
    ∷ word 0
    ∷ rest

abbrev openflag_fields : Bool → Bool → List ℕ → List ℕ → List Field → List Field
openflag_fields true guarded mask vals rest = word 1 ∷ flag guarded ∷ words mask ∷ text vals ∷ rest
openflag_fields false guarded mask vals rest = word 0 ∷ rest

unfoldable pub open_fields : Bool → OpenArgs → List Field
unfolding wanted_access
open_fields guarded a =
    word a.seqid
    ∷ word (wanted_access a)
    ∷ word a.share_deny
    ∷ wide a.client_id
    ∷ text a.owner
    ∷ openflag_fields a.create guarded a.create_attrs_mask a.create_attrs_vals
        (word 0 ∷ text a.claim_file ∷ [])

abbrev new_offset_fields : Option ℕ → List Field → List Field
new_offset_fields (some off) rest = word 1 ∷ wide off ∷ rest
new_offset_fields none rest = word 0 ∷ rest

abbrev locker_fields : Bool → List ℕ → ℕ → ℕ → List ℕ → ℕ → List Field
locker_fields true open_stateid lock_seqid open_seqid lock_owner client_id =
    word 1
    ∷ word open_seqid
    ∷ fixed 16 open_stateid
    ∷ word lock_seqid
    ∷ wide client_id
    ∷ text lock_owner
    ∷ []
locker_fields false open_stateid lock_seqid open_seqid lock_owner client_id =
    word 0 ∷ fixed 16 open_stateid ∷ word lock_seqid ∷ []

unfoldable pub request_op : Request → OpNum
request_op (sequence_request _ _ _ _) = OpNum.sequence_op
request_op (exchange_id_request _ _ _ _ _) = OpNum.exchange_id
request_op (create_session_request _ _ _ _ _ _) = OpNum.create_session
request_op (destroy_session_request _) = OpNum.destroy_session
request_op (bind_conn_to_session_request _ _ _) = OpNum.bind_conn_to_session
request_op (reclaim_complete_request _) = OpNum.reclaim_complete
request_op (destroy_client_id_request _) = OpNum.destroy_client_id
request_op putrootfh_request = OpNum.put_root_fh
request_op (putfh_request _) = OpNum.put_fh
request_op getfh_request = OpNum.get_fh
request_op savefh_request = OpNum.save_fh
request_op restorefh_request = OpNum.restore_fh
request_op (openattr_request _) = OpNum.open_attr
request_op (lookup_request _) = OpNum.lookup
request_op lookupp_request = OpNum.lookupp
request_op (getattr_request _) = OpNum.get_attr
request_op (setattr_request _ _ _) = OpNum.set_attr
request_op (access_request _) = OpNum.access
request_op (read_request _ _ _) = OpNum.read
request_op (write_request _ _ _ _) = OpNum.write
request_op (commit_request _ _) = OpNum.commit
request_op (readdir_request _ _ _ _ _) = OpNum.read_dir
request_op readlink_request = OpNum.read_link
request_op (open_file_request _) = OpNum.open_op
request_op (open_guarded_request _) = OpNum.open_op
request_op (close_request _ _) = OpNum.close
request_op (create_request _ _ _ _) = OpNum.create
request_op (create_symlink_request _ _ _ _) = OpNum.create
request_op (remove_request _) = OpNum.remove
request_op (rename_request _ _) = OpNum.rename
request_op (link_request _) = OpNum.link
request_op (layoutget_request _ _ _ _ _ _ _ _) = OpNum.layout_get
request_op (layoutcommit_request _ _ _ _ _ _) = OpNum.layout_commit
request_op (layoutreturn_request _ _ _ _ _ _ _) = OpNum.layout_return
request_op (getdeviceinfo_request _ _ _) = OpNum.get_device_info
request_op (lock_request _ _ _ _ _ _ _ _ _ _) = OpNum.lock
request_op (lockt_request _ _ _ _ _) = OpNum.lockt
request_op (locku_request _ _ _ _ _) = OpNum.locku
request_op (test_stateid_request _) = OpNum.test_state_id
request_op (delegreturn_request _) = OpNum.deleg_return
request_op (free_stateid_request _) = OpNum.free_state_id
request_op (space_request allocate _ _ _) = if allocate then OpNum.allocate else OpNum.deallocate
request_op (seek_request _ _ _) = OpNum.seek
request_op (read_plus_request _ _ _) = OpNum.read_plus
request_op (copy_range_request clone _ _ _ _ _) = if clone then OpNum.clone else OpNum.copy
request_op (offload_cancel_request _) = OpNum.offload_cancel
request_op (getxattr_request _) = OpNum.get_xattr
request_op (setxattr_request _ _ _) = OpNum.set_xattr
request_op (listxattrs_request _ _) = OpNum.list_xattrs
request_op (removexattr_request _) = OpNum.remove_xattr

unfoldable pub fields : Request → List Field
unfolding open_fields joined
fields (sequence_request session_id sequence_id slot_id highest_slot_id) =
    fixed 16 session_id ∷ word sequence_id ∷ word slot_id ∷ word highest_slot_id ∷ word 0 ∷ []
fields (exchange_id_request co_verifier co_ownerid flags impl_domain impl_name) =
    fixed 8 co_verifier
    ∷ text co_ownerid
    ∷ word flags
    ∷ word 0
    ∷ word 1
    ∷ text impl_domain
    ∷ text impl_name
    ∷ wide 0
    ∷ word 0
    ∷ []
fields (create_session_request client_id sequence_id flags fore_attrs back_attrs cb_program) =
    wide client_id
    ∷ word sequence_id
    ∷ word flags
    ∷ channel_fields fore_attrs (channel_fields back_attrs (word cb_program ∷ word 1 ∷ word 0 ∷ []))
fields (destroy_session_request session_id) = fixed 16 session_id ∷ []
fields (bind_conn_to_session_request session_id dir use_conn_in_rdma_mode) =
    fixed 16 session_id ∷ word dir ∷ flag use_conn_in_rdma_mode ∷ []
fields (reclaim_complete_request one_fs) = flag one_fs ∷ []
fields (destroy_client_id_request client_id) = wide client_id ∷ []
fields putrootfh_request = []
fields (putfh_request fh) = text fh ∷ []
fields getfh_request = []
fields savefh_request = []
fields restorefh_request = []
fields (openattr_request create_dir) = flag create_dir ∷ []
fields (lookup_request name) = text name ∷ []
fields lookupp_request = []
fields (getattr_request bitmap) = words bitmap ∷ []
fields (setattr_request stateid attrmask attr_vals) =
    fixed 16 stateid ∷ words attrmask ∷ text attr_vals ∷ []
fields (access_request access_mask) = word access_mask ∷ []
fields (read_request stateid offset count) = fixed 16 stateid ∷ wide offset ∷ word count ∷ []
fields (write_request stateid offset stable bytes) =
    fixed 16 stateid ∷ wide offset ∷ word stable ∷ text bytes ∷ []
fields (commit_request offset count) = wide offset ∷ word count ∷ []
fields (readdir_request cookie cookieverf dircount maxcount attr_request) =
    wide cookie ∷ fixed 8 cookieverf ∷ word dircount ∷ word maxcount ∷ words attr_request ∷ []
fields readlink_request = []
fields (open_file_request open_args) = open_fields false open_args
fields (open_guarded_request open_args) = open_fields true open_args
fields (close_request seqid stateid) = word seqid ∷ fixed 16 stateid ∷ []
fields (create_request objtype name attrmask attr_vals) =
    word objtype ∷ text name ∷ words attrmask ∷ text attr_vals ∷ []
fields (create_symlink_request name link_target attrmask attr_vals) =
    word 5 ∷ text link_target ∷ text name ∷ words attrmask ∷ text attr_vals ∷ []
fields (remove_request name) = text name ∷ []
fields (rename_request oldname newname) = text oldname ∷ text newname ∷ []
fields (link_request newname) = text newname ∷ []
fields
      (layoutget_request signal_layout_avail layout_type iomode offset len min_length stateid
        max_count) =
    flag signal_layout_avail
    ∷ word layout_type
    ∷ word iomode
    ∷ wide offset
    ∷ wide len
    ∷ wide min_length
    ∷ fixed 16 stateid
    ∷ word max_count
    ∷ []
fields (layoutcommit_request offset len reclaim stateid last_write_offset layout_type) =
    wide offset
    ∷ wide len
    ∷ flag reclaim
    ∷ fixed 16 stateid
    ∷ new_offset_fields last_write_offset (word 0 ∷ word layout_type ∷ text [] ∷ [])
fields (layoutreturn_request reclaim layout_type iomode return_type offset len stateid) =
    flag reclaim
    ∷ word layout_type
    ∷ word iomode
    ∷ word return_type
    ∷ (if return_type == 1 then wide offset ∷ wide len ∷ fixed 16 stateid ∷ text [] ∷ [] else [])
fields (getdeviceinfo_request device_id layout_type max_count) =
    fixed 16 device_id ∷ word layout_type ∷ word max_count ∷ words (6 ∷ []) ∷ []
fields
      (lock_request lock_type reclaim offset len new_lock_owner open_stateid lock_seqid open_seqid
        lock_owner client_id) =
    word lock_type
    ∷ flag reclaim
    ∷ wide offset
    ∷ wide len
    ∷ locker_fields new_lock_owner open_stateid lock_seqid open_seqid lock_owner client_id
fields (lockt_request lock_type offset len lock_owner client_id) =
    word lock_type ∷ wide offset ∷ wide len ∷ wide client_id ∷ text lock_owner ∷ []
fields (locku_request lock_type seqid lock_stateid offset len) =
    word lock_type ∷ word seqid ∷ fixed 16 lock_stateid ∷ wide offset ∷ wide len ∷ []
fields (test_stateid_request stateids) =
    word (length stateids % 2 ^ 32) ∷ fixed (16 * (length stateids % 2 ^ 32)) (joined stateids) ∷ []
fields (delegreturn_request stateid) = fixed 16 stateid ∷ []
fields (free_stateid_request stateid) = fixed 16 stateid ∷ []
fields (space_request _ stateid offset len) = fixed 16 stateid ∷ wide offset ∷ wide len ∷ []
fields (seek_request stateid offset what) =
    fixed 16 stateid ∷ wide offset ∷ word (what_number what) ∷ []
fields (read_plus_request stateid offset count) = fixed 16 stateid ∷ wide offset ∷ word count ∷ []
fields (copy_range_request clone source destination source_offset destination_offset count) =
    fixed 16 source
    ∷ fixed 16 destination
    ∷ wide source_offset
    ∷ wide destination_offset
    ∷ wide count
    ∷ (if clone then [] else flag true ∷ flag true ∷ word 0 ∷ [])
fields (offload_cancel_request stateid) = fixed 16 stateid ∷ []
fields (getxattr_request name) = text name ∷ []
fields (setxattr_request name value mode) = word (mode_number mode) ∷ text name ∷ text value ∷ []
fields (listxattrs_request cookie maxcount) = wide cookie ∷ word maxcount ∷ []
fields (removexattr_request name) = text name ∷ []
