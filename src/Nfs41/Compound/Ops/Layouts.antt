-- ===== src/Nfs41/Compound/Ops/Layouts.antt =====
-- nfs41/compound.rs: the operations of pNFS, and those on locks and stateids.
use nfs_rs.Common.{
  ℕ, ◌%◌, ◌^◌, Bool, true, false, List, [], ◌∷◌, ◌++◌, length, Option, none, some, ◌==◌,
  if◌then◌else◌,
}
use nfs_rs.Wire.Words.{be32, be64}
use nfs_rs.Wire.Opaque.{xdr_opaque}
use nfs_rs.Nfs41.Compound.{OpNum, CompoundBuilder}
use nfs_rs.Nfs41.Compound.Ops.{push, xdr_bool}

unfoldable pub layoutget : Bool → ℕ → ℕ → ℕ → ℕ → ℕ → List ℕ → ℕ → CompoundBuilder → CompoundBuilder
unfolding push
layoutget signal_layout_avail layout_type iomode offset len min_length stateid max_count =
    push OpNum.layout_get (
      xdr_bool signal_layout_avail
      ++ (be32 layout_type
          ++ (be32 iomode
              ++ (be64 offset ++ (be64 len ++ (be64 min_length ++ (stateid ++ be32 max_count)))))))

-- newoffset4, and what follows it.
unfoldable pub encode_new_offset : Option ℕ → List ℕ → List ℕ
encode_new_offset (some off) rest = xdr_bool true ++ (be64 off ++ rest)
encode_new_offset none rest = xdr_bool false ++ rest

unfoldable pub layoutcommit :
    ℕ → ℕ → Bool → List ℕ → Option ℕ → ℕ → CompoundBuilder → CompoundBuilder
unfolding push encode_new_offset
layoutcommit offset len reclaim stateid last_write_offset layout_type = push OpNum.layout_commit (
    be64 offset
    ++ (be64 len
        ++ (xdr_bool reclaim
            ++ (stateid
                ++ encode_new_offset last_write_offset (be32 0 ++ (be32 layout_type ++ be32 0))))))

unfoldable pub layoutreturn : Bool → ℕ → ℕ → ℕ → ℕ → ℕ → List ℕ → CompoundBuilder → CompoundBuilder
unfolding push
layoutreturn reclaim layout_type iomode return_type offset len stateid = push OpNum.layout_return (
    xdr_bool reclaim
    ++ (be32 layout_type
        ++ (be32 iomode
            ++ (be32 return_type
                ++ (if return_type == 1
                    then be64 offset ++ (be64 len ++ (stateid ++ be32 0))
                    else [])))))

unfoldable pub getdeviceinfo : List ℕ → ℕ → ℕ → CompoundBuilder → CompoundBuilder
unfolding push
getdeviceinfo device_id layout_type max_count =
    push OpNum.get_device_info
      (device_id ++ (be32 layout_type ++ (be32 max_count ++ (be32 1 ++ be32 6))))

-- locker4: a new lock owner, or one that exists.
unfoldable pub encode_locker : Bool → List ℕ → ℕ → ℕ → List ℕ → ℕ → List ℕ
encode_locker true open_stateid lock_seqid open_seqid lock_owner client_id =
    xdr_bool true
    ++ (be32 open_seqid
        ++ (open_stateid ++ (be32 lock_seqid ++ (be64 client_id ++ xdr_opaque lock_owner))))
encode_locker false open_stateid lock_seqid open_seqid lock_owner client_id =
    xdr_bool false ++ (open_stateid ++ be32 lock_seqid)

unfoldable pub lock :
    ℕ → Bool → ℕ → ℕ → Bool → List ℕ → ℕ → ℕ → List ℕ → ℕ → CompoundBuilder → CompoundBuilder
unfolding push encode_locker
lock lock_type reclaim offset len new_lock_owner open_stateid lock_seqid open_seqid lock_owner
      client_id =
    push OpNum.lock (
      be32 lock_type
      ++ (xdr_bool reclaim
          ++ (be64 offset
              ++ (be64 len
                  ++ encode_locker new_lock_owner open_stateid lock_seqid open_seqid lock_owner
                      client_id))))

unfoldable pub lockt : ℕ → ℕ → ℕ → List ℕ → ℕ → CompoundBuilder → CompoundBuilder
unfolding push
lockt lock_type offset len lock_owner client_id =
    push OpNum.lockt
      (be32 lock_type ++ (be64 offset ++ (be64 len ++ (be64 client_id ++ xdr_opaque lock_owner))))

unfoldable pub locku : ℕ → ℕ → List ℕ → ℕ → ℕ → CompoundBuilder → CompoundBuilder
unfolding push
locku lock_type seqid lock_stateid offset len =
    push OpNum.locku (be32 lock_type ++ (be32 seqid ++ (lock_stateid ++ (be64 offset ++ be64 len))))

-- The stateids one behind another.
unfoldable pub joined : List (List ℕ) → List ℕ
joined [] = []
joined (sid ∷ sids) = sid ++ joined sids

unfoldable pub test_stateid : List (List ℕ) → CompoundBuilder → CompoundBuilder
unfolding push joined
test_stateid stateids =
    push OpNum.test_state_id (be32 (length stateids % 2 ^ 32) ++ joined stateids)

unfoldable pub delegreturn : List ℕ → CompoundBuilder → CompoundBuilder
unfolding push
delegreturn stateid = push OpNum.deleg_return stateid

unfoldable pub free_stateid : List ℕ → CompoundBuilder → CompoundBuilder
unfolding push
free_stateid stateid = push OpNum.free_state_id stateid
