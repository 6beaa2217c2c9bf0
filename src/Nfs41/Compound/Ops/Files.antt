-- ===== src/Nfs41/Compound/Ops/Files.antt =====
-- nfs41/compound.rs: the operations on file handles, files and directories. A name is its UTF-8
-- bytes, and a stateid its 16 bytes.
use nfs_rs.Common.{ℕ, Bool, true, false, List, [], ◌++◌, bit_or, if◌then◌else◌}
use nfs_rs.Wire.Words.{be32, be64}
use nfs_rs.Wire.Opaque.{xdr_opaque}
use nfs_rs.Nfs41.Compound.{OpNum, CompoundBuilder}
use nfs_rs.Nfs41.Compound.Ops.{push, xdr_bool, xdr_bitmap}

unfoldable pub putrootfh : CompoundBuilder → CompoundBuilder
unfolding push
putrootfh = push OpNum.put_root_fh []

unfoldable pub putfh : List ℕ → CompoundBuilder → CompoundBuilder
unfolding push
putfh fh = push OpNum.put_fh (xdr_opaque fh)

unfoldable pub getfh : CompoundBuilder → CompoundBuilder
unfolding push
getfh = push OpNum.get_fh []

unfoldable pub savefh : CompoundBuilder → CompoundBuilder
unfolding push
savefh = push OpNum.save_fh []

unfoldable pub restorefh : CompoundBuilder → CompoundBuilder
unfolding push
restorefh = push OpNum.restore_fh []

unfoldable pub openattr : Bool → CompoundBuilder → CompoundBuilder
unfolding push
openattr create_dir = push OpNum.open_attr (xdr_bool create_dir)

unfoldable pub lookup : List ℕ → CompoundBuilder → CompoundBuilder
unfolding push
lookup name = push OpNum.lookup (xdr_opaque name)

unfoldable pub lookupp : CompoundBuilder → CompoundBuilder
unfolding push
lookupp = push OpNum.lookupp []

unfoldable pub getattr : List ℕ → CompoundBuilder → CompoundBuilder
unfolding push
getattr bitmap = push OpNum.get_attr (xdr_bitmap bitmap)

unfoldable pub setattr : List ℕ → List ℕ → List ℕ → CompoundBuilder → CompoundBuilder
unfolding push
setattr stateid attrmask attr_vals =
    push OpNum.set_attr (stateid ++ (xdr_bitmap attrmask ++ xdr_opaque attr_vals))

unfoldable pub access : ℕ → CompoundBuilder → CompoundBuilder
unfolding push
access access_mask = push OpNum.access (be32 access_mask)

unfoldable pub read : List ℕ → ℕ → ℕ → CompoundBuilder → CompoundBuilder
unfolding push
read stateid offset count = push OpNum.read (stateid ++ (be64 offset ++ be32 count))

unfoldable pub write : List ℕ → ℕ → ℕ → List ℕ → CompoundBuilder → CompoundBuilder
unfolding push
write stateid offset stable bytes =
    push OpNum.write (stateid ++ (be64 offset ++ (be32 stable ++ xdr_opaque bytes)))

-- The arguments of WRITE up to the length of the data, which is sent apart.
unfoldable pub write_header : List ℕ → ℕ → ℕ → ℕ → CompoundBuilder → CompoundBuilder
unfolding push
write_header stateid offset stable data_len =
    push OpNum.write (stateid ++ (be64 offset ++ (be32 stable ++ be32 data_len)))

unfoldable pub commit : ℕ → ℕ → CompoundBuilder → CompoundBuilder
unfolding push
commit offset count = push OpNum.commit (be64 offset ++ be32 count)

unfoldable pub readdir : ℕ → List ℕ → ℕ → ℕ → List ℕ → CompoundBuilder → CompoundBuilder
unfolding push
readdir cookie cookieverf dircount maxcount attr_request =
    push OpNum.read_dir
      (be64 cookie ++ (cookieverf ++ (be32 dircount ++ (be32 maxcount ++ xdr_bitmap attr_request))))

unfoldable pub readlink : CompoundBuilder → CompoundBuilder
unfolding push
readlink = push OpNum.read_link []

pub record OpenArgs : Type 0 where
  pub seqid : ℕ
  pub share_access : ℕ
  pub share_deny : ℕ
  pub client_id : ℕ
  pub owner : List ℕ
  pub create : Bool
  pub create_attrs_mask : List ℕ
  pub create_attrs_vals : List ℕ
  pub claim_file : List ℕ
  pub want_no_delegation : Bool

-- The share access with the wish for no delegation, or for a delegation.
unfoldable pub wanted_access : OpenArgs → ℕ
wanted_access a =
    if a.want_no_delegation then bit_or a.share_access 1024 else bit_or a.share_access 512

-- openflag4, and what follows it.
unfoldable pub encode_openflag : Bool → Bool → List ℕ → List ℕ → List ℕ → List ℕ
encode_openflag true guarded mask vals rest =
    be32 1 ++ (xdr_bool guarded ++ (xdr_bitmap mask ++ (xdr_opaque vals ++ rest)))
encode_openflag false guarded mask vals rest = be32 0 ++ rest

unfoldable pub encode_create : Bool → OpenArgs → List ℕ
unfolding wanted_access encode_openflag
encode_create guarded a =
    be32 a.seqid
    ++ (be32 (wanted_access a)
        ++ (be32 a.share_deny
            ++ (be64 a.client_id
                ++ (xdr_opaque a.owner
                    ++ encode_openflag a.create guarded a.create_attrs_mask a.create_attrs_vals
                        (be32 0 ++ xdr_opaque a.claim_file)))))

unfoldable pub open_file : OpenArgs → CompoundBuilder → CompoundBuilder
unfolding push encode_create
open_file open_args = push OpNum.open_op (encode_create false open_args)

unfoldable pub open_guarded : OpenArgs → CompoundBuilder → CompoundBuilder
unfolding push encode_create
open_guarded open_args = push OpNum.open_op (encode_create true open_args)

unfoldable pub close : ℕ → List ℕ → CompoundBuilder → CompoundBuilder
unfolding push
close seqid stateid = push OpNum.close (be32 seqid ++ stateid)

unfoldable pub create : ℕ → List ℕ → List ℕ → List ℕ → CompoundBuilder → CompoundBuilder
unfolding push
create objtype name attrmask attr_vals =
    push OpNum.create
      (be32 objtype ++ (xdr_opaque name ++ (xdr_bitmap attrmask ++ xdr_opaque attr_vals)))

unfoldable pub create_symlink :
    List ℕ → List ℕ → List ℕ → List ℕ → CompoundBuilder → CompoundBuilder
unfolding push
create_symlink name link_target attrmask attr_vals = push OpNum.create (
    be32 5
    ++ (xdr_opaque link_target
        ++ (xdr_opaque name ++ (xdr_bitmap attrmask ++ xdr_opaque attr_vals))))

unfoldable pub remove : List ℕ → CompoundBuilder → CompoundBuilder
unfolding push
remove name = push OpNum.remove (xdr_opaque name)

unfoldable pub rename : List ℕ → List ℕ → CompoundBuilder → CompoundBuilder
unfolding push
rename oldname newname = push OpNum.rename (xdr_opaque oldname ++ xdr_opaque newname)

unfoldable pub link : List ℕ → CompoundBuilder → CompoundBuilder
unfolding push
link newname = push OpNum.link (xdr_opaque newname)
