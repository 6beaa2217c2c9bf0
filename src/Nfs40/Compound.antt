-- ===== src/Nfs40/Compound.antt =====
-- nfs40/compound.rs: the requests of NFSv4.0 and the test whether a busy reply lets a request be
-- sent again. Texts are their bytes.
pub mod Busy
pub mod Calls
pub mod Retry
mod Tests
use nfs_rs.Common.{ℕ, ◌%◌, ◌^◌, Bool, true, false, List, [], ◌∷◌, ◌++◌, length, if◌then◌else◌}
use nfs_rs.Wire.Words.{be32, be64, concat_map}
use nfs_rs.Wire.Opaque.{xdr_opaque}
use nfs_rs.Nfs4.Compound.{CompoundBuilder, operation}

-- The length of a bitmap and its words.
unfoldable pub words : List ℕ → List ℕ
words bitmap = be32 (length bitmap % 2 ^ 32) ++ concat_map be32 bitmap

pub record CallbackAddress : Type 0 where
  pub program : ℕ
  pub netid : List ℕ
  pub addr : List ℕ
  pub ident : ℕ

pub record NewLockArgs : Type 0 where
  pub lock_type : ℕ
  pub reclaim : Bool
  pub offset : ℕ
  pub length_ : ℕ
  pub open_seqid : ℕ
  pub open_stateid : List ℕ
  pub lock_seqid : ℕ
  pub client_id : ℕ
  pub owner : List ℕ

unfoldable pub setclientid : List ℕ → List ℕ → CallbackAddress → CompoundBuilder → CompoundBuilder
unfolding operation
setclientid verifier owner callback = operation 35 (
    verifier
    ++ (xdr_opaque owner
        ++ (be32 callback.program
            ++ (xdr_opaque callback.netid ++ (xdr_opaque callback.addr ++ be32 callback.ident)))))

unfoldable pub setclientid_confirm : ℕ → List ℕ → CompoundBuilder → CompoundBuilder
unfolding operation
setclientid_confirm client_id verifier = operation 36 (be64 client_id ++ verifier)

unfoldable pub delegreturn : List ℕ → CompoundBuilder → CompoundBuilder
unfolding operation
delegreturn stateid = operation 8 stateid

unfoldable pub open_reclaim : ℕ → ℕ → ℕ → List ℕ → CompoundBuilder → CompoundBuilder
unfolding operation
open_reclaim seqid share_access client_id owner = operation 18 (
    be32 seqid
    ++ (be32 share_access
        ++ (be32 0 ++ (be64 client_id ++ (xdr_opaque owner ++ (be32 0 ++ (be32 1 ++ be32 0)))))))

unfoldable pub open_confirm : List ℕ → ℕ → CompoundBuilder → CompoundBuilder
unfolding operation
open_confirm stateid seqid = operation 20 (stateid ++ be32 seqid)

unfoldable pub read : List ℕ → ℕ → ℕ → CompoundBuilder → CompoundBuilder
unfolding operation
read stateid offset count = operation 25 (stateid ++ (be64 offset ++ be32 count))

unfoldable pub lock_new : NewLockArgs → CompoundBuilder → CompoundBuilder
unfolding operation
lock_new lock = operation 12 (
    be32 lock.lock_type
    ++ (be32 (if lock.reclaim then 1 else 0)
        ++ (be64 lock.offset
            ++ (be64 lock.length_
                ++ (be32 1
                    ++ (be32 lock.open_seqid
                        ++ (lock.open_stateid
                            ++ (be32 lock.lock_seqid
                                ++ (be64 lock.client_id ++ xdr_opaque lock.owner)))))))))

unfoldable pub lockt : ℕ → ℕ → ℕ → ℕ → List ℕ → CompoundBuilder → CompoundBuilder
unfolding operation
lockt lock_type offset len client_id owner =
    operation 13
      (be32 lock_type ++ (be64 offset ++ (be64 len ++ (be64 client_id ++ xdr_opaque owner))))

unfoldable pub locku : ℕ → ℕ → List ℕ → ℕ → ℕ → CompoundBuilder → CompoundBuilder
unfolding operation
locku lock_type seqid stateid offset len =
    operation 14 (be32 lock_type ++ (be32 seqid ++ (stateid ++ (be64 offset ++ be64 len))))

unfoldable pub release_lockowner : ℕ → List ℕ → CompoundBuilder → CompoundBuilder
unfolding operation
release_lockowner client_id owner = operation 39 (be64 client_id ++ xdr_opaque owner)

unfoldable pub renew : ℕ → CompoundBuilder → CompoundBuilder
unfolding operation
renew client_id = operation 30 (be64 client_id)

unfoldable pub write_header : List ℕ → ℕ → ℕ → ℕ → CompoundBuilder → CompoundBuilder
unfolding operation
write_header stateid offset stable data_len =
    operation 38 (stateid ++ (be64 offset ++ (be32 stable ++ be32 data_len)))

unfoldable pub commit : ℕ → ℕ → CompoundBuilder → CompoundBuilder
unfolding operation
commit offset count = operation 5 (be64 offset ++ be32 count)

unfoldable pub close : ℕ → List ℕ → CompoundBuilder → CompoundBuilder
unfolding operation
close seqid stateid = operation 4 (be32 seqid ++ stateid)

unfoldable pub getattr : List ℕ → CompoundBuilder → CompoundBuilder
unfolding operation words
getattr bitmap = operation 9 (words bitmap)

unfoldable pub access : ℕ → CompoundBuilder → CompoundBuilder
unfolding operation
access requested = operation 3 (be32 requested)

unfoldable pub setattr : List ℕ → List ℕ → List ℕ → CompoundBuilder → CompoundBuilder
unfolding operation words
setattr stateid bitmap values = operation 34 (stateid ++ (words bitmap ++ xdr_opaque values))

unfoldable pub create_directory : List ℕ → CompoundBuilder → CompoundBuilder
unfolding operation
create_directory name = operation 6 (be32 2 ++ (xdr_opaque name ++ (be32 0 ++ xdr_opaque [])))

unfoldable pub create_symlink : List ℕ → List ℕ → CompoundBuilder → CompoundBuilder
unfolding operation
create_symlink name target =
    operation 6 (be32 5 ++ (xdr_opaque target ++ (xdr_opaque name ++ (be32 0 ++ xdr_opaque []))))

unfoldable pub savefh : CompoundBuilder → CompoundBuilder
unfolding operation
savefh = operation 32 []

unfoldable pub rename : List ℕ → List ℕ → CompoundBuilder → CompoundBuilder
unfolding operation
rename source target = operation 29 (xdr_opaque source ++ xdr_opaque target)

unfoldable pub link : List ℕ → CompoundBuilder → CompoundBuilder
unfolding operation
link name = operation 11 (xdr_opaque name)

unfoldable pub readlink : CompoundBuilder → CompoundBuilder
unfolding operation
readlink = operation 27 []

unfoldable pub readdir : ℕ → List ℕ → ℕ → ℕ → List ℕ → CompoundBuilder → CompoundBuilder
unfolding operation words
readdir cookie verifier dircount maxcount bitmap =
    operation 26 (be64 cookie ++ (verifier ++ (be32 dircount ++ (be32 maxcount ++ words bitmap))))

unfoldable pub remove : List ℕ → CompoundBuilder → CompoundBuilder
unfolding operation
remove name = operation 28 (xdr_opaque name)
