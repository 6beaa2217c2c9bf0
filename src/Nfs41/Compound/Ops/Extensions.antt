-- ===== src/Nfs41/Compound/Ops/Extensions.antt =====
-- nfs41/compound.rs: the operations of NFSv4.2 and the extended attributes.
use nfs_rs.Common.{ℕ, Bool, true, List, [], ◌++◌, if◌then◌else◌}
use nfs_rs.Wire.Words.{be32, be64}
use nfs_rs.Wire.Opaque.{xdr_opaque}
use nfs_rs.Nfs41.Compound.{OpNum, CompoundBuilder}
use nfs_rs.Nfs41.Compound.Ops.{push, xdr_bool}

pub data SeekContent : Type 0 where
  data_content hole_content : SeekContent

abbrev pub what_number : SeekContent → ℕ
what_number data_content = 0
what_number hole_content = 1

pub data XattrSetMode : Type 0 where
  either_mode create_mode replace_mode : XattrSetMode

abbrev pub mode_number : XattrSetMode → ℕ
mode_number either_mode = 0
mode_number create_mode = 1
mode_number replace_mode = 2

unfoldable pub space : Bool → List ℕ → ℕ → ℕ → CompoundBuilder → CompoundBuilder
unfolding push
space allocate stateid offset len =
    push (if allocate then OpNum.allocate else OpNum.deallocate)
      (stateid ++ (be64 offset ++ be64 len))

unfoldable pub seek : List ℕ → ℕ → SeekContent → CompoundBuilder → CompoundBuilder
unfolding push
seek stateid offset what = push OpNum.seek (stateid ++ (be64 offset ++ be32 (what_number what)))

unfoldable pub read_plus : List ℕ → ℕ → ℕ → CompoundBuilder → CompoundBuilder
unfolding push
read_plus stateid offset count = push OpNum.read_plus (stateid ++ (be64 offset ++ be32 count))

-- What COPY has behind the arguments that it shares with CLONE.
unfoldable pub copy_range : Bool → List ℕ → List ℕ → ℕ → ℕ → ℕ → CompoundBuilder → CompoundBuilder
unfolding push
copy_range clone source destination source_offset destination_offset count =
    push (if clone then OpNum.clone else OpNum.copy) (
      source
      ++ (destination
          ++ (be64 source_offset
              ++ (be64 destination_offset
                  ++ (be64 count
                      ++ (if clone then [] else xdr_bool true ++ (xdr_bool true ++ be32 0)))))))

unfoldable pub offload_cancel : List ℕ → CompoundBuilder → CompoundBuilder
unfolding push
offload_cancel stateid = push OpNum.offload_cancel stateid

unfoldable pub getxattr : List ℕ → CompoundBuilder → CompoundBuilder
unfolding push
getxattr name = push OpNum.get_xattr (xdr_opaque name)

unfoldable pub setxattr : List ℕ → List ℕ → XattrSetMode → CompoundBuilder → CompoundBuilder
unfolding push
setxattr name value mode =
    push OpNum.set_xattr (be32 (mode_number mode) ++ (xdr_opaque name ++ xdr_opaque value))

unfoldable pub listxattrs : ℕ → ℕ → CompoundBuilder → CompoundBuilder
unfolding push
listxattrs cookie maxcount = push OpNum.list_xattrs (be64 cookie ++ be32 maxcount)

unfoldable pub removexattr : List ℕ → CompoundBuilder → CompoundBuilder
unfolding push
removexattr name = push OpNum.remove_xattr (xdr_opaque name)
