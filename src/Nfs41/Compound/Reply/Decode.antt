-- ===== src/Nfs41/Compound/Reply/Decode.antt =====
-- nfs41/compound.rs: CompoundResponse. `known` says which numbers `nfsstat4::try_from` accepts; that
-- enum is generated by the build. A status is its number.
use nfs_rs.Common.{ℕ, Bool, not, List, get_elem?, none, some, ltb, ◌==◌, if◌then◌else◌}
use nfs_rs.Errors.{xdr, nfs4}
use nfs_rs.Wire.{
  Reader, Outcome, ok, err, ◌>>=◌, ◌>>◌, pure, fail, require, get_u32, peek, advance, repeat,
}
use nfs_rs.Wire.Opaque.{padded}
use nfs_rs.Wire.Utf8.{is_utf8}
use nfs_rs.Nfs41.Compound.Reply.Skip.{checked_u32}
use nfs_rs.Nfs41.Compound.Reply.Results.{skip_op_result}

pub record Result : Type 0 where
  pub opcode : ℕ
  pub status : ℕ
  pub bytes : List ℕ

pub record Reply : Type 0 where
  pub tag : List ℕ
  pub status : ℕ
  pub results : List Result
  pub session_generation : ℕ

abbrev pub max_compound_ops : ℕ
max_compound_ops = 256

-- `buf.clone()`.
unfoldable pub view : Reader (List ℕ)
view s = ok (s, s)

unfoldable pub decode_string : Reader (List ℕ)
decode_string = do
  len ← checked_u32
  require (padded len) xdr
  value ← peek len
  if is_utf8 value then (advance (padded len) >> pure value) else fail xdr

module _ (known : ℕ → Bool) where
  unfoldable pub decode_nfsstat4 : ℕ → Reader ℕ
  decode_nfsstat4 value = if known value then pure value else fail xdr

  unfoldable pub decode_result : Reader Result
  unfolding decode_nfsstat4 view
  decode_result = do
    require 8 xdr
    opcode ← get_u32
    op_status_val ← get_u32
    op_status ← decode_nfsstat4 op_status_val
    bytes ← view
    skip_op_result opcode op_status_val
    pure (record { opcode = opcode; status = op_status; bytes = bytes })

  unfoldable pub decode : Reader Reply
  unfolding decode_nfsstat4 decode_string decode_result
  decode = do
    status_val ← checked_u32
    status ← decode_nfsstat4 status_val
    tag ← decode_string
    num_results ← checked_u32
    if ltb max_compound_ops num_results then fail xdr else (do
      results ← repeat num_results decode_result
      pure (record { tag = tag; status = status; results = results; session_generation = 0 }))

unfoldable pub check_status : Reply → Outcome (Unit {0})
check_status reply = if reply.status == 0 then ok tt else err (nfs4 reply.status)

unfoldable pub op_ok : ℕ → Reply → Outcome Result
op_ok index reply = elim (get_elem? reply.results index) [
  | none ↦ err xdr
  | some op ↦ if not (op.status == 0) then err (nfs4 op.status) else ok op
]
