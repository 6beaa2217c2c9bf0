-- ===== src/Nfs41/Compound/Ops.antt =====
-- nfs41/compound.rs: the methods of CompoundBuilder that append an operation, and the encoding of
-- the COMPOUND. Each method appends the operation's number with its arguments in XDR.
pub mod Session
pub mod Files
pub mod Layouts
pub mod Extensions
pub mod Request
pub mod Fields
pub mod Arguments
pub mod Matching
pub mod RoundTrip
mod Tests
use nfs_rs.Common.{ℕ, ◌%◌, ◌^◌, Bool, true, false, if◌then◌else◌, List, [], ◌∷◌, ◌++◌, length}
use nfs_rs.Wire.Words.{be32, concat_map}
use nfs_rs.Wire.Opaque.{xdr_opaque}
use nfs_rs.Nfs41.Compound.{OpNum, op_number, CompoundBuilder, EncodedOp}

-- `self.ops.push(EncodedOp { opcode, args })`.
unfoldable pub push : OpNum → List ℕ → CompoundBuilder → CompoundBuilder
push opcode args b = record b { ops = b.ops ++ (record { opcode = opcode; args = args } ∷ []) }

unfoldable pub xdr_bool : Bool → List ℕ
xdr_bool v = be32 (if v then 1 else 0)

unfoldable pub xdr_bitmap : List ℕ → List ℕ
xdr_bitmap bitmap = be32 (length bitmap % 2 ^ 32) ++ concat_map be32 bitmap

unfoldable pub encode_ops : List EncodedOp → List ℕ
encode_ops [] = []
encode_ops (op ∷ ops) = be32 (op_number op.opcode) ++ (op.args ++ encode_ops ops)

-- The minor version is its number.
unfoldable pub encode_body_for_version : ℕ → CompoundBuilder → List ℕ
unfolding encode_ops
encode_body_for_version minor_version b =
    xdr_opaque b.tag ++ (be32 minor_version ++ (be32 (length b.ops % 2 ^ 32) ++ encode_ops b.ops))
