-- ===== src/Nfs4/Compound.antt =====
-- nfs4/compound.rs: the COMPOUND builder for path navigation and the decoder of its reply.
-- `known` says which numbers `nfsstat4::try_from` accepts; that enum is generated by the build.
pub mod Navigation
use nfs_rs.Common.{
  ℕ, zero, suc, ◌+◌, ◌%◌, ◌^◌, ◌≡◌, ◌≢◌, Bool, true, false, not, List, [], ◌∷◌, ◌++◌, length,
  replicate, ◌==◌, if◌then◌else◌, arith,
}
use nfs_rs.Errors.{xdr, nfs4}
use nfs_rs.Wire.{Reader, panic, ◌>>=◌, ◌>>◌, pure, fail}
use nfs_rs.Wire.Safe.{
  Safe, Keeps, pure-Safe, fail-Safe, bind-Safe, keep_then-Safe, if-Safe, pure-Keeps, fail-Keeps,
  if-Keeps,
}
use nfs_rs.Wire.Words.{be32, concat_map}
use nfs_rs.Wire.Opaque.{xdr_opaque, take_u32, take_opaque, take_u32-Safe, take_opaque-Safe}
use nfs_rs.Rpc.Call.{Auth, rpc_header, encode_header}

abbrev pub op_getfh : ℕ
op_getfh = 10

abbrev pub op_lookup : ℕ
op_lookup = 15

abbrev pub op_putfh : ℕ
op_putfh = 22

abbrev pub op_putrootfh : ℕ
op_putrootfh = 24

pub record CompoundBuilder : Type 0 where
  pub tag : List ℕ
  pub minor_version : ℕ
  pub ops : List (ℕ × List ℕ)

unfoldable pub new : List ℕ → ℕ → CompoundBuilder
new tag minor_version = record { tag = tag; minor_version = minor_version; ops = [] }

-- `self.ops.push((opcode, args))`.
unfoldable pub operation : ℕ → List ℕ → CompoundBuilder → CompoundBuilder
operation opcode args b = record b { ops = b.ops ++ ((opcode, args) ∷ []) }

unfoldable pub putrootfh : CompoundBuilder → CompoundBuilder
unfolding operation
putrootfh = operation op_putrootfh []

unfoldable pub putfh : List ℕ → CompoundBuilder → CompoundBuilder
unfolding operation
putfh fh = operation op_putfh (xdr_opaque fh)

unfoldable pub lookup : List ℕ → CompoundBuilder → CompoundBuilder
unfolding operation
lookup name = operation op_lookup (xdr_opaque name)

unfoldable pub getfh : CompoundBuilder → CompoundBuilder
unfolding operation
getfh = operation op_getfh []

unfoldable pub encode_body : CompoundBuilder → List ℕ
encode_body b =
    xdr_opaque b.tag
    ++ (be32 b.minor_version
        ++ (be32 (length b.ops % 2 ^ 32) ++ concat_map (λ op. be32 op.0 ++ op.1) b.ops))

unfoldable pub encode_with_header : CompoundBuilder → Auth → List ℕ
unfolding encode_body
encode_with_header b auth = encode_header (rpc_header 100003 4 1 auth) ++ encode_body b

-- A reply as a server sends it: the status, the tag, and for each operation its number, its status
-- and its result.
module _ (known : ℕ → Bool) where
  unfoldable pub check_status : ℕ → Reader (Unit {0})
  check_status status =
      if status == 0 then pure tt else if known status then fail (nfs4 status) else fail xdr

  pub response_ops : Reader ℕ
  response_ops = do status ← take_u32; check_status status; tag ← take_opaque; take_u32

  -- The loop over the operations that the reply has to hold.
  pub expect_ops : List ℕ → Reader (Unit {0})
  expect_ops [] = pure tt
  expect_ops (expected ∷ rest) = do
    opcode ← take_u32
    if not (opcode == expected)
        then fail xdr
        else (do status ← take_u32; check_status status; expect_ops rest)

  pub decode_navigation_response : ℕ → Reader (List ℕ)
  decode_navigation_response component_count = do
    count ← response_ops
    if not (count == component_count + 2) then fail xdr else (do
      expect_ops (op_putrootfh ∷ (replicate component_count op_lookup ++ (op_getfh ∷ [])))
      take_opaque)

  pub check_status-Keeps : (status : ℕ) → Keeps (check_status status)
  unfolding check_status
  check_status-Keeps status =
      if-Keeps (status == 0) (pure-Keeps tt)
        (if-Keeps (known status) (fail-Keeps (nfs4 status)) (fail-Keeps xdr))

  expect_ops-Safe : (ops : List ℕ) → Safe 0 (expect_ops ops)
  unfolding expect_ops
  expect_ops-Safe [] = pure-Safe tt
  expect_ops-Safe (expected ∷ rest) = bind-Safe take_u32-Safe λ opcode.
      if-Safe (not (opcode == expected)) (fail-Safe xdr) (
        bind-Safe take_u32-Safe
          λ status. keep_then-Safe (check_status-Keeps status) λ _. expect_ops-Safe rest)

  -- The decoder of a navigation reply does not panic on any reply, for any number of components.
  pub decode_navigation_response-ne-panic :
      (component_count : ℕ) (s : List ℕ) → decode_navigation_response component_count s ≢ panic
  unfolding decode_navigation_response response_ops
  decode_navigation_response-ne-panic component_count s = safe.apply s (omega arith)
    where
      safe : Safe 0 (decode_navigation_response component_count)
      safe =
          bind-Safe
            (bind-Safe take_u32-Safe λ status.
              keep_then-Safe (check_status-Keeps status)
                λ _. bind-Safe take_opaque-Safe λ tag. take_u32-Safe)
            λ count.
              if-Safe (not (count == component_count + 2)) (fail-Safe xdr)
                (bind-Safe (expect_ops-Safe _) λ _. take_opaque-Safe)
