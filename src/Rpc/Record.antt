-- ===== src/Rpc/Record.antt =====
-- `read_one_response` of rpc/mod.rs: a record of the RPC stream is put together from fragments. The
-- stream is the list of bytes that the server will have sent when it closes the connection, so
-- `read_exact` fails at its end.
pub mod Total
pub mod Fragments
use nfs_rs.Common.{
  ℕ, zero, suc, ◌+◌, ◌*◌, ◌-◌, ◌/◌, ◌%◌, ◌^◌, ◌≤◌, ◌<◌, ◌≡◌, ◌≢◌, refl, ap, sym, ◌∙◌, List, [], ◌∷◌,
  ◌++◌, length, take, drop, append_assoc, append-nil, arith, length-append, length-take,
  length-drop, leb, ltb, if◌then◌else◌, Bool, true, false, take-append, drop-append, le→leb,
  Bool-cases, ◌⊎◌, inl, inr, leb→le, min, All, lt→ltb,
}
use nfs_rs.Errors.{NfsError, io, plain, unexpected_eof, rpc}
use nfs_rs.Wire.{Reader, Outcome, ok, err, panic, and_then, ◌>>=◌, pure, fail, get_u32, IsU32}
use nfs_rs.Wire.Words.{be32, length-be32, get_u32-be32, >>=-run, >>=-inv}
use nfs_rs.Wire.Safe.{get_u32-Takes}

-- 4 MiB + 4 KiB.
abbrev pub max_rpc_response : ℕ
max_rpc_response = 4 * 1024 * 1024 + 4096

read_exact : ℕ → Reader (List ℕ)
read_exact n s = if leb n (length s) then ok (take n s, drop n s) else err (io unexpected_eof plain)

-- A fragment header: whether it is the last one, and its size.
abbrev is_last : ℕ → Bool
is_last raw = leb (2 ^ 31) raw

abbrev size_of : ℕ → ℕ
size_of raw = raw % 2 ^ 31

-- `BigEndian::read_u32(&hdr)` of four bytes just read.
read_header : Reader ℕ
read_header = do hdr ← read_exact 4; λ s. and_then (get_u32 hdr) (λ raw _. pure raw s)

-- A fragment's bytes behind those read before, unless that is more than the maximum.
take_fragment : ℕ → List ℕ → Reader (List ℕ)
take_fragment raw buf =
    if ltb max_rpc_response (length buf + size_of raw)
    then fail rpc
    else (do part ← read_exact (size_of raw); pure (buf ++ part))

out_of_fuel : Reader (List ℕ)
out_of_fuel s = panic

-- The loop over the fragments behind the first one; each takes at least its header. Fuel that has
-- run out is a panic, which `read_one_response-total` excludes.
more_fragments : ℕ → List ℕ → Reader (List ℕ)
more_fragments zero buf = out_of_fuel
more_fragments (suc fuel) buf = do
  raw ← read_header
  whole ← take_fragment raw buf
  if is_last raw then pure whole else more_fragments fuel whole

rest_of_record : ℕ → List ℕ → Reader (List ℕ)
rest_of_record raw buf s = (if is_last raw then pure buf else more_fragments (suc (length s)) buf) s

record_bytes : Reader (List ℕ)
record_bytes = do raw ← read_header; buf ← take_fragment raw []; rest_of_record raw buf

-- The record's call id, with the whole record.
with_xid : List ℕ → Reader (ℕ × List ℕ)
with_xid buf = if ltb (length buf) 4 then fail rpc else λ s.
    and_then (get_u32 buf) (λ xid _. pure (xid, buf) s)

pub read_one_response : Reader (ℕ × List ℕ)
read_one_response = do buf ← record_bytes; with_xid buf
