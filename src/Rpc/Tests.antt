-- ===== src/Rpc/Tests.antt =====
-- Concrete inputs of the theorems on the RPC layer.
use nfs_rs.Common.{ℕ, ◌≡◌, refl, List, [], ◌∷◌, ◌++◌, ◌⊎◌, length, arith, ◌≤◌, if◌then◌else◌, ◌==◌}
use nfs_rs.Errors.{NfsError, rpc}
use nfs_rs.Wire.{ok, err, get_u32}
use nfs_rs.Wire.Words.{be32}
use nfs_rs.Rpc.Call.{unix, Header, encode_header, IsHeader, read_header, read_header-encode_header}
use nfs_rs.Rpc.Reply.{parse_rpc_response}
use nfs_rs.Rpc.Reply.Envelope.{envelope, parse-envelope, verdict}
use nfs_rs.Rpc.Record.{max_rpc_response, read_one_response}
use nfs_rs.Rpc.Record.Total.{read_one_response-total}
use nfs_rs.Rpc.Record.Fragments.{fragments, joined, read_one_response-fragments}

abbrev call : Header
call = record {
  rpcvers = 2;
  prog = 100003;
  vers = 3;
  proc = 1;
  cred = record { flavor = unix; uid = 0; gid = 0; body = 1 ∷ 2 ∷ 3 ∷ [] };
  verf = record { flavor = unix; uid = 0; gid = 0; body = [] };
}

call-IsHeader : IsHeader call
call-IsHeader = record {
  rpcvers_fits = omega arith;
  prog_fits = omega arith;
  vers_fits = omega arith;
  proc_fits = omega arith;
  cred_fits = omega arith;
  verf_fits = omega arith;
}

read_header-encode_header_example :
    read_header (encode_header call ++ (7 ∷ []))
    ≡ ok ((2, 100003, 3, 1, (1, 1 ∷ 2 ∷ 3 ∷ []), (1, [])), 7 ∷ [])
read_header-encode_header_example = read_header-encode_header call (7 ∷ []) call-IsHeader

parse-envelope_example :
    parse_rpc_response (envelope 9 0 (1 ∷ []) 0 (4 ∷ 5 ∷ [])) 9
    ≡ (if 9 == 9 then verdict 0 (4 ∷ 5 ∷ []) else err rpc)
parse-envelope_example =
    parse-envelope 9 9 0 0 (1 ∷ []) (4 ∷ 5 ∷ []) (omega arith) (omega arith) (omega arith)

read_one_response-fragments_example :
    read_one_response (fragments (0 ∷ 0 ∷ []) ((1 ∷ 7 ∷ 9 ∷ []) ∷ []) ++ (5 ∷ []))
    ≡ ok ((263, be32 263 ++ (9 ∷ [])), 5 ∷ [])
read_one_response-fragments_example =
    read_one_response-fragments 263 (9 ∷ []) (0 ∷ 0 ∷ []) ((1 ∷ 7 ∷ 9 ∷ []) ∷ []) (5 ∷ [])
      (omega arith) whole small
  where
    whole : joined (0 ∷ 0 ∷ []) ((1 ∷ 7 ∷ 9 ∷ []) ∷ []) ≡ be32 263 ++ (9 ∷ [])
    whole = unfold joined in unfold be32 in refl

    small : length (joined (0 ∷ 0 ∷ []) ((1 ∷ 7 ∷ 9 ∷ []) ∷ [])) ≤ max_rpc_response
    small = unfold joined in omega arith

read_one_response-total_example :
    ((e : NfsError) × (read_one_response (128 ∷ 0 ∷ 0 ∷ 4 ∷ 0 ∷ 0 ∷ 0 ∷ 6 ∷ []) ≡ err e))
    ⊎ ((xid : ℕ) × (buf : List ℕ) × (r : List ℕ) × (read_one_response
            (128 ∷ 0 ∷ 0 ∷ 4 ∷ 0 ∷ 0 ∷ 0 ∷ 6 ∷ [])
          ≡ ok ((xid, buf), r))
        × (4 ≤ length buf)
        × (length buf ≤ max_rpc_response)
        × ((rest : List ℕ) × (get_u32 buf ≡ ok (xid, rest))))
read_one_response-total_example = read_one_response-total (128 ∷ 0 ∷ 0 ∷ 4 ∷ 0 ∷ 0 ∷ 0 ∷ 6 ∷ [])
