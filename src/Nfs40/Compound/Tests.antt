-- ===== src/Nfs40/Compound/Tests.antt =====
-- A busy reply to PUTFH and READ.
use nfs_rs.Common.{ℕ, ◌≡◌, refl, Bool, true, List, [], ◌∷◌, ◌++◌, some, arith}
use nfs_rs.Errors.{nfs4}
use nfs_rs.Wire.{ok, ◌>>=◌, and_then, get_u32, require, remaining, advance, pure, fail, peek}
use nfs_rs.Wire.Words.{be32, concat_map}
use nfs_rs.Wire.Opaque.{xdr_opaque, take_u32, take_opaque, take_padded}
use nfs_rs.Rpc.Call.{Auth, null, new_null, encode_auth, encode_header, rpc_header}
use nfs_rs.Nfs4.Compound.{new, operation, putfh, encode_body, encode_with_header}
use nfs_rs.Nfs40.Compound.Busy.{
  on, request_argument, reply_result, sent_auth, sent_head, busy_results, retryable_busy_response,
}
use nfs_rs.Nfs40.Compound.Calls.{Call, put_handle, other, build, append}
use nfs_rs.Nfs40.Compound.Retry.{reply_head, Told, retryable_busy_response-Rejected}

abbrev calls : List Call
calls = put_handle (1 ∷ 2 ∷ 3 ∷ 4 ∷ []) ∷ other 25 [] ∷ []

abbrev credential : Auth
credential = record { flavor = null; uid = 0; gid = 0; body = [] }

abbrev known : ℕ → Bool
known status = true

abbrev busy_reply : List ℕ
busy_reply = be32 10008 ++ (be32 0 ++ (be32 2 ++ (be32 22 ++ (be32 0 ++ (be32 25 ++ be32 10008)))))

busy_answer :
    retryable_busy_response known
      (encode_with_header (build calls (new [] 0)) credential)
      busy_reply
    ≡ ok (some (nfs4 10008), [])
unfolding retryable_busy_response on request_argument reply_result sent_auth sent_head busy_results
    encode_with_header build append new operation putfh encode_body encode_auth encode_header
    rpc_header be32 concat_map xdr_opaque take_u32 take_opaque take_padded ◌>>=◌ and_then get_u32
    require remaining advance pure fail peek new_null
busy_answer = refl

retryable_busy_response-Rejected_example :
    (status count : ℕ) × (rest : List ℕ) × (reply_head busy_reply ≡ ok ((status, count), rest))
    × Told known status count (nfs4 10008) calls
retryable_busy_response-Rejected_example =
    retryable_busy_response-Rejected known calls [] credential busy_reply [] (nfs4 10008)
      (omega arith, ((omega arith, refl), tt)) (omega arith) (omega arith) busy_answer
