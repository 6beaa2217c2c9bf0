-- ===== src/Rpc/Reply/Envelope.antt =====
-- The reply envelope of RFC 5531, written down apart from the parser, and what the parser makes
-- of it.
use nfs_rs.Common.{
  subst, drop_add, ℕ, ◌+◌, ◌≤◌, ◌<◌, ◌≡◌, refl, ap, ◌∙◌, List, ◌++◌, length, drop, arith,
  length-append, length-drop, leb, ltb, ◌==◌, true, false, ◌&&◌, if◌then◌else◌, drop-append, le→leb,
  replicate, length-replicate,
}
use nfs_rs.Errors.{rpc, unsupported}
use nfs_rs.Wire.{Outcome, ok, err, IsU32}
use nfs_rs.Wire.Words.{be32, length-be32, get_u32-be32}
use nfs_rs.Wire.Opaque.{padding}
use nfs_rs.Rpc.Reply.{
  value, word, read_u32, slice_from, accepted, verified, reply_body, parse_rpc_response,
}

-- What stands at a position of the buffer.
module _ (bytes : List ℕ) (pos : ℕ) where
  next : (xs r : List ℕ) → drop pos bytes ≡ xs ++ r → drop (pos + length xs) bytes ≡ r
  next xs r h = drop_add pos (length xs) bytes ∙ ap (drop (length xs)) h ∙ drop-append xs r

  reach :
      (xs r : List ℕ) → 0 < length xs → drop pos bytes ≡ xs ++ r → pos + length xs ≤ length bytes
  reach xs r pos_len h = omega (arith, ap length h, length-drop pos bytes, length-append xs r)

  word-at : (n : ℕ) (r : List ℕ) → IsU32 n → drop pos bytes ≡ be32 n ++ r → word bytes pos ≡ ok n
  unfolding word value
  word-at n r fits h = rw (h, get_u32-be32 n r fits, value) refl

  read_u32-at :
      (n : ℕ) (r : List ℕ) → IsU32 n → drop pos bytes ≡ be32 n ++ r → read_u32 bytes pos ≡ ok n
  unfolding read_u32
  read_u32-at n r fits h =
      rw
        (le→leb (pos + 4) (length bytes)
          (omega (arith, length-be32 n, reach (be32 n) r (omega (arith, length-be32 n)) h)))
        (word-at n r fits h)

  next32 : (n : ℕ) (r : List ℕ) → drop pos bytes ≡ be32 n ++ r → drop (pos + 4) bytes ≡ r
  next32 n r h = subst (λ k. drop (pos + k) bytes ≡ r) (length-be32 n) (next (be32 n) r h)

  reach32 : (n : ℕ) (r : List ℕ) → drop pos bytes ≡ be32 n ++ r → pos + 4 ≤ length bytes
  reach32 n r h = omega (arith, length-be32 n, reach (be32 n) r (omega (arith, length-be32 n)) h)

-- The envelope: call id, reply, accepted, verifier flavor and body, accept status.
pub envelope : ℕ → ℕ → List ℕ → ℕ → List ℕ → List ℕ
envelope xid flavor verf status payload =
    be32 xid
    ++ (be32 1
        ++ (be32 0
            ++ (be32 flavor
                ++ (be32 (length verf)
                    ++ ((verf ++ replicate (padding (length verf)) 0)
                        ++ (be32 status ++ payload))))))

-- What a client is to make of the accept status.
pub verdict : ℕ → List ℕ → Outcome (List ℕ)
verdict status payload =
    if status == 0
    then ok payload
    else if leb 1 status && leb status 3
    then err unsupported
    else err rpc

module _ (bytes : List ℕ) (status : ℕ) (payload : List ℕ) (status_fits : IsU32 status) where
  accepted-at :
      (pos : ℕ)
      → drop pos bytes ≡ be32 status ++ payload
      → accepted bytes pos ≡ verdict status payload
  unfolding accepted verdict slice_from
  accepted-at pos h =
      rw (read_u32-at bytes pos status payload status_fits h) (ground (arith, behind, room))
    where
      behind : drop (pos + 4) bytes ≡ payload
      behind = next32 bytes pos status payload h

      room : leb (pos + 4) (length bytes) ≡ true
      room = le→leb _ _ (reach32 bytes pos status payload h)

  verified-at :
      (pos : ℕ) (verf : List ℕ)
      → IsU32 (length verf)
      → drop pos bytes
        ≡ be32 (length verf)
          ++ ((verf ++ replicate (padding (length verf)) 0) ++ (be32 status ++ payload))
      → verified bytes pos ≡ verdict status payload
  unfolding verified
  verified-at pos verf fits h =
      rw (read_u32-at bytes pos (length verf) (zeros ++ (be32 status ++ payload)) fits h, room)
        (accepted-at _ behind)
    where
      zeros : List ℕ
      zeros = verf ++ replicate (padding (length verf)) 0

      size : length zeros ≡ length verf + padding (length verf)
      size =
          length-append verf (replicate (padding (length verf)) 0)
          ∙ ap (λ k. length verf + k) (length-replicate (padding (length verf)) 0)

      at_verf : drop (pos + 4) bytes ≡ zeros ++ (be32 status ++ payload)
      at_verf = next32 bytes pos (length verf) (zeros ++ (be32 status ++ payload)) h

      behind : drop (pos + 4 + (length verf + padding (length verf))) bytes ≡ be32 status ++ payload
      behind =
          subst (λ k. drop (pos + 4 + k) bytes ≡ be32 status ++ payload) size
            (next bytes (pos + 4) zeros (be32 status ++ payload) at_verf)

      room : leb (pos + 4 + (length verf + padding (length verf))) (length bytes) ≡ true
      room = le→leb _ _ (
          omega (
            arith,
            ap length behind,
            length-drop (pos + 4 + (length verf + padding (length verf))) bytes,
            length-append (be32 status) payload,
            length-be32 status,
          ))

-- The parser on a whole envelope: with another call id it is an error, and otherwise the accept
-- status decides; the payload comes back untouched. The id, the status and the verifier's length
-- are u32s.
pub parse-envelope :
    (xid xid' flavor status : ℕ) (verf payload : List ℕ)
    → IsU32 xid'
    → IsU32 status
    → IsU32 (length verf)
    → parse_rpc_response (envelope xid' flavor verf status payload) xid
      ≡ (if xid' == xid then verdict status payload else err rpc)
unfolding parse_rpc_response reply_body envelope be32
parse-envelope xid xid' flavor status verf payload fx fs fv =
    rw (long, word-at res 0 xid' _ fx refl, word-at res 4 1 _ (omega arith) refl)
      (ground (arith, read_u32-at res 8 0 _ (omega arith) refl, behind))
  where
    tail : List ℕ
    tail =
        be32 (length verf)
        ++ ((verf ++ replicate (padding (length verf)) 0) ++ (be32 status ++ payload))

    res : List ℕ
    res = be32 xid' ++ (be32 1 ++ (be32 0 ++ (be32 flavor ++ tail)))

    long : ltb (length res) 8 ≡ false
    long = ground arith

    behind : verified res 16 ≡ verdict status payload
    behind = verified-at res status payload fs 16 verf fv refl
