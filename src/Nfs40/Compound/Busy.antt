-- ===== src/Nfs40/Compound/Busy.antt =====
-- nfs40/compound.rs: retryable_busy_response, which reads the reply and the request side by side.
-- `known` says which numbers `nfsstat4::try_from` accepts.
use nfs_rs.Common.{
  ℕ, zero, suc, ◌*◌, ◌/◌, Bool, true, not, ◌&&◌, ◌||◌, List, Option, none, some, length, drop, ltb,
  ◌==◌, if◌then◌else◌,
}
use nfs_rs.Errors.{NfsError, xdr, nfs4}
use nfs_rs.Wire.{Reader, ok, err, panic, ◌>>=◌, ◌>>◌, pure, fail, advance, remaining}
use nfs_rs.Wire.Opaque.{take_u32, take_opaque}

-- A reader of the request while the reply is read: its value, and what is left of the request.
unfoldable pub on {ℓ} : {A : Type ℓ} → List ℕ → Reader A → Reader (A × List ℕ)
on sent m s = elim (m sent) [ ok (a, r) ↦ ok ((a, r), s) | err e ↦ err e | panic ↦ panic ]

unfoldable pub skip_words : Reader (Unit {0})
skip_words = do
  words ← take_u32
  left ← remaining
  if ltb (left / 4) words then fail xdr else advance (words * 4)

-- CLOSE, LOCK, LOCKU, OPEN and OPEN_CONFIRM, which have the sequence number of an owner.
abbrev pub is_owner_sequenced : ℕ → Bool
is_owner_sequenced opcode =
    opcode == 4 || (opcode == 12 || (opcode == 14 || (opcode == 18 || opcode == 20)))

-- GETFH, LOOKUPP, PUTPUBFH, PUTROOTFH, RESTOREFH and SAVEFH.
abbrev pub has_no_argument : ℕ → Bool
has_no_argument opcode =
    opcode == 10
    || (opcode == 16 || (opcode == 23 || (opcode == 24 || (opcode == 31 || opcode == 32))))

-- The argument of an operation, and whether the operation changes nothing.
unfoldable pub request_argument : ℕ → Reader Bool
unfolding skip_words
request_argument opcode =
    if opcode == 15 || opcode == 22
    then (do argument ← take_opaque; pure true)
    else if opcode == 3
    then (do requested ← take_u32; pure true)
    else if opcode == 9
    then (do skip_words; pure true)
    else pure (has_no_argument opcode)

unfoldable pub reply_result : ℕ → Reader (Unit {0})
unfolding skip_words
reply_result opcode =
    if opcode == 15 || (opcode == 22 || (has_no_argument opcode && not (opcode == 10)))
    then pure tt
    else if opcode == 10
    then (do fh ← take_opaque; pure tt)
    else if opcode == 9
    then (do skip_words; attributes ← take_opaque; pure tt)
    else (do left ← remaining; if not (opcode == 3) || ltb left 8 then fail xdr else advance 8)

-- The flavor and the body of a credential.
unfoldable pub sent_auth : Reader (Unit {0})
sent_auth = do flavor ← take_u32; body ← take_opaque; pure tt

unfoldable pub sent_head : Reader (ℕ × ℕ)
unfolding sent_auth
sent_head = do
  sent_auth
  sent_auth
  tag ← take_opaque
  minor ← take_u32
  requested_count ← take_u32
  pure (minor, requested_count)

module _ (known : ℕ → Bool) where
  -- `check_status(status).err()` of a status that is not 0.
  abbrev pub status_error : ℕ → NfsError
  status_error status = if known status then nfs4 status else xdr

  -- The loop, with the number of results that are left.
  unfoldable pub busy_results : ℕ → ℕ → List ℕ → Reader (Option NfsError)
  unfolding on request_argument reply_result
  busy_results overall zero sent = fail xdr
  busy_results overall (suc n) sent = do
    opcode ← take_u32
    status ← take_u32
    requested ← on sent take_u32
    if not (requested.0 == opcode)
        then fail xdr
        else if not (status == 0)
        then (do
          left ← remaining
          if not (n == 0) || (not (status == overall) || not (left == 0))
              then fail xdr
              else pure (if is_owner_sequenced opcode then none else some (status_error status)))
        else (do
          argument ← on requested.1 (request_argument opcode)
          if not argument.0
              then pure none
              else (do reply_result opcode; busy_results overall n argument.1))

  unfoldable pub retryable_busy_response : List ℕ → Reader (Option NfsError)
  unfolding on sent_head busy_results
  retryable_busy_response request = do
    overall ← take_u32
    if not (overall == 10008 || overall == 10013) then pure none else (do
      tag ← take_opaque
      count ← take_u32
      if ltb (length request) 16 then fail xdr else (do
        head ← on (drop 16 request) sent_head
        if not (head.0.0 == 0) || (count == 0 || (ltb 128 count || ltb head.0.1 count))
            then fail xdr
            else busy_results overall count head.1))
