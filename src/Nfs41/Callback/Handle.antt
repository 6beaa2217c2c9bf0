-- ===== src/Nfs41/Callback/Handle.antt =====
-- nfs41/callback.rs: a call from its bytes to the reply. The lock of the session is held from the
-- tag of the compound to its end. `try_send` puts a notification in the channel or says that it is
-- full or closed.
use nfs_rs.Common.{
  ℕ, zero, suc, ◌+◌, ◌-◌, ◌%◌, ◌^◌, Bool, true, false, not, ◌&&◌, ◌||◌, List, [], ◌∷◌, Option, none,
  some, length, get_elem?, ltb, ◌==◌, bytes_eq, if◌then◌else◌,
}
use nfs_rs.Assoc.{Eq}
use nfs_rs.Errors.{xdr, rpc}
use nfs_rs.Wire.{
  Reader, Outcome, ok, err, panic, ◌>>=◌, ◌>>◌, pure, fail, require, get_u32, remaining,
}
use nfs_rs.Wire.Opaque.{take_opaque}
use nfs_rs.Nfs41.Compound.Reply.Decode.{view}
use nfs_rs.Nfs41.Layout.Caches.{LayoutManager, invalidate_device}
use nfs_rs.Nfs41.Callback.{RecallNotification, CallbackSlot, CallbackSession, Backchannel}
use nfs_rs.Nfs41.Callback.Parse.{
  read_rpc_auth, attempt, SequenceArgs, parse_sequence, parse_device_notifications, parse_recall,
  read_layout_recall,
}
use nfs_rs.Nfs41.Callback.Replies.{
  op_status, sequence_reply, compound_body, compound_error_body, build_rpc_reply,
}

-- A write out of range changes nothing.
unfoldable pub set {ℓ} : {A : Type ℓ} → List A → ℕ → A → List A
set [] i v = []
set (x ∷ xs) zero v = v ∷ xs
set (x ∷ xs) (suc i) v = x ∷ set xs i v

-- What is known of a call when its CB_SEQUENCE has been read: the reply, or what the slot has to
-- serve.
pub data Admission : Type 0 where
  answered : List ℕ → Admission
  admitted : List ℕ → ℕ → SequenceArgs → Admission

abbrev pub refused : List ℕ → ℕ → ℕ → List ℕ
refused tag opcode status = compound_body tag status (op_status opcode status ∷ [])

-- The first operation of the compound.
unfoldable pub admit_sequence : List ℕ → ℕ → CallbackSession → Reader Admission
admit_sequence tag num_ops session = do
  tried ← attempt parse_sequence
  pure (elim tried [
    | none ↦ answered (refused tag 11 10036)
    | some sequence ↦
        if not (bytes_eq sequence.session_id session.session_id)
        then answered (refused tag 11 10052)
        else admitted tag num_ops sequence
  ])

unfoldable pub admit : List ℕ → CallbackSession → Reader Admission
unfolding admit_sequence
admit request session = do
  tag ← take_opaque
  require 12 xdr
  minor_version ← get_u32
  callback_ident ← get_u32
  num_ops ← get_u32
  left ← remaining
  if not (minor_version == session.minor_version)
      then pure (answered (compound_error_body tag 10021))
      else if ltb session.max_request_size (length request) || ltb session.max_operations num_ops
      then pure (answered (compound_error_body tag 10036))
      else if num_ops == 0
      then pure (answered (compound_body tag 0 []))
      else if ltb left 4
      then pure (answered (compound_error_body tag 10036))
      else (do
        first_opcode ← get_u32
        if not (first_opcode == 11)
            then pure (answered (refused tag first_opcode 10071))
            else admit_sequence tag num_ops session)

-- The cached reply, if the request is the same.
unfoldable pub replayed : CallbackSlot → List ℕ → Option (List ℕ)
replayed slot request = elim slot.request [
  | none ↦ none
  | some last ↦ if bytes_eq last request then slot.compound_reply else none
]

abbrev pub is_some {ℓ} : {A : Type ℓ} → Option A → Bool
is_some none = false
is_some (some a) = true

-- The slot after a request that was served.
unfoldable pub finish : SequenceArgs → List ℕ → List ℕ → CallbackSession → CallbackSession
unfolding set
finish sequence request reply session = record session {
  slots = set session.slots sequence.slot_id (record {
    next_sequence = (sequence.sequence_id + 1) % 2 ^ 32;
    request = some request;
    compound_reply = some reply;
  });
}

pub record OpReply (C Addr : Type 0) : Type 0 where
  pub reply : List ℕ
  pub status : ℕ
  pub after : Backchannel C Addr

pub record LoopReply (C Addr : Type 0) : Type 0 where
  pub replies : List (List ℕ)
  pub status : ℕ
  pub after : Backchannel C Addr

module _ {C Addr : Type 0} where
  abbrev pub op_reply : ℕ → ℕ → Backchannel C Addr → OpReply C Addr
  op_reply opcode status b = record { reply = op_status opcode status; status = status; after = b }

module _ {C Addr : Type 0} ⦃e : Eq Addr⦄ (try_send : RecallNotification → C → Option C) where
  unfoldable pub send : ℕ → RecallNotification → Backchannel C Addr → OpReply C Addr
  send opcode n b = elim (try_send n b.recalls) [
    | none ↦ op_reply opcode 10008 b
    | some recalls ↦ op_reply opcode 0 (record b { recalls = recalls })
  ]

  unfoldable pub invalidate_all : List (List ℕ) → ℕ → LayoutManager Addr → LayoutManager Addr
  invalidate_all [] generation m = m
  invalidate_all (device ∷ rest) generation m =
      invalidate_all rest generation (invalidate_device device generation true m)

  unfoldable pub serve_recall : ℕ → Option RecallNotification → Backchannel C Addr → OpReply C Addr
  unfolding send
  serve_recall opcode none b = op_reply opcode 10036 b
  serve_recall opcode (some n) b = send opcode n b

  unfoldable pub serve_layout_recall :
      ℕ → Option (Option RecallNotification) → Backchannel C Addr → OpReply C Addr
  unfolding send
  serve_layout_recall opcode none b = op_reply opcode 10036 b
  serve_layout_recall opcode (some none) b = op_reply opcode 22 b
  serve_layout_recall opcode (some (some n)) b = send opcode n b

  unfoldable pub serve_devices : ℕ → Option (List (List ℕ)) → Backchannel C Addr → OpReply C Addr
  unfolding invalidate_all
  serve_devices opcode none b = op_reply opcode 10036 b
  serve_devices opcode (some devices) b =
      op_reply opcode 0
        (record b { layouts = invalidate_all devices b.session.generation b.layouts })

  unfoldable pub parse_callback_op : ℕ → Backchannel C Addr → Reader (OpReply C Addr)
  unfolding serve_recall serve_layout_recall serve_devices
  parse_callback_op opcode b =
      if opcode == 4
      then (do n ← attempt parse_recall; pure (serve_recall opcode n b))
      else if opcode == 5
      then (do n ← attempt read_layout_recall; pure (serve_layout_recall opcode n b))
      else if opcode == 14
      then (do devices ← attempt parse_device_notifications; pure (serve_devices opcode devices b))
      else pure (op_reply opcode 10044 b)

  abbrev pub loop_reply : List (List ℕ) → ℕ → Backchannel C Addr → LoopReply C Addr
  loop_reply replies status b = record { replies = replies; status = status; after = b }

  -- The loop over the operations behind CB_SEQUENCE, which ends at the first that fails.
  unfoldable pub callback_ops : ℕ → Backchannel C Addr → Reader (LoopReply C Addr)
  unfolding parse_callback_op
  callback_ops zero b = pure (loop_reply [] 0 b)
  callback_ops (suc n) b = do
    left ← remaining
    if ltb left 4 then pure (loop_reply [] 10036 b) else (do
      opcode ← get_u32
      r ← parse_callback_op opcode b
      if not (r.status == 0) then pure (loop_reply (r.reply ∷ []) r.status r.after) else (do
        rest ← callback_ops n r.after
        pure (record rest { replies = r.reply ∷ rest.replies })))

  -- A request with the sequence number that the slot waits for.
  unfoldable pub execute :
      List ℕ → ℕ → SequenceArgs → List ℕ → Backchannel C Addr → Reader (List ℕ × Backchannel C Addr)
  unfolding callback_ops finish
  execute tag num_ops sequence request b = do
    r ← callback_ops (num_ops - 1) b
    let first = sequence_reply sequence (length b.session.slots - 1) b.session.session_id
    let reply = compound_body tag r.status (first ∷ r.replies)
    pure (reply, record r.after { session = finish sequence request reply r.after.session })

  unfoldable pub serve_slot :
      CallbackSlot
      → List ℕ
      → ℕ
      → SequenceArgs
      → List ℕ
      → Backchannel C Addr
      → Reader (List ℕ × Backchannel C Addr)
  unfolding execute replayed
  serve_slot slot tag num_ops sequence request b =
      if sequence.sequence_id == (slot.next_sequence + 2 ^ 32 - 1) % 2 ^ 32 && is_some slot.request
      then pure (elim (replayed slot request) [
        | none ↦ (refused tag 11 10062, b)
        | some reply ↦ (reply, b)
      ])
      else if not (sequence.sequence_id == slot.next_sequence)
      then pure (refused tag 11 10063, b)
      else execute tag num_ops sequence request b

  unfoldable pub serve :
      Admission → List ℕ → Backchannel C Addr → Reader (List ℕ × Backchannel C Addr)
  unfolding serve_slot
  serve (answered reply) request b = pure (reply, b)
  serve (admitted tag num_ops sequence) request b =
      elim (get_elem? b.session.slots sequence.slot_id) [
        | none ↦ pure (refused tag 11 10053, b)
        | some slot ↦ serve_slot slot tag num_ops sequence request b
      ]

  unfoldable pub parse_compound : List ℕ → Backchannel C Addr → Reader (List ℕ × Backchannel C Addr)
  unfolding admit serve
  parse_compound request b = do admission ← admit request b.session; serve admission request b

  unfoldable pub parse_rpc_call : ℕ → Backchannel C Addr → Reader (List ℕ × Backchannel C Addr)
  unfolding parse_compound view
  parse_rpc_call xid b = do
    require 20 xdr
    msg_type ← get_u32
    rpc_version ← get_u32
    program ← get_u32
    version ← get_u32
    procedure ← get_u32
    if not (msg_type == 0 && (rpc_version == 2 && (program == 0x40000000 && version == 1)))
        then fail rpc
        else (do
          credential ← read_rpc_auth
          verifier ← read_rpc_auth
          if not (credential.0 == 0 && (credential.1 == 0 && (verifier.0 == 0 && verifier.1 == 0)))
              then fail rpc
              else if procedure == 0
              then pure (build_rpc_reply xid [], b)
              else if not (procedure == 1)
              then fail rpc
              else (do
                request ← view
                compound ← parse_compound request b
                pure (build_rpc_reply xid compound.0, compound.1)))

  -- An error gives a reply too, and has changed nothing; `none` is a panic.
  unfoldable pub answer :
      ℕ
      → Backchannel C Addr
      → Outcome ((List ℕ × Backchannel C Addr) × List ℕ)
      → Option (Option (List ℕ) × Backchannel C Addr)
  answer xid b (ok ((reply, b'), r)) = some (some reply, b')
  answer xid b (err x) = some (some (build_rpc_reply xid (compound_error_body [] 10036)), b)
  answer xid b panic = none

  unfoldable pub handle_cb_rpc :
      List ℕ → Backchannel C Addr → Option (Option (List ℕ) × Backchannel C Addr)
  unfolding parse_rpc_call answer
  handle_cb_rpc frame b = if ltb (length frame) 4 then some (none, b) else elim (get_u32 frame) [
    | ok (xid, r) ↦ answer xid b (parse_rpc_call xid b r)
    | err x ↦ some (none, b)
    | panic ↦ none
  ]
