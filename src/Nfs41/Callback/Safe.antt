-- ===== src/Nfs41/Callback/Safe.antt =====
-- nfs41/callback.rs: the readers of a call, which test how many bytes are left.
use nfs_rs.Common.{
  ℕ, zero, suc, ◌+◌, ◌*◌, ◌/◌, ◌-◌, ◌^◌, ◌%◌, ◌≤◌, ◌≢◌, refl, not, ◌&&◌, ◌||◌, List, Option, none,
  some, ltb, ◌==◌, bit_and, length, arith, Bool-cases, inl, inr, Option-cases, get_elem?,
}
use nfs_rs.Assoc.{Eq}
use nfs_rs.Errors.{xdr, rpc}
use nfs_rs.Wire.{Reader, Outcome, ok, err, panic, and_then, ◌>>=◌, remaining}
use nfs_rs.Wire.Opaque.{take_opaque-Safe, padded}
use nfs_rs.Wire.Safe.{
  Safe, pure-Safe, fail-Safe, Safe-weaken, if-Safe, bind-Safe, take_then-Safe, require-Safe,
  u32-Safe, u64-Safe, repeat-Safe, run_on-Safe, split_to-Takes, advance-Takes, Takes→Safe,
  get_u32-Takes,
}
use nfs_rs.Nfs41.Compound.Reply.Decode.{view}
use nfs_rs.Nfs41.Callback.{RecallNotification, Backchannel, CallbackSession, CallbackSlot}
use nfs_rs.Nfs41.Callback.Parse.{
  read_rpc_auth, attempt, SequenceArgs, skip_referring_list, parse_sequence, zero_words,
  device_value, device_values, device_notification, parse_device_notifications, parse_recall,
  parse_file_recall, read_layout_recall, other_bits,
}
use nfs_rs.Nfs41.Callback.Handle.{
  Admission, answered, admitted, admit_sequence, admit, callback_ops, parse_callback_op, execute,
  serve_slot, serve, parse_compound, parse_rpc_call, answer, handle_cb_rpc, is_some,
}

attempt-Safe {ℓ} : {A : Type ℓ} {m : Reader A} → Safe 0 m → Safe 0 (attempt m)
unfolding attempt
attempt-Safe {A} {m} p = record { apply = λ s h. go s (m s) (p.apply s h) }
  where
    go :
        (s : List ℕ) (o : Outcome (A × List ℕ))
        → o ≢ panic
        → elim o as (λ _. Outcome (Option A × List ℕ)) [
          | ok (a, r) ↦ ok (some a, r)
          | err e ↦ ok (none, s)
          | panic ↦ panic
        ]
          ≢ panic
    go s (ok (a, r)) ne = λ x. cc
    go s (err e) ne = λ x. cc
    go s panic ne = absurd (ne refl)

view-Safe : Safe 0 view
unfolding view
view-Safe = record { apply = λ s h e. cc }

read_rpc_auth-Safe : Safe 0 read_rpc_auth
unfolding read_rpc_auth
read_rpc_auth-Safe = require-Safe 8 xdr λ _. u32-Safe (omega arith) λ flavor.
    u32-Safe (omega arith) λ len.
      require-Safe (padded len) xdr λ _.
        take_then-Safe (advance-Takes (padded len)) (omega arith) (omega arith) λ _. pure-Safe _

skip_referring_list-Safe : Safe 0 skip_referring_list
unfolding skip_referring_list
skip_referring_list-Safe = require-Safe 20 xdr λ _.
    take_then-Safe (advance-Takes 16) (omega arith) (omega arith) λ _.
      u32-Safe (omega arith)
        λ calls. require-Safe (calls * 8) xdr λ _. Takes→Safe (advance-Takes (calls * 8))

parse_sequence-Safe : Safe 0 parse_sequence
unfolding parse_sequence
parse_sequence-Safe = require-Safe 32 xdr λ _.
    take_then-Safe (split_to-Takes 16) (omega arith) (omega arith) λ id.
      u32-Safe (omega arith) λ seq. u32-Safe (omega arith) λ slot. u32-Safe (omega arith) λ highest.
        u32-Safe (omega arith) λ cache. require-Safe 4 xdr λ _. u32-Safe (omega arith) λ count.
          if-Safe (ltb 256 count) (fail-Safe xdr)
            (bind-Safe (repeat-Safe count skip_referring_list-Safe) λ _. pure-Safe _)

module _ {ℓ} {A : Type ℓ} where
  Safe-le : {m n : ℕ} {k : Reader A} → m ≤ n → Safe m k → Safe n k
  Safe-le h p = record { apply = λ s q. p.apply s (omega (arith, h, q)) }

  -- A reader that has asked how many bytes are left.
  room-Safe :
      {n : ℕ} {f : ℕ → Reader A} → ((left : ℕ) → Safe left (f left)) → Safe n (remaining >>= f)
  unfolding ◌>>=◌ remaining and_then
  room-Safe p = record { apply = λ s h. (p (length s)).apply s (omega arith) }

zero_words-Safe : (n : ℕ) → Safe (n * 4) (zero_words n)
unfolding zero_words
zero_words-Safe zero = pure-Safe tt
zero_words-Safe (suc n) =
    u32-Safe (omega arith)
      λ w. if-Safe (not (w == 0)) (fail-Safe xdr) (Safe-le (omega arith) (zero_words-Safe n))

changed-Safe : (mask : ℕ) → Safe 0 (device_value mask 2 24)
unfolding device_value
changed-Safe mask = if-Safe (bit_and mask 2 == 0) (pure-Safe _) (
    require-Safe 24 xdr λ _. u32-Safe (omega arith) λ kind.
      take_then-Safe (split_to-Takes 16) (omega arith) (omega arith)
        λ device. u32-Safe (omega arith) λ flag. if-Safe (ltb 1 flag) (fail-Safe xdr) (pure-Safe _))

deleted-Safe : (mask : ℕ) → Safe 0 (device_value mask 4 20)
unfolding device_value
deleted-Safe mask = if-Safe (bit_and mask 4 == 0) (pure-Safe _) (
    require-Safe 20 xdr λ _. u32-Safe (omega arith) λ kind.
      take_then-Safe (split_to-Takes 16) (omega arith) (omega arith) λ device.
        bind-Safe (pure-Safe 0) λ flag. if-Safe (ltb 1 flag) (fail-Safe xdr) (pure-Safe _))

device_values-Safe : (mask : ℕ) → Safe 0 (device_values mask)
unfolding device_values
device_values-Safe mask = bind-Safe (changed-Safe mask) λ a.
    bind-Safe (deleted-Safe mask)
      λ b. room-Safe λ left. if-Safe (ltb 0 left) (fail-Safe xdr) (pure-Safe _)

device_notification-Safe : Safe 0 device_notification
unfolding device_notification
device_notification-Safe = require-Safe 8 xdr λ _. u32-Safe (omega arith) λ words. room-Safe λ left.
    elim (Bool-cases (words == 0 || ltb (left / 4) words)) [
      | inl t ↦ rw t (fail-Safe xdr)
      | inr f ↦
          (let some_words : 1 ≤ words = ground (arith, f) in
            let fit : words ≤ left / 4 = ground (arith, f) in
            rw f (
              u32-Safe (omega (arith, some_words, fit)) λ mask.
                bind-Safe (Safe-le (omega (arith, some_words, fit)) (zero_words-Safe (words - 1)))
                  λ _. if-Safe (mask == 0 || not (bit_and mask other_bits == 0)) (fail-Safe xdr) (
                    bind-Safe take_opaque-Safe
                      λ values. run_on-Safe values (device_values-Safe mask))))
    ]

parse_device_notifications-Safe : Safe 0 parse_device_notifications
unfolding parse_device_notifications
parse_device_notifications-Safe = require-Safe 4 xdr λ _. u32-Safe (omega arith) λ count.
    room-Safe λ left.
      if-Safe (ltb 4096 count || ltb (left / 12) count) (fail-Safe xdr)
        (bind-Safe (Safe-weaken (repeat-Safe count device_notification-Safe)) λ _. pure-Safe _)

parse_recall-Safe : Safe 0 parse_recall
unfolding parse_recall
parse_recall-Safe = require-Safe 20 xdr λ _.
    take_then-Safe (split_to-Takes 16) (omega arith) (omega arith) λ id.
      u32-Safe (omega arith) λ truncate. bind-Safe (Safe-weaken take_opaque-Safe) λ fh. pure-Safe _

parse_file_recall-Safe : (iomode : ℕ) → Safe 0 (parse_file_recall iomode)
unfolding parse_file_recall
parse_file_recall-Safe iomode = bind-Safe take_opaque-Safe λ fh. require-Safe 32 xdr λ _.
    u64-Safe (omega arith) λ offset.
      u64-Safe (omega arith)
        λ len. take_then-Safe (split_to-Takes 16) (omega arith) (omega arith) λ id. pure-Safe _

read_layout_recall-Safe : Safe 0 read_layout_recall
unfolding read_layout_recall
read_layout_recall-Safe = require-Safe 16 xdr λ _. u32-Safe (omega arith) λ kind.
    u32-Safe (omega arith) λ iomode. u32-Safe (omega arith) λ changed.
      u32-Safe (omega arith) λ recall.
        if-Safe (recall == 1) (bind-Safe (parse_file_recall-Safe iomode) λ n. pure-Safe _) (
          if-Safe (recall == 2)
            (require-Safe 16 xdr
              λ _. take_then-Safe (advance-Takes 16) (omega arith) (omega arith) λ _. pure-Safe _)
            (pure-Safe _))

admit_sequence-Safe :
    (tag : List ℕ) (num_ops : ℕ) (session : CallbackSession)
    → Safe 0 (admit_sequence tag num_ops session)
unfolding admit_sequence
admit_sequence-Safe tag num_ops session =
    bind-Safe (attempt-Safe parse_sequence-Safe) λ tried. pure-Safe _

admit-Safe : (request : List ℕ) (session : CallbackSession) → Safe 0 (admit request session)
unfolding admit
admit-Safe request session = bind-Safe take_opaque-Safe λ tag. require-Safe 12 xdr λ _.
    u32-Safe (omega arith) λ minor. u32-Safe (omega arith) λ ident.
      u32-Safe (omega arith) λ num_ops. room-Safe λ left.
        if-Safe (not (minor == session.minor_version)) (pure-Safe _) (
          if-Safe
            (ltb session.max_request_size (length request) || ltb session.max_operations num_ops)
            (pure-Safe _)
            (if-Safe (num_ops == 0) (pure-Safe _) (elim (Bool-cases (ltb left 4)) [
              | inl t ↦ rw t (pure-Safe _)
              | inr f ↦ rw f (
                  u32-Safe (ground (arith, f)) λ first.
                    if-Safe (not (first == 11)) (pure-Safe _)
                      (Safe-weaken (admit_sequence-Safe tag num_ops session)))
            ])))

module _ {C Addr : Type 0} ⦃e : Eq Addr⦄ (try_send : RecallNotification → C → Option C) where
  parse_callback_op-Safe :
      (opcode : ℕ) (b : Backchannel C Addr) → Safe 0 (parse_callback_op try_send opcode b)
  unfolding parse_callback_op
  parse_callback_op-Safe opcode b =
      if-Safe (opcode == 4) (bind-Safe (attempt-Safe parse_recall-Safe) λ n. pure-Safe _) (
        if-Safe (opcode == 5) (bind-Safe (attempt-Safe read_layout_recall-Safe) λ n. pure-Safe _) (
          if-Safe (opcode == 14)
            (bind-Safe (attempt-Safe parse_device_notifications-Safe) λ d. pure-Safe _)
            (pure-Safe _)))

  callback_ops-Safe : (n : ℕ) (b : Backchannel C Addr) → Safe 0 (callback_ops try_send n b)
  unfolding callback_ops
  callback_ops-Safe zero b = pure-Safe _
  callback_ops-Safe (suc n) b = room-Safe λ left. elim (Bool-cases (ltb left 4)) [
    | inl t ↦ rw t (pure-Safe _)
    | inr f ↦ rw f (
        u32-Safe (ground (arith, f)) λ opcode.
          bind-Safe (Safe-weaken (parse_callback_op-Safe opcode b)) λ r.
            if-Safe (not (r.status == 0)) (pure-Safe _)
              (bind-Safe (callback_ops-Safe n r.after) λ rest. pure-Safe _))
  ]

  execute-Safe :
      (tag : List ℕ) (num_ops : ℕ) (sequence : SequenceArgs) (request : List ℕ)
      (b : Backchannel C Addr)
      → Safe 0 (execute try_send tag num_ops sequence request b)
  unfolding execute
  execute-Safe tag num_ops sequence request b =
      bind-Safe (callback_ops-Safe (num_ops - 1) b) λ r. pure-Safe _

  serve_slot-Safe :
      (slot : CallbackSlot) (tag : List ℕ) (num_ops : ℕ) (sequence : SequenceArgs)
      (request : List ℕ) (b : Backchannel C Addr)
      → Safe 0 (serve_slot try_send slot tag num_ops sequence request b)
  unfolding serve_slot
  serve_slot-Safe slot tag num_ops sequence request b =
      if-Safe
        (sequence.sequence_id == (slot.next_sequence + 2 ^ 32 - 1) % 2 ^ 32 && is_some slot.request)
        (pure-Safe _)
        (if-Safe (not (sequence.sequence_id == slot.next_sequence)) (pure-Safe _)
          (execute-Safe tag num_ops sequence request b))

  serve-Safe :
      (a : Admission) (request : List ℕ) (b : Backchannel C Addr)
      → Safe 0 (serve try_send a request b)
  unfolding serve
  serve-Safe (answered reply) request b = pure-Safe _
  serve-Safe (admitted tag num_ops sequence) request b =
      elim (Option-cases (get_elem? b.session.slots sequence.slot_id)) [
        | inl gone ↦ rw (gone, serve) (pure-Safe _)
        | inr (slot, hit) ↦ rw (hit, serve) (serve_slot-Safe slot tag num_ops sequence request b)
      ]

  parse_rpc_call-Safe : (xid : ℕ) (b : Backchannel C Addr) → Safe 0 (parse_rpc_call try_send xid b)
  unfolding parse_rpc_call parse_compound
  parse_rpc_call-Safe xid b = require-Safe 20 xdr λ _. u32-Safe (omega arith) λ kind.
      u32-Safe (omega arith) λ v. u32-Safe (omega arith) λ program.
        u32-Safe (omega arith) λ version. u32-Safe (omega arith) λ procedure.
          if-Safe _ (fail-Safe rpc) (
            bind-Safe read_rpc_auth-Safe λ credential. bind-Safe read_rpc_auth-Safe λ verifier.
              if-Safe _ (fail-Safe rpc) (
                if-Safe (procedure == 0) (pure-Safe _) (
                  if-Safe (not (procedure == 1)) (fail-Safe rpc) (
                    bind-Safe view-Safe λ request.
                      bind-Safe
                        (bind-Safe (admit-Safe request b.session) λ a. serve-Safe a request b)
                        λ compound. pure-Safe _))))

  answer-ne-none :
      (xid : ℕ) (b : Backchannel C Addr) (o : Outcome ((List ℕ × Backchannel C Addr) × List ℕ))
      → o ≢ panic
      → answer try_send xid b o ≢ none
  unfolding answer
  answer-ne-none xid b (ok ((reply, b'), r)) ne = λ x. cc
  answer-ne-none xid b (err x) ne = λ y. cc
  answer-ne-none xid b panic ne = absurd (ne refl)

  -- No call of the server, whatever its bytes are, makes the client panic, whatever the session and
  -- the channel hold.
  pub handle_cb_rpc-ne-none :
      (frame : List ℕ) (b : Backchannel C Addr) → handle_cb_rpc try_send frame b ≢ none
  unfolding handle_cb_rpc
  handle_cb_rpc-ne-none frame b = elim (Bool-cases (ltb (length frame) 4)) [
    | inl t ↦ rw t (λ x. cc)
    | inr f ↦
        (let (xid, r, read, size) = get_u32-Takes.runs frame (ground (arith, f)) in
          rw (f, read)
            (answer-ne-none xid b (parse_rpc_call try_send xid b r)
              ((parse_rpc_call-Safe xid b).apply r (omega arith))))
  ]
