-- ===== src/Nfs41/Callback/Served.antt =====
-- nfs41/callback.rs: what serving a call that is admitted does to the session.
use nfs_rs.Common.{
  ℕ, zero, suc, ◌+◌, ◌-◌, ◌%◌, ◌^◌, ◌≡◌, refl, ap, ◌∙◌, true, not, ◌&&◌, List, Option, none, some,
  ltb, ◌==◌, arith, Bool-cases, Option-cases, inl, inr, ◌⊎◌, bytes_eq, get_elem?,
}
use nfs_rs.Assoc.{Eq}
use nfs_rs.Wire.Gives.{Always, pure-Always, if-Always, bind-Always, chain-Always}
use nfs_rs.Nfs41.Callback.{RecallNotification, CallbackSlot, Backchannel}
use nfs_rs.Nfs41.Callback.Parse.{SequenceArgs}
use nfs_rs.Nfs41.Callback.Handle.{
  Admission, answered, admitted, finish, send, serve_recall, serve_layout_recall, serve_devices,
  parse_callback_op, callback_ops, execute, replayed, is_some, serve_slot, serve,
}
use nfs_rs.Nfs41.Callback.Widths.{Fits}

-- A call that was executed: its sequence number is the one that a slot of the session waits for,
-- and the slot keeps the request with its reply.
pub record Executed (request reply : List ℕ) {C Addr : Type 0} (b b' : Backchannel C Addr)
    : Type 0 where
  pub sequence : SequenceArgs
  pub slot : CallbackSlot
  pub same : bytes_eq sequence.session_id b.session.session_id ≡ true
  pub hit : get_elem? b.session.slots sequence.slot_id ≡ some slot
  pub next : sequence.sequence_id ≡ slot.next_sequence
  pub step : b'.session ≡ finish sequence request reply b.session

module _ {C Addr : Type 0} ⦃e : Eq Addr⦄ (try_send : RecallNotification → C → Option C) where
  send-session :
      (opcode : ℕ) (n : RecallNotification) (b : Backchannel C Addr)
      → (send try_send opcode n b).after.session ≡ b.session
  unfolding send
  send-session opcode n b = elim (Option-cases (try_send n b.recalls)) [
    | inl full ↦ rw (full, send) refl
    | inr (c, sent) ↦ rw (sent, send) refl
  ]

  serve_recall-session :
      (opcode : ℕ) (n : Option RecallNotification) (b : Backchannel C Addr)
      → (serve_recall try_send opcode n b).after.session ≡ b.session
  unfolding serve_recall
  serve_recall-session opcode none b = refl
  serve_recall-session opcode (some n) b = send-session opcode n b

  serve_layout_recall-session :
      (opcode : ℕ) (n : Option (Option RecallNotification)) (b : Backchannel C Addr)
      → (serve_layout_recall try_send opcode n b).after.session ≡ b.session
  unfolding serve_layout_recall
  serve_layout_recall-session opcode none b = refl
  serve_layout_recall-session opcode (some none) b = refl
  serve_layout_recall-session opcode (some (some n)) b = send-session opcode n b

  serve_devices-session :
      (opcode : ℕ) (d : Option (List (List ℕ))) (b : Backchannel C Addr)
      → (serve_devices try_send opcode d b).after.session ≡ b.session
  unfolding serve_devices
  serve_devices-session opcode none b = refl
  serve_devices-session opcode (some d) b = refl

  parse_callback_op-session :
      (opcode : ℕ) (b : Backchannel C Addr)
      → Always (λ r. r.after.session ≡ b.session) (parse_callback_op try_send opcode b)
  unfolding parse_callback_op
  parse_callback_op-session opcode b =
      if-Always (opcode == 4) (bind-Always _ λ n. pure-Always _ (serve_recall-session opcode n b)) (
        if-Always (opcode == 5)
          (bind-Always _ λ n. pure-Always _ (serve_layout_recall-session opcode n b))
          (if-Always (opcode == 14)
            (bind-Always _ λ d. pure-Always _ (serve_devices-session opcode d b))
            (pure-Always _ refl)))

  callback_ops-session :
      (n : ℕ) (b : Backchannel C Addr)
      → Always (λ r. r.after.session ≡ b.session) (callback_ops try_send n b)
  unfolding callback_ops
  callback_ops-session zero b = pure-Always _ refl
  callback_ops-session (suc n) b = bind-Always _ λ left.
      if-Always (ltb left 4) (pure-Always _ refl) (
        bind-Always _ λ opcode. chain-Always (parse_callback_op-session opcode b) λ r kept.
          if-Always (not (r.status == 0)) (pure-Always _ kept) (
            chain-Always (callback_ops-session n r.after)
              λ rest again. pure-Always _ (again ∙ kept)))

  -- What serving an admitted call gives.
  abbrev pub Served : Admission → List ℕ → Backchannel C Addr → List ℕ × Backchannel C Addr → Type 0
  Served a request b out =
      (out.1 ≡ b)
      ⊎ ((x : Executed request out.0 b out.1) × (tag : List ℕ) × (n : ℕ) × (a
            ≡ admitted tag n x.sequence))

  serve_slot-Served :
      (slot : CallbackSlot) (tag : List ℕ) (n : ℕ) (q : SequenceArgs) (request : List ℕ)
      (b : Backchannel C Addr)
      → bytes_eq q.session_id b.session.session_id ≡ true
      → get_elem? b.session.slots q.slot_id ≡ some slot
      → Always (Served (admitted tag n q) request b) (serve_slot try_send slot tag n q request b)
  unfolding serve_slot execute
  serve_slot-Served slot tag n q request b same hit =
      if-Always
        (q.sequence_id == (slot.next_sequence + 2 ^ 32 - 1) % 2 ^ 32 && is_some slot.request)
        (elim (Option-cases (replayed slot request)) [
          | inl gone ↦ rw gone (pure-Always _ (inl refl))
          | inr (reply, found) ↦ rw found (pure-Always _ (inl refl))
        ])
        (elim (Bool-cases (not (q.sequence_id == slot.next_sequence))) [
          | inl t ↦ rw t (pure-Always _ (inl refl))
          | inr f ↦ rw f (
              chain-Always (callback_ops-session (n - 1) b) λ r kept. pure-Always _ (
                inr (
                  record {
                    sequence = q;
                    slot = slot;
                    same = same;
                    hit = hit;
                    next = ground (arith, f);
                    step = ap (finish q request _) kept;
                  },
                  tag,
                  n,
                  refl,
                )))
        ])

  pub serve-Served :
      (a : Admission) (request : List ℕ) (b : Backchannel C Addr)
      → Fits b.session a
      → Always (Served a request b) (serve try_send a request b)
  unfolding serve
  serve-Served (answered reply) request b fits = pure-Always _ (inl refl)
  serve-Served (admitted tag n q) request b fits =
      elim (Option-cases (get_elem? b.session.slots q.slot_id)) [
        | inl gone ↦ rw (gone, serve) (pure-Always _ (inl refl))
        | inr (slot, hit) ↦ rw (hit, serve) (serve_slot-Served slot tag n q request b fits.1 hit)
      ]
