-- ===== src/Nfs41/Callback/Steps.antt =====
-- nfs41/callback.rs: what a call of the server does to the session.
use nfs_rs.Common.{
  ℕ, zero, suc, ◌+◌, ◌%◌, ◌^◌, if◌then◌else◌, get_elem?, [], ◌∷◌, ◌≡◌, refl, sym, subst, ap, ◌∙◌,
  false, not, List, Option, some, ltb, ◌==◌, length, arith, Bool-cases, inl, inr, ◌⊎◌, All,
}
use nfs_rs.Assoc.{Eq}
use nfs_rs.Errors.{xdr, rpc}
use nfs_rs.Wire.{Outcome, ok, err, panic, ◌>>=◌, pure, get_u32, IsByte}
use nfs_rs.Wire.Words.{>>=-inv, >>=-run}
use nfs_rs.Wire.Opaque.{padded}
use nfs_rs.Wire.Safe.{get_u32-Takes}
use nfs_rs.Wire.Gives.{
  Inherits, Any, bind-Inherits, pure-Inherits, require-Inherits, get_u32-Inherits, advance-Inherits,
  rest-inj, ok-inj,
}
use nfs_rs.Nfs41.Compound.Reply.Decode.{view}
use nfs_rs.Nfs41.Callback.{RecallNotification, CallbackSlot, CallbackSession, Backchannel}
use nfs_rs.Nfs41.Callback.Parse.{read_rpc_auth, SequenceArgs}
use nfs_rs.Nfs41.Callback.Replies.{build_rpc_reply}
use nfs_rs.Nfs41.Callback.Handle.{
  Admission, admitted, admit, set, finish, serve, parse_compound, parse_rpc_call, answer,
  handle_cb_rpc,
}
use nfs_rs.Nfs41.Callback.Widths.{admit-Gives}
use nfs_rs.Nfs41.Callback.Frame.{
  call, call_body, call_sequence, Tells, bind-Tells, guard-Tells, if-Tells, fail-Tells, quiet-Tells,
  auth-Tells, u32-Any, IsAnswered, IsAdmitted, admit-Tells,
}
use nfs_rs.Nfs41.Callback.Served.{Executed, Served, serve-Served}

pub view-Inherits : Inherits Any view
unfolding view
view-Inherits = record { passes = λ s a r bytes h. (tt, subst (All IsByte) (rest-inj h) bytes) }

pub read_rpc_auth-Inherits : Inherits Any read_rpc_auth
unfolding read_rpc_auth
read_rpc_auth-Inherits = bind-Inherits (require-Inherits 8 xdr) λ _ _.
    bind-Inherits get_u32-Inherits λ flavor _. bind-Inherits get_u32-Inherits λ len _.
      bind-Inherits (require-Inherits (padded len) xdr)
        λ _ _. bind-Inherits (advance-Inherits (padded len)) λ _ _. pure-Inherits _ tt

module _ {A B : Type 0} {a a' : A} {b b' : B} where
  out-inj : ◌≡◌ {A = Option (A × B)} (some (a, b)) (some (a', b')) → a ≡ a'
  out-inj h = ground (arith, h)

  after-inj : ◌≡◌ {A = Option (A × B)} (some (a, b)) (some (a', b')) → b ≡ b'
  after-inj h = ground (arith, h)

sequence-inj :
    {tag tag' : List ℕ} {n n' : ℕ} {q q' : SequenceArgs}
    → admitted tag n q ≡ admitted tag' n' q'
    → q ≡ q'
sequence-inj h = ground (arith, h)

-- The session after a call: the slot of its CB_SEQUENCE waits for the next number and keeps the
-- compound and its reply, every other slot is as it was, and so is all else.
abbrev pub Recorded : SequenceArgs → List ℕ → List ℕ → CallbackSession → CallbackSession → Type 0
Recorded q request reply session session' =
    ((i : ℕ)
      → get_elem? session'.slots i ≡ (
          if i == q.slot_id
          then some (record {
            next_sequence = (q.sequence_id + 1) % 2 ^ 32;
            request = some request;
            compound_reply = some reply;
          })
          else get_elem? session.slots i))
    × (record session' { slots = [] } ≡ record session { slots = [] })

get_elem?-set_at :
    {A : Type 0} (xs : List A) (k : ℕ) (v w : A) (i : ℕ)
    → get_elem? xs k ≡ some w
    → get_elem? (set xs k v) i ≡ (if i == k then some v else get_elem? xs i)
unfolding set
get_elem?-set_at [] k v w i h = absurd (ground (arith, h))
get_elem?-set_at (x ∷ xs) zero v w zero h = refl
get_elem?-set_at (x ∷ xs) zero v w (suc i) h =
    let apart : (suc i == 0) ≡ false = ground arith in rw apart refl
get_elem?-set_at (x ∷ xs) (suc k) v w zero h =
    let apart : (0 == suc k) ≡ false = ground arith in rw apart refl
get_elem?-set_at (x ∷ xs) (suc k) v w (suc i) h =
    let same : (suc i == suc k) ≡ (i == k) = ground arith in rw same (get_elem?-set_at xs k v w i h)

finish-Recorded :
    (q : SequenceArgs) (request reply : List ℕ) (session : CallbackSession) (slot : CallbackSlot)
    → get_elem? session.slots q.slot_id ≡ some slot
    → Recorded q request reply session (finish q request reply session)
unfolding finish
finish-Recorded q request reply session slot hit =
    ((λ i. get_elem?-set_at session.slots q.slot_id _ slot i hit), refl)

module _ {C Addr : Type 0} ⦃e : Eq Addr⦄ (try_send : RecallNotification → C → Option C) where
  -- What a call that is read gives: the reply to its compound, which was executed.
  abbrev Stepped :
      ℕ → Backchannel C Addr → List ℕ × Backchannel C Addr → List ℕ × SequenceArgs → Type 0
  Stepped xid b out body =
      (reply : List ℕ) × (out.0 ≡ build_rpc_reply xid reply)
      × (x : Executed body.0 reply b out.1) × (x.sequence ≡ body.1)

  abbrev Kept : Backchannel C Addr → List ℕ × Backchannel C Addr → Type 0
  Kept b out = out.1 ≡ b

  Served-Stepped :
      (xid : ℕ) (request : List ℕ) (b : Backchannel C Addr) (s : List ℕ) (a : Admission)
      (out : List ℕ × Backchannel C Addr)
      → IsAnswered a
        ⊎ ((q : SequenceArgs) × (t : List ℕ) × (call_sequence s ≡ ok (q, t)) × IsAdmitted a q)
      → Served try_send a request b out
      → Kept b (build_rpc_reply xid out.0, out.1)
        ⊎ ((body : List ℕ × SequenceArgs) × (t : List ℕ) × ((call_sequence
                  >>= (λ sequence. pure (request, sequence)))
                s
              ≡ ok (body, t))
            × Stepped xid b (build_rpc_reply xid out.0, out.1) body)
  unfolding pure
  Served-Stepped xid request b s a out told (inl same) = inl same
  Served-Stepped xid request b s a out (inl (reply, gone)) (inr (x, tag, n, shape)) =
      absurd (ground (arith, gone, shape))
  Served-Stepped xid request b s a out (inr (q, t, run, (tag', n', is))) (inr (x, tag, n, shape)) =
      inr (
        (request, q),
        t,
        >>=-run call_sequence _ run refl,
        (out.0, refl, x, sequence-inj (sym shape ∙ is)),
      )

  compound-Tells :
      (xid : ℕ) (request : List ℕ) (b : Backchannel C Addr)
      → Tells
          (Kept b)
          (Stepped xid b)
          (parse_compound try_send request b >>= (λ out. pure (build_rpc_reply xid out.0, out.1)))
          (call_sequence >>= (λ sequence. pure (request, sequence)))
  unfolding parse_compound pure
  compound-Tells xid request b = record {
    tells = λ s o r bytes h.
        (let (out, t, first, second) = >>=-inv (parse_compound try_send request b) _ s h in
          let (a, u, admits, serves) =
            >>=-inv (admit request b.session) (λ a. serve try_send a request b) s first in
          let served =
            (serve-Served try_send a request b
                ((admit-Gives request b.session).gives s a u bytes admits)).holds
              u out t serves in
          subst
            (λ c.
              Kept b c
              ⊎ ((body : List ℕ × SequenceArgs) × (v : List ℕ) × ((call_sequence
                        >>= (λ sequence. pure (request, sequence)))
                      s
                    ≡ ok (body, v))
                  × Stepped xid b c body))
            (ok-inj second)
            (Served-Stepped xid request b s a out
              ((admit-Tells request b.session).tells s a u bytes admits) served));
  }

  parse_rpc_call-Tells :
      (xid : ℕ) (b : Backchannel C Addr)
      → Tells (Kept b) (Stepped xid b) (parse_rpc_call try_send xid b) call_body
  unfolding parse_rpc_call call_body
  parse_rpc_call-Tells xid b = guard-Tells 20 xdr (
      bind-Tells u32-Any λ kind. bind-Tells u32-Any λ v. bind-Tells u32-Any λ program.
        bind-Tells u32-Any λ version. bind-Tells u32-Any λ procedure. if-Tells _ (fail-Tells rpc) (
          auth-Tells read_rpc_auth-Inherits λ credential.
            auth-Tells read_rpc_auth-Inherits λ verifier. if-Tells _ (fail-Tells rpc) (
              if-Tells (procedure == 0) (quiet-Tells _ refl) (
                if-Tells (not (procedure == 1)) (fail-Tells rpc)
                  (bind-Tells view-Inherits λ request. compound-Tells xid request b)))))

  answer-cases :
      (xid : ℕ) (b : Backchannel C Addr) (o : Outcome ((List ℕ × Backchannel C Addr) × List ℕ))
      (out : Option (List ℕ)) (b' : Backchannel C Addr)
      → answer try_send xid b o ≡ some (out, b')
      → (b' ≡ b)
        ⊎ ((reply : List ℕ) × (r : List ℕ) × (o ≡ ok ((reply, b'), r)) × (out ≡ some reply))
  unfolding answer
  answer-cases xid b (ok ((reply, c), r)) out b' h =
      inr (reply, r, ap (λ d. ok ((reply, d), r)) (after-inj h), sym (out-inj h))
  answer-cases xid b (err x) out b' h = inl (sym (after-inj h))
  answer-cases xid b panic out b' h = absurd (ground (arith, h))

  -- A call that is not read changes nothing.
  pub handle-cases :
      (frame : List ℕ) (b : Backchannel C Addr) (out : Option (List ℕ)) (b' : Backchannel C Addr)
      → handle_cb_rpc try_send frame b ≡ some (out, b')
      → (b' ≡ b)
        ⊎ ((xid : ℕ) × (s : List ℕ) × (reply : List ℕ) × (r : List ℕ) × (ltb (length frame) 4
              ≡ false)
            × (get_u32 frame ≡ ok (xid, s))
            × (parse_rpc_call try_send xid b s ≡ ok ((reply, b'), r))
            × (out ≡ some reply))
  unfolding handle_cb_rpc
  handle-cases frame b out b' h = elim (Bool-cases (ltb (length frame) 4)) [
    | inl t ↦ inl (sym (after-inj (rw t at h)))
    | inr f ↦
        (let (xid, s, read, size) = get_u32-Takes.runs frame (ground (arith, f)) in
          elim (answer-cases xid b (parse_rpc_call try_send xid b s) out b' (rw (f, read) at h)) [
            | inl same ↦ inl same
            | inr (reply, r, run, here) ↦ inr (xid, s, reply, r, f, read, run, here)
          ])
  ]

  recorded :
      {request reply : List ℕ} {b b' : Backchannel C Addr} (x : Executed request reply b b')
      (q : SequenceArgs)
      → x.sequence ≡ q
      → Recorded q request reply b.session b'.session
  recorded {request} {reply} {b} {b'} x q same =
      subst (λ s. Recorded q request reply b.session s) (sym x.step)
        (subst (λ p. Recorded p request reply b.session (finish x.sequence request reply b.session))
          same (finish-Recorded x.sequence request reply b.session x.slot x.hit))

  -- A call of the server that is made of bytes changes nothing (the session, the channel and the
  -- caches are as before), or it is executed. Then the first operation of its compound is
  -- CB_SEQUENCE, the session there is the one of the client, and the number there is the one that
  -- the slot there waits for. The reply has the number of the call; the slot then waits for the next
  -- number and keeps the compound of the call with its reply, and all else of the session is kept.
  pub handle_cb_rpc-step :
      (frame : List ℕ) (b : Backchannel C Addr) (out : Option (List ℕ)) (b' : Backchannel C Addr)
      → All IsByte frame
      → handle_cb_rpc try_send frame b ≡ some (out, b')
      → (b' ≡ b)
        ⊎ ((xid : ℕ) × (request : List ℕ) × (q : SequenceArgs) × (r : List ℕ) × (call frame
              ≡ ok ((xid, request, q), r))
            × (reply : List ℕ) × (out ≡ some (build_rpc_reply xid reply))
            × (x : Executed request reply b b') × (x.sequence ≡ q)
            × Recorded q request reply b.session b'.session)
  unfolding call pure
  handle_cb_rpc-step frame b out b' bytes h = elim (handle-cases frame b out b' h) [
    | inl same ↦ inl same
    | inr (xid, s, reply, r, long, read, run, here) ↦
        elim ((parse_rpc_call-Tells xid b).tells s (reply, b') r
          (get_u32-Inherits.passes frame xid s bytes read).1 run) [
            | inl same ↦ inl same
            | inr ((request, q), t, body, (compound, wrapped, x, sent_one)) ↦ inr (
              xid,
              request,
              q,
              t,
              >>=-run get_u32 _ read (>>=-run call_body _ body refl),
              compound,
              here ∙ ap some wrapped,
              x,
              sent_one,
              recorded x q sent_one,
            )
          ]
  ]
