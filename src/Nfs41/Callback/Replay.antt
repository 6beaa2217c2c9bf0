-- ===== src/Nfs41/Callback/Replay.antt =====
-- nfs41/callback.rs: a call of the server that is sent again.
use nfs_rs.Common.{
  ℕ, zero, suc, ◌+◌, ◌-◌, ◌%◌, ◌^◌, ◌≡◌, refl, sym, subst, ap, ◌∙◌, Bool, true, false, not, List,
  [], ◌∷◌, Option, some, ◌==◌, if◌then◌else◌, arith, inl, inr, All, bytes_eq_iff, get_elem?,
}
use nfs_rs.Assoc.{Eq}
use nfs_rs.Errors.{NfsError, xdr, rpc}
use nfs_rs.Wire.{Reader, ok, ◌>>=◌, pure, fail, IsByte, IsU32}
use nfs_rs.Wire.Words.{>>=-inv, >>=-run}
use nfs_rs.Wire.Gives.{Inherits, Any, require-Inherits, get_u32-Inherits, ok-inj}
use nfs_rs.Nfs41.Callback.{RecallNotification, CallbackSlot, CallbackSession, Backchannel}
use nfs_rs.Nfs41.Callback.Parse.{SequenceArgs}
use nfs_rs.Nfs41.Callback.Replies.{build_rpc_reply}
use nfs_rs.Nfs41.Callback.Handle.{
  Admission, admitted, admit_sequence, admit, set, finish, replayed, serve_slot, serve,
  parse_compound, parse_rpc_call, answer, handle_cb_rpc,
}
use nfs_rs.Nfs41.Callback.Widths.{Fits, admit-Gives}
use nfs_rs.Nfs41.Callback.Frame.{u32-Any}
use nfs_rs.Nfs41.Callback.Served.{Executed, serve-Served}
use nfs_rs.Nfs41.Callback.Steps.{view-Inherits, read_rpc_auth-Inherits, handle-cases}

get_elem?-set :
    {A : Type 0} (xs : List A) (i : ℕ) (v w : A)
    → get_elem? xs i ≡ some w
    → get_elem? (set xs i v) i ≡ some v
unfolding set
get_elem?-set [] i v w h = absurd (ground (arith, h))
get_elem?-set (x ∷ xs) zero v w h = refl
get_elem?-set (x ∷ xs) (suc i) v w h = get_elem?-set xs i v w h

-- The last sequence number that a slot served, from the next one.
last_sequence : (n : ℕ) → IsU32 n → (n == ((n + 1) % 2 ^ 32 + 2 ^ 32 - 1) % 2 ^ 32) ≡ true
last_sequence n h = ground (arith, h)

-- The slot of a call that was executed.
served_slot : SequenceArgs → List ℕ → List ℕ → CallbackSlot
served_slot q request reply = record {
  next_sequence = (q.sequence_id + 1) % 2 ^ 32;
  request = some request;
  compound_reply = some reply;
}

admit-finish :
    (again : List ℕ) (q : SequenceArgs) (request reply : List ℕ) (session : CallbackSession)
    → admit again (finish q request reply session) ≡ admit again session
unfolding admit admit_sequence finish
admit-finish again q request reply session = refl

module _ {C Addr : Type 0} ⦃e : Eq Addr⦄ (try_send : RecallNotification → C → Option C) where
  serve_slot-again :
      (tag : List ℕ) (n : ℕ) (q : SequenceArgs) (request reply : List ℕ) (b : Backchannel C Addr)
      (t : List ℕ)
      → IsU32 q.sequence_id
      → serve_slot try_send (served_slot q request reply) tag n q request b t ≡ ok ((reply, b), t)
  unfolding serve_slot replayed pure served_slot
  serve_slot-again tag n q request reply b t wide =
      rw (last_sequence q.sequence_id wide, (bytes_eq_iff request request).1 refl) refl

  Executed-again :
      {request reply : List ℕ} {b b' : Backchannel C Addr} (x : Executed request reply b b')
      (tag : List ℕ) (n : ℕ) (t : List ℕ)
      → IsU32 x.sequence.sequence_id
      → serve try_send (admitted tag n x.sequence) request b' t ≡ ok ((reply, b'), t)
  unfolding serve finish served_slot
  Executed-again {request} {reply} {b} {b'} x tag n t wide =
      rw (found, serve) (serve_slot-again tag n x.sequence request reply b' t wide)
    where
      found :
          get_elem? b'.session.slots x.sequence.slot_id
          ≡ some (served_slot x.sequence request reply)
      found = rw x.step (get_elem?-set b.session.slots x.sequence.slot_id _ x.slot x.hit)

  serve-again :
      (a : Admission) (request reply : List ℕ) (b b' : Backchannel C Addr) (t r : List ℕ)
      → Fits b.session a
      → serve try_send a request b t ≡ ok ((reply, b'), r)
      → (r' : List ℕ) × (serve try_send a request b' t ≡ ok ((reply, b'), r'))
  serve-again a request reply b b' t r fits h =
      elim ((serve-Served try_send a request b fits).holds t (reply, b') r h) [
        | inl same ↦
            (r, subst (λ c. serve try_send a request c t ≡ ok ((reply, b'), r)) (sym same) h)
        | inr (x, tag, n, shape) ↦
            (t, rw shape (Executed-again x tag n t (subst (Fits b.session) shape fits).0))
      ]

  parse_compound-again :
      (request reply : List ℕ) (b b' : Backchannel C Addr) (s r : List ℕ)
      → All IsByte s
      → parse_compound try_send request b s ≡ ok ((reply, b'), r)
      → (r' : List ℕ) × (parse_compound try_send request b' s ≡ ok ((reply, b'), r'))
  unfolding parse_compound
  parse_compound-again request reply b b' s r bytes h =
      (let (a, t, first, second) =
          >>=-inv (admit request b.session) (λ a. serve try_send a request b) s h in
        let fits = (admit-Gives request b.session).gives s a t bytes first in
        let (r', next) = serve-again a request reply b b' t r fits second in
        (r', >>=-run _ _ (admits a t fits first second) next))
    where
      admits :
          (a : Admission) (t : List ℕ)
          → Fits b.session a
          → admit request b.session s ≡ ok (a, t)
          → serve try_send a request b t ≡ ok ((reply, b'), r)
          → admit request b'.session s ≡ ok (a, t)
      admits a t fits first second =
          elim ((serve-Served try_send a request b fits).holds t (reply, b') r second) [
            | inl same ↦ subst (λ c. admit request c.session s ≡ ok (a, t)) (sym same) first
            | inr (x, tag, n, shape) ↦
                ap (λ m. m s)
                  (ap (admit request) x.step
                    ∙ admit-finish request x.sequence request reply b.session)
                ∙ first
          ]

  -- A reader of a call gives the same reply again, and changes no more.
  record Repeats (b : Backchannel C Addr)
      (f : Backchannel C Addr → Reader (List ℕ × Backchannel C Addr)) : Type 0 where
    pub again :
        (s reply : List ℕ) (b' : Backchannel C Addr) (r : List ℕ)
        → All IsByte s
        → f b s ≡ ok ((reply, b'), r)
        → (r' : List ℕ) × (f b' s ≡ ok ((reply, b'), r'))

  module _ {b : Backchannel C Addr} where
    fail-Repeats : (x : NfsError) → Repeats b (λ c. fail x)
    unfolding fail
    fail-Repeats x = record { again = λ s reply b' r bytes h. absurd (ground (arith, h)) }

    pure-Repeats : (reply : List ℕ) → Repeats b (λ c. pure (reply, c))
    unfolding pure
    pure-Repeats reply = record {
      again = λ s out b' r bytes h. (s, ap (λ o. ok ((o, b'), s)) (ap (λ p. p.0) (ok-inj h)));
    }

    if-Repeats :
        {f g : Backchannel C Addr → Reader (List ℕ × Backchannel C Addr)} (t : Bool)
        → Repeats b f
        → Repeats b g
        → Repeats b (λ c. if t then f c else g c)
    if-Repeats true p q = p
    if-Repeats false p q = q

    bind-Repeats :
        {A : Type 0} {m : Reader A}
        {f : A → Backchannel C Addr → Reader (List ℕ × Backchannel C Addr)}
        → Inherits Any m
        → ((a : A) → Repeats b (f a))
        → Repeats b (λ c. m >>= (λ a. f a c))
    bind-Repeats {m} {f} p q = record {
      again = λ s reply b' r bytes h.
          (let (a, t, first, second) = >>=-inv m (λ a. f a b) s h in
            let (_, rest) = p.passes s a t bytes first in
            let (r', next) = (q a).again t reply b' r rest second in (r', >>=-run _ _ first next));
    }

    -- The reply that is wrapped.
    wrap-Repeats :
        {f : Backchannel C Addr → Reader (List ℕ × Backchannel C Addr)} (w : List ℕ → List ℕ)
        → Repeats b f
        → Repeats b (λ c. f c >>= (λ out. pure (w out.0, out.1)))
    unfolding pure
    wrap-Repeats {f} w p = record {
      again = λ s reply b' r bytes h.
          (let ((out, b''), t, first, second) = >>=-inv (f b) (λ out. pure (w out.0, out.1)) s h in
            let here : b'' ≡ b' = ap (λ p. p.1) (ok-inj second) in
            let (r', next) =
              p.again s out b' t bytes (subst (λ c. f b s ≡ ok ((out, c), t)) here first) in
            (r', >>=-run _ _ next (ap (λ o. ok ((o, b'), r')) (ap (λ p. p.0) (ok-inj second)))));
    }

    parse_rpc_call-Repeats : (xid : ℕ) → Repeats b (parse_rpc_call try_send xid)
    unfolding parse_rpc_call
    parse_rpc_call-Repeats xid = bind-Repeats (require-Inherits 20 xdr) λ _.
        bind-Repeats u32-Any λ kind. bind-Repeats u32-Any λ v. bind-Repeats u32-Any λ program.
          bind-Repeats u32-Any λ version. bind-Repeats u32-Any λ procedure.
            if-Repeats _ (fail-Repeats rpc) (
              bind-Repeats read_rpc_auth-Inherits λ credential.
                bind-Repeats read_rpc_auth-Inherits λ verifier. if-Repeats _ (fail-Repeats rpc) (
                  if-Repeats (procedure == 0) (pure-Repeats _) (
                    if-Repeats (not (procedure == 1)) (fail-Repeats rpc) (
                      bind-Repeats view-Inherits λ request.
                        wrap-Repeats (build_rpc_reply xid) (record {
                          again = λ s reply b' r. parse_compound-again request reply b b' s r;
                        })))))

  -- A call of the server that is made of bytes, sent again at once, gets the same reply and changes
  -- no more, whatever the session and the channel hold: an operation is not executed twice.
  pub handle_cb_rpc-idempotent :
      (frame : List ℕ) (b : Backchannel C Addr) (out : Option (List ℕ)) (b' : Backchannel C Addr)
      → All IsByte frame
      → handle_cb_rpc try_send frame b ≡ some (out, b')
      → handle_cb_rpc try_send frame b' ≡ some (out, b')
  unfolding handle_cb_rpc answer
  handle_cb_rpc-idempotent frame b out b' bytes h = elim (handle-cases try_send frame b out b' h) [
    | inl same ↦ subst (λ c. handle_cb_rpc try_send frame c ≡ some (out, b')) (sym same) h
    | inr (xid, s, reply, r, long, read, run, here) ↦
        (let rest = (get_u32-Inherits.passes frame xid s bytes read).1 in
          let (r', next) = (parse_rpc_call-Repeats xid).again s reply b' r rest run in
          rw (long, read, next, here, answer) refl)
  ]
