-- ===== src/Nfs41/Callback/Frame.antt =====
-- A call of the server as a description of its bytes, apart from the code of nfs41/callback.rs that
-- reads it: an RPC call (RFC 5531) that holds a compound (RFC 8881) whose first operation is
-- CB_SEQUENCE.
use nfs_rs.Common.{
  ℕ, ◌≡◌, refl, Bool, true, false, not, ◌||◌, List, length, Option, none, some, ltb, leb, ◌==◌,
  bytes_eq, if◌then◌else◌, arith, Bool-cases, inl, inr, ◌⊎◌, All, subst,
}
use nfs_rs.Errors.{NfsError, xdr}
use nfs_rs.Wire.{
  Reader, Outcome, ok, err, panic, ◌>>=◌, ◌>>◌, pure, fail, require, get_u32, remaining, split_to,
  advance, IsByte, and_then,
}
use nfs_rs.Wire.Words.{>>=-inv, >>=-run}
use nfs_rs.Wire.Opaque.{padded, take_opaque}
use nfs_rs.Wire.Gives.{
  Inherits, Any, ok-inj, get_u32-Inherits, take_opaque-Inherits, split_to-Inherits, Always,
  pure-Always, fail-Always, bind-Always, if-Always,
}
use nfs_rs.Nfs41.Compound.Reply.Decode.{view}
use nfs_rs.Nfs41.Callback.{CallbackSession}
use nfs_rs.Nfs41.Callback.Parse.{read_rpc_auth, attempt, SequenceArgs, parse_sequence}
use nfs_rs.Nfs41.Callback.Handle.{Admission, answered, admitted, admit_sequence, admit}

-- A flavour and a body of any length.
unfoldable pub opaque_auth : Reader (Unit {0})
opaque_auth = do flavor ← get_u32; len ← get_u32; advance (padded len); pure tt

-- The arguments of a CB_SEQUENCE, up to its slot.
abbrev sequence_words : Reader SequenceArgs
sequence_words = do
  session_id ← split_to 16
  sequence_id ← get_u32
  slot_id ← get_u32
  pure (record { session_id = session_id; sequence_id = sequence_id; slot_id = slot_id })

-- The session, the number and the slot of the CB_SEQUENCE at the head of a compound.
unfoldable pub call_sequence : Reader SequenceArgs
call_sequence = do
  tag ← take_opaque
  minor_version ← get_u32
  callback_ident ← get_u32
  num_ops ← get_u32
  opcode ← get_u32
  if not (opcode == 11) then fail xdr else sequence_words

-- The compound, which is all that is behind the header, and its CB_SEQUENCE.
unfoldable pub call_body : Reader (List ℕ × SequenceArgs)
unfolding opaque_auth call_sequence
call_body = do
  msg_type ← get_u32
  rpc_version ← get_u32
  program ← get_u32
  version ← get_u32
  procedure ← get_u32
  credential ← opaque_auth
  verifier ← opaque_auth
  request ← view
  sequence ← call_sequence
  pure (request, sequence)

-- Its number, its compound and its CB_SEQUENCE.
unfoldable pub call : Reader (ℕ × List ℕ × SequenceArgs)
unfolding call_body
call = do xid ← get_u32; body ← call_body; pure (xid, body.0, body.1)

-- What the code makes of bytes is nothing (`Q`), or it is in the relation `R` to the description.
pub record Tells {A B : Type 0} (Q : A → Type 0) (R : A → B → Type 0) (m : Reader A) (k : Reader B)
    : Type 0 where
  pub tells :
      (s : List ℕ) (a : A) (r : List ℕ)
      → All IsByte s
      → m s ≡ ok (a, r)
      → Q a ⊎ ((b : B) × (t : List ℕ) × (k s ≡ ok (b, t)) × R a b)

-- A reader takes as many bytes as another.
record Covers {A B : Type 0} (m : Reader A) (k : Reader B) : Type 0 where
  covers : (s : List ℕ) (a : A) (r : List ℕ) → m s ≡ ok (a, r) → (b : B) × (k s ≡ ok (b, r))

require-keeps :
    (n : ℕ) (e : NfsError) (s : List ℕ) {a : Unit {0}} {r : List ℕ}
    → require n e s ≡ ok (a, r)
    → r ≡ s
unfolding require
require-keeps n e s {a} {r} h = elim (Bool-cases (leb n (length s))) [
  | inl t ↦ ground (arith, rw t at h)
  | inr f ↦ absurd (ground (arith, f, h))
]

module _ {X A B : Type 0} where
  bind-Covers :
      (x : Reader X) {f : X → Reader A} {g : X → Reader B}
      → ((a : X) → Covers (f a) (g a))
      → Covers (x >>= f) (x >>= g)
  bind-Covers x {f} {g} p = record {
    covers = λ s a r h.
        (let (c, t, first, second) = >>=-inv x f s h in
          let (b, run) = (p c).covers t a r second in (b, >>=-run x g first run));
  }

  pub bind-Tells :
      {Q : A → Type 0} {R : A → B → Type 0} {x : Reader X} {f : X → Reader A} {g : X → Reader B}
      → Inherits Any x
      → ((a : X) → Tells Q R (f a) (g a))
      → Tells Q R (x >>= f) (x >>= g)
  bind-Tells {x} {f} {g} i p = record {
    tells = λ s a r bytes h.
        (let (c, t, first, second) = >>=-inv x f s h in
          elim ((p c).tells t a r (i.passes s c t bytes first).1 second) [
            | inl quiet ↦ inl quiet
            | inr (b, u, run, related) ↦ inr (b, u, >>=-run x g first run, related)
          ]);
  }

module _ {A B : Type 0} where
  guard-Covers :
      (n : ℕ) (e : NfsError) {m : Reader A} {k : Reader B}
      → Covers m k
      → Covers (require n e >>= λ _. m) k
  guard-Covers n e {m} {k} p = record {
    covers = λ s a r h.
        (let (c, t, first, second) = >>=-inv (require n e) (λ _. m) s h in
          p.covers s a r (subst (λ u. m u ≡ ok (a, r)) (require-keeps n e s first) second));
  }

  pure-Covers : (a : A) (b : B) → Covers (pure a) (pure b)
  unfolding pure
  pure-Covers a b = record { covers = λ s c r h. (b, ground (arith, h)) }

  pub guard-Tells :
      {Q : A → Type 0} {R : A → B → Type 0} (n : ℕ) (e : NfsError) {m : Reader A} {k : Reader B}
      → Tells Q R m k
      → Tells Q R (require n e >>= λ _. m) k
  guard-Tells n e {m} p = record {
    tells = λ s a r bytes h.
        (let (c, t, first, second) = >>=-inv (require n e) (λ _. m) s h in
          p.tells s a r bytes (subst (λ u. m u ≡ ok (a, r)) (require-keeps n e s first) second));
  }

  pub left-Tells :
      {Q : A → Type 0} {R : A → B → Type 0} {f : ℕ → Reader A} {k : Reader B}
      → ((n : ℕ) → Tells Q R (f n) k)
      → Tells Q R (remaining >>= f) k
  unfolding ◌>>=◌ remaining
  left-Tells p = record { tells = λ s a r bytes h. (p (length s)).tells s a r bytes h }

  pub if-Tells :
      {Q : A → Type 0} {R : A → B → Type 0} {m n : Reader A} {k : Reader B} (b : Bool)
      → Tells Q R m k
      → Tells Q R n k
      → Tells Q R (if b then m else n) k
  if-Tells true p q = p
  if-Tells false p q = q

  pub fail-Tells :
      {Q : A → Type 0} {R : A → B → Type 0} (e : NfsError) {k : Reader B} → Tells Q R (fail e) k
  unfolding fail
  fail-Tells e = record { tells = λ s a r bytes h. absurd (ground (arith, h)) }

  pub quiet-Tells :
      {Q : A → Type 0} {R : A → B → Type 0} (a : A) {k : Reader B} → Q a → Tells Q R (pure a) k
  unfolding pure
  quiet-Tells {Q} a q = record { tells = λ s c r bytes h. inl (subst Q (ok-inj h) q) }

read_rpc_auth-Covers : Covers read_rpc_auth opaque_auth
unfolding read_rpc_auth opaque_auth
read_rpc_auth-Covers = guard-Covers 8 xdr (
    bind-Covers get_u32 λ flavor. bind-Covers get_u32 λ len.
      guard-Covers (padded len) xdr (bind-Covers (advance (padded len)) λ _. pure-Covers _ tt))

-- The reader of the credential and of the verifier.
pub auth-Tells :
    {A B : Type 0} {Q : A → Type 0} {R : A → B → Type 0} {f : ℕ × ℕ → Reader A} {k : Reader B}
    → Inherits Any read_rpc_auth
    → ((a : ℕ × ℕ) → Tells Q R (f a) k)
    → Tells Q R (read_rpc_auth >>= f) (opaque_auth >>= λ _. k)
auth-Tells {f} {k} i p = record {
  tells = λ s a r bytes h.
      (let (c, t, first, second) = >>=-inv read_rpc_auth f s h in
        let (b, taken) = read_rpc_auth-Covers.covers s c t first in
        elim ((p c).tells t a r (i.passes s c t bytes first).1 second) [
          | inl quiet ↦ inl quiet
          | inr (q, u, run, related) ↦ inr (q, u, >>=-run opaque_auth (λ _. k) taken run, related)
        ]);
}

end-Tells :
    {A B : Type 0} {Q : A → Type 0} {R : A → B → Type 0} {m : Reader A} (b : B)
    → Always (λ a. R a b) m
    → Tells Q R m (pure b)
unfolding pure
end-Tells b p = record { tells = λ s a r bytes h. inr (b, s, refl, p.holds s a r h) }

abbrev Never : SequenceArgs → Type 0
Never q = ⊥

abbrev Same : SequenceArgs → SequenceArgs → Type 0
Same q q' = q ≡ q'

pub u32-Any : Inherits Any get_u32
u32-Any = record { passes = λ s a r bytes h. (tt, (get_u32-Inherits.passes s a r bytes h).1) }

parse_sequence-Tells : Tells Never Same parse_sequence sequence_words
unfolding parse_sequence
parse_sequence-Tells = guard-Tells 32 xdr (
    bind-Tells (split_to-Inherits 16) λ session_id. bind-Tells u32-Any λ sequence_id.
      bind-Tells u32-Any λ slot_id. end-Tells _ (
        bind-Always _ λ highest. bind-Always _ λ cache. bind-Always _ λ _. bind-Always _ λ count.
          if-Always (ltb 256 count) (fail-Always xdr) (bind-Always _ λ lists. pure-Always _ refl)))

-- An admission that is a reply, or the CB_SEQUENCE of the call.
abbrev pub IsAnswered : Admission → Type 0
IsAnswered a = (reply : List ℕ) × (a ≡ answered reply)

abbrev pub IsAdmitted : Admission → SequenceArgs → Type 0
IsAdmitted a q = (tag : List ℕ) × (n : ℕ) × (a ≡ admitted tag n q)

attempt-Tells :
    {m k : Reader SequenceArgs} (f : Option SequenceArgs → Admission)
    → Tells Never Same m k
    → IsAnswered (f none)
    → ((q : SequenceArgs) → IsAnswered (f (some q)) ⊎ IsAdmitted (f (some q)) q)
    → Tells IsAnswered IsAdmitted (attempt m >>= λ tried. pure (f tried)) k
unfolding ◌>>=◌ attempt and_then pure
attempt-Tells {m} {k} f p gone found = record {
  tells = λ s a r bytes h. go s a r (m s) (λ x t e. p.tells s x t bytes e) h;
}
  where
    go :
        (s : List ℕ) (a : Admission) (r : List ℕ) (o : Outcome (SequenceArgs × List ℕ))
        → ((x : SequenceArgs) (t : List ℕ)
            → o ≡ ok (x, t)
            → Never x ⊎ ((b : SequenceArgs) × (u : List ℕ) × (k s ≡ ok (b, u)) × Same x b))
        → and_then
            (elim o as (λ _. Outcome (Option SequenceArgs × List ℕ)) [
              | ok (x, t) ↦ ok (some x, t)
              | err e ↦ ok (none, s)
              | panic ↦ panic
            ])
            (λ tried t. ok (f tried, t))
          ≡ ok (a, r)
        → IsAnswered a ⊎ ((b : SequenceArgs) × (u : List ℕ) × (k s ≡ ok (b, u)) × IsAdmitted a b)
    go s a r (ok (x, t)) q h = elim (q x t refl) [
      | inl never ↦ absurd never
      | inr (b, u, run, same) ↦ elim (found x) [
        | inl reply ↦ inl (subst IsAnswered (ok-inj h) reply)
        | inr first ↦ inr (
          b,
          u,
          run,
          subst (λ c. IsAdmitted c b) (ok-inj h) (subst (IsAdmitted (f (some x))) same first),
        )
      ]
    ]
    go s a r (err e) q h = inl (subst IsAnswered (ok-inj h) gone)
    go s a r panic q h = absurd (ground (arith, h))

admit_sequence-Tells :
    (tag : List ℕ) (n : ℕ) (session : CallbackSession)
    → Tells IsAnswered IsAdmitted (admit_sequence tag n session) sequence_words
unfolding admit_sequence
admit_sequence-Tells tag n session =
    attempt-Tells _ parse_sequence-Tells (_, refl)
      λ q. elim (Bool-cases (not (bytes_eq q.session_id session.session_id))) [
        | inl t ↦ rw t (inl (_, refl))
        | inr f ↦ rw f (inr (tag, n, refl))
      ]

pub admit-Tells :
    (request : List ℕ) (session : CallbackSession)
    → Tells IsAnswered IsAdmitted (admit request session) call_sequence
unfolding admit call_sequence
admit-Tells request session = bind-Tells take_opaque-Inherits λ tag. guard-Tells 12 xdr (
    bind-Tells u32-Any λ minor. bind-Tells u32-Any λ ident. bind-Tells u32-Any λ num_ops.
      left-Tells λ left. if-Tells (not (minor == session.minor_version)) (quiet-Tells _ (_, refl)) (
        if-Tells
          (ltb session.max_request_size (length request) || ltb session.max_operations num_ops)
          (quiet-Tells _ (_, refl))
          (if-Tells (num_ops == 0) (quiet-Tells _ (_, refl)) (
            if-Tells (ltb left 4) (quiet-Tells _ (_, refl)) (
              bind-Tells u32-Any λ first. elim (Bool-cases (not (first == 11))) [
                | inl t ↦ rw t (quiet-Tells _ (_, refl))
                | inr f ↦ rw f (admit_sequence-Tells tag num_ops session)
              ])))))
