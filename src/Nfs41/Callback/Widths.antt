-- ===== src/Nfs41/Callback/Widths.antt =====
-- nfs41/callback.rs: the numbers of a call that is made of bytes.
use nfs_rs.Common.{
  ℕ, ◌≡◌, refl, subst, true, not, ◌||◌, List, Option, none, some, ltb, ◌==◌, if◌then◌else◌, length,
  arith, Bool-cases, inl, inr, bytes_eq,
}
use nfs_rs.Errors.{xdr}
use nfs_rs.Wire.{Reader, Outcome, ok, err, panic, IsU32}
use nfs_rs.Wire.Gives.{
  Gives, ok-inj, pure-Always, fail-Always, Always-Gives, if-Gives, if-Always, bind-Always,
  bind-Gives, then-Gives, require-Inherits, remaining-Inherits, get_u32-Inherits, split_to-Inherits,
  take_opaque-Inherits,
}
use nfs_rs.Nfs41.Callback.{CallbackSession}
use nfs_rs.Nfs41.Callback.Parse.{attempt, SequenceArgs, parse_sequence}
use nfs_rs.Nfs41.Callback.Handle.{Admission, answered, admitted, refused, admit_sequence, admit}

abbrev IfSome {ℓ} : {A : Type ℓ} → (A → Type 0) → Option A → Type 0
IfSome P none = Unit {0}
IfSome P (some a) = P a

attempt-Gives {ℓ} :
    {A : Type ℓ} {P : A → Type 0} {m : Reader A} → Gives P m → Gives (IfSome P) (attempt m)
unfolding attempt
attempt-Gives {A} {P} {m} p = record {
  gives = λ s a r bytes h. go s a r (m s) (λ x t e. p.gives s x t bytes e) h;
}
  where
    go :
        (s : List ℕ) (a : Option A) (r : List ℕ) (o : Outcome (A × List ℕ))
        → ((x : A) (t : List ℕ) → o ≡ ok (x, t) → P x)
        → ◌≡◌ {A = Outcome (Option A × List ℕ)}
            (elim o as (λ _. Outcome (Option A × List ℕ)) [
              | ok (x, t) ↦ ok (some x, t)
              | err e ↦ ok (none, s)
              | panic ↦ panic
            ])
            (ok (a, r))
        → IfSome P a
    go s a r (ok (x, t)) q h = subst (IfSome P) (ok-inj h) (q x t refl)
    go s a r (err e) q h = subst (IfSome P) (ok-inj h) tt
    go s a r panic q h = absurd (ground (arith, h))

-- What is known of a CB_SEQUENCE that was read.
abbrev pub Fits : CallbackSession → Admission → Type 0
Fits session (answered reply) = Unit {0}
Fits session (admitted tag num_ops sequence) =
    IsU32 sequence.sequence_id × (bytes_eq sequence.session_id session.session_id ≡ true)

parse_sequence-Gives : Gives (λ q. IsU32 q.sequence_id) parse_sequence
unfolding parse_sequence
parse_sequence-Gives = bind-Gives (require-Inherits 32 xdr) λ _ _.
    bind-Gives (split_to-Inherits 16) λ id _. bind-Gives get_u32-Inherits λ sequence wide.
      Always-Gives (
        bind-Always _ λ slot. bind-Always _ λ highest. bind-Always _ λ cache. bind-Always _ λ _.
          bind-Always _ λ count.
            if-Always (ltb 256 count) (fail-Always xdr) (bind-Always _ λ lists. pure-Always _ wide))

admit_sequence-Gives :
    (tag : List ℕ) (num_ops : ℕ) (session : CallbackSession)
    → Gives (Fits session) (admit_sequence tag num_ops session)
unfolding admit_sequence
admit_sequence-Gives tag num_ops session =
    then-Gives (attempt-Gives parse_sequence-Gives) λ tried wide. pure-Always _ (go tried wide)
  where
    go :
        (tried : Option SequenceArgs)
        → IfSome (λ q. IsU32 q.sequence_id) tried
        → Fits session (elim tried as (λ _. Admission) [
          | none ↦ answered (refused tag 11 10036)
          | some sequence ↦
              if not (bytes_eq sequence.session_id session.session_id)
              then answered (refused tag 11 10052)
              else admitted tag num_ops sequence
        ])
    go none wide = tt
    go (some q) wide = elim (Bool-cases (not (bytes_eq q.session_id session.session_id))) [
      | inl t ↦ rw t tt
      | inr f ↦ rw f (wide, ground (arith, f))
    ]

pub admit-Gives :
    (request : List ℕ) (session : CallbackSession) → Gives (Fits session) (admit request session)
unfolding admit
admit-Gives request session = bind-Gives take_opaque-Inherits λ tag _.
    bind-Gives (require-Inherits 12 xdr) λ _ _. bind-Gives get_u32-Inherits λ minor _.
      bind-Gives get_u32-Inherits λ ident _. bind-Gives get_u32-Inherits λ num_ops _.
        bind-Gives remaining-Inherits λ left _.
          if-Gives (not (minor == session.minor_version)) (Always-Gives (pure-Always _ tt)) (
            if-Gives
              (ltb session.max_request_size (length request) || ltb session.max_operations num_ops)
              (Always-Gives (pure-Always _ tt))
              (if-Gives (num_ops == 0) (Always-Gives (pure-Always _ tt)) (
                if-Gives (ltb left 4) (Always-Gives (pure-Always _ tt)) (
                  bind-Gives get_u32-Inherits λ first _.
                    if-Gives (not (first == 11)) (Always-Gives (pure-Always _ tt))
                      (admit_sequence-Gives tag num_ops session)))))
