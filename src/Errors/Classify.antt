-- ===== src/Errors/Classify.antt =====
-- src/error.rs: what a failed request is reported as. A request without an authoritative result is
-- safe to repeat only where it changes nothing.
use nfs_rs.Common.{
  ℕ, ◌≡◌, ◌≢◌, refl, Bool, true, false, ◌||◌, Option, none, some, ◌==◌, if◌then◌else◌, arith,
  Bool-cases, inl, inr, ◌⊎◌,
}
use nfs_rs.Errors.{
  OperationOutcome, definite_failure, safe_to_retry, uncertain, OperationClass, read_only,
  session_control, replay_sensitive, RecoveryAction, retry, remount, verify_then_resume,
  RequestTransmission, not_sent, sent, RequestContext, NfsError, server_busy, io, nfs3, nfs4, rpc,
  xdr, lock_denied, mount, unsupported, invalid_input, closed_resource, mode_violation,
  client_closed, position_uncertain, lost_open_state, rdattr_error, file_close, operation_outcome,
  OperationOutcomeError, outcome_error, contains_uncertain_outcome, is_uncertain, is_server_busy,
  request_transmission,
}

-- `OperationOutcomeError::new`.
pub outcome_new :
    OperationOutcome
    → OperationClass
    → RecoveryAction
    → RequestContext
    → NfsError
    → OperationOutcomeError
outcome_new outcome class recovery context source =
    outcome_error outcome class sent recovery none source context

pub with_completed_bytes : ℕ → OperationOutcomeError → OperationOutcomeError
with_completed_bytes n (outcome_error o c t r _ e x) = outcome_error o c t r (some n) e x

pub before_send_failure : OperationClass → RequestContext → Option ℕ → NfsError → NfsError
before_send_failure class context completed source =
    operation_outcome (outcome_error definite_failure class not_sent retry completed source context)

pub is_not_sent : Option RequestTransmission → Bool
is_not_sent (some not_sent) = true
is_not_sent (some sent) = false
is_not_sent none = false

is_sent : Option RequestTransmission → Bool
is_sent (some sent) = true
is_sent (some not_sent) = false
is_sent none = false

-- `matches!(&source, Io(_) | Rpc(_) | Xdr(_))`.
is_transport : NfsError → Bool
is_transport (io k p) = true
is_transport rpc = true
is_transport xdr = true
is_transport _ = false

pub disposition : OperationClass → OperationOutcome × RecoveryAction
disposition read_only = (safe_to_retry, retry)
disposition session_control = (uncertain, remount)
disposition replay_sensitive = (uncertain, verify_then_resume)

pub lacks_authoritative_result : NfsError → Bool → Bool
unfolding is_sent is_transport
lacks_authoritative_result source replay_protocol_error =
    replay_protocol_error || (is_sent (request_transmission source) || is_transport source)

unfoldable pub classify_non_authoritative_error :
    OperationClass → RequestContext → NfsError → Bool → NfsError
unfolding before_send_failure is_not_sent lacks_authoritative_result disposition outcome_new
classify_non_authoritative_error class context source replay_protocol_error =
    if is_not_sent (request_transmission source)
    then before_send_failure class context none source
    else if lacks_authoritative_result source replay_protocol_error
    then operation_outcome
        (outcome_new (disposition class).0 class (disposition class).1 context source)
    else source

-- NFS4ERR_RETRY_UNCACHED_REP and NFS4ERR_SEQ_FALSE_RETRY.
is_replay_protocol_error : NfsError → Bool
is_replay_protocol_error (nfs4 status) = status == 10068 || status == 10076
is_replay_protocol_error _ = false

pub classify_sent_nfs41_error : OperationClass → RequestContext → NfsError → NfsError
unfolding classify_non_authoritative_error is_replay_protocol_error
classify_sent_nfs41_error class context source =
    classify_non_authoritative_error class context source (is_replay_protocol_error source)

pub classify_sent_nfs3_error : OperationClass → RequestContext → NfsError → NfsError
unfolding classify_non_authoritative_error
classify_sent_nfs3_error class context source =
    classify_non_authoritative_error class context source false

pub classify_sent_nfs40_error : OperationClass → RequestContext → NfsError → NfsError
unfolding classify_non_authoritative_error
classify_sent_nfs40_error class context source =
    classify_non_authoritative_error class context source false

-- An error that counts as a busy server holds no uncertain outcome at any depth, so a request that
-- may have taken effect is not repeated as one that the server put off.
pub is_server_busy-certain :
    (e : NfsError) → is_server_busy e ≡ true → contains_uncertain_outcome e ≡ false
unfolding is_server_busy contains_uncertain_outcome
is_server_busy-certain (server_busy b) h = ground (arith, h)
is_server_busy-certain (io k p) h = refl
is_server_busy-certain (nfs3 s) h = refl
is_server_busy-certain (nfs4 s) h = refl
is_server_busy-certain (lock_denied t o l w) h = refl
is_server_busy-certain (mount s) h = refl
is_server_busy-certain rpc h = refl
is_server_busy-certain xdr h = refl
is_server_busy-certain unsupported h = refl
is_server_busy-certain invalid_input h = refl
is_server_busy-certain closed_resource h = refl
is_server_busy-certain mode_violation h = refl
is_server_busy-certain client_closed h = refl
is_server_busy-certain position_uncertain h = refl
is_server_busy-certain lost_open_state h = refl
is_server_busy-certain (file_close fs) h = ground (arith, h)
is_server_busy-certain (rdattr_error s) h = refl
is_server_busy-certain (operation_outcome o) h = ground (arith, h)

not_sent-eq : (t : Option RequestTransmission) → is_not_sent t ≡ true → t ≡ some not_sent
unfolding is_not_sent
not_sent-eq none h = ground arith
not_sent-eq (some not_sent) h = refl
not_sent-eq (some sent) h = ground arith

open_class :
    (class : OperationClass) → class ≢ read_only → is_uncertain (disposition class).0 ≡ true
unfolding disposition is_uncertain
open_class read_only h = absurd (h refl)
open_class session_control h = refl
open_class replay_sensitive h = refl

-- Errors that leave open whether the request took effect: the transport failed, the RPC layer
-- failed, the reply was not understood, an error says that the request was sent, or the server
-- answers that it does not keep the reply of the request (NFS4ERR_RETRY_UNCACHED_REP) or that
-- another request had its number (NFS4ERR_SEQ_FALSE_RETRY).
unfoldable pub leaves_open : NfsError → Bool
leaves_open (io k p) = true
leaves_open rpc = true
leaves_open xdr = true
leaves_open (operation_outcome o) = true
leaves_open (nfs4 status) = status == 10068 || status == 10076
leaves_open _ = false

lacks-leaves_open :
    (e : NfsError)
    → is_not_sent (request_transmission e) ≡ false
    → lacks_authoritative_result e (is_replay_protocol_error e) ≡ leaves_open e
unfolding lacks_authoritative_result is_replay_protocol_error leaves_open request_transmission
    is_not_sent is_sent is_transport
lacks-leaves_open (server_busy b) h = refl
lacks-leaves_open (nfs3 s) h = refl
lacks-leaves_open (nfs4 s) h = ground arith
lacks-leaves_open (lock_denied t o l w) h = refl
lacks-leaves_open (mount s) h = refl
lacks-leaves_open unsupported h = refl
lacks-leaves_open invalid_input h = refl
lacks-leaves_open closed_resource h = refl
lacks-leaves_open mode_violation h = refl
lacks-leaves_open client_closed h = refl
lacks-leaves_open position_uncertain h = refl
lacks-leaves_open lost_open_state h = refl
lacks-leaves_open (rdattr_error s) h = refl
lacks-leaves_open (file_close fs) h = refl
lacks-leaves_open (io k p) h = ground arith
lacks-leaves_open rpc h = refl
lacks-leaves_open xdr h = refl
lacks-leaves_open (operation_outcome (outcome_error o c not_sent r n e x)) h =
    absurd (ground (arith, h))
lacks-leaves_open (operation_outcome (outcome_error o c sent r n e x)) h = refl

-- For an NFSv4.1 request that is not read-only and for an error that does not say that the request
-- was not sent, there are two cases. Where the error leaves open whether the request took effect
-- (an I/O or RPC failure, a reply that was not understood, an outcome of a request that was sent, or
-- NFS4ERR_RETRY_UNCACHED_REP or NFS4ERR_SEQ_FALSE_RETRY), the caller gets an uncertain outcome.
-- Every other error is given to the caller as it is.
pub classify_sent_nfs41_error-cases :
    (class : OperationClass) (context : RequestContext) (source : NfsError)
    → class ≢ read_only
    → request_transmission source ≢ some not_sent
    → ((leaves_open source ≡ true)
        × (contains_uncertain_outcome (classify_sent_nfs41_error class context source) ≡ true))
      ⊎ ((leaves_open source ≡ false) × (classify_sent_nfs41_error class context source ≡ source))
unfolding classify_sent_nfs41_error classify_non_authoritative_error contains_uncertain_outcome
    outcome_new
classify_sent_nfs41_error-cases class context source h maybe =
    elim (Bool-cases (is_not_sent (request_transmission source))) [
      | inl n ↦ absurd (maybe (not_sent-eq (request_transmission source) n))
      | inr n ↦ elim (Bool-cases (leaves_open source)) [
        | inl t ↦ inl (t, rw (n, lacks-leaves_open source n, t) (rw (open_class class h) refl))
        | inr f ↦ inr (f, rw (n, lacks-leaves_open source n, f) refl)
      ]
    ]

-- No error comes to count as a busy server by its classification: then its source did so before.
pub classify_non_authoritative_error-busy :
    (class : OperationClass) (context : RequestContext) (source : NfsError) (replay : Bool)
    → is_server_busy (classify_non_authoritative_error class context source replay) ≡ true
    → is_server_busy source ≡ true
unfolding classify_non_authoritative_error is_server_busy before_send_failure outcome_new
classify_non_authoritative_error-busy class context source replay h =
    elim (Bool-cases (is_not_sent (request_transmission source))) [
      | inl n ↦ ground (arith, n, h)
      | inr n ↦ elim (Bool-cases (lacks_authoritative_result source replay)) [
        | inl a ↦ ground (arith, n, a, h)
        | inr a ↦ ground (arith, n, a, h)
      ]
    ]
