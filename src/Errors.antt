-- ===== src/Errors.antt =====
-- src/error.rs: the error type of the client and its predicates. The message texts are left out
-- (a variant that holds only a text is a constructor with no field), and a status of NFSv3 or
-- NFSv4 is its number on the wire. An `io::Error` is its kind with the payload that the client
-- put into it, if any.
pub mod Classify
mod Tests
use nfs_rs.Common.{
  ℕ, Bool, true, false, ◌&&◌, ◌||◌, not, Option, none, some, List, ◌==◌, if◌then◌else◌,
}

pub data OperationOutcome : Type 0 where
  definite_failure safe_to_retry uncertain : OperationOutcome

pub data OperationClass : Type 0 where
  read_only session_control replay_sensitive : OperationClass

pub data RecoveryAction : Type 0 where
  retry reopen remount verify_then_resume do_not_retry : RecoveryAction

pub data RetryExhaustion : Type 0 where
  retry_limit deadline : RetryExhaustion

pub data RequestTransmission : Type 0 where
  not_sent sent : RequestTransmission

-- `std::io::ErrorKind`: the kinds that the client names, and the others.
pub data ErrorKind : Type 0 where
  broken_pipe connection_reset connection_aborted unexpected_eof not_connected : ErrorKind
  connection_refused would_block unsupported_kind invalid_input_kind : ErrorKind
  permission_denied host_unreachable network_unreachable timed_out interrupted other : ErrorKind
  unlisted : ℕ → ErrorKind

pub data NfsVersion : Type 0 where
  unknown nfs_v3 nfs_v4p0 nfs_v4 nfs_v4p1 nfs_v4p2 : NfsVersion

pub data RequestId : Type 0 where
  nfs40_owner : ℕ → ℕ → RequestId
  nfs41_session : List ℕ → ℕ → ℕ → RequestId

pub record RequestContext : Type 0 where
  pub operation : List ℕ
  pub protocol : NfsVersion
  pub request_id : Option RequestId

mutual
  pub data NfsError : Type 0 where
    server_busy : ServerBusyError → NfsError
    io : ErrorKind → Payload → NfsError
    nfs3 : ℕ → NfsError
    nfs4 : ℕ → NfsError
    lock_denied : ℕ → ℕ → ℕ → List ℕ → NfsError
    mount : ℕ → NfsError
    rpc xdr unsupported invalid_input closed_resource mode_violation : NfsError
    client_closed position_uncertain lost_open_state : NfsError
    file_close : FileCloseFailures → NfsError
    rdattr_error : ℕ → NfsError
    operation_outcome : OperationOutcomeError → NfsError

  -- Context, retries, elapsed milliseconds, reason, source.
  pub data ServerBusyError : Type 0 where
    busy_error : RequestContext → ℕ → ℕ → RetryExhaustion → NfsError → ServerBusyError

  pub data Payload : Type 0 where
    plain : Payload
    transport_failure : RequestTransmission → NfsError → Payload

  -- The vector of failures, each an operation's name and its error.
  pub data FileCloseFailures : Type 0 where
    no_more : FileCloseFailures
    failure : List ℕ → NfsError → FileCloseFailures → FileCloseFailures

  -- Outcome, class, transmission, recovery, completed bytes, source, context.
  pub data OperationOutcomeError : Type 0 where
    outcome_error :
        OperationOutcome
        → OperationClass
        → RequestTransmission
        → RecoveryAction
        → Option ℕ
        → NfsError
        → RequestContext
        → OperationOutcomeError

pub kind : NfsError → ErrorKind
kind (server_busy e) = would_block
kind (io k p) = k
kind (nfs3 s) = other
kind (nfs4 s) = other
kind (lock_denied t o l w) = would_block
kind (mount s) = other
kind rpc = other
kind xdr = other
kind unsupported = unsupported_kind
kind invalid_input = invalid_input_kind
kind closed_resource = not_connected
kind mode_violation = permission_denied
kind client_closed = not_connected
kind position_uncertain = other
kind lost_open_state = other
kind (file_close fs) = other
kind (rdattr_error s) = other
kind (operation_outcome o) = other

is_uncertain : OperationOutcome → Bool
is_uncertain uncertain = true
is_uncertain definite_failure = false
is_uncertain safe_to_retry = false

unfoldable mutual
  unfolding is_uncertain

  pub contains_uncertain_outcome : NfsError → Bool
  contains_uncertain_outcome (operation_outcome o) = outcome_uncertain o
  contains_uncertain_outcome (file_close fs) = any_uncertain fs
  contains_uncertain_outcome (server_busy b) = busy_uncertain b
  contains_uncertain_outcome _ = false

  pub outcome_uncertain : OperationOutcomeError → Bool
  outcome_uncertain (outcome_error o c t r n e x) = is_uncertain o || contains_uncertain_outcome e

  pub busy_uncertain : ServerBusyError → Bool
  busy_uncertain (busy_error x n t r e) = contains_uncertain_outcome e

  pub any_uncertain : FileCloseFailures → Bool
  any_uncertain no_more = false
  any_uncertain (failure n e fs) = contains_uncertain_outcome e || any_uncertain fs

-- `if self.contains_uncertain_outcome() { return false; }`
abbrev unless_uncertain : Bool → Bool → Bool
unless_uncertain u b = if u then false else b

unfoldable mutual
  unfolding is_uncertain contains_uncertain_outcome

  pub is_server_busy : NfsError → Bool
  is_server_busy (server_busy b) =
      unless_uncertain (contains_uncertain_outcome (server_busy b)) true
  is_server_busy (nfs3 s) = s == 10008
  is_server_busy (nfs4 s) = s == 10008 || s == 10013
  is_server_busy (operation_outcome o) =
      unless_uncertain (contains_uncertain_outcome (operation_outcome o)) (outcome_busy o)
  is_server_busy (file_close fs) =
      unless_uncertain (contains_uncertain_outcome (file_close fs))
        (not (any_uncertain fs) && any_busy fs)
  is_server_busy _ = false

  pub outcome_busy : OperationOutcomeError → Bool
  outcome_busy (outcome_error o c t r n e x) = not (is_uncertain o) && is_server_busy e

  pub any_busy : FileCloseFailures → Bool
  any_busy no_more = false
  any_busy (failure n e fs) = is_server_busy e || any_busy fs

unfoldable mutual
  pub transport_error_kind : NfsError → Option ErrorKind
  transport_error_kind (io k p) = some k
  transport_error_kind (operation_outcome o) = outcome_error_kind o
  transport_error_kind _ = none

  pub outcome_error_kind : OperationOutcomeError → Option ErrorKind
  outcome_error_kind (outcome_error o c t r n e x) = transport_error_kind e

lost : ErrorKind → Bool
lost broken_pipe = true
lost connection_reset = true
lost connection_aborted = true
lost unexpected_eof = true
lost not_connected = true
lost connection_refused = true
lost _ = false

pub is_connection_lost : NfsError → Bool
unfolding lost
is_connection_lost e = elim (transport_error_kind e) [ some k ↦ lost k | none ↦ false ]

payload_transmission : Payload → Option RequestTransmission
payload_transmission plain = none
payload_transmission (transport_failure t e) = some t

outcome_transmission : OperationOutcomeError → RequestTransmission
outcome_transmission (outcome_error o c t r n e x) = t

pub request_transmission : NfsError → Option RequestTransmission
unfolding payload_transmission outcome_transmission
request_transmission (io k p) = payload_transmission p
request_transmission (operation_outcome o) = some (outcome_transmission o)
request_transmission _ = none

pub transport : RequestTransmission → NfsError → NfsError
transport t source = io (kind source) (transport_failure t source)

or_else {ℓ} : {A : Type ℓ} → Option A → Option A → Option A
or_else (some a) o = some a
or_else none o = o

unfoldable mutual
  unfolding or_else

  pub first_outcome : NfsError → Option OperationOutcomeError
  first_outcome (operation_outcome o) = some o
  first_outcome (file_close fs) = first_failure_outcome fs
  first_outcome _ = none

  pub first_failure_outcome : FileCloseFailures → Option OperationOutcomeError
  first_failure_outcome no_more = none
  first_failure_outcome (failure n e fs) = or_else (first_outcome e) (first_failure_outcome fs)
