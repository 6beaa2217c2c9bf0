-- ===== src/Retry.antt =====
-- src/retry.rs: the budget of an operation for waits after a busy reply. Instants and durations are
-- milliseconds. The clock, the random number and the tokio timer are outside: what one call of
-- `backoff` reads of them is an argument, Moments. The task-local variables are an argument, Locals.
pub mod Bounds
mod Tests
use nfs_rs.Common.{
  ℕ, ◌+◌, ◌-◌, ◌*◌, ◌/◌, ◌^◌, ◌≤◌, ◌<◌, min, Bool, true, false, List, [], ◌∷◌, Option, none, some,
  ltb, leb, if◌then◌else◌,
}
use nfs_rs.Errors.{
  NfsError, server_busy, busy_error, io, plain, interrupted, RequestContext, RetryExhaustion,
  retry_limit, deadline, not_sent, transport,
}

abbrev pub max_retries : ℕ
max_retries = 16

abbrev pub max_elapsed : ℕ
max_elapsed = 60000

abbrev pub base_ms : ℕ
base_ms = 200

abbrev pub cap_ms : ℕ
cap_ms = 5000

pub record Budget : Type 0 where
  pub started : ℕ
  pub deadline : ℕ
  pub retries : ℕ

-- BUDGET and CALLER_DEADLINE.
pub record Locals : Type 0 where
  pub budget : Option Budget
  pub caller : Option ℕ

-- `deadline.min(...)` where the variable is set.
abbrev earliest : ℕ → Option ℕ → ℕ
earliest d none = d
earliest d (some e) = min d e

abbrev deadline_of : Option Budget → Option ℕ
deadline_of none = none
deadline_of (some b) = some b.deadline

unfoldable pub cap_deadline : Locals → ℕ → ℕ
cap_deadline l d = earliest (earliest d (deadline_of l.budget)) l.caller

unfoldable pub new : Locals → ℕ → Budget
unfolding cap_deadline
new l now = record { started = now; deadline = cap_deadline l (now + max_elapsed); retries = 0 }

unfoldable pub exhausted : Budget → ℕ → RequestContext → NfsError → RetryExhaustion → NfsError
exhausted b now context source reason =
    server_busy (busy_error context b.retries (now - b.started) reason source)

pub cancelled_read : NfsError
cancelled_read = transport not_sent (io interrupted plain)

-- What one call reads: the clock at its start, before the sleep and after it, the number that
-- `random_range` gives, and whether the waiter was dropped before the sleep ended.
pub record Moments : Type 0 where
  pub entered_at : ℕ
  pub waiting_at : ℕ
  pub woken_at : ℕ
  pub wait : ℕ
  pub cancelled : Bool

unfoldable pub maximum : ℕ → ℕ
maximum attempt = min (min (base_ms * 2 ^ attempt) (2 ^ 64 - 1)) cap_ms

-- The instant that `sleep_until` is given.
unfoldable pub wake_at : Moments → ℕ → ℕ
wake_at m until = min (m.waiting_at + m.wait) until

unfoldable pub backoff :
    Locals → Moments → RequestContext → NfsError → Budget → Option NfsError × Budget
unfolding cap_deadline
backoff l m context source b =
    let until = cap_deadline l b.deadline in
    if leb until m.entered_at
    then (some (exhausted b m.entered_at context source deadline), b)
    else if ltb b.retries max_retries
    then (
      if m.cancelled
          then some cancelled_read
          else if leb until m.woken_at
          then some
              (exhausted (record b { retries = b.retries + 1 }) m.woken_at context source deadline)
          else none,
      record b { retries = b.retries + 1 },
    )
    else (some (exhausted b m.entered_at context source retry_limit), b)

-- `scope`: the budget in force, or a new one.
pub scope : Locals → ℕ → Locals
scope l now = elim l.budget [ none ↦ record l { budget = some (new l now) } | some b ↦ l ]

pub with_timeout : Locals → Option ℕ → ℕ → Locals
with_timeout l none now = l
with_timeout l (some duration) now = record l { caller = some (cap_deadline l (now + duration)) }

pub cleanup : ℕ → Locals
cleanup now = record {
  budget = some (record { started = now; deadline = now + max_elapsed; retries = 0 });
  caller = some (now + max_elapsed);
}
