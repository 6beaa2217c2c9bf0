-- ===== src/Retry/Tests.antt =====
-- The retry budget at concrete inputs.
use nfs_rs.Common.{◌≤◌, ◌+◌, ◌≡◌, ◌⊎◌, refl, All, [], ◌∷◌, none, false, not}
use nfs_rs.Errors.{
  nfs3, retry_limit, RequestContext, nfs_v3, is_server_busy, contains_uncertain_outcome,
}
use nfs_rs.Retry.{Budget, Locals, Moments, backoff, new, cancelled_read, cap_deadline, exhausted}
use nfs_rs.Retry.Bounds.{backoff_all, successes, EndsBefore, Gives, backoff_all-new, backoff_fails}

abbrev outside : Locals
outside = record { budget = none; caller = none }

abbrev moments : Moments
moments = record {
  entered_at = 1000;
  waiting_at = 1001;
  woken_at = 1151;
  wait = 150;
  cancelled = false;
}

abbrev context : RequestContext
context = record { operation = []; protocol = nfs_v3; request_id = none }

abbrev fresh : Budget
fresh = record { started = 0; deadline = 60000; retries = 0 }

abbrev spent : Budget
spent = record { started = 0; deadline = 60000; retries = 16 }

backoff_all-new_example :
    (successes (backoff_all outside ((moments, context, nfs3 10008) ∷ []) (new outside 900)).0 ≤ 16)
    × All
        (EndsBefore (900 + 60000))
        (backoff_all outside ((moments, context, nfs3 10008) ∷ []) (new outside 900)).0
backoff_all-new_example = backoff_all-new outside 900 ((moments, context, nfs3 10008) ∷ [])

backoff_fails_example :
    (exhausted spent 1000 context (nfs3 10008) retry_limit ≡ cancelled_read)
    ⊎ (Gives outside moments context
          (nfs3 10008)
          spent
          (exhausted spent 1000 context (nfs3 10008) retry_limit)
        × (is_server_busy (exhausted spent 1000 context (nfs3 10008) retry_limit)
            ≡ not (contains_uncertain_outcome (nfs3 10008)))
        × (contains_uncertain_outcome (exhausted spent 1000 context (nfs3 10008) retry_limit)
            ≡ contains_uncertain_outcome (nfs3 10008)))
unfolding backoff cap_deadline
backoff_fails_example =
    backoff_fails outside moments context (nfs3 10008)
      (exhausted spent 1000 context (nfs3 10008) retry_limit) spent refl
