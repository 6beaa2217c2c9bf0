-- ===== src/Errors/Tests.antt =====
-- Concrete inputs of the theorems on the error type.
use nfs_rs.Common.{◌≡◌, ◌⊎◌, true, false, none, [], ◌∷◌}
use nfs_rs.Errors.{
  rpc, replay_sensitive, RequestContext, nfs_v4p1, contains_uncertain_outcome, request_transmission,
}
use nfs_rs.Errors.Classify.{classify_sent_nfs41_error, leaves_open, classify_sent_nfs41_error-cases}

abbrev write_context : RequestContext
write_context = record { operation = 119 ∷ []; protocol = nfs_v4p1; request_id = none }

classify_sent_nfs41_error-cases_example :
    ((leaves_open rpc ≡ true)
      × (contains_uncertain_outcome (classify_sent_nfs41_error replay_sensitive write_context rpc)
          ≡ true))
    ⊎ ((leaves_open rpc ≡ false)
        × (classify_sent_nfs41_error replay_sensitive write_context rpc ≡ rpc))
unfolding request_transmission
classify_sent_nfs41_error-cases_example =
    classify_sent_nfs41_error-cases replay_sensitive write_context rpc (λ e. cc) (λ e. cc)
