-- ===== src/Nfs41/Compound/Tests.antt =====
-- Concrete inputs of the theorems on repeated requests.
use nfs_rs.Common.{
  ◌≡◌, ◌↔◌, refl, true, false, List, [], ◌∷◌, ◌&&◌, replicate, ltb, if◌then◌else◌, none,
}
use nfs_rs.Errors.{rpc}
use nfs_rs.Wire.{ok, err}
use nfs_rs.Nfs41.Compound.{
  EncodedOp, CompoundBuilder, CompoundResponse, put_fh, write, can_retry_busy,
  minimum_cached_response_size, apply_sequence_cache_policy,
}
use nfs_rs.Nfs41.Compound.Busy.{Unchanged, can_retry_busy_iff}
use nfs_rs.Nfs41.Compound.Cache.{any_sensitive, request, apply_sequence_cache_policy-request}

abbrev writing : List EncodedOp
writing = record { opcode = put_fh; args = [] } ∷ record { opcode = write; args = [] } ∷ []

abbrev builder : CompoundBuilder
builder = record {
  tag = [];
  ops = record { opcode = put_fh; args = [] } ∷ record { opcode = write; args = [] } ∷ [];
  required_generation = none;
}

-- PUTFH succeeded and WRITE was put off with NFS4ERR_DELAY.
abbrev delayed : CompoundResponse
delayed = record {
  status = 10008;
  results =
      record { opcode = 22; status = 0; data_ = [] }
      ∷ record { opcode = 38; status = 10008; data_ = [] }
      ∷ [];
}

can_retry_busy_iff_example :
    (can_retry_busy builder delayed ≡ ok true)
    ↔ Unchanged delayed.status builder.ops delayed.results
can_retry_busy_iff_example = can_retry_busy_iff builder delayed

apply_sequence_cache_policy-request_example :
    apply_sequence_cache_policy 4096 (request (replicate 16 5) 1 0 3 false [] writing) ≡ (
      if any_sensitive writing
        && ltb 4096 (minimum_cached_response_size (request (replicate 16 5) 1 0 3 false [] writing))
      then err rpc
      else ok (request (replicate 16 5) 1 0 3 (any_sensitive writing) [] writing))
apply_sequence_cache_policy-request_example =
    apply_sequence_cache_policy-request (replicate 16 5) 1 0 3 refl [] writing 4096 false
