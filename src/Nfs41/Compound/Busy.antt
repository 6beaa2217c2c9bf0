-- ===== src/Nfs41/Compound/Busy.antt =====
-- When a busy reply lets the whole request be sent again.
use nfs_rs.Common.{
  ℕ, ◌≤◌, ◌≡◌, ◌≢◌, refl, Bool, true, false, List, [], ◌∷◌, length, arith, if◌then◌else◌, ◌↔◌,
}
use nfs_rs.Errors.{xdr}
use nfs_rs.Wire.{ok, err}
use nfs_rs.Nfs41.Compound.{
  op_number, class, EncodedOp, CompoundBuilder, OpResponse, CompoundResponse, is_replay_sensitive,
  no_more, busy_loop, can_retry_busy,
}

-- The results answer a beginning of the operations: all but the last succeeded and changed
-- nothing, and the last one failed with the status of the whole reply.
pub Unchanged : ℕ → List EncodedOp → List OpResponse → Type 0
Unchanged status [] results = ⊥
Unchanged status (op ∷ ops) [] = ⊥
Unchanged status (op ∷ ops) (reply ∷ []) =
    (op_number op.opcode ≡ reply.opcode) × (reply.status ≢ 0) × (reply.status ≡ status)
Unchanged status (op ∷ ops) (reply ∷ next ∷ results) =
    (op_number op.opcode ≡ reply.opcode)
    × (reply.status ≡ 0)
    × (is_replay_sensitive (class op.opcode) ≡ false)
    × Unchanged status ops (next ∷ results)

busy_loop-nil :
    (safe : Bool) (status : ℕ) (ops : List EncodedOp) → busy_loop safe status ops [] ≡ err xdr
unfolding busy_loop
busy_loop-nil safe status [] = refl
busy_loop-nil safe status (op ∷ ops) = refl

busy_loop_sound :
    (safe : Bool) (status : ℕ) (ops : List EncodedOp) (results : List OpResponse)
    → busy_loop safe status ops results ≡ ok true
    → (safe ≡ true) × Unchanged status ops results
unfolding busy_loop Unchanged no_more
busy_loop_sound safe status [] results h = ground (arith, h)
busy_loop_sound safe status (op ∷ ops) [] h = ground (arith, h)
busy_loop_sound safe status (op ∷ ops) (reply ∷ []) h = ground (
  arith,
  h,
  busy_loop-nil (if is_replay_sensitive (class op.opcode) then false else safe) status ops,
)
busy_loop_sound safe status (op ∷ ops) (reply ∷ next ∷ results) h = ground (
  arith,
  h,
  busy_loop_sound (if is_replay_sensitive (class op.opcode) then false else safe) status ops
      (next ∷ results),
)

busy_loop_complete :
    (status : ℕ) (ops : List EncodedOp) (results : List OpResponse)
    → Unchanged status ops results
    → busy_loop true status ops results ≡ ok true
unfolding busy_loop Unchanged no_more
busy_loop_complete status [] results h = absurd h
busy_loop_complete status (op ∷ ops) [] h = absurd h
busy_loop_complete status (op ∷ ops) (reply ∷ []) h = ground (arith, h)
busy_loop_complete status (op ∷ ops) (reply ∷ next ∷ results) h =
    ground (arith, h.0, h.1, h.2, busy_loop_complete status ops (next ∷ results) h.3)

Unchanged-length :
    (status : ℕ) (ops : List EncodedOp) (results : List OpResponse)
    → Unchanged status ops results
    → (1 ≤ length results) × (length results ≤ length ops)
unfolding Unchanged
Unchanged-length status [] results h = absurd h
Unchanged-length status (op ∷ ops) [] h = absurd h
Unchanged-length status (op ∷ ops) (reply ∷ []) h = omega arith
Unchanged-length status (op ∷ ops) (reply ∷ next ∷ results) h =
    omega (arith, Unchanged-length status ops (next ∷ results) h.3)

-- `can_retry_busy` lets a request be sent again exactly when the reply's results answer a beginning
-- of its operations, with the same operation numbers, of which all but the last succeeded and are
-- not of the class ReplaySensitive, and the last failed with the status of the whole reply.
-- Operations of the class SessionControl may be among those that succeeded.
pub can_retry_busy_iff :
    (b : CompoundBuilder) (response : CompoundResponse)
    → (can_retry_busy b response ≡ ok true) ↔ Unchanged response.status b.ops response.results
unfolding can_retry_busy
can_retry_busy_iff b response = (
  (λ h. (busy_loop_sound true response.status b.ops response.results (ground (arith, h))).1),
  (λ u. ground (
    arith,
    busy_loop_complete response.status b.ops response.results u,
    Unchanged-length response.status b.ops response.results u,
  )),
)
