-- ===== src/Nfs41/Compound/Cache.antt =====
-- Which requests ask the server to keep their reply.
use nfs_rs.Common.{
  ℕ, ◌≡◌, refl, ap, ◌∙◌, subst, Bool, false, ◌&&◌, ◌||◌, List, [], ◌∷◌, ◌++◌, length, take, drop,
  take-append, drop-append, append-nil, append_assoc, length-append, arith, ltb, if◌then◌else◌,
}
use nfs_rs.Errors.{OperationClass, read_only, session_control, replay_sensitive, rpc}
use nfs_rs.Wire.{ok, err}
use nfs_rs.Wire.Words.{be32, length-be32}
use nfs_rs.Nfs41.Compound.{
  sequence_op, op_number, class, EncodedOp, CompoundBuilder, new, sequence, is_replay_sensitive,
  larger, max_class, operation_class, minimum_cached_response_size, is_sequence, set_cache_this,
  flag, first_cached, apply_sequence_cache_policy,
}

-- Whether some operation may not be repeated.
pub any_sensitive : List EncodedOp → Bool
any_sensitive [] = false
any_sensitive (op ∷ ops) = is_replay_sensitive (class op.opcode) || any_sensitive ops

larger-sensitive :
    (c d : OperationClass)
    → is_replay_sensitive (larger c d) ≡ (is_replay_sensitive c || is_replay_sensitive d)
unfolding larger is_replay_sensitive
larger-sensitive replay_sensitive d = refl
larger-sensitive session_control replay_sensitive = refl
larger-sensitive session_control session_control = refl
larger-sensitive session_control read_only = refl
larger-sensitive read_only d = refl

max_class-sensitive :
    (ops : List EncodedOp) → is_replay_sensitive (max_class ops) ≡ any_sensitive ops
unfolding max_class any_sensitive
max_class-sensitive [] = unfold is_replay_sensitive in refl
max_class-sensitive (op ∷ []) = ground arith
max_class-sensitive (op ∷ next ∷ ops) =
    larger-sensitive (class op.opcode) (max_class (next ∷ ops))
    ∙ ap (λ b. is_replay_sensitive (class op.opcode) || b) (max_class-sensitive (next ∷ ops))

-- The arguments of SEQUENCE up to the flag.
module _ (session_id : List ℕ) (sequence_id slot_id highest : ℕ) where
  identity : List ℕ
  identity = session_id ++ (be32 sequence_id ++ (be32 slot_id ++ be32 highest))

  -- The arguments of SEQUENCE as RFC 8881 has them.
  pub sequence_args : Bool → List ℕ
  unfolding identity
  sequence_args cachethis = identity ++ be32 (flag cachethis)

  -- A request that begins with SEQUENCE and goes on with some operations.
  pub request : Bool → List ℕ → List EncodedOp → CompoundBuilder
  request cachethis tag ops = record (new tag) {
    ops = record { opcode = sequence_op; args = sequence_args cachethis } ∷ ops;
  }

  -- The builder makes such a request.
  request-sequence :
      (tag : List ℕ)
      → sequence session_id sequence_id slot_id highest (new tag) ≡ request false tag []
  unfolding request sequence sequence_args identity new
  request-sequence tag = simp append_assoc refl

  module _ (whole : length session_id ≡ 16) where
    length-identity : length identity ≡ 28
    unfolding identity
    length-identity = omega (
      arith,
      whole,
      length-append session_id (be32 sequence_id ++ (be32 slot_id ++ be32 highest)),
      length-append (be32 sequence_id) (be32 slot_id ++ be32 highest),
      length-append (be32 slot_id) (be32 highest),
      length-be32 sequence_id,
      length-be32 slot_id,
      length-be32 highest,
    )

    length-sequence_args : (b : Bool) → length (sequence_args b) ≡ 32
    unfolding sequence_args
    length-sequence_args b =
        omega (arith, length-identity, length-append identity (be32 (flag b)), length-be32 (flag b))

    set_cache_this-sequence_args :
        (b c : Bool) → set_cache_this c (sequence_args b) ≡ sequence_args c
    unfolding set_cache_this sequence_args
    set_cache_this-sequence_args b c =
        rw (front, behind) (ap (λ r. identity ++ r) (append-nil (be32 (flag c))))
      where
        front : take 28 (identity ++ be32 (flag b)) ≡ identity
        front =
            subst (λ n. take n (identity ++ be32 (flag b)) ≡ identity) length-identity
              (take-append identity (be32 (flag b)))

        behind : drop 32 (identity ++ be32 (flag b)) ≡ []
        behind =
            subst (λ n. drop n (identity ++ be32 (flag b)) ≡ []) (length-sequence_args b)
              (subst (λ s. drop (length (identity ++ be32 (flag b))) s ≡ [])
                (append-nil (identity ++ be32 (flag b)))
                (drop-append (identity ++ be32 (flag b)) []))

    first_cached-request :
        (tag : List ℕ) (ops : List EncodedOp) (b c : Bool)
        → first_cached c (request b tag ops) (request b tag ops).ops ≡ ok (request c tag ops)
    unfolding first_cached request is_sequence op_number
    first_cached-request tag ops b c =
        rw (length-sequence_args b, set_cache_this-sequence_args b c) refl

    operation_class-request :
        (tag : List ℕ) (ops : List EncodedOp) (b : Bool)
        → is_replay_sensitive (operation_class (request b tag ops)) ≡ any_sensitive ops
    unfolding operation_class request
    operation_class-request tag ops b = max_class-sensitive ops

    -- For a request that begins with SEQUENCE, with a session id of 16 bytes: if some later
    -- operation may not be repeated and the channel's reply cache is smaller than the smallest
    -- reply, the request is refused; otherwise it changes only in the flag of SEQUENCE, which asks
    -- to cache the reply exactly when some later operation may not be repeated.
    pub apply_sequence_cache_policy-request :
        (tag : List ℕ) (ops : List EncodedOp) (maximum : ℕ) (b : Bool)
        → apply_sequence_cache_policy maximum (request b tag ops) ≡ (
            if any_sensitive ops && ltb maximum (minimum_cached_response_size (request b tag ops))
            then err rpc
            else ok (request (any_sensitive ops) tag ops))
    unfolding apply_sequence_cache_policy
    apply_sequence_cache_policy-request tag ops maximum b =
        rw (operation_class-request tag ops b, first_cached-request tag ops b (any_sensitive ops))
          refl
