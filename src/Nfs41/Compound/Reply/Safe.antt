-- ===== src/Nfs41/Compound/Reply/Safe.antt =====
-- The decoder of a reply does not panic.
use nfs_rs.Common.{
  ℕ, ◌*◌, ◌≢◌, ◌&&◌, List, All, ltb, ◌==◌, not, arith, Bool, inl, inr, Option-cases,
}
use nfs_rs.Assoc.{nat_eq, find}
use nfs_rs.Errors.{xdr}
use nfs_rs.Wire.{panic}
use nfs_rs.Wire.Opaque.{padded}
use nfs_rs.Wire.Utf8.{is_utf8}
use nfs_rs.Wire.Safe.{
  Safe, pure-Safe, fail-Safe, bind-Safe, take_then-Safe, require-Safe, u32-Safe, if-Safe,
  repeat-Safe, Safe-weaken, advance-Takes, peek-Takes,
}
use nfs_rs.Nfs41.Compound.Reply.Results.{
  void, successes, skip_failure, skip_success, skip_op_result,
}
use nfs_rs.Nfs41.Compound.Reply.Decode.{decode_nfsstat4, view, decode_string, decode_result, decode}
use nfs_rs.Assoc.{find-All}
use nfs_rs.Nfs41.Compound.Reply.SkipSafe.{
  skip-Safe, checked_u32-Safe, skip_var_bytes-Safe, skip_bitmap-Safe, skip_fattr4-Safe,
  skip_entries-Safe, skip_open_delegation-Safe, skip_exchange_id_result-Safe,
  skip_create_session_result-Safe, skip_layoutget_result-Safe, skip_layoutcommit_result-Safe,
  skip_layoutreturn_result-Safe, both_room-Safe,
}
use nfs_rs.Nfs41.Compound.Reply.ExtensionsSafe.{
  drop_value-Safe, decode_u64-Safe, decode_bool-Safe, decode_copy-Safe, decode_read_plus-Safe,
  decode_list-Safe,
}

void-Safe : Safe 0 void
void-Safe = pure-Safe tt

successes-Safe : All (λ e. Safe 0 e.1) successes
unfolding successes
successes-Safe = (
  void-Safe,
  (
    void-Safe,
    (
      void-Safe,
      (
        void-Safe,
        (
          drop_value-Safe decode_copy-Safe,
          (
            bind-Safe (drop_value-Safe decode_bool-Safe) λ _. drop_value-Safe decode_u64-Safe,
            (
              drop_value-Safe decode_read_plus-Safe,
              (
                skip_var_bytes-Safe,
                (
                  bind-Safe (drop_value-Safe decode_bool-Safe) λ _.
                      bind-Safe (drop_value-Safe decode_u64-Safe)
                        λ _. drop_value-Safe decode_u64-Safe,
                  (
                    bind-Safe (drop_value-Safe decode_bool-Safe) λ _.
                        bind-Safe (drop_value-Safe decode_u64-Safe)
                          λ _. drop_value-Safe decode_u64-Safe,
                    (
                      drop_value-Safe decode_list-Safe,
                      (
                        void-Safe,
                        (
                          void-Safe,
                          (
                            void-Safe,
                            (
                              void-Safe,
                              (
                                void-Safe,
                                (
                                  void-Safe,
                                  (
                                    void-Safe,
                                    (
                                      void-Safe,
                                      (
                                        void-Safe,
                                        (
                                          void-Safe,
                                          (
                                            skip-Safe 36,
                                            (
                                              skip_var_bytes-Safe,
                                              (
                                                skip_fattr4-Safe,
                                                (
                                                  skip_bitmap-Safe,
                                                  (
                                                    skip-Safe 8,
                                                    (
                                                      bind-Safe (skip-Safe 4)
                                                          λ _. skip_var_bytes-Safe,
                                                      (
                                                        skip-Safe 16,
                                                        (
                                                          skip-Safe 8,
                                                          (
                                                            bind-Safe (skip-Safe 8)
                                                            λ _. skip_entries-Safe 65536,
                                                            (
                                                            skip_var_bytes-Safe,
                                                            (
                                                            void-Safe,
                                                            (
                                                            bind-Safe (skip-Safe 16) λ _.
                                                            bind-Safe (skip-Safe 20) λ _.
                                                            bind-Safe (skip-Safe 4) λ _.
                                                            bind-Safe skip_bitmap-Safe
                                                            λ _. skip_open_delegation-Safe,
                                                            (
                                                            skip-Safe 16,
                                                            (
                                                            skip-Safe 16,
                                                            (
                                                            void-Safe,
                                                            (
                                                            skip-Safe 16,
                                                            (
                                                            bind-Safe checked_u32-Safe
                                                            λ n. skip-Safe (n * 4),
                                                            (
                                                            void-Safe,
                                                            (
                                                            bind-Safe (skip-Safe 20)
                                                            λ _. skip_bitmap-Safe,
                                                            (
                                                            skip-Safe 20,
                                                            (
                                                            bind-Safe (skip-Safe 20)
                                                            λ _. skip-Safe 20,
                                                            (
                                                            skip-Safe 20,
                                                            (
                                                            skip_exchange_id_result-Safe,
                                                            (
                                                            skip_create_session_result-Safe,
                                                            (
                                                            skip_layoutget_result-Safe,
                                                            (
                                                            skip_layoutcommit_result-Safe,
                                                            (
                                                            skip_layoutreturn_result-Safe,
                                                            (
                                                            bind-Safe (skip-Safe 4) λ _.
                                                            bind-Safe skip_var_bytes-Safe
                                                            λ _. skip_bitmap-Safe,
                                                            (skip-Safe 24, tt),
                                                            ),
                                                            ),
                                                            ),
                                                            ),
                                                            ),
                                                            ),
                                                            ),
                                                            ),
                                                            ),
                                                            ),
                                                            ),
                                                            ),
                                                            ),
                                                            ),
                                                            ),
                                                            ),
                                                            ),
                                                            ),
                                                            ),
                                                          ),
                                                        ),
                                                      ),
                                                    ),
                                                  ),
                                                ),
                                              ),
                                            ),
                                          ),
                                        ),
                                      ),
                                    ),
                                  ),
                                ),
                              ),
                            ),
                          ),
                        ),
                      ),
                    ),
                  ),
                ),
              ),
            ),
          ),
        ),
      ),
    ),
  ),
)

skip_success-Safe : (opcode : ℕ) → Safe 0 (skip_success (find opcode successes))
unfolding skip_success
skip_success-Safe opcode = elim (Option-cases (find opcode successes)) [
  | inl gone ↦ rw (gone, skip_success) (fail-Safe xdr)
  | inr (m, hit) ↦
      rw (hit, skip_success) (find-All (λ m. Safe 0 m) opcode successes successes-Safe hit)
]

skip_failure-Safe : (opcode status : ℕ) → Safe 0 (skip_failure opcode status)
unfolding skip_failure
skip_failure-Safe opcode status =
    bind-Safe
      (if-Safe (opcode == 60 && status == 10094)
        (bind-Safe (drop_value-Safe decode_bool-Safe) λ _. drop_value-Safe decode_bool-Safe)
        void-Safe)
      λ _. bind-Safe (if-Safe (opcode == 34) skip_bitmap-Safe void-Safe) λ _.
        both_room-Safe 28
          (take_then-Safe (advance-Takes 28) (omega arith) (omega arith)
            λ _. Safe-weaken skip_var_bytes-Safe)
          void-Safe (opcode == 12) (status == 10012)

skip_op_result-Safe : (opcode status : ℕ) → Safe 0 (skip_op_result opcode status)
unfolding skip_op_result
skip_op_result-Safe opcode status =
    if-Safe (not (status == 0)) (skip_failure-Safe opcode status) (skip_success-Safe opcode)

decode_string-Safe : Safe 0 decode_string
unfolding decode_string
decode_string-Safe = bind-Safe checked_u32-Safe λ len. require-Safe (padded len) xdr λ _.
    take_then-Safe (peek-Takes len) (omega arith) (omega arith) λ v.
      if-Safe (is_utf8 v)
        (take_then-Safe (advance-Takes (padded len)) (omega arith) (omega arith) λ _. pure-Safe v)
        (fail-Safe xdr)

view-Safe : Safe 0 view
unfolding view
view-Safe = record { apply = λ s h e. cc }

module _ (known : ℕ → Bool) where
  decode_nfsstat4-Safe : (value : ℕ) → Safe 0 (decode_nfsstat4 known value)
  unfolding decode_nfsstat4
  decode_nfsstat4-Safe value = if-Safe (known value) (pure-Safe value) (fail-Safe xdr)

  decode_result-Safe : Safe 0 (decode_result known)
  unfolding decode_result
  decode_result-Safe = require-Safe 8 xdr λ _. u32-Safe (omega arith) λ opcode.
      u32-Safe (omega arith) λ status. bind-Safe (decode_nfsstat4-Safe status) λ st.
        bind-Safe view-Safe λ bytes. bind-Safe (skip_op_result-Safe opcode status) λ _. pure-Safe _

  decode-Safe : Safe 0 (decode known)
  unfolding decode
  decode-Safe = bind-Safe checked_u32-Safe λ v. bind-Safe (decode_nfsstat4-Safe v) λ status.
      bind-Safe decode_string-Safe λ tag. bind-Safe checked_u32-Safe λ n.
        if-Safe (ltb 256 n) (fail-Safe xdr)
          (bind-Safe (repeat-Safe n decode_result-Safe) λ rs. pure-Safe _)

-- The decoder of an NFSv4.1 reply, with the skip of every operation's result, does not panic on any
-- bytes, whatever numbers nfsstat4 knows.
pub decode-ne-panic : (known : ℕ → Bool) (s : List ℕ) → decode known s ≢ panic
decode-ne-panic known s = (decode-Safe known).apply s (omega arith)
