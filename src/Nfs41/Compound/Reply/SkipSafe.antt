-- ===== src/Nfs41/Compound/Reply/SkipSafe.antt =====
-- The parts of nfs41/compound.rs that skip a result do not panic.
use nfs_rs.Common.{
  ℕ, zero, suc, ◌*◌, ◌||◌, ◌&&◌, ltb, leb, ◌==◌, not, arith, length, leb→le, if◌then◌else◌, Bool,
  true, false, Bool-cases, inl, inr,
}
use nfs_rs.Assoc.{nat_eq}
use nfs_rs.Errors.{xdr}
use nfs_rs.Wire.{Reader, ◌>>=◌, and_then, remaining}
use nfs_rs.Wire.Opaque.{padded}
use nfs_rs.Wire.Safe.{
  Safe, pure-Safe, fail-Safe, bind-Safe, take_then-Safe, require-Safe, if-Safe, repeat-Safe,
  Safe-weaken, advance-Takes, get_u32-Takes, Takes→Safe,
}
use nfs_rs.Nfs4.Acl.{decode_nfsace4}
use nfs_rs.Nfs4.Acl.Safe.{decode_nfsace4-Safe}
use nfs_rs.Nfs41.Compound.Reply.Skip.{
  skip, checked_u32, skip_var_bytes, skip_bitmap, skip_fattr4, skip_entries, skip_space_limit,
  skip_open_delegation,
}
use nfs_rs.Nfs41.Compound.Reply.Session.{
  times, skip_ssv, skip_protect, skip_impl_id, skip_channel_attrs, skip_layout_segment,
  skip_exchange_id_result, skip_create_session_result, skip_layoutget_result,
  skip_layoutcommit_result, skip_layoutreturn_result,
}
use nfs_rs.Nfs41.Compound.Reply.Results.{drop_value}

pub skip-Safe : (n : ℕ) → Safe 0 (skip n)
skip-Safe n = require-Safe n xdr λ _. Takes→Safe (advance-Takes n)

pub checked_u32-Safe : Safe 0 checked_u32
checked_u32-Safe = require-Safe 4 xdr λ _. Takes→Safe get_u32-Takes

pub skip_var_bytes-Safe : Safe 0 skip_var_bytes
unfolding skip_var_bytes
skip_var_bytes-Safe = bind-Safe checked_u32-Safe λ len. skip-Safe (padded len)

pub skip_bitmap-Safe : Safe 0 skip_bitmap
unfolding skip_bitmap
skip_bitmap-Safe =
    bind-Safe checked_u32-Safe λ n. if-Safe (ltb 16 n) (fail-Safe xdr) (skip-Safe (n * 4))

pub skip_fattr4-Safe : Safe 0 skip_fattr4
unfolding skip_fattr4
skip_fattr4-Safe = bind-Safe skip_bitmap-Safe λ _. skip_var_bytes-Safe

pub skip_entries-Safe : (n : ℕ) → Safe 0 (skip_entries n)
unfolding skip_entries
skip_entries-Safe zero =
    bind-Safe checked_u32-Safe λ h. if-Safe (h == 0) (skip-Safe 4) (fail-Safe xdr)
skip_entries-Safe (suc n) = bind-Safe checked_u32-Safe λ h. if-Safe (h == 0) (skip-Safe 4) (
    bind-Safe (skip-Safe 8)
      λ _. bind-Safe skip_var_bytes-Safe λ _. bind-Safe skip_fattr4-Safe λ _. skip_entries-Safe n)

pub skip_space_limit-Safe : Safe 0 skip_space_limit
unfolding skip_space_limit
skip_space_limit-Safe =
    bind-Safe checked_u32-Safe
      λ l. if-Safe (l == 1) (skip-Safe 8) (if-Safe (l == 2) (skip-Safe 8) (fail-Safe xdr))

pub ace-Safe : Safe 0 (drop_value decode_nfsace4)
ace-Safe = bind-Safe decode_nfsace4-Safe λ _. pure-Safe tt

pub skip_open_delegation-Safe : Safe 0 skip_open_delegation
unfolding skip_open_delegation
skip_open_delegation-Safe = bind-Safe checked_u32-Safe λ d. if-Safe (d == 0) (pure-Safe tt) (
    if-Safe (d == 1) (bind-Safe (skip-Safe 16) λ _. bind-Safe (skip-Safe 4) λ _. ace-Safe) (
      if-Safe (d == 2)
        (bind-Safe (skip-Safe 16)
          λ _. bind-Safe (skip-Safe 4) λ _. bind-Safe skip_space_limit-Safe λ _. ace-Safe)
        (if-Safe (d == 3)
          (bind-Safe checked_u32-Safe λ w. if-Safe (w == 1 || w == 2) (skip-Safe 4) (pure-Safe tt))
          (fail-Safe xdr))))

pub times-Safe : (n : ℕ) {m : Reader (Unit {0})} → Safe 0 m → Safe 0 (times n m)
unfolding times
times-Safe n s = bind-Safe (repeat-Safe n s) λ _. pure-Safe tt

pub skip_protect-Safe : Safe 0 skip_protect
unfolding skip_protect skip_ssv
skip_protect-Safe = bind-Safe checked_u32-Safe λ sp. if-Safe (sp == 0) (pure-Safe tt) (
    if-Safe (sp == 1) (bind-Safe skip_bitmap-Safe λ _. skip_bitmap-Safe) (
      if-Safe (sp == 2)
        (bind-Safe skip_bitmap-Safe λ _. bind-Safe skip_bitmap-Safe λ _.
          bind-Safe (skip-Safe 16) λ _.
            bind-Safe checked_u32-Safe
              λ nh. if-Safe (ltb 64 nh) (fail-Safe xdr) (times-Safe nh skip_var_bytes-Safe))
        (fail-Safe xdr)))

pub skip_exchange_id_result-Safe : Safe 0 skip_exchange_id_result
unfolding skip_exchange_id_result skip_impl_id
skip_exchange_id_result-Safe = bind-Safe (skip-Safe 16) λ _. bind-Safe skip_protect-Safe λ _.
    bind-Safe (skip-Safe 8) λ _. bind-Safe skip_var_bytes-Safe λ _.
      bind-Safe skip_var_bytes-Safe λ _. bind-Safe checked_u32-Safe λ n.
        if-Safe (ltb 1 n) (fail-Safe xdr) (
          times-Safe n
            (bind-Safe skip_var_bytes-Safe λ _. bind-Safe skip_var_bytes-Safe λ _. skip-Safe 12))

pub skip_create_session_result-Safe : Safe 0 skip_create_session_result
unfolding skip_create_session_result skip_channel_attrs
skip_create_session_result-Safe = bind-Safe (skip-Safe 24) λ _.
    times-Safe 2 (bind-Safe (skip-Safe 24) λ _. bind-Safe checked_u32-Safe λ n. skip-Safe (n * 4))

pub skip_layoutget_result-Safe : Safe 0 skip_layoutget_result
unfolding skip_layoutget_result skip_layout_segment
skip_layoutget_result-Safe = require-Safe 20 xdr λ _.
    take_then-Safe (advance-Takes 4) (omega arith) (omega arith) λ _. Safe-weaken (
      bind-Safe (skip-Safe 16) λ _. bind-Safe checked_u32-Safe λ n.
        if-Safe (ltb 1024 n) (fail-Safe xdr)
          (times-Safe n (bind-Safe (skip-Safe 24) λ _. skip_var_bytes-Safe)))

-- A part that is skipped only where it is there.
module _ (n : ℕ) {f g : Reader (Unit {0})} (safe : Safe n f) (other : Safe 0 g) where
  room-Safe : Safe 0 (remaining >>= λ left. if leb n left then f else g)
  unfolding ◌>>=◌ and_then remaining
  room-Safe = record {
    apply = λ s h. elim (Bool-cases (leb n (length s))) [
      | inl t ↦ rw t (safe.apply s (leb→le n (length s) t))
      | inr t ↦ rw t (other.apply s (omega arith))
    ];
  }

  look_then-Safe : Safe 0 (remaining >>= λ left. g)
  unfolding ◌>>=◌ and_then remaining
  look_then-Safe = record { apply = λ s h. other.apply s (omega arith) }

  when_room-Safe :
      (a : Bool) → Safe 0 (remaining >>= λ left. if a then (if leb n left then f else g) else g)
  when_room-Safe true = room-Safe
  when_room-Safe false = look_then-Safe

  pub both_room-Safe :
      (a b : Bool) → Safe 0 (remaining >>= λ left. if a && (b && leb n left) then f else g)
  both_room-Safe true true = room-Safe
  both_room-Safe true false = look_then-Safe
  both_room-Safe false b = look_then-Safe

pub skip_layoutcommit_result-Safe : Safe 0 skip_layoutcommit_result
unfolding skip_layoutcommit_result
skip_layoutcommit_result-Safe =
    bind-Safe checked_u32-Safe
      λ h. when_room-Safe 8 (Takes→Safe (advance-Takes 8)) (pure-Safe tt) (not (h == 0))

pub skip_layoutreturn_result-Safe : Safe 0 skip_layoutreturn_result
unfolding skip_layoutreturn_result
skip_layoutreturn_result-Safe =
    bind-Safe checked_u32-Safe λ h. if-Safe (not (h == 0)) (skip-Safe 16) (pure-Safe tt)
