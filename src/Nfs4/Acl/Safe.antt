-- ===== src/Nfs4/Acl/Safe.antt =====
-- The decoders of access control lists do not panic.
use nfs_rs.Common.{ℕ, ◌-◌, ◌^◌, ◌≡◌, ◌≢◌, ◌⊎◌, inl, inr, List, get_or, ltb, ◌==◌, bit_and, arith}
use nfs_rs.Errors.{xdr, unsupported}
use nfs_rs.Wire.{panic, ◌>>=◌, and_then, pure, advance, remaining}
use nfs_rs.Wire.Safe.{
  Safe, Keeps, pure-Keeps, fail-Keeps, if-Keeps, keep_then-Safe, pure-Safe, fail-Safe, bind-Safe,
  take_then-Safe, require-Safe, u32-Safe, if-Safe, repeat-Safe, run_on-Safe, get_u32-Takes,
  advance-Takes, split_to-Takes, Takes→Safe, Safe-weaken,
}
use nfs_rs.Wire.Opaque.{padding, padded, decode_utf8str-Safe}
use nfs_rs.Nfs4.Acl.{
  ace_type_try_from, decode_nfsace4, decode_acl, skip_ace, skip_acl, skip_acl41, max_aces,
  bitmap_word, skip_padding, decode_getattr_envelope, decode_getattr_acl, acl_attribute,
  aclsupport_attribute, support_value, decode_getattr_aclsupport, acl41_value, assert_acl41,
  decode_getattr_acl41,
}

ace_type_try_from-Keeps : (v : ℕ) → Keeps (ace_type_try_from v)
unfolding ace_type_try_from
ace_type_try_from-Keeps v = if-Keeps (v == 0) (pure-Keeps _) (
    if-Keeps (v == 1) (pure-Keeps _)
      (if-Keeps (v == 2) (pure-Keeps _) (if-Keeps (v == 3) (pure-Keeps _) (fail-Keeps xdr))))

pub decode_nfsace4-Safe : Safe 0 decode_nfsace4
unfolding decode_nfsace4
decode_nfsace4-Safe = require-Safe 12 xdr λ _. u32-Safe (omega arith) λ t.
    keep_then-Safe (ace_type_try_from-Keeps t) λ a.
      u32-Safe (omega arith)
        λ f. u32-Safe (omega arith) λ m. bind-Safe decode_utf8str-Safe λ w. pure-Safe _

pub decode_acl-Safe : Safe 0 decode_acl
unfolding decode_acl
decode_acl-Safe = require-Safe 4 xdr λ _. u32-Safe (omega arith) λ count.
    if-Safe (ltb max_aces count) (fail-Safe xdr)
      (bind-Safe (repeat-Safe count decode_nfsace4-Safe) λ aces. pure-Safe _)

skip_ace-Safe : Safe 0 skip_ace
unfolding skip_ace
skip_ace-Safe = require-Safe 12 xdr λ _.
    take_then-Safe (advance-Takes 12) (omega arith) (omega arith) λ _. require-Safe 4 xdr λ _.
      u32-Safe (omega arith)
        λ len. require-Safe (padded len) xdr λ _. Takes→Safe (advance-Takes (padded len))

skip_acl-Safe : Safe 0 skip_acl
unfolding skip_acl
skip_acl-Safe = require-Safe 4 xdr λ _. u32-Safe (omega arith) λ count.
    if-Safe (ltb max_aces count) (fail-Safe xdr)
      (bind-Safe (repeat-Safe count skip_ace-Safe) λ _. pure-Safe tt)

pub skip_acl41-Safe : Safe 0 skip_acl41
unfolding skip_acl41
skip_acl41-Safe =
    require-Safe 4 xdr
      λ _. take_then-Safe (advance-Takes 4) (omega arith) (omega arith) λ _. skip_acl-Safe

skip_padding-Safe : (pad : ℕ) → Safe 0 (skip_padding pad)
unfolding skip_padding ◌>>=◌ and_then remaining advance pure
skip_padding-Safe pad = record { apply = λ s h. ground arith }

pub decode_getattr_envelope-Safe : Safe 0 decode_getattr_envelope
unfolding decode_getattr_envelope bitmap_word
decode_getattr_envelope-Safe = require-Safe 4 xdr λ _. u32-Safe (omega arith) λ len.
    if-Safe (ltb 16 len) (fail-Safe xdr) (
      bind-Safe (repeat-Safe len (require-Safe 4 xdr λ _. Takes→Safe get_u32-Takes)) λ bitmap.
        require-Safe 4 xdr λ _. u32-Safe (omega arith) λ n. require-Safe n xdr λ _.
          take_then-Safe (split_to-Takes n) (omega arith) (omega arith)
            λ vals. bind-Safe (Safe-weaken (skip_padding-Safe (padding n))) λ _. pure-Safe _)

decode_getattr_acl-Safe : Safe 0 decode_getattr_acl
unfolding decode_getattr_acl
decode_getattr_acl-Safe = bind-Safe decode_getattr_envelope-Safe λ e.
    if-Safe (bit_and (get_or e.0 0 0) (2 ^ acl_attribute) == 0) (fail-Safe xdr) (
      if-Safe (bit_and (get_or e.0 0 0) (2 ^ acl_attribute - 1) == 0)
        (run_on-Safe e.1 decode_acl-Safe) (fail-Safe xdr))

decode_getattr_aclsupport-Safe : Safe 0 decode_getattr_aclsupport
unfolding decode_getattr_aclsupport support_value
decode_getattr_aclsupport-Safe = bind-Safe decode_getattr_envelope-Safe λ e.
    if-Safe (bit_and (get_or e.0 0 0) (2 ^ aclsupport_attribute) == 0) (fail-Safe xdr) (
      if-Safe (bit_and (get_or e.0 0 0) (2 ^ aclsupport_attribute - 1) == 0)
        (run_on-Safe e.1 (require-Safe 4 xdr λ _. Takes→Safe get_u32-Takes)) (fail-Safe xdr))

assert_acl41-Safe :
    (attribute : ℕ) → (attribute ≡ 58) ⊎ (attribute ≡ 59) → Safe 0 (assert_acl41 attribute)
unfolding assert_acl41
assert_acl41-Safe attribute which = elim which [
  | inl e ↦ rw e (record { apply = λ s h x. cc })
  | inr e ↦ rw e (record { apply = λ s h x. cc })
]

decode_getattr_acl41-Safe :
    (attribute : ℕ) → (attribute ≡ 58) ⊎ (attribute ≡ 59) → Safe 0 (decode_getattr_acl41 attribute)
unfolding decode_getattr_acl41 acl41_value
decode_getattr_acl41-Safe attribute which = bind-Safe (assert_acl41-Safe attribute which) λ _.
    bind-Safe decode_getattr_envelope-Safe λ e.
      if-Safe (bit_and (get_or e.0 1 0) (2 ^ (attribute - 32)) == 0) (fail-Safe unsupported) (
        run_on-Safe e.1 (
          require-Safe 4 xdr
            λ _. u32-Safe (omega arith) λ flags. bind-Safe decode_acl-Safe λ acl. pure-Safe _))

-- None of the three decoders of ACL replies panics on any reply body: they return a value or an
-- error. The decoder of the NFSv4.1 lists is called for DACL (58) or SACL (59), which its assertion
-- asks for.
pub decode_getattr-ne-panic :
    (s : List ℕ) (attribute : ℕ)
    → (attribute ≡ 58) ⊎ (attribute ≡ 59)
    → (decode_getattr_acl s ≢ panic)
      × (decode_getattr_aclsupport s ≢ panic)
      × (decode_getattr_acl41 attribute s ≢ panic)
decode_getattr-ne-panic s attribute which = (
  decode_getattr_acl-Safe.apply s (omega arith),
  decode_getattr_aclsupport-Safe.apply s (omega arith),
  (decode_getattr_acl41-Safe attribute which).apply s (omega arith),
)
