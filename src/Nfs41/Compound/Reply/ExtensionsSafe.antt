-- ===== src/Nfs41/Compound/Reply/ExtensionsSafe.antt =====
-- The decoders of COPY, READ_PLUS and LISTXATTRS do not panic.
use nfs_rs.Common.{ℕ, ◌/◌, ◌-◌, ◌||◌, ltb, ◌==◌, arith, true, false}
use nfs_rs.Assoc.{nat_eq}
use nfs_rs.Errors.{xdr}
use nfs_rs.Wire.{Reader, remaining}
use nfs_rs.Wire.Opaque.{take_opaque-Safe}
use nfs_rs.Wire.Utf8.{is_utf8}
use nfs_rs.Wire.Safe.{
  Safe, pure-Safe, fail-Safe, bind-Safe, take_then-Safe, require-Safe, if-Safe, repeat-Safe,
  split_to-Takes, get_u32-Takes, get_u64-Takes, remaining-Takes, Takes→Safe,
}
use nfs_rs.Nfs41.Compound.Reply.Extensions.{
  read_word, decode_u64, decode_bool, committed_of, decode_callback, decode_copy, decode_content,
  decode_read_plus, has_nul, decode_name, decode_list, is_empty,
}
use nfs_rs.Nfs41.Compound.Reply.Results.{drop_value}

pub drop_value-Safe {ℓ} : {A : Type ℓ} {m : Reader A} → Safe 0 m → Safe 0 (drop_value m)
drop_value-Safe s = bind-Safe s λ _. pure-Safe tt

pub read_word-Safe : Safe 0 read_word
unfolding read_word
read_word-Safe = require-Safe 4 xdr λ _. Takes→Safe get_u32-Takes

pub decode_u64-Safe : Safe 0 decode_u64
unfolding decode_u64
decode_u64-Safe = require-Safe 8 xdr λ _. Takes→Safe get_u64-Takes

pub decode_bool-Safe : Safe 0 decode_bool
unfolding decode_bool
decode_bool-Safe =
    bind-Safe read_word-Safe
      λ w. if-Safe (w == 0) (pure-Safe false) (if-Safe (w == 1) (pure-Safe true) (fail-Safe xdr))

pub committed_of-Safe : (w : ℕ) → Safe 0 (committed_of w)
unfolding committed_of
committed_of-Safe w =
    if-Safe (w == 0) (pure-Safe _)
      (if-Safe (w == 1) (pure-Safe _) (if-Safe (w == 2) (pure-Safe _) (fail-Safe xdr)))

pub decode_callback-Safe : (n : ℕ) → Safe 0 (decode_callback n)
unfolding decode_callback
decode_callback-Safe n = if-Safe (n == 0) (pure-Safe _) (
    if-Safe (n == 1)
      (require-Safe 16 xdr
        λ _. take_then-Safe (split_to-Takes 16) (omega arith) (omega arith) λ _. pure-Safe _)
      (fail-Safe xdr))

pub decode_copy-Safe : Safe 0 decode_copy
unfolding decode_copy
decode_copy-Safe = bind-Safe read_word-Safe λ n. bind-Safe (decode_callback-Safe n) λ c.
    bind-Safe decode_u64-Safe λ k. bind-Safe read_word-Safe λ w.
      bind-Safe (committed_of-Safe w) λ co. require-Safe 8 xdr λ _.
        take_then-Safe (split_to-Takes 8) (omega arith) (omega arith)
          λ v. bind-Safe decode_bool-Safe λ b. bind-Safe decode_bool-Safe λ b'. pure-Safe _

pub decode_content-Safe : Safe 0 decode_content
unfolding decode_content
decode_content-Safe = bind-Safe read_word-Safe λ k. bind-Safe decode_u64-Safe λ o.
    if-Safe (k == 0) (bind-Safe take_opaque-Safe λ b. pure-Safe _)
      (if-Safe (k == 1) (bind-Safe decode_u64-Safe λ l. pure-Safe _) (fail-Safe xdr))

pub remaining-Safe : Safe 0 remaining
remaining-Safe = Takes→Safe remaining-Takes

pub decode_read_plus-Safe : Safe 0 decode_read_plus
unfolding decode_read_plus
decode_read_plus-Safe = bind-Safe decode_bool-Safe λ e. bind-Safe read_word-Safe λ n.
    bind-Safe remaining-Safe λ left.
      if-Safe (ltb 4096 n || ltb (left / 16) n) (fail-Safe xdr)
        (bind-Safe (repeat-Safe n decode_content-Safe) λ c. pure-Safe _)

pub decode_name-Safe : Safe 0 decode_name
unfolding decode_name
decode_name-Safe = bind-Safe take_opaque-Safe λ raw.
    if-Safe (is_utf8 raw) (if-Safe (is_empty raw || has_nul raw) (fail-Safe xdr) (pure-Safe raw))
      (fail-Safe xdr)

pub decode_list-Safe : Safe 0 decode_list
unfolding decode_list
decode_list-Safe = bind-Safe decode_u64-Safe λ c. bind-Safe read_word-Safe λ n.
    bind-Safe remaining-Safe λ left.
      if-Safe (ltb 65536 n || ltb ((left - 4) / 4) n) (fail-Safe xdr) (
        bind-Safe (repeat-Safe n decode_name-Safe)
          λ ns. bind-Safe decode_bool-Safe λ e. pure-Safe _)
