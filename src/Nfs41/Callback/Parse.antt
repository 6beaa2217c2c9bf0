-- ===== src/Nfs41/Callback/Parse.antt =====
-- nfs41/callback.rs: the readers of a call. An error of a reader is told from a panic, and is an
-- answer to the server or the end of the call.
use nfs_rs.Common.{
  ℕ, zero, suc, ◌*◌, ◌/◌, ◌-◌, ◌^◌, not, ◌||◌, List, [], ◌∷◌, ◌++◌, Option, none, some, ltb, ◌==◌,
  bit_and, if◌then◌else◌,
}
use nfs_rs.Errors.{xdr}
use nfs_rs.Wire.{
  Reader, ok, err, panic, ◌>>=◌, ◌>>◌, pure, fail, require, get_u32, get_u64, split_to, advance,
  repeat, remaining, run_on,
}
use nfs_rs.Wire.Opaque.{take_opaque, padded}
use nfs_rs.Nfs41.Layout.Caches.{flatten}
use nfs_rs.Nfs41.Callback.{RecallNotification, delegation, layout_file, layout_all}

abbrev pub max_referring_lists : ℕ
max_referring_lists = 256

-- `len.checked_add(3)` does not overflow, since `len` is a u32 and `usize` has 64 bits.
unfoldable pub read_rpc_auth : Reader (ℕ × ℕ)
read_rpc_auth = do
  require 8 xdr
  flavor ← get_u32
  len ← get_u32
  require (padded len) xdr
  advance (padded len)
  pure (flavor, len)

-- `match m(buf) { Ok(a) => .., Err(_) => .. }`; the buffer is not read again after an error.
unfoldable pub attempt {ℓ} : {A : Type ℓ} → Reader A → Reader (Option A)
attempt m s = elim (m s) [ ok (a, r) ↦ ok (some a, r) | err e ↦ ok (none, s) | panic ↦ panic ]

pub record SequenceArgs : Type 0 where
  pub session_id : List ℕ
  pub sequence_id : ℕ
  pub slot_id : ℕ

unfoldable pub skip_referring_list : Reader (Unit {0})
skip_referring_list = do
  require 20 xdr
  advance 16
  calls ← get_u32
  require (calls * 8) xdr
  advance (calls * 8)

unfoldable pub parse_sequence : Reader SequenceArgs
unfolding skip_referring_list
parse_sequence = do
  require 32 xdr
  session_id ← split_to 16
  sequence_id ← get_u32
  slot_id ← get_u32
  highest_slot_id ← get_u32
  cache_this ← get_u32
  require 4 xdr
  count ← get_u32
  if ltb max_referring_lists count then fail xdr else (do
    lists ← repeat count skip_referring_list
    pure (record { session_id = session_id; sequence_id = sequence_id; slot_id = slot_id }))

-- The words of a bitmap behind the first are zero.
unfoldable pub zero_words : ℕ → Reader (Unit {0})
zero_words zero = pure tt
zero_words (suc n) = do w ← get_u32; if not (w == 0) then fail xdr else zero_words n

-- The value that a bit of the mask announces: the device, if its layout type is 1.
unfoldable pub device_value : ℕ → ℕ → ℕ → Reader (List (List ℕ))
device_value mask bit size = if bit_and mask bit == 0 then pure [] else (do
  require size xdr
  layout_type ← get_u32
  device ← split_to 16
  flag ← (if bit == 2 then get_u32 else pure 0)
  if ltb 1 flag then fail xdr else pure (if layout_type == 1 then device ∷ [] else []))

unfoldable pub device_values : ℕ → Reader (List (List ℕ))
unfolding device_value
device_values mask = do
  changed ← device_value mask 2 24
  deleted ← device_value mask 4 20
  left ← remaining
  if ltb 0 left then fail xdr else pure (changed ++ deleted)

-- `!6` of a u32.
abbrev pub other_bits : ℕ
other_bits = 2 ^ 32 - 1 - 6

unfoldable pub device_notification : Reader (List (List ℕ))
unfolding zero_words device_values
device_notification = do
  require 8 xdr
  words ← get_u32
  left ← remaining
  if words == 0 || ltb (left / 4) words then fail xdr else (do
    mask ← get_u32
    zero_words (words - 1)
    if mask == 0 || not (bit_and mask other_bits == 0)
        then fail xdr
        else (do values ← take_opaque; run_on values (device_values mask)))

unfoldable pub parse_device_notifications : Reader (List (List ℕ))
unfolding device_notification
parse_device_notifications = do
  require 4 xdr
  count ← get_u32
  left ← remaining
  if ltb 4096 count || ltb (left / 12) count
      then fail xdr
      else (do lists ← repeat count device_notification; pure (flatten lists))

unfoldable pub parse_recall : Reader RecallNotification
parse_recall = do
  require 20 xdr
  stateid ← split_to 16
  truncate ← get_u32
  fh ← take_opaque
  pure (delegation stateid (not (truncate == 0)) fh)

unfoldable pub parse_file_recall : ℕ → Reader RecallNotification
parse_file_recall iomode = do
  fh ← take_opaque
  require 32 xdr
  offset ← get_u64
  len ← get_u64
  stateid ← split_to 16
  pure (layout_file stateid fh offset len iomode)

-- The part of parse_layout_recall that reads; `none` is a type of recall that is not known.
unfoldable pub read_layout_recall : Reader (Option RecallNotification)
unfolding parse_file_recall
read_layout_recall = do
  require 16 xdr
  layout_type ← get_u32
  iomode ← get_u32
  changed ← get_u32
  recall_type ← get_u32
  if recall_type == 1
      then (do n ← parse_file_recall iomode; pure (some n))
      else if recall_type == 2
      then (do require 16 xdr; advance 16; pure (some layout_all))
      else pure (if recall_type == 3 then some layout_all else none)
