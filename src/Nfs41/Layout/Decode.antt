-- ===== src/Nfs41/Layout/Decode.antt =====
-- nfs41/layout.rs: the decoders of LAYOUTGET. The padding behind the content of a segment is
-- skipped only where it is there.
use nfs_rs.Common.{
  ℕ, ◌-◌, ◌*◌, ◌/◌, ◌≢◌, Bool, true, false, not, List, arith, ltb, leb, ◌==◌, bit_and,
  if◌then◌else◌,
}
use nfs_rs.Errors.{xdr}
use nfs_rs.Wire.{
  Reader, panic, ◌>>=◌, ◌>>◌, pure, fail, require, get_u32, get_u64, split_to, advance, remaining,
  repeat, run_on, and_then,
}
use nfs_rs.Wire.Opaque.{padded, decode_opaque, decode_opaque-Safe}
use nfs_rs.Wire.Safe.{
  Safe, pure-Safe, fail-Safe, bind-Safe, take_then-Safe, require-Safe, u32-Safe, u64-Safe, if-Safe,
  repeat-Safe, run_on-Safe, split_to-Takes, Safe-weaken,
}

pub data IoMode : Type 0 where
  io_read io_read_write : IoMode

pub data LayoutType : Type 0 where
  nfs_v41_files osd2_objects block_volume : LayoutType

pub record FilesLayout : Type 0 where
  pub device_id : List ℕ
  pub stripe_unit : ℕ
  pub is_dense : Bool
  pub commit_thru_mds : Bool
  pub first_stripe_index : ℕ
  pub pattern_offset : ℕ
  pub fh_list : List (List ℕ)

pub data LayoutContent : Type 0 where
  files_layout : FilesLayout → LayoutContent
  opaque_content : List ℕ → LayoutContent

pub record LayoutSegment : Type 0 where
  pub offset : ℕ
  pub length_ : ℕ
  pub iomode : IoMode
  pub layout_type : LayoutType
  pub content : LayoutContent

pub record Layout : Type 0 where
  pub generation : ℕ
  pub stateid : List ℕ
  pub return_on_close : Bool
  pub segments : List LayoutSegment

-- `data.copy_to_slice(&mut bytes)` of 16 bytes.
copy_16 : Reader (List ℕ)
copy_16 = split_to 16

pub decode_files_layout : Reader LayoutContent
unfolding copy_16
decode_files_layout = do
  require 16 xdr
  device_id ← copy_16
  require 4 xdr
  nfl_util ← get_u32
  require 4 xdr
  first_stripe_index ← get_u32
  require 8 xdr
  pattern_offset ← get_u64
  require 4 xdr
  num_fhs ← get_u32
  if ltb 4096 num_fhs then fail xdr else (do
    fh_list ← repeat num_fhs decode_opaque
    pure (
        files_layout (record {
          device_id = device_id;
          stripe_unit = nfl_util / 64 * 64;
          is_dense = not (bit_and nfl_util 1 == 0);
          commit_thru_mds = not (bit_and nfl_util 2 == 0);
          first_stripe_index = first_stripe_index;
          pattern_offset = pattern_offset;
          fh_list = fh_list;
        })))

iomode_of : ℕ → IoMode
iomode_of v = if v == 2 then io_read_write else io_read

layout_type_of : ℕ → LayoutType
layout_type_of v = if v == 2 then osd2_objects else if v == 3 then block_volume else nfs_v41_files

is_files : LayoutType → Bool
is_files nfs_v41_files = true
is_files osd2_objects = false
is_files block_volume = false

skip_pad : ℕ → Reader (Unit {0})
skip_pad pad = do left ← remaining; if leb pad left then advance pad else pure tt

decode_content : LayoutType → List ℕ → Reader LayoutContent
unfolding is_files
decode_content layout_type content =
    if is_files layout_type
    then run_on content decode_files_layout
    else pure (opaque_content content)

pub decode_segment : Reader LayoutSegment
unfolding iomode_of layout_type_of
decode_segment = do
  require 24 xdr
  offset ← get_u64
  len ← get_u64
  iomode ← get_u32
  layout_type ← get_u32
  require 4 xdr
  content_len ← get_u32
  require (padded content_len) xdr
  content_data ← split_to content_len
  skip_pad (padded content_len - content_len)
  content ← decode_content (layout_type_of layout_type) content_data
  pure (record {
    offset = offset;
    length_ = len;
    iomode = iomode_of iomode;
    layout_type = layout_type_of layout_type;
    content = content;
  })

pub decode_layoutget_response : Reader Layout
decode_layoutget_response = do
  require 4 xdr
  return_on_close ← get_u32
  require 16 xdr
  stateid ← copy_16
  require 4 xdr
  num_segments ← get_u32
  if ltb 1024 num_segments then fail xdr else (do
    segments ← repeat num_segments decode_segment
    pure (record {
      generation = 0;
      stateid = stateid;
      return_on_close = not (return_on_close == 0);
      segments = segments;
    }))

decode_files_layout-Safe : Safe 0 decode_files_layout
unfolding decode_files_layout copy_16
decode_files_layout-Safe = require-Safe 16 xdr λ _.
    take_then-Safe (split_to-Takes 16) (omega arith) (omega arith) λ device_id.
      require-Safe 4 xdr λ _. u32-Safe (omega arith) λ nfl_util. require-Safe 4 xdr λ _.
        u32-Safe (omega arith) λ first. require-Safe 8 xdr λ _. u64-Safe (omega arith) λ pattern.
          require-Safe 4 xdr λ _. u32-Safe (omega arith) λ num_fhs.
            if-Safe (ltb 4096 num_fhs) (fail-Safe xdr)
              (bind-Safe (repeat-Safe num_fhs decode_opaque-Safe) λ fhs. pure-Safe _)

skip_pad-Safe : (pad : ℕ) → Safe 0 (skip_pad pad)
unfolding skip_pad ◌>>=◌ and_then remaining advance pure
skip_pad-Safe pad = record { apply = λ s h. ground arith }

decode_content-Safe : (t : LayoutType) (content : List ℕ) → Safe 0 (decode_content t content)
unfolding decode_content
decode_content-Safe t content =
    if-Safe (is_files t) (run_on-Safe content decode_files_layout-Safe) (pure-Safe _)

decode_segment-Safe : Safe 0 decode_segment
unfolding decode_segment
decode_segment-Safe = require-Safe 24 xdr λ _. u64-Safe (omega arith) λ offset.
    u64-Safe (omega arith) λ len. u32-Safe (omega arith) λ iomode.
      u32-Safe (omega arith) λ layout_type. require-Safe 4 xdr λ _.
        u32-Safe (omega arith) λ content_len. require-Safe (padded content_len) xdr λ _.
          take_then-Safe (split_to-Takes content_len) (omega arith) (omega arith) λ content.
            bind-Safe (Safe-weaken (skip_pad-Safe (padded content_len - content_len))) λ _.
              bind-Safe (decode_content-Safe (layout_type_of layout_type) content) λ c. pure-Safe _

-- The decoder of LAYOUTGET does not panic on any reply, whatever a segment's content is.
pub decode_layoutget_response-ne-panic : (s : List ℕ) → decode_layoutget_response s ≢ panic
unfolding decode_layoutget_response copy_16
decode_layoutget_response-ne-panic s = safe.apply s (omega arith)
  where
    safe : Safe 0 decode_layoutget_response
    safe = require-Safe 4 xdr λ _. u32-Safe (omega arith) λ roc. require-Safe 16 xdr λ _.
        take_then-Safe (split_to-Takes 16) (omega arith) (omega arith) λ stateid.
          require-Safe 4 xdr λ _. u32-Safe (omega arith) λ n.
            if-Safe (ltb 1024 n) (fail-Safe xdr)
              (bind-Safe (repeat-Safe n decode_segment-Safe) λ segments. pure-Safe _)
