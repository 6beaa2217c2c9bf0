-- ===== src/Nfs41/Compound/Reply/Extensions.antt =====
-- nfs41/v42_ops.rs and nfs41/v42_xattr.rs: the decoders of COPY, READ_PLUS and LISTXATTRS.
use nfs_rs.Common.{
  ℕ, ◌-◌, ◌/◌, Bool, true, false, ◌||◌, List, [], ◌∷◌, Option, none, some, ltb, ◌==◌, if◌then◌else◌,
}
use nfs_rs.Errors.{xdr}
use nfs_rs.Wire.{
  Reader, ◌>>=◌, ◌>>◌, pure, fail, require, get_u32, get_u64, split_to, repeat, remaining,
}
use nfs_rs.Wire.Opaque.{take_opaque}
use nfs_rs.Wire.Utf8.{is_utf8}

unfoldable pub read_word : Reader ℕ
read_word = require 4 xdr >> get_u32

unfoldable pub decode_u64 : Reader ℕ
decode_u64 = require 8 xdr >> get_u64

unfoldable pub decode_bool : Reader Bool
unfolding read_word
decode_bool = do
  w ← read_word
  if w == 0 then pure false else if w == 1 then pure true else fail xdr

pub data WriteCommitted : Type 0 where
  unstable data_sync file_sync : WriteCommitted

unfoldable pub committed_of : ℕ → Reader WriteCommitted
committed_of w =
    if w == 0
    then pure unstable
    else if w == 1
    then pure data_sync
    else if w == 2
    then pure file_sync
    else fail xdr

pub record CopyReply : Type 0 where
  pub callback : Option (List ℕ)
  pub count : ℕ
  pub committed : WriteCommitted
  pub verifier : List ℕ
  pub consecutive : Bool
  pub synchronous : Bool

-- The array of at most one stateid; the guard fails where 16 bytes are missing.
unfoldable pub decode_callback : ℕ → Reader (Option (List ℕ))
decode_callback n =
    if n == 0
    then pure none
    else if n == 1
    then (do require 16 xdr; id ← split_to 16; pure (some id))
    else fail xdr

unfoldable pub decode_copy : Reader CopyReply
unfolding read_word decode_callback decode_u64 committed_of decode_bool
decode_copy = do
  n ← read_word
  callback ← decode_callback n
  count ← decode_u64
  w ← read_word
  committed ← committed_of w
  require 8 xdr
  verifier ← split_to 8
  consecutive ← decode_bool
  synchronous ← decode_bool
  pure (record {
    callback = callback;
    count = count;
    committed = committed;
    verifier = verifier;
    consecutive = consecutive;
    synchronous = synchronous;
  })

pub data ReadPlusContent : Type 0 where
  data_at : ℕ → List ℕ → ReadPlusContent
  hole_at : ℕ → ℕ → ReadPlusContent

unfoldable pub decode_content : Reader ReadPlusContent
unfolding read_word decode_u64
decode_content = do
  kind ← read_word
  offset ← decode_u64
  if kind == 0
      then (do bytes ← take_opaque; pure (data_at offset bytes))
      else if kind == 1
      then (do len ← decode_u64; pure (hole_at offset len))
      else fail xdr

pub record ReadPlusResult : Type 0 where
  pub eof : Bool
  pub contents : List ReadPlusContent

unfoldable pub decode_read_plus : Reader ReadPlusResult
unfolding decode_bool read_word decode_content
decode_read_plus = do
  eof ← decode_bool
  count ← read_word
  left ← remaining
  if ltb 4096 count || ltb (left / 16) count then fail xdr else (do
    contents ← repeat count decode_content
    pure (record { eof = eof; contents = contents }))

abbrev pub is_empty : List ℕ → Bool
is_empty [] = true
is_empty (x ∷ xs) = false

unfoldable pub has_nul : List ℕ → Bool
has_nul [] = false
has_nul (x ∷ xs) = x == 0 || has_nul xs

unfoldable pub decode_name : Reader (List ℕ)
unfolding has_nul
decode_name = do
  raw ← take_opaque
  if is_utf8 raw then (if is_empty raw || has_nul raw then fail xdr else pure raw) else fail xdr

unfoldable pub decode_list : Reader (ℕ × List (List ℕ) × Bool)
unfolding decode_u64 read_word decode_name decode_bool
decode_list = do
  cookie ← decode_u64
  count ← read_word
  left ← remaining
  if ltb 65536 count || ltb ((left - 4) / 4) count
      then fail xdr
      else (do names ← repeat count decode_name; eof ← decode_bool; pure (cookie, names, eof))
