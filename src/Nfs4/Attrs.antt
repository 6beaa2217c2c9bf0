-- ===== src/Nfs4/Attrs.antt =====
-- nfs4/attrs.rs: the attributes of a file, in the order of their numbers. The decoder tests each
-- number in turn and runs its part; here the parts stand in a table with their numbers. A text is
-- its bytes.
pub mod Owner
pub mod Clock
pub mod Safe
mod Tests
use nfs_rs.Common.{
  ℕ, zero, suc, ◌+◌, ◌-◌, ◌*◌, ◌/◌, ◌%◌, ◌^◌, Bool, true, false, not, List, [], ◌∷◌, ◌++◌, length,
  get_elem?, bit_and, Option, none, some, ltb, leb, ◌==◌, if◌then◌else◌,
}
use nfs_rs.Errors.{xdr, rdattr_error}
use nfs_rs.Wire.{
  Reader, ◌>>=◌, ◌>>◌, pure, fail, require, get_u32, get_u64, advance, split_to, repeat, run_on,
}
use nfs_rs.Wire.Opaque.{decode_opaque, decode_utf8str}
use nfs_rs.Nfs4.Acl.{Acl, decode_acl, skip_acl41, decode_getattr_envelope}
use nfs_rs.Nfs4.Attrs.Owner.{parse_numeric_owner}
use nfs_rs.Nfs4.Attrs.Clock.{Time, decode_nfstime4}

pub record Attr : Type 0 where
  pub type_ : ℕ
  pub file_mode : ℕ
  pub nlink : ℕ
  pub uid : ℕ
  pub gid : ℕ
  pub filesize : ℕ
  pub used : ℕ
  pub spec_data : ℕ × ℕ
  pub fsid : ℕ
  pub fileid : ℕ
  pub atime : Time
  pub mtime : Time
  pub ctime : Time
  pub acl : Option Acl
  pub owner : List ℕ
  pub owner_group : List ℕ
  pub filehandle : List ℕ

abbrev zero_time : Time
zero_time = record { seconds = 0; nseconds = 0 }

-- `Attr::default()`.
abbrev pub default : Attr
default = record {
  type_ = 0;
  file_mode = 0;
  nlink = 0;
  uid = 0;
  gid = 0;
  filesize = 0;
  used = 0;
  spec_data = (0, 0);
  fsid = 0;
  fileid = 0;
  atime = record { seconds = 0; nseconds = 0 };
  mtime = record { seconds = 0; nseconds = 0 };
  ctime = record { seconds = 0; nseconds = 0 };
  acl = none;
  owner = [];
  owner_group = [];
  filehandle = [];
}

pub bitmap_has : List ℕ → ℕ → Bool
bitmap_has bitmap attr_num = elim (get_elem? bitmap (attr_num / 32)) [
  | none ↦ false
  | some word ↦ not (bit_and word (2 ^ (attr_num % 32)) == 0)
]

pub skip_fixed : ℕ → Reader (Unit {0})
skip_fixed n = do require n xdr; advance n

pub skip_settime4 : Reader (Unit {0})
skip_settime4 = do require 4 xdr; how ← get_u32; if how == 1 then skip_fixed 12 else pure tt

pub skip_bitmap4 : Reader (Unit {0})
skip_bitmap4 = do require 4 xdr; count ← get_u32; skip_fixed (count * 4)

-- `count(u32)` and that many strings.
skip_strings : Reader (Unit {0})
skip_strings = do require 4 xdr; count ← get_u32; skipped ← repeat count decode_utf8str; pure tt

skip_location : Reader (Unit {0})
skip_location = do skip_strings; skip_strings

pub skip_fs_locations : Reader (Unit {0})
skip_fs_locations = do
  skip_strings
  require 4 xdr
  count ← get_u32
  skipped ← repeat count skip_location
  pure tt

-- A part of the decoder: what it does to the attributes read so far.
abbrev pub Part : Type 0
Part = Attr → Reader Attr

skipping : Reader (Unit {0}) → Part
skipping m attr = do m; pure attr

fixed : ℕ → Part
fixed n = skipping (skip_fixed n)

read_type : Part
read_type attr = do require 4 xdr; v ← get_u32; pure (record attr { type_ = v })

read_size : Part
read_size attr = do require 8 xdr; v ← get_u64; pure (record attr { filesize = v })

read_fsid : Part
read_fsid attr = do
  require 16 xdr
  major ← get_u64
  minor ← get_u64
  pure (record attr { fsid = major })

read_rdattr_error : Part
read_rdattr_error attr = do
  require 4 xdr
  code ← get_u32
  if not (code == 0) then fail (rdattr_error code) else pure attr

read_acl : Part
read_acl attr = do acl ← decode_acl; pure (record attr { acl = some acl })

read_filehandle : Part
read_filehandle attr = do v ← decode_opaque; pure (record attr { filehandle = v })

read_fileid : Part
read_fileid attr = do require 8 xdr; v ← get_u64; pure (record attr { fileid = v })

skip_mimetype : Part
skip_mimetype attr = do v ← decode_utf8str; pure attr

read_mode : Part
read_mode attr = do require 4 xdr; v ← get_u32; pure (record attr { file_mode = v })

read_numlinks : Part
read_numlinks attr = do require 4 xdr; v ← get_u32; pure (record attr { nlink = v })

read_owner : Part
read_owner attr = do
  v ← decode_utf8str
  pure (record attr { uid = parse_numeric_owner v; owner = v })

read_owner_group : Part
read_owner_group attr = do
  v ← decode_utf8str
  pure (record attr { gid = parse_numeric_owner v; owner_group = v })

read_rawdev : Part
read_rawdev attr = do
  require 8 xdr
  major ← get_u32
  minor ← get_u32
  pure (record attr { spec_data = (major, minor) })

read_space_used : Part
read_space_used attr = do require 8 xdr; v ← get_u64; pure (record attr { used = v })

read_time_access : Part
read_time_access attr = do v ← decode_nfstime4; pure (record attr { atime = v })

read_time_metadata : Part
read_time_metadata attr = do v ← decode_nfstime4; pure (record attr { ctime = v })

read_time_modify : Part
read_time_modify attr = do v ← decode_nfstime4; pure (record attr { mtime = v })

-- Attributes 0 to 31.
pub word_0 : List (ℕ × Part)
word_0 =
    (0, skipping skip_bitmap4)
    ∷ (1, read_type)
    ∷ (2, fixed 4)
    ∷ (3, fixed 8)
    ∷ (4, read_size)
    ∷ (5, fixed 4)
    ∷ (6, fixed 4)
    ∷ (7, fixed 4)
    ∷ (8, read_fsid)
    ∷ (9, fixed 4)
    ∷ (10, fixed 4)
    ∷ (11, read_rdattr_error)
    ∷ (12, read_acl)
    ∷ (13, fixed 4)
    ∷ (14, fixed 4)
    ∷ (15, fixed 4)
    ∷ (16, fixed 4)
    ∷ (17, fixed 4)
    ∷ (18, fixed 4)
    ∷ (19, read_filehandle)
    ∷ (20, read_fileid)
    ∷ (21, fixed 8)
    ∷ (22, fixed 8)
    ∷ (23, fixed 8)
    ∷ (24, skipping skip_fs_locations)
    ∷ (25, fixed 4)
    ∷ (26, fixed 4)
    ∷ (27, fixed 8)
    ∷ (28, fixed 4)
    ∷ (29, fixed 4)
    ∷ (30, fixed 8)
    ∷ (31, fixed 8)
    ∷ []

-- Attributes 32 to 55.
pub word_1 : List (ℕ × Part)
word_1 =
    (32, skip_mimetype)
    ∷ (33, read_mode)
    ∷ (34, fixed 4)
    ∷ (35, read_numlinks)
    ∷ (36, read_owner)
    ∷ (37, read_owner_group)
    ∷ (38, fixed 8)
    ∷ (39, fixed 8)
    ∷ (40, fixed 8)
    ∷ (41, read_rawdev)
    ∷ (42, fixed 8)
    ∷ (43, fixed 8)
    ∷ (44, fixed 8)
    ∷ (45, read_space_used)
    ∷ (46, fixed 4)
    ∷ (47, read_time_access)
    ∷ (48, skipping skip_settime4)
    ∷ (49, fixed 12)
    ∷ (50, fixed 12)
    ∷ (51, fixed 12)
    ∷ (52, read_time_metadata)
    ∷ (53, read_time_modify)
    ∷ (54, skipping skip_settime4)
    ∷ (55, fixed 8)
    ∷ []

-- Attributes 56 to 60.
pub word_2 : List (ℕ × Part)
word_2 =
    (56, fixed 12)
    ∷ (57, fixed 12)
    ∷ (58, skipping skip_acl41)
    ∷ (59, skipping skip_acl41)
    ∷ (60, fixed 16)
    ∷ []

run_parts : List ℕ → List (ℕ × Part) → Part
run_parts bitmap [] attr = pure attr
run_parts bitmap ((number, part) ∷ parts) attr = do
  next ← (if bitmap_has bitmap number then part attr else pure attr)
  run_parts bitmap parts next

pub decode_fattr4_to_attr : List ℕ → Reader Attr
decode_fattr4_to_attr bitmap = run_parts bitmap (word_0 ++ (word_1 ++ word_2)) default

-- The result on the values alone; the log line of a failure is left out.
pub decode_getattr_response : Reader Attr
decode_getattr_response = do
  (bitmap, vals) ← decode_getattr_envelope
  run_on vals (decode_fattr4_to_attr bitmap)

envelope_word : Reader ℕ
envelope_word = get_u32

pub decode_fattr4_envelope : Reader (List ℕ × List ℕ)
decode_fattr4_envelope = do
  require 4 xdr
  count ← get_u32
  if ltb 16 count then fail xdr else (do
    require (count * 4) xdr
    bitmap ← repeat count envelope_word
    require 4 xdr
    len ← get_u32
    require len xdr
    vals ← split_to len
    pure (bitmap, vals))
