-- ===== src/Nfs4/Acl.antt =====
-- nfs4/acl.rs: access control lists on the wire, as FATTR4_ACL and as the NFSv4.1 DACL and SACL. A
-- `who` is the bytes of its text.
pub mod Safe
pub mod RoundTrip
pub mod Setattr
use nfs_rs.Common.{
  ℕ, zero, suc, ◌+◌, ◌-◌, ◌*◌, ◌/◌, ◌%◌, ◌^◌, ◌<◌, ◌≡◌, refl, Bool, true, false, ◌||◌, List, [],
  ◌∷◌, ◌++◌, length, replicate, get_or, get_elem?, ltb, leb, ◌==◌, if◌then◌else◌, bit_and, Option,
  none, some,
}
use nfs_rs.Errors.{xdr, unsupported}
use nfs_rs.Wire.{
  Reader, Outcome, ok, panic, ◌>>=◌, ◌>>◌, pure, fail, require, get_u32, split_to, advance, repeat,
  remaining, run_on,
}
use nfs_rs.Wire.Words.{be32, concat_map}
use nfs_rs.Wire.Opaque.{padding, padded, decode_utf8str}

pub data AceType : Type 0 where
  access_allowed access_denied system_audit system_alarm : AceType

abbrev pub ace_number : AceType → ℕ
ace_number access_allowed = 0
ace_number access_denied = 1
ace_number system_audit = 2
ace_number system_alarm = 3

pub record NfsAce : Type 0 where
  pub ace_type : AceType
  pub flags : ℕ
  pub access_mask : ℕ
  pub who : List ℕ

pub record Acl : Type 0 where
  pub aces : List NfsAce

pub record NfsAcl41 : Type 0 where
  pub flags : ℕ
  pub aces : List NfsAce

abbrev pub max_aces : ℕ
max_aces = 8192

-- `AceType::try_from`.
ace_type_try_from : ℕ → Reader AceType
ace_type_try_from v =
    if v == 0
    then pure access_allowed
    else if v == 1
    then pure access_denied
    else if v == 2
    then pure system_audit
    else if v == 3
    then pure system_alarm
    else fail xdr

pub decode_nfsace4 : Reader NfsAce
decode_nfsace4 = do
  require 12 xdr
  t ← get_u32
  ace_type ← ace_type_try_from t
  flags ← get_u32
  access_mask ← get_u32
  who ← decode_utf8str
  pure (record { ace_type = ace_type; flags = flags; access_mask = access_mask; who = who })

pub decode_acl : Reader Acl
decode_acl = do
  require 4 xdr
  count ← get_u32
  if ltb max_aces count
      then fail xdr
      else (do aces ← repeat count decode_nfsace4; pure (record { aces = aces }))

-- One round of the loop of `skip_acl`.
skip_ace : Reader (Unit {0})
skip_ace = do
  require 12 xdr
  advance 12
  require 4 xdr
  len ← get_u32
  require (padded len) xdr
  advance (padded len)

pub skip_acl : Reader (Unit {0})
skip_acl = do
  require 4 xdr
  count ← get_u32
  if ltb max_aces count then fail xdr else (do skipped ← repeat count skip_ace; pure tt)

pub skip_acl41 : Reader (Unit {0})
skip_acl41 = do require 4 xdr; advance 4; skip_acl

unfoldable pub encode_nfsace4 : NfsAce → List ℕ
encode_nfsace4 ace =
    be32 (ace_number ace.ace_type)
    ++ (be32 ace.flags
        ++ (be32 ace.access_mask
            ++ (be32 (length ace.who % 2 ^ 32)
                ++ (ace.who ++ replicate (padding (length ace.who)) 0))))

unfoldable pub encode_acl : Acl → List ℕ
encode_acl acl = be32 (length acl.aces % 2 ^ 32) ++ concat_map encode_nfsace4 acl.aces

-- `attrnum`.
abbrev pub acl_attribute : ℕ
acl_attribute = 12

abbrev pub aclsupport_attribute : ℕ
aclsupport_attribute = 13

pub encode_setattr_acl : Acl → List ℕ × List ℕ
encode_setattr_acl acl = (2 ^ acl_attribute ∷ [], encode_acl acl)

-- `attribute` is 58 or 59.
pub encode_setattr_acl41 : NfsAcl41 → ℕ → List ℕ × List ℕ
encode_setattr_acl41 acl attribute =
    (0 ∷ 2 ^ (attribute - 32) ∷ [], be32 acl.flags ++ encode_acl (record { aces = acl.aces }))

-- `decode_getattr_envelope` of nfs4/attrs.rs: the bitmap and the attribute values of a reply. The
-- padding behind the values is skipped only where it is there.
bitmap_word : Reader ℕ
bitmap_word = do require 4 xdr; get_u32

skip_padding : ℕ → Reader (Unit {0})
skip_padding pad = do left ← remaining; if leb pad left then advance pad else pure tt

pub decode_getattr_envelope : Reader (List ℕ × List ℕ)
decode_getattr_envelope = do
  require 4 xdr
  bitmap_len ← get_u32
  if ltb 16 bitmap_len then fail xdr else (do
    bitmap ← repeat bitmap_len bitmap_word
    require 4 xdr
    vals_len ← get_u32
    require vals_len xdr
    vals ← split_to vals_len
    skip_padding (padding vals_len)
    pure (bitmap, vals))

pub decode_getattr_acl : Reader Acl
decode_getattr_acl = do
  (bitmap, vals) ← decode_getattr_envelope
  if bit_and (get_or bitmap 0 0) (2 ^ acl_attribute) == 0
      then fail xdr
      else if bit_and (get_or bitmap 0 0) (2 ^ acl_attribute - 1) == 0
      then run_on vals decode_acl
      else fail xdr

support_value : Reader ℕ
support_value = do require 4 xdr; get_u32

pub decode_getattr_aclsupport : Reader ℕ
decode_getattr_aclsupport = do
  (bitmap, vals) ← decode_getattr_envelope
  if bit_and (get_or bitmap 0 0) (2 ^ aclsupport_attribute) == 0
      then fail xdr
      else if bit_and (get_or bitmap 0 0) (2 ^ aclsupport_attribute - 1) == 0
      then run_on vals support_value
      else fail xdr

acl41_value : Reader NfsAcl41
acl41_value = do
  require 4 xdr
  flags ← get_u32
  acl ← decode_acl
  pure (record { flags = flags; aces = acl.aces })

-- `debug_assert!` of the attribute, in a build that has it. Behind it `attribute - 32` is 26 or 27.
unfoldable pub assert_acl41 : ℕ → Reader (Unit {0})
assert_acl41 attribute s = if attribute == 58 || attribute == 59 then ok (tt, s) else panic

pub decode_getattr_acl41 : ℕ → Reader NfsAcl41
unfolding assert_acl41
decode_getattr_acl41 attribute = do
  assert_acl41 attribute
  (bitmap, vals) ← decode_getattr_envelope
  if bit_and (get_or bitmap 1 0) (2 ^ (attribute - 32)) == 0
      then fail unsupported
      else run_on vals acl41_value
