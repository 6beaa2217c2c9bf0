-- ===== src/Wire/Opaque.antt =====
-- XDR opaque data: the length, the bytes, and zeros up to a multiple of four. The writer is
-- `xdr_opaque` and the readers are `take_u32` and `take_opaque` of nfs4/compound.rs, and
-- `decode_opaque` and `decode_utf8str` of nfs4/attrs.rs. `usize` has 64 bits.
use nfs_rs.Common.{
  ℕ, zero, ◌+◌, ◌-◌, ◌*◌, ◌/◌, ◌%◌, ◌^◌, ◌≤◌, ◌≡◌, refl, List, ◌++◌, length, replicate,
  length-append, length-replicate, append_assoc, arith, ltb, if◌then◌else◌, Option, none, some,
  true, lt→ltb,
}
use native.Mathlib.Nat.{mod-eq_of_lt}
use nfs_rs.Errors.{xdr}
use nfs_rs.Wire.{Reader, ok, ◌>>=◌, ◌>>◌, pure, fail, require, get_u32, peek, advance, IsU32}
use nfs_rs.Wire.Words.{be32, length-be32, get_u32-be32, >>=-run, require-run, peek-run, advance-run}
use nfs_rs.Wire.Safe.{
  Safe, pure-Safe, fail-Safe, bind-Safe, take_then-Safe, require-Safe, u32-Safe, if-Safe,
  peek-Takes, advance-Takes, get_u32-Takes, Takes→Safe,
}
use nfs_rs.Wire.Utf8.{is_utf8}

-- `(4 - n % 4) % 4`.
abbrev pub padding : ℕ → ℕ
padding n = (4 - n % 4) % 4

-- `(n + 3) & !3`.
abbrev pub padded : ℕ → ℕ
padded n = (n + 3) / 4 * 4

pub padded-eq : (n : ℕ) → padded n ≡ n + padding n
padded-eq n = omega arith

unfoldable pub xdr_opaque : List ℕ → List ℕ
xdr_opaque value = be32 (length value % 2 ^ 32) ++ (value ++ replicate (padding (length value)) 0)

pad_zeros : (n : ℕ) → length (replicate (padding n) zero) ≡ padding n
pad_zeros n = length-replicate (padding n) 0

pub length-xdr_opaque : (v : List ℕ) → length (xdr_opaque v) ≡ 4 + padded (length v)
unfolding xdr_opaque
length-xdr_opaque v = omega (
  arith,
  length-append (be32 (length v % 2 ^ 32)) (v ++ replicate (padding (length v)) 0),
  length-be32 (length v % 2 ^ 32),
  length-append v (replicate (padding (length v)) 0),
  pad_zeros (length v),
)

unfoldable pub take_u32 : Reader ℕ
take_u32 = do require 4 xdr; get_u32

-- `usize::checked_add`.
abbrev checked_add : ℕ → ℕ → Option ℕ
checked_add a b = if ltb (a + b) (2 ^ 64) then some (a + b) else none

unfoldable pub take_padded : ℕ → Option ℕ → Reader (List ℕ)
take_padded len none = fail xdr
take_padded len (some sum) = do
  require (sum / 4 * 4) xdr
  value ← peek len
  advance (sum / 4 * 4)
  pure value

unfoldable pub take_opaque : Reader (List ℕ)
unfolding take_padded
take_opaque = do len ← take_u32; take_padded len (checked_add len 3)

-- The readers of nfs4/attrs.rs and their copies in nfs41/layout.rs add with no check.
unfoldable pub decode_opaque : Reader (List ℕ)
decode_opaque = do
  require 4 xdr
  len ← get_u32
  require (padded len) xdr
  value ← peek len
  advance (padded len)
  pure value

unfoldable pub decode_utf8str : Reader (List ℕ)
decode_utf8str = do
  require 4 xdr
  len ← get_u32
  require (padded len) xdr
  bytes ← peek len
  advance (padded len)
  if is_utf8 bytes then pure bytes else fail xdr

pub take_u32-Safe : Safe 0 take_u32
unfolding take_u32
take_u32-Safe = require-Safe 4 xdr λ _. Takes→Safe get_u32-Takes

-- The part that the readers of padded data share.
padded_value-Safe :
    (n k : ℕ) → n ≤ k → Safe 0 (do require k xdr; value ← peek n; advance k; pure value)
padded_value-Safe n k h = require-Safe k xdr λ _.
    take_then-Safe (peek-Takes n) h (omega arith)
      λ v. take_then-Safe (advance-Takes k) (omega arith) (omega arith) λ _. pure-Safe v

checked_add-some : (a b c : ℕ) → checked_add a b ≡ some c → c ≡ a + b
checked_add-some a b c h = ground arith

take_padded-Safe : (len : ℕ) (o : Option ℕ) → checked_add len 3 ≡ o → Safe 0 (take_padded len o)
unfolding take_padded
take_padded-Safe len none h = fail-Safe xdr
take_padded-Safe len (some sum) h =
    padded_value-Safe len (sum / 4 * 4) (omega (arith, checked_add-some len 3 sum h))

pub take_opaque-Safe : Safe 0 take_opaque
unfolding take_opaque
take_opaque-Safe = bind-Safe take_u32-Safe λ len. take_padded-Safe len (checked_add len 3) refl

pub decode_opaque-Safe : Safe 0 decode_opaque
unfolding decode_opaque
decode_opaque-Safe =
    require-Safe 4 xdr
      λ _. u32-Safe (omega arith) λ len. padded_value-Safe len (padded len) (omega arith)

pub decode_utf8str-Safe : Safe 0 decode_utf8str
unfolding decode_utf8str
decode_utf8str-Safe = require-Safe 4 xdr λ _. u32-Safe (omega arith) λ len.
    require-Safe (padded len) xdr λ _.
      take_then-Safe (peek-Takes len) (omega arith) (omega arith) λ v.
        take_then-Safe (advance-Takes (padded len)) (omega arith) (omega arith)
          λ _. if-Safe (is_utf8 v) (pure-Safe v) (fail-Safe xdr)

pub take_u32-run : (n : ℕ) (r : List ℕ) → IsU32 n → take_u32 (be32 n ++ r) ≡ ok (n, r)
unfolding take_u32
take_u32-run n r h =
    >>=-run _ _
      (require-run 4 xdr (be32 n ++ r) (omega (arith, length-append (be32 n) r, length-be32 n)))
      (get_u32-be32 n r h)

module _ (v z r : List ℕ) (n k : ℕ) (value : n ≡ length v) (whole : k ≡ length (v ++ z)) where
  room : k ≤ length ((v ++ z) ++ r)
  room = omega (arith, length-append (v ++ z) r)

  peek-value : peek n ((v ++ z) ++ r) ≡ ok (v, (v ++ z) ++ r)
  peek-value = rw append_assoc (peek-run n v (z ++ r) value)

  pub padded_value-run :
      (do require k xdr; x ← peek n; advance k; pure x) ((v ++ z) ++ r) ≡ ok (v, r)
  unfolding pure
  padded_value-run =
      >>=-run _ _ (require-run k xdr _ room)
        (>>=-run _ _ peek-value (>>=-run _ _ (advance-run k (v ++ z) r whole) refl))

-- The readers give back what `xdr_opaque` wrote.
module _ (v r : List ℕ) (h : IsU32 (length v)) where
  zeros : List ℕ
  zeros = replicate (padding (length v)) 0

  whole : padded (length v) ≡ length (v ++ zeros)
  unfolding zeros
  whole = omega (arith, length-append v (replicate (padding (length v)) 0), pad_zeros (length v))

  split : xdr_opaque v ++ r ≡ be32 (length v) ++ ((v ++ zeros) ++ r)
  unfolding xdr_opaque zeros
  split = rw (append_assoc, mod-eq_of_lt h)

  -- The parts of the bytes: the length, and the value with its padding.
  pub xdr_opaque-parts :
      (z : List ℕ) × (xdr_opaque v ++ r ≡ be32 (length v) ++ ((v ++ z) ++ r))
      × (padded (length v) ≡ length (v ++ z))
  unfolding zeros
  xdr_opaque-parts = (zeros, split, whole)

  pub decode_opaque-run : decode_opaque (xdr_opaque v ++ r) ≡ ok (v, r)
  unfolding decode_opaque
  decode_opaque-run = rw split (
      >>=-run _ _
        (require-run 4 xdr _ (
          omega
            (arith, length-append (be32 (length v)) ((v ++ zeros) ++ r), length-be32 (length v))))
        (>>=-run _ _ (get_u32-be32 (length v) _ h)
          (padded_value-run v zeros r (length v) (padded (length v)) refl whole)))

  pub take_opaque-run : take_opaque (xdr_opaque v ++ r) ≡ ok (v, r)
  unfolding take_opaque
  take_opaque-run = rw split (
      >>=-run _ _ (take_u32-run (length v) _ h)
        (rw fits (padded_value-run v zeros r (length v) (padded (length v)) refl whole)))
    where
      fits : checked_add (length v) 3 ≡ some (length v + 3)
      fits = rw (lt→ltb (length v + 3) (2 ^ 64) (omega arith))

  pub decode_utf8str-run : is_utf8 v ≡ true → decode_utf8str (xdr_opaque v ++ r) ≡ ok (v, r)
  unfolding decode_utf8str pure
  decode_utf8str-run utf8 = rw split (
      >>=-run _ _
        (require-run 4 xdr _ (
          omega
            (arith, length-append (be32 (length v)) ((v ++ zeros) ++ r), length-be32 (length v))))
        (>>=-run _ _ (get_u32-be32 (length v) _ h) (
          >>=-run _ _
            (require-run _ xdr _ (room v zeros r (length v) (padded (length v)) refl whole))
            (>>=-run _ _ (peek-value v zeros r (length v) (padded (length v)) refl whole)
              (>>=-run _ _ (advance-run _ (v ++ zeros) r whole) (rw utf8))))))
