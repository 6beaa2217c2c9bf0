-- ===== src/Nfs4/Acl/RoundTrip.antt =====
-- What the client writes as an ACL, a server that stores it sends back, and the client reads it.
use nfs_rs.Common.{
  replicate, length-replicate, sym, ℕ, ◌^◌, ◌≤◌, ◌<◌, ◌≡◌, refl, List, ◌++◌, length, append_assoc,
  arith, All, length-append, ltb, le→leb, true, false,
}
use native.Mathlib.Nat.{mod-eq_of_lt}
use nfs_rs.Errors.{xdr}
use nfs_rs.Wire.{ok, ◌>>=◌, and_then, pure, remaining, IsU32}
use nfs_rs.Wire.Words.{
  be32, length-be32, get_u32-be32, >>=-run, require-run, require32-run, split_to-run, advance-run,
  concat_map, repeat-run,
}
use nfs_rs.Wire.Opaque.{padding, xdr_opaque, decode_utf8str-run}
use nfs_rs.Wire.Utf8.{is_utf8}
use nfs_rs.Nfs4.Acl.{
  AceType, access_allowed, access_denied, system_audit, system_alarm, ace_number, NfsAce, max_aces,
  ace_type_try_from, decode_nfsace4, decode_acl, encode_nfsace4, encode_acl, bitmap_word,
  skip_padding, decode_getattr_envelope,
}

-- The words of an entry fit, and its `who` is a text.
pub record IsAce (a : NfsAce) : Type 0 where
  pub flags_fit : IsU32 a.flags
  pub mask_fits : IsU32 a.access_mask
  pub who_fits : IsU32 (length a.who)
  pub who_text : is_utf8 a.who ≡ true

pub record IsAcl (aces : List NfsAce) : Type 0 where
  pub few : length aces ≤ max_aces
  pub each : All IsAce aces

ace_type-run : (t : AceType) (s : List ℕ) → ace_type_try_from (ace_number t) s ≡ ok (t, s)
unfolding ace_type_try_from pure
ace_type-run access_allowed s = refl
ace_type-run access_denied s = refl
ace_type-run system_audit s = refl
ace_type-run system_alarm s = refl

ace_number-IsU32 : (t : AceType) → IsU32 (ace_number t)
ace_number-IsU32 access_allowed = omega arith
ace_number-IsU32 access_denied = omega arith
ace_number-IsU32 system_audit = omega arith
ace_number-IsU32 system_alarm = omega arith

encode_nfsace4-eq :
    (a : NfsAce) (r : List ℕ)
    → encode_nfsace4 a ++ r
      ≡ be32 (ace_number a.ace_type)
        ++ (be32 a.flags ++ (be32 a.access_mask ++ (xdr_opaque a.who ++ r)))
unfolding encode_nfsace4 xdr_opaque
encode_nfsace4-eq a r = simp append_assoc

pub decode_nfsace4-run :
    (a : NfsAce) (r : List ℕ) → IsAce a → decode_nfsace4 (encode_nfsace4 a ++ r) ≡ ok (a, r)
unfolding decode_nfsace4 pure
decode_nfsace4-run a r v = rw (encode_nfsace4-eq a r) (
    >>=-run _ _ (require-run 12 xdr _ room) (
      >>=-run _ _ (get_u32-be32 (ace_number a.ace_type) _ (ace_number-IsU32 a.ace_type)) (
        >>=-run _ _ (ace_type-run a.ace_type _) (
          >>=-run _ _ (get_u32-be32 a.flags _ v.flags_fit) (
            >>=-run _ _ (get_u32-be32 a.access_mask _ v.mask_fits)
              (>>=-run _ _ (decode_utf8str-run a.who r v.who_fits v.who_text) refl))))))
  where
    room :
        12
        ≤ length (
            be32 (ace_number a.ace_type)
            ++ (be32 a.flags ++ (be32 a.access_mask ++ (xdr_opaque a.who ++ r))))
    room = omega (
      arith,
      length-append (be32 (ace_number a.ace_type))
          (be32 a.flags ++ (be32 a.access_mask ++ (xdr_opaque a.who ++ r))),
      length-append (be32 a.flags) (be32 a.access_mask ++ (xdr_opaque a.who ++ r)),
      length-append (be32 a.access_mask) (xdr_opaque a.who ++ r),
      length-be32 (ace_number a.ace_type),
      length-be32 a.flags,
      length-be32 a.access_mask,
    )

-- The decoder gives back the list that was encoded and leaves what follows it, for a list of at
-- most 8192 entries whose words fit 32 bits and whose `who` is UTF-8 text.
pub decode_acl-encode_acl :
    (aces : List NfsAce) (r : List ℕ)
    → IsAcl aces
    → decode_acl (encode_acl (record { aces = aces }) ++ r) ≡ ok (record { aces = aces }, r)
unfolding decode_acl encode_acl pure
decode_acl-encode_acl aces r v =
    rw (mod-eq_of_lt small, append_assoc)
      (>>=-run _ _ (require32-run xdr (length aces) _) (
        >>=-run _ _ (get_u32-be32 (length aces) _ small) (
          rw within (
            >>=-run _ _ (repeat-run decode_nfsace4 encode_nfsace4 decode_nfsace4-run aces r v.each)
              refl))))
  where
    few : length aces ≤ max_aces
    few = v.few

    small : length aces < 2 ^ 32
    small = omega arith

    within : ltb max_aces (length aces) ≡ false
    within = ground arith

-- The body of a GETATTR reply (RFC 7530): the bitmap, and the values as opaque data.
pub getattr_reply : List ℕ × List ℕ → List ℕ
getattr_reply (bitmap, vals) = be32 (length bitmap) ++ (concat_map be32 bitmap ++ xdr_opaque vals)

bitmap_word-run : (n : ℕ) (r : List ℕ) → IsU32 n → bitmap_word (be32 n ++ r) ≡ ok (n, r)
unfolding bitmap_word
bitmap_word-run n r h = >>=-run _ _ (require32-run xdr n r) (get_u32-be32 n r h)

skip_padding-run :
    (zeros r : List ℕ) (n : ℕ) → n ≡ length zeros → skip_padding n (zeros ++ r) ≡ ok (tt, r)
unfolding skip_padding remaining ◌>>=◌ and_then
skip_padding-run zeros r n h =
    rw (le→leb n (length (zeros ++ r)) (omega (arith, length-append zeros r)))
      (advance-run n zeros r h)

-- A bitmap and values that fit a reply.
pub record IsAttributes (bitmap vals : List ℕ) : Type 0 where
  pub few_words : length bitmap ≤ 16
  pub words : All IsU32 bitmap
  pub vals_fit : IsU32 (length vals)

pub decode_getattr_envelope-run :
    (bitmap vals r : List ℕ)
    → IsAttributes bitmap vals
    → decode_getattr_envelope (getattr_reply (bitmap, vals) ++ r) ≡ ok ((bitmap, vals), r)
unfolding decode_getattr_envelope getattr_reply xdr_opaque pure
decode_getattr_envelope-run bitmap vals r v =
    simp (append_assoc, mod-eq_of_lt v.vals_fit)
      (>>=-run _ _ (require32-run xdr (length bitmap) _) (
        >>=-run _ _ (get_u32-be32 (length bitmap) _ (ground (arith, v.few_words))) (
          rw within (
            >>=-run _ _ (repeat-run bitmap_word be32 bitmap_word-run bitmap _ v.words) (
              >>=-run _ _ (require32-run xdr (length vals) _) (
                >>=-run _ _ (get_u32-be32 (length vals) _ v.vals_fit) (
                  >>=-run _ _
                    (require-run (length vals) xdr _
                      (omega (arith, length-append vals (zeros ++ r))))
                    (>>=-run _ _ (split_to-run (length vals) vals (zeros ++ r) refl) (
                      >>=-run _ _ (skip_padding-run zeros r (padding (length vals)) zeros_len)
                        refl)))))))))
  where
    zeros : List ℕ
    zeros = replicate (padding (length vals)) 0

    zeros_len : padding (length vals) ≡ length zeros
    zeros_len = sym (length-replicate (padding (length vals)) 0)

    within : ltb 16 (length bitmap) ≡ false
    within = ground (arith, v.few_words)
