-- ===== src/Nfs4/Acl/Setattr.antt =====
-- The attributes that SETATTR sends for an ACL, read back through GETATTR.
use nfs_rs.Common.{
  ℕ, ◌+◌, length-append, ◌^◌, ◌≡◌, refl, List, [], ◌∷◌, ◌++◌, length, arith, ◌⊎◌, inl, inr,
  append-nil, subst,
}
use nfs_rs.Errors.{xdr}
use nfs_rs.Wire.{ok, pure, IsU32}
use nfs_rs.Wire.Words.{be32, length-be32, get_u32-be32, >>=-run, require32-run, run_on-run}
use nfs_rs.Nfs4.Acl.{
  NfsAce, decode_acl, encode_acl, encode_setattr_acl, encode_setattr_acl41, decode_getattr_acl,
  acl41_value, assert_acl41, decode_getattr_acl41,
}
use nfs_rs.Nfs4.Acl.RoundTrip.{
  IsAcl, IsAttributes, decode_acl-encode_acl, getattr_reply, decode_getattr_envelope-run,
}

decode_acl-whole :
    (aces : List NfsAce)
    → IsAcl aces
    → decode_acl (encode_acl (record { aces = aces })) ≡ ok (record { aces = aces }, [])
decode_acl-whole aces v =
    subst (λ s. decode_acl s ≡ ok (record { aces = aces }, [])) (append-nil _)
      (decode_acl-encode_acl aces [] v)

-- A server that returns in GETATTR the bitmap and the values that SETATTR sent for FATTR4_ACL gives
-- the client the same ACL, for at most 8192 entries whose words fit 32 bits and whose `who` is
-- UTF-8 text, and an encoding shorter than 2 ^ 32 bytes.
pub decode_getattr_acl-encode_setattr_acl :
    (aces : List NfsAce) (r : List ℕ)
    → IsAcl aces
    → IsU32 (length (encode_acl (record { aces = aces })))
    → decode_getattr_acl (getattr_reply (encode_setattr_acl (record { aces = aces })) ++ r)
      ≡ ok (record { aces = aces }, r)
unfolding decode_getattr_acl encode_setattr_acl
decode_getattr_acl-encode_setattr_acl aces r v fits =
    >>=-run _ _ (decode_getattr_envelope-run _ _ r attributes)
      (run_on-run decode_acl _ r (decode_acl-whole aces v))
  where
    attributes : IsAttributes (4096 ∷ []) (encode_acl (record { aces = aces }))
    attributes = record { few_words = omega arith; words = omega arith; vals_fit = fits }

acl41_value-run :
    (flags : ℕ) (aces : List NfsAce)
    → IsU32 flags
    → IsAcl aces
    → acl41_value (be32 flags ++ encode_acl (record { aces = aces }))
      ≡ ok (record { flags = flags; aces = aces }, [])
unfolding acl41_value pure
acl41_value-run flags aces word v =
    >>=-run _ _ (require32-run xdr flags _)
      (>>=-run _ _ (get_u32-be32 flags _ word) (>>=-run _ _ (decode_acl-whole aces v) refl))

-- A server that returns in GETATTR the bitmap and the values that SETATTR sent for the NFSv4.1 DACL
-- (attribute 58) or SACL (59) gives the client the same flags and entries, for flags that fit a
-- u32, at most 8192 entries whose words fit and whose `who` is UTF-8 text, and a value shorter
-- than 2 ^ 32 bytes.
pub decode_getattr_acl41-encode_setattr_acl41 :
    (attribute flags : ℕ) (aces : List NfsAce) (r : List ℕ)
    → (attribute ≡ 58) ⊎ (attribute ≡ 59)
    → IsU32 flags
    → IsAcl aces
    → IsU32 (4 + length (encode_acl (record { aces = aces })))
    → decode_getattr_acl41 attribute (
        getattr_reply (encode_setattr_acl41 (record { flags = flags; aces = aces }) attribute) ++ r)
      ≡ ok (record { flags = flags; aces = aces }, r)
unfolding decode_getattr_acl41 encode_setattr_acl41 assert_acl41
decode_getattr_acl41-encode_setattr_acl41 attribute flags aces r which word v fits = elim which [
  | inl e ↦ rw e (
      >>=-run _ _ refl (
        >>=-run _ _ (decode_getattr_envelope-run _ _ r (attributes (2 ^ 26) (omega arith)))
          (run_on-run acl41_value _ r value)))
  | inr e ↦ rw e (
      >>=-run _ _ refl (
        >>=-run _ _ (decode_getattr_envelope-run _ _ r (attributes (2 ^ 27) (omega arith)))
          (run_on-run acl41_value _ r value)))
]
  where
    vals : List ℕ
    vals = be32 flags ++ encode_acl (record { aces = aces })

    value : acl41_value vals ≡ ok (record { flags = flags; aces = aces }, [])
    value = acl41_value-run flags aces word v

    vals_fit : IsU32 (length vals)
    vals_fit =
        omega (
          arith,
          length-append (be32 flags) (encode_acl (record { aces = aces })),
          length-be32 flags,
        )

    attributes : (bit : ℕ) → IsU32 bit → IsAttributes (0 ∷ bit ∷ []) vals
    attributes bit h = record { few_words = omega arith; words = omega arith; vals_fit = vals_fit }
