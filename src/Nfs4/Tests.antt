-- ===== src/Nfs4/Tests.antt =====
-- Concrete inputs of the theorems on the shared NFSv4 codecs.
use nfs_rs.Common.{ℕ, ◌≡◌, ◌≢◌, refl, Bool, true, [], ◌∷◌, ◌++◌, length, arith, inl}
use nfs_rs.Wire.{ok, panic}
use nfs_rs.Wire.Words.{be32, concat_map}
use nfs_rs.Wire.Utf8.{is_utf8}
use nfs_rs.Nfs4.Acl.{
  NfsAce, access_denied, decode_acl, encode_acl, encode_nfsace4, encode_setattr_acl41,
  decode_getattr_acl, decode_getattr_aclsupport, decode_getattr_acl41,
}
use nfs_rs.Nfs4.Acl.Safe.{decode_getattr-ne-panic}
use nfs_rs.Nfs4.Acl.RoundTrip.{IsAcl, decode_acl-encode_acl, getattr_reply}
use nfs_rs.Nfs4.Acl.Setattr.{decode_getattr_acl41-encode_setattr_acl41}
use nfs_rs.Nfs4.Compound.{decode_navigation_response}
use nfs_rs.Nfs4.Compound.Navigation.{
  navigate, navigation_reply, decode_navigation_response-navigation_reply,
}

-- An entry for the group `ab`.
abbrev ace : NfsAce
ace = record { ace_type = access_denied; flags = 64; access_mask = 2032127; who = 97 ∷ 98 ∷ [] }

ace-IsAcl : IsAcl (ace ∷ [])
ace-IsAcl = record {
  few = omega arith;
  each = (
    record {
      flags_fit = omega arith;
      mask_fits = omega arith;
      who_fits = omega arith;
      who_text = unfold is_utf8 in refl;
    },
    tt,
  );
}

length-ace : length (encode_acl (record { aces = ace ∷ [] })) ≡ 24
unfolding encode_acl encode_nfsace4 be32 concat_map
length-ace = refl

decode_getattr-ne-panic_example :
    (decode_getattr_acl (0 ∷ 0 ∷ 0 ∷ 9 ∷ []) ≢ panic)
    × (decode_getattr_aclsupport (0 ∷ 0 ∷ 0 ∷ 9 ∷ []) ≢ panic)
    × (decode_getattr_acl41 58 (0 ∷ 0 ∷ 0 ∷ 9 ∷ []) ≢ panic)
decode_getattr-ne-panic_example = decode_getattr-ne-panic (0 ∷ 0 ∷ 0 ∷ 9 ∷ []) 58 (inl refl)

decode_acl-encode_acl_example :
    decode_acl (encode_acl (record { aces = ace ∷ [] }) ++ (3 ∷ []))
    ≡ ok (record { aces = ace ∷ [] }, 3 ∷ [])
decode_acl-encode_acl_example = decode_acl-encode_acl (ace ∷ []) (3 ∷ []) ace-IsAcl

decode_getattr_acl41-encode_setattr_acl41_example :
    decode_getattr_acl41 58
      (getattr_reply (encode_setattr_acl41 (record { flags = 1; aces = ace ∷ [] }) 58) ++ (3 ∷ []))
    ≡ ok (record { flags = 1; aces = ace ∷ [] }, 3 ∷ [])
decode_getattr_acl41-encode_setattr_acl41_example =
    decode_getattr_acl41-encode_setattr_acl41 58 1 (ace ∷ []) (3 ∷ []) (inl refl) (omega arith)
      ace-IsAcl (omega (arith, length-ace))

every_status : ℕ → Bool
every_status s = true

decode_navigation_response-navigation_reply_example :
    decode_navigation_response every_status 2 (
      navigation_reply (navigate (110 ∷ []) 0 ((97 ∷ []) ∷ (98 ∷ []) ∷ [])) (1 ∷ 2 ∷ 3 ∷ [])
      ++ (7 ∷ []))
    ≡ ok (1 ∷ 2 ∷ 3 ∷ [], 7 ∷ [])
decode_navigation_response-navigation_reply_example =
    decode_navigation_response-navigation_reply every_status (110 ∷ []) 0
      ((97 ∷ []) ∷ (98 ∷ []) ∷ []) (1 ∷ 2 ∷ 3 ∷ []) (7 ∷ []) (omega arith) (omega arith)
      (omega arith)
