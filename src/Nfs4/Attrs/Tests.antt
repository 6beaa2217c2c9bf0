-- ===== src/Nfs4/Attrs/Tests.antt =====
-- Concrete inputs of the theorems on the attributes.
use nfs_rs.Common.{◌≢◌, [], ◌∷◌}
use nfs_rs.Wire.{panic}
use nfs_rs.Nfs4.Attrs.{decode_fattr4_to_attr, decode_getattr_response}
use nfs_rs.Nfs4.Attrs.Safe.{decode_getattr_response-ne-panic}

decode_getattr_response-ne-panic_example :
    (decode_fattr4_to_attr (2 ∷ []) (0 ∷ 0 ∷ []) ≢ panic)
    × (decode_getattr_response (0 ∷ 0 ∷ 0 ∷ 1 ∷ 255 ∷ []) ≢ panic)
decode_getattr_response-ne-panic_example =
    decode_getattr_response-ne-panic (2 ∷ []) (0 ∷ 0 ∷ []) (0 ∷ 0 ∷ 0 ∷ 1 ∷ 255 ∷ [])
