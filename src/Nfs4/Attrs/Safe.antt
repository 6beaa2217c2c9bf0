-- ===== src/Nfs4/Attrs/Safe.antt =====
-- The attribute decoders do not panic.
use nfs_rs.Common.{ℕ, ◌*◌, ◌≢◌, ◌++◌, List, [], ◌∷◌, ◌==◌, not, arith, All, All-append}
use nfs_rs.Errors.{xdr, rdattr_error}
use nfs_rs.Wire.{panic}
use nfs_rs.Wire.Safe.{
  Safe, pure-Safe, fail-Safe, bind-Safe, require-Safe, u32-Safe, u64-Safe, if-Safe, repeat-Safe,
  run_on-Safe, advance-Takes, Takes→Safe,
}
use nfs_rs.Wire.Opaque.{decode_opaque-Safe, decode_utf8str-Safe}
use nfs_rs.Nfs4.Acl.Safe.{decode_acl-Safe, skip_acl41-Safe, decode_getattr_envelope-Safe}
use nfs_rs.Nfs4.Attrs.Clock.{decode_nfstime4}
use nfs_rs.Nfs4.Attrs.{
  Attr, default, bitmap_has, skip_fixed, skip_settime4, skip_bitmap4, skip_strings, skip_location,
  skip_fs_locations, Part, skipping, fixed, read_type, read_size, read_fsid, read_rdattr_error,
  read_acl, read_filehandle, read_fileid, skip_mimetype, read_mode, read_numlinks, read_owner,
  read_owner_group, read_rawdev, read_space_used, read_time_access, read_time_metadata,
  read_time_modify, word_0, word_1, word_2, run_parts, decode_fattr4_to_attr,
  decode_getattr_response,
}

skip_fixed-Safe : (n : ℕ) → Safe 0 (skip_fixed n)
unfolding skip_fixed
skip_fixed-Safe n = require-Safe n xdr λ _. Takes→Safe (advance-Takes n)

skip_settime4-Safe : Safe 0 skip_settime4
unfolding skip_settime4
skip_settime4-Safe =
    require-Safe 4 xdr
      λ _. u32-Safe (omega arith) λ how. if-Safe (how == 1) (skip_fixed-Safe 12) (pure-Safe tt)

skip_bitmap4-Safe : Safe 0 skip_bitmap4
unfolding skip_bitmap4
skip_bitmap4-Safe =
    require-Safe 4 xdr λ _. u32-Safe (omega arith) λ count. skip_fixed-Safe (count * 4)

skip_strings-Safe : Safe 0 skip_strings
unfolding skip_strings
skip_strings-Safe = require-Safe 4 xdr λ _.
    u32-Safe (omega arith)
      λ count. bind-Safe (repeat-Safe count decode_utf8str-Safe) λ _. pure-Safe tt

skip_fs_locations-Safe : Safe 0 skip_fs_locations
unfolding skip_fs_locations skip_location
skip_fs_locations-Safe = bind-Safe skip_strings-Safe λ _. require-Safe 4 xdr λ _.
    u32-Safe (omega arith) λ count.
      bind-Safe (repeat-Safe count (bind-Safe skip_strings-Safe λ _. skip_strings-Safe))
        λ _. pure-Safe tt

decode_nfstime4-Safe : Safe 0 decode_nfstime4
unfolding decode_nfstime4
decode_nfstime4-Safe =
    require-Safe 12 xdr λ _. u64-Safe (omega arith) λ s. u32-Safe (omega arith) λ n. pure-Safe _

-- A part of the table does not panic, whatever was read before.
abbrev Sound : ℕ × Part → Type 0
Sound entry = (attr : Attr) → Safe 0 (entry.1 attr)

fixed-Safe : (n : ℕ) (attr : Attr) → Safe 0 (fixed n attr)
unfolding fixed skipping
fixed-Safe n attr = bind-Safe (skip_fixed-Safe n) λ _. pure-Safe attr

word_0-Sound : All Sound word_0
unfolding word_0 skipping read_type read_size read_fsid read_rdattr_error read_acl read_filehandle
    read_fileid
word_0-Sound = (
  λ attr. bind-Safe skip_bitmap4-Safe λ _. pure-Safe attr,
  (
    λ attr. require-Safe 4 xdr λ _. u32-Safe (omega arith) λ v. pure-Safe _,
    (
      λ attr. fixed-Safe _ attr,
      (
        λ attr. fixed-Safe _ attr,
        (
          λ attr. require-Safe 8 xdr λ _. u64-Safe (omega arith) λ v. pure-Safe _,
          (
            λ attr. fixed-Safe _ attr,
            (
              λ attr. fixed-Safe _ attr,
              (
                λ attr. fixed-Safe _ attr,
                (
                  λ attr. require-Safe 16 xdr λ _.
                      u64-Safe (omega arith) λ major. u64-Safe (omega arith) λ minor. pure-Safe _,
                  (
                    λ attr. fixed-Safe _ attr,
                    (
                      λ attr. fixed-Safe _ attr,
                      (
                        λ attr. require-Safe 4 xdr λ _. u32-Safe (omega arith) λ code.
                            if-Safe (not (code == 0)) (fail-Safe (rdattr_error code))
                              (pure-Safe attr),
                        (
                          λ attr. bind-Safe decode_acl-Safe λ v. pure-Safe _,
                          (
                            λ attr. fixed-Safe _ attr,
                            (
                              λ attr. fixed-Safe _ attr,
                              (
                                λ attr. fixed-Safe _ attr,
                                (
                                  λ attr. fixed-Safe _ attr,
                                  (
                                    λ attr. fixed-Safe _ attr,
                                    (
                                      λ attr. fixed-Safe _ attr,
                                      (
                                        λ attr. bind-Safe decode_opaque-Safe λ v. pure-Safe _,
                                        (
                                          λ attr.
                                              require-Safe 8 xdr
                                                λ _. u64-Safe (omega arith) λ v. pure-Safe _,
                                          (
                                            λ attr. fixed-Safe _ attr,
                                            (
                                              λ attr. fixed-Safe _ attr,
                                              (
                                                λ attr. fixed-Safe _ attr,
                                                (
                                                  λ attr.
                                                      bind-Safe skip_fs_locations-Safe
                                                        λ _. pure-Safe attr,
                                                  (
                                                    λ attr. fixed-Safe _ attr,
                                                    (
                                                      λ attr. fixed-Safe _ attr,
                                                      (
                                                        λ attr. fixed-Safe _ attr,
                                                        (
                                                          λ attr. fixed-Safe _ attr,
                                                          (
                                                            λ attr. fixed-Safe _ attr,
                                                            (
                                                            λ attr. fixed-Safe _ attr,
                                                            (λ attr. fixed-Safe _ attr, tt),
                                                            ),
                                                          ),
                                                        ),
                                                      ),
                                                    ),
                                                  ),
                                                ),
                                              ),
                                            ),
                                          ),
                                        ),
                                      ),
                                    ),
                                  ),
                                ),
                              ),
                            ),
                          ),
                        ),
                      ),
                    ),
                  ),
                ),
              ),
            ),
          ),
        ),
      ),
    ),
  ),
)

word_1-Sound : All Sound word_1
unfolding word_1 skipping skip_mimetype read_mode read_numlinks read_owner read_owner_group
    read_rdattr_error read_rawdev read_space_used read_time_access read_time_metadata
    read_time_modify
word_1-Sound = (
  λ attr. bind-Safe decode_utf8str-Safe λ v. pure-Safe _,
  (
    λ attr. require-Safe 4 xdr λ _. u32-Safe (omega arith) λ v. pure-Safe _,
    (
      λ attr. fixed-Safe _ attr,
      (
        λ attr. require-Safe 4 xdr λ _. u32-Safe (omega arith) λ v. pure-Safe _,
        (
          λ attr. bind-Safe decode_utf8str-Safe λ v. pure-Safe _,
          (
            λ attr. bind-Safe decode_utf8str-Safe λ v. pure-Safe _,
            (
              λ attr. fixed-Safe _ attr,
              (
                λ attr. fixed-Safe _ attr,
                (
                  λ attr. fixed-Safe _ attr,
                  (
                    λ attr.
                        require-Safe 8 xdr
                          λ _. u32-Safe (omega arith) λ a. u32-Safe (omega arith) λ b. pure-Safe _,
                    (
                      λ attr. fixed-Safe _ attr,
                      (
                        λ attr. fixed-Safe _ attr,
                        (
                          λ attr. fixed-Safe _ attr,
                          (
                            λ attr. require-Safe 8 xdr λ _. u64-Safe (omega arith) λ v. pure-Safe _,
                            (
                              λ attr. fixed-Safe _ attr,
                              (
                                λ attr. bind-Safe decode_nfstime4-Safe λ v. pure-Safe _,
                                (
                                  λ attr. bind-Safe skip_settime4-Safe λ _. pure-Safe attr,
                                  (
                                    λ attr. fixed-Safe _ attr,
                                    (
                                      λ attr. fixed-Safe _ attr,
                                      (
                                        λ attr. fixed-Safe _ attr,
                                        (
                                          λ attr. bind-Safe decode_nfstime4-Safe λ v. pure-Safe _,
                                          (
                                            λ attr. bind-Safe decode_nfstime4-Safe λ v. pure-Safe _,
                                            (
                                              λ attr.
                                                  bind-Safe skip_settime4-Safe λ _. pure-Safe attr,
                                              (λ attr. fixed-Safe _ attr, tt),
                                            ),
                                          ),
                                        ),
                                      ),
                                    ),
                                  ),
                                ),
                              ),
                            ),
                          ),
                        ),
                      ),
                    ),
                  ),
                ),
              ),
            ),
          ),
        ),
      ),
    ),
  ),
)

word_2-Sound : All Sound word_2
unfolding word_2 skipping
word_2-Sound = (
  λ attr. fixed-Safe _ attr,
  (
    λ attr. fixed-Safe _ attr,
    (
      λ attr. bind-Safe skip_acl41-Safe λ _. pure-Safe attr,
      (λ attr. bind-Safe skip_acl41-Safe λ _. pure-Safe attr, (λ attr. fixed-Safe _ attr, tt)),
    ),
  ),
)

run_parts-Safe :
    (bitmap : List ℕ) (parts : List (ℕ × Part))
    → All Sound parts
    → (attr : Attr) → Safe 0 (run_parts bitmap parts attr)
unfolding run_parts
run_parts-Safe bitmap [] h attr = pure-Safe attr
run_parts-Safe bitmap (p ∷ parts) h attr =
    bind-Safe (if-Safe (bitmap_has bitmap p.0) (h.0 attr) (pure-Safe attr))
      λ next. run_parts-Safe bitmap parts h.1 next

pub decode_fattr4_to_attr-Safe : (bitmap : List ℕ) → Safe 0 (decode_fattr4_to_attr bitmap)
unfolding decode_fattr4_to_attr
decode_fattr4_to_attr-Safe bitmap =
    run_parts-Safe bitmap (word_0 ++ (word_1 ++ word_2))
      (All-append Sound word_0 (word_1 ++ word_2) word_0-Sound
        (All-append Sound word_1 word_2 word_1-Sound word_2-Sound))
      default

decode_getattr_response-Safe : Safe 0 decode_getattr_response
unfolding decode_getattr_response
decode_getattr_response-Safe =
    bind-Safe decode_getattr_envelope-Safe λ e. run_on-Safe e.1 (decode_fattr4_to_attr-Safe e.0)

-- The attribute decoder does not panic, for every bitmap and every list of values, and the decoder
-- of a whole GETATTR reply does not panic on any reply.
pub decode_getattr_response-ne-panic :
    (bitmap vals s : List ℕ)
    → (decode_fattr4_to_attr bitmap vals ≢ panic) × (decode_getattr_response s ≢ panic)
decode_getattr_response-ne-panic bitmap vals s = (
  (decode_fattr4_to_attr-Safe bitmap).apply vals (omega arith),
  decode_getattr_response-Safe.apply s (omega arith),
)
