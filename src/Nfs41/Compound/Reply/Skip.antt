-- ===== src/Nfs41/Compound/Reply/Skip.antt =====
-- nfs41/compound.rs: the parts that skip a result.
use nfs_rs.Common.{ℕ, zero, suc, ◌*◌, ltb, ◌==◌, ◌||◌, if◌then◌else◌}
use nfs_rs.Errors.{xdr}
use nfs_rs.Wire.{Reader, ◌>>=◌, ◌>>◌, pure, fail, require, get_u32, advance}
use nfs_rs.Wire.Opaque.{padded}
use nfs_rs.Nfs4.Acl.{decode_nfsace4}

abbrev pub max_bitmap_words : ℕ
max_bitmap_words = 16

abbrev pub max_entry4_per_page : ℕ
max_entry4_per_page = 65536

-- `if buf.remaining() < n { return Err(..); } buf.advance(n);`
abbrev pub skip : ℕ → Reader (Unit {0})
skip n = require n xdr >>= λ _. advance n

-- `if buf.remaining() < 4 { return Err(..); } buf.get_u32()`
abbrev pub checked_u32 : Reader ℕ
checked_u32 = require 4 xdr >>= λ _. get_u32

unfoldable pub skip_var_bytes : Reader (Unit {0})
skip_var_bytes = checked_u32 >>= λ len. skip (padded len)

unfoldable pub skip_bitmap : Reader (Unit {0})
skip_bitmap = checked_u32 >>= λ n. if ltb max_bitmap_words n then fail xdr else skip (n * 4)

unfoldable pub skip_fattr4 : Reader (Unit {0})
unfolding skip_bitmap skip_var_bytes
skip_fattr4 = skip_bitmap >> skip_var_bytes

abbrev pub skip_change_info : Reader (Unit {0})
skip_change_info = skip 20

abbrev pub skip_stateid4 : Reader (Unit {0})
skip_stateid4 = skip 16

-- The loop, with the number of entries that it still accepts.
unfoldable pub skip_entries : ℕ → Reader (Unit {0})
unfolding skip_var_bytes skip_fattr4
skip_entries zero = checked_u32 >>= λ has_entry. if has_entry == 0 then skip 4 else fail xdr
skip_entries (suc left) = checked_u32 >>= λ has_entry.
    if has_entry == 0
    then skip 4
    else (skip 8 >> (skip_var_bytes >> (skip_fattr4 >> skip_entries left)))

abbrev pub skip_entry4_list : Reader (Unit {0})
skip_entry4_list = skip_entries max_entry4_per_page

unfoldable pub skip_space_limit : Reader (Unit {0})
skip_space_limit = checked_u32 >>= λ limit_by.
    if limit_by == 1 then skip 8 else if limit_by == 2 then skip 8 else fail xdr

unfoldable pub skip_open_delegation : Reader (Unit {0})
unfolding skip_space_limit
skip_open_delegation = checked_u32 >>= λ deleg_type.
    if deleg_type == 0
    then pure tt
    else if deleg_type == 1
    then (skip_stateid4 >> (skip 4 >> (decode_nfsace4 >>= λ _. pure tt)))
    else if deleg_type == 2
    then (skip_stateid4 >> (skip 4 >> (skip_space_limit >> (decode_nfsace4 >>= λ _. pure tt))))
    else if deleg_type == 3
    then (checked_u32 >>= λ why. if why == 1 || why == 2 then skip 4 else pure tt)
    else fail xdr
