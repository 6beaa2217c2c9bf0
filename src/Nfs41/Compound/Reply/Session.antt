-- ===== src/Nfs41/Compound/Reply/Session.antt =====
-- nfs41/compound.rs: the results of EXCHANGE_ID, CREATE_SESSION and the layout operations.
use nfs_rs.Common.{ℕ, ◌*◌, ltb, leb, ◌==◌, not, if◌then◌else◌}
use nfs_rs.Errors.{xdr}
use nfs_rs.Wire.{Reader, ◌>>=◌, ◌>>◌, pure, fail, require, advance, repeat, remaining}
use nfs_rs.Nfs41.Compound.Reply.Skip.{skip, checked_u32, skip_var_bytes, skip_bitmap, skip_stateid4}

abbrev pub max_layout_segments : ℕ
max_layout_segments = 1024

-- `for _ in 0..n { m?; }`
unfoldable pub times : ℕ → Reader (Unit {0}) → Reader (Unit {0})
times n m = repeat n m >>= λ _. pure tt

unfoldable pub skip_ssv : Reader (Unit {0})
unfolding times
skip_ssv =
    skip_bitmap
    >> (skip_bitmap
        >> (skip 16
            >> (checked_u32 >>= λ nh. if ltb 64 nh then fail xdr else times nh skip_var_bytes)))

-- state_protect4_r.
unfoldable pub skip_protect : Reader (Unit {0})
unfolding skip_ssv
skip_protect = checked_u32 >>= λ sp.
    if sp == 0
    then pure tt
    else if sp == 1
    then (skip_bitmap >> skip_bitmap)
    else if sp == 2
    then skip_ssv
    else fail xdr

unfoldable pub skip_impl_id : Reader (Unit {0})
skip_impl_id = skip_var_bytes >> (skip_var_bytes >> skip 12)

unfoldable pub skip_exchange_id_result : Reader (Unit {0})
unfolding skip_protect times skip_impl_id
skip_exchange_id_result =
    skip 16
    >> (skip_protect
        >> (skip 8
            >> (skip_var_bytes
                >> (skip_var_bytes
                    >> (checked_u32 >>= λ n. if ltb 1 n then fail xdr else times n skip_impl_id)))))

-- `n.checked_mul(4)` does not overflow, since `n` is a u32 and `usize` has 64 bits.
unfoldable pub skip_channel_attrs : Reader (Unit {0})
skip_channel_attrs = skip 24 >> (checked_u32 >>= λ n. skip (n * 4))

unfoldable pub skip_create_session_result : Reader (Unit {0})
unfolding times skip_channel_attrs
skip_create_session_result = skip 24 >> times 2 skip_channel_attrs

unfoldable pub skip_layout_segment : Reader (Unit {0})
skip_layout_segment = skip 24 >> skip_var_bytes

-- The first test asks for 20 bytes, and 4 are skipped before the stateid.
unfoldable pub skip_layoutget_result : Reader (Unit {0})
unfolding times skip_layout_segment
skip_layoutget_result =
    require 20 xdr
    >> (advance 4
        >> (skip_stateid4
            >> (checked_u32 >>= λ n.
                if ltb max_layout_segments n then fail xdr else times n skip_layout_segment)))

unfoldable pub skip_layoutcommit_result : Reader (Unit {0})
skip_layoutcommit_result = checked_u32 >>= λ has_newsize. remaining >>= λ left.
    if not (has_newsize == 0) then (if leb 8 left then advance 8 else pure tt) else pure tt

unfoldable pub skip_layoutreturn_result : Reader (Unit {0})
skip_layoutreturn_result =
    checked_u32 >>= λ has_stateid. if not (has_stateid == 0) then skip_stateid4 else pure tt
