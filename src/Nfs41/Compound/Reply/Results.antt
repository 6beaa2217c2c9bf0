-- ===== src/Nfs41/Compound/Reply/Results.antt =====
-- nfs41/compound.rs: skip_op_result, with its arms as a table from the operation's number.
use nfs_rs.Common.{ℕ, ◌*◌, List, [], ◌∷◌, Option, none, some, leb, ◌==◌, not, ◌&&◌, if◌then◌else◌}
use nfs_rs.Errors.{xdr}
use nfs_rs.Assoc.{nat_eq, find}
use nfs_rs.Wire.{Reader, ◌>>=◌, ◌>>◌, pure, fail, advance, remaining}
use nfs_rs.Nfs41.Compound.Reply.Extensions.{
  decode_copy, decode_bool, decode_u64, decode_read_plus, decode_list,
}
use nfs_rs.Nfs41.Compound.Reply.Skip.{
  skip, checked_u32, skip_var_bytes, skip_bitmap, skip_fattr4, skip_change_info, skip_stateid4,
  skip_entry4_list, skip_open_delegation,
}
use nfs_rs.Nfs41.Compound.Reply.Session.{
  skip_exchange_id_result, skip_create_session_result, skip_layoutget_result,
  skip_layoutcommit_result, skip_layoutreturn_result,
}

abbrev pub void : Reader (Unit {0})
void = pure tt

abbrev pub drop_value {ℓ} : {A : Type ℓ} → Reader A → Reader (Unit {0})
drop_value m = m >>= λ _. pure tt

-- What follows each arm is the `Ok(())` at the end.
unfoldable pub successes : List (ℕ × Reader (Unit {0}))
successes =
    (59, void)
    ∷ (62, void)
    ∷ (71, void)
    ∷ (66, void)
    ∷ (60, drop_value decode_copy)
    ∷ (69, drop_value decode_bool >> drop_value decode_u64)
    ∷ (68, drop_value decode_read_plus)
    ∷ (72, skip_var_bytes)
    ∷ (73, drop_value decode_bool >> (drop_value decode_u64 >> drop_value decode_u64))
    ∷ (75, drop_value decode_bool >> (drop_value decode_u64 >> drop_value decode_u64))
    ∷ (74, drop_value decode_list)
    ∷ (24, void)
    ∷ (22, void)
    ∷ (32, void)
    ∷ (31, void)
    ∷ (15, void)
    ∷ (16, void)
    ∷ (58, void)
    ∷ (44, void)
    ∷ (57, void)
    ∷ (8, void)
    ∷ (53, skip 36)
    ∷ (10, skip_var_bytes)
    ∷ (9, skip_fattr4)
    ∷ (34, skip_bitmap)
    ∷ (3, skip 8)
    ∷ (25, skip 4 >> skip_var_bytes)
    ∷ (38, skip 16)
    ∷ (5, skip 8)
    ∷ (26, skip 8 >> skip_entry4_list)
    ∷ (27, skip_var_bytes)
    ∷ (20, void)
    ∷ (18, skip_stateid4 >> (skip_change_info >> (skip 4 >> (skip_bitmap >> skip_open_delegation))))
    ∷ (4, skip_stateid4)
    ∷ (12, skip_stateid4)
    ∷ (13, void)
    ∷ (14, skip_stateid4)
    ∷ (55, checked_u32 >>= λ n. skip (n * 4))
    ∷ (56, void)
    ∷ (6, skip_change_info >> skip_bitmap)
    ∷ (28, skip_change_info)
    ∷ (29, skip_change_info >> skip_change_info)
    ∷ (11, skip_change_info)
    ∷ (42, skip_exchange_id_result)
    ∷ (43, skip_create_session_result)
    ∷ (50, skip_layoutget_result)
    ∷ (49, skip_layoutcommit_result)
    ∷ (51, skip_layoutreturn_result)
    ∷ (47, skip 4 >> (skip_var_bytes >> skip_bitmap))
    ∷ (41, skip 24)
    ∷ []

-- The arms of a result that is an error: 10094 is NFS4ERR_OFFLOAD_NO_REQS. The source tests 10012,
-- which is NFS4ERR_LOCKED, where it means NFS4ERR_DENIED, which is 10010.
unfoldable pub skip_failure : ℕ → ℕ → Reader (Unit {0})
skip_failure opcode status =
    (if opcode == 60 && status == 10094
      then (drop_value decode_bool >> drop_value decode_bool)
      else void)
    >> ((if opcode == 34 then skip_bitmap else void)
        >> (remaining >>= λ left.
            if opcode == 12 && (status == 10012 && leb 28 left)
            then (advance 28 >> skip_var_bytes)
            else void))

unfoldable pub skip_success : Option (Reader (Unit {0})) → Reader (Unit {0})
skip_success none = fail xdr
skip_success (some m) = m

unfoldable pub skip_op_result : ℕ → ℕ → Reader (Unit {0})
unfolding skip_failure skip_success successes
skip_op_result opcode status =
    if not (status == 0) then skip_failure opcode status else skip_success (find opcode successes)
