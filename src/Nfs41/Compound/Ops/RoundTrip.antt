-- ===== src/Nfs41/Compound/Ops/RoundTrip.antt =====
-- A server reads from the bytes of a COMPOUND what the methods of CompoundBuilder were given.
use nfs_rs.Common.{
  ℕ, length-map, ◌≡◌, refl, ap, sym, subst, ◌∙◌, true, false, List, [], ◌∷◌, ◌++◌, map, length, All,
  none, some, inl, inr, ◌==◌, arith, append_assoc, append-nil, Bool-cases,
}
use native.Mathlib.Nat.{mod-eq_of_lt}
use nfs_rs.Assoc.{nat_eq}
use nfs_rs.Wire.{ok, pure, repeat, IsU32}
use nfs_rs.Wire.Words.{be32, be64, >>=-run, concat_map, repeat-run}
use nfs_rs.Wire.Opaque.{xdr_opaque, take_u32-run, take_opaque-run}
use nfs_rs.Wire.Grammar.{encode_field, encode_fields, IsSized, read_fields-encode_fields}
use nfs_rs.Nfs41.Compound.{OpNum, op_number, CompoundBuilder, EncodedOp, new, sequence}
use nfs_rs.Nfs41.Compound.Ops.{push, xdr_bool, xdr_bitmap, encode_ops, encode_body_for_version}
use nfs_rs.Nfs41.Compound.Ops.Session.{
  encode_channel, exchange_id, create_session, destroy_session, bind_conn_to_session,
  reclaim_complete, destroy_client_id,
}
use nfs_rs.Nfs41.Compound.Ops.Files.{
  wanted_access, encode_openflag, encode_create, putrootfh, putfh, getfh, savefh, restorefh,
  openattr, lookup, lookupp, getattr, setattr, access, read, write, commit, readdir, readlink,
  open_file, open_guarded, close, create, create_symlink, remove, rename, link,
}
use nfs_rs.Nfs41.Compound.Ops.Layouts.{
  encode_new_offset, encode_locker, joined, layoutget, layoutcommit, layoutreturn, getdeviceinfo,
  lock, lockt, locku, test_stateid, delegreturn, free_stateid,
}
use nfs_rs.Nfs41.Compound.Ops.Extensions.{
  space, seek, read_plus, copy_range, offload_cancel, getxattr, setxattr, listxattrs, removexattr,
}
use nfs_rs.Nfs41.Compound.Ops.Request.{
  Request, apply, build, sequence_request, exchange_id_request, create_session_request,
  destroy_session_request, bind_conn_to_session_request, reclaim_complete_request,
  destroy_client_id_request, putrootfh_request, putfh_request, getfh_request, savefh_request,
  restorefh_request, openattr_request, lookup_request, lookupp_request, getattr_request,
  setattr_request, access_request, read_request, write_request, commit_request, readdir_request,
  readlink_request, open_file_request, open_guarded_request, close_request, create_request,
  create_symlink_request, remove_request, rename_request, link_request, layoutget_request,
  layoutcommit_request, layoutreturn_request, getdeviceinfo_request, lock_request, lockt_request,
  locku_request, test_stateid_request, delegreturn_request, free_stateid_request, space_request,
  seek_request, read_plus_request, copy_range_request, offload_cancel_request, getxattr_request,
  setxattr_request, listxattrs_request, removexattr_request,
}
use nfs_rs.Nfs41.Compound.Ops.Fields.{open_fields, request_op, fields}
use nfs_rs.Nfs41.Compound.Ops.Arguments.{Described, read_op, read_compound}
use nfs_rs.Nfs41.Compound.Ops.Matching.{IsStandard, Follows, request-Follows, op_number-lt}

-- The operation that a request appends.
unfoldable pub encoded : Request → EncodedOp
encoded q = record { opcode = request_op q; args = encode_fields (fields q) }

push_lem :
    (opcode : OpNum) (args args' : List ℕ) (b : CompoundBuilder)
    → args ≡ args'
    → push opcode args b ≡ push opcode args' b
push_lem opcode args args' b e = ap (λ a. push opcode a b) e

apply-push :
    (q : Request) (b : CompoundBuilder)
    → apply q b ≡ push (request_op q) (encode_fields (fields q)) b
unfolding apply request_op fields encode_fields encode_field push sequence exchange_id
    create_session destroy_session bind_conn_to_session reclaim_complete destroy_client_id putrootfh
    putfh getfh savefh restorefh openattr lookup lookupp getattr setattr access read write commit
    readdir readlink open_file open_guarded close create create_symlink remove rename link layoutget
    layoutcommit layoutreturn getdeviceinfo lock lockt locku test_stateid delegreturn free_stateid
    space seek read_plus copy_range offload_cancel getxattr setxattr listxattrs removexattr xdr_bool
    xdr_bitmap encode_channel encode_create encode_openflag wanted_access encode_new_offset
    encode_locker joined open_fields xdr_opaque be32 be64 concat_map
apply-push (sequence_request session_id sequence_id slot_id highest_slot_id) b = refl
apply-push (exchange_id_request co_verifier co_ownerid flags impl_domain impl_name) b = refl
apply-push (create_session_request client_id sequence_id flags fore_attrs back_attrs cb_program) b =
    refl
apply-push (destroy_session_request session_id) b = refl
apply-push (bind_conn_to_session_request session_id dir use_conn_in_rdma_mode) b = refl
apply-push (reclaim_complete_request one_fs) b = refl
apply-push (destroy_client_id_request client_id) b = refl
apply-push putrootfh_request b = refl
apply-push (putfh_request fh) b = refl
apply-push getfh_request b = refl
apply-push savefh_request b = refl
apply-push restorefh_request b = refl
apply-push (openattr_request create_dir) b = refl
apply-push (lookup_request name) b = refl
apply-push lookupp_request b = refl
apply-push (getattr_request bitmap) b = refl
apply-push (setattr_request stateid attrmask attr_vals) b = refl
apply-push (access_request access_mask) b = refl
apply-push (read_request stateid offset count) b = refl
apply-push (write_request stateid offset stable bytes) b = refl
apply-push (commit_request offset count) b = refl
apply-push (readdir_request cookie cookieverf dircount maxcount attr_request) b = refl
apply-push readlink_request b = refl
apply-push (open_file_request open_args) b = elim (Bool-cases open_args.create) [
  | inl h ↦ rw h refl
  | inr h ↦ rw h refl
]
apply-push (open_guarded_request open_args) b = elim (Bool-cases open_args.create) [
  | inl h ↦ rw h refl
  | inr h ↦ rw h refl
]
apply-push (close_request seqid stateid) b = refl
apply-push (create_request objtype name attrmask attr_vals) b = refl
apply-push (create_symlink_request name link_target attrmask attr_vals) b = refl
apply-push (remove_request name) b = refl
apply-push (rename_request oldname newname) b = refl
apply-push (link_request newname) b = refl
apply-push
      (layoutget_request signal_layout_avail layout_type iomode offset len min_length stateid
        max_count)
      b =
    refl
apply-push (layoutcommit_request offset len reclaim stateid none layout_type) b = refl
apply-push (layoutcommit_request offset len reclaim stateid (some off) layout_type) b = refl
apply-push (layoutreturn_request reclaim layout_type iomode return_type offset len stateid) b =
    elim (Bool-cases (return_type == 1)) [ inl h ↦ rw h refl | inr h ↦ rw h refl ]
apply-push (getdeviceinfo_request device_id layout_type max_count) b = refl
apply-push
      (lock_request lock_type reclaim offset len true open_stateid lock_seqid open_seqid lock_owner
        client_id)
      b =
    refl
apply-push
      (lock_request lock_type reclaim offset len false open_stateid lock_seqid open_seqid lock_owner
        client_id)
      b =
    refl
apply-push (lockt_request lock_type offset len lock_owner client_id) b = refl
apply-push (locku_request lock_type seqid lock_stateid offset len) b = refl
apply-push (test_stateid_request stateids) b = refl
apply-push (delegreturn_request stateid) b = refl
apply-push (free_stateid_request stateid) b = refl
apply-push (space_request allocate stateid offset len) b = refl
apply-push (seek_request stateid offset what) b = refl
apply-push (read_plus_request stateid offset count) b = refl
apply-push (copy_range_request true source destination source_offset destination_offset count) b =
    refl
apply-push (copy_range_request false source destination source_offset destination_offset count) b =
    refl
apply-push (offload_cancel_request stateid) b = refl
apply-push (getxattr_request name) b = refl
apply-push (setxattr_request name value mode) b = refl
apply-push (listxattrs_request cookie maxcount) b = refl
apply-push (removexattr_request name) b = refl

-- What a request asks, as the reader gives it.
unfoldable pub described : Request → Described
described q = (op_number (request_op q), fields q)

-- The bytes of one operation.
write_op : Described → List ℕ
write_op d = be32 d.0 ++ encode_fields d.1

IsReadable : Described → Type 0
IsReadable d = IsU32 d.0 × Follows d.0 d.1 × All IsSized d.1

read_op-run : (d : Described) (r : List ℕ) → IsReadable d → read_op (write_op d ++ r) ≡ ok (d, r)
unfolding read_op write_op IsReadable Follows pure
read_op-run (n, fs) r (small, (g, known, follows), sized) =
    rw (append_assoc (be32 n) (encode_fields fs) r) (
      >>=-run _ _ (take_u32-run n (encode_fields fs ++ r) small)
        (rw known (>>=-run _ _ (read_fields-encode_fields g fs r follows sized) refl)))

build-push :
    (qs : List Request) (b : CompoundBuilder)
    → ((build qs b).ops ≡ b.ops ++ map encoded qs) × ((build qs b).tag ≡ b.tag)
unfolding build push encoded
build-push [] b = (sym (append-nil b.ops), refl)
build-push (q ∷ qs) b =
    let (ops, tag) = build-push qs (apply q b) in
    let e = apply-push q b in
    (
      ops
          ∙ ap (λ c. c.ops ++ map encoded qs) e
          ∙ append_assoc b.ops (encoded q ∷ []) (map encoded qs),
      tag ∙ ap (λ c. c.tag) e,
    )

encode_ops-described :
    (qs : List Request) → encode_ops (map encoded qs) ≡ concat_map write_op (map described qs)
unfolding encode_ops concat_map encoded described write_op
encode_ops-described [] = refl
encode_ops-described (q ∷ qs) =
    ap (λ l. be32 (op_number (request_op q)) ++ (encode_fields (fields q) ++ l))
      (encode_ops-described qs)
    ∙ sym (append_assoc (be32 (op_number (request_op q))) (encode_fields (fields q)) _)

-- A request that the types of its method allow: a create of a type without data, values in their
-- widths, and neither `openattr` nor `free_stateid`.
unfoldable pub IsRequest : Request → Type 0
IsRequest q = IsStandard q × All IsSized (fields q)

described-IsReadable : (qs : List Request) → All IsRequest qs → All IsReadable (map described qs)
unfolding IsRequest IsReadable described
described-IsReadable [] h = tt
described-IsReadable (q ∷ qs) h = (
  (omega (arith, op_number-lt (request_op q)), request-Follows q h.0.0, h.0.1),
  described-IsReadable qs h.1,
)

-- For any operations appended by the methods of CompoundBuilder that `Request` lists, in any order,
-- fewer than 2 ^ 32, each with arguments of the width of their types, a server that reads the
-- encoded body by the grammar of the protocol finds the tag, the minor version and exactly these
-- operations with these arguments, and nothing behind them. `create` is not for devices or symbolic
-- links, and `openattr` and `free_stateid` are left out: the source sends them with the numbers of
-- OPEN_CONFIRM and WANT_DELEGATION.
pub read_compound-encode_body :
    (tag : List ℕ) (minor_version : ℕ) (qs : List Request)
    → IsU32 (length tag)
    → IsU32 minor_version
    → IsU32 (length qs)
    → All IsRequest qs
    → read_compound (encode_body_for_version minor_version (build qs (new tag)))
      ≡ ok ((tag, minor_version, map described qs), [])
unfolding read_compound pure
read_compound-encode_body tag minor_version qs ht hm hq h =
    ap read_compound body
    ∙ >>=-run _ _ (take_opaque-run tag _ ht) (
        >>=-run _ _ (take_u32-run minor_version _ hm)
          (>>=-run _ _ (take_u32-run (length qs) _ hq) (>>=-run _ _ loop refl)))
  where
    bytes : List ℕ
    bytes = concat_map write_op (map described qs)

    counted : length (map encoded qs) ≡ length qs
    counted = length-map encoded qs

    body :
        encode_body_for_version minor_version (build qs (new tag))
        ≡ xdr_opaque tag ++ (be32 minor_version ++ (be32 (length qs) ++ bytes))
    body =
        unfold encode_body_for_version in
        (rw ((build-push qs (new tag)).0, (build-push qs (new tag)).1)
          (unfold new in (rw (encode_ops-described qs, counted, mod-eq_of_lt hq) refl)))

    loop : repeat (length qs) read_op bytes ≡ ok (map described qs, [])
    loop =
        subst (λ n. repeat n read_op bytes ≡ ok (map described qs, [])) (length-map described qs)
          (subst (λ l. repeat (length (map described qs)) read_op l ≡ ok (map described qs, []))
            (append-nil bytes)
            (repeat-run {P = IsReadable} read_op write_op read_op-run (map described qs) []
              (described-IsReadable qs h)))
