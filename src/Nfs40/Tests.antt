-- ===== src/Nfs40/Tests.antt =====
-- The state of the NFSv4.0 client at concrete inputs.
use nfs_rs.Common.{
  ℕ, ◌≡◌, refl, ◌↔◌, List, [], ◌∷◌, none, some, replicate, false, bytes_eq, inl, inr, arith,
}
use nfs_rs.Assoc.{find, remove, only}
use nfs_rs.Wire.{IsU64}
use nfs_rs.Nfs40.Owner.{encode_owner, decode_owner, decode_owner_iff}
use nfs_rs.Nfs40.Locks
use nfs_rs.Nfs40.Locks.{LockLane}
use nfs_rs.Nfs40.Locks.Spec as LockSpec
use nfs_rs.Nfs40.Locks.Names.{by_stateid-run}
use nfs_rs.Nfs40.Opens
use nfs_rs.Nfs40.Opens.{OwnerLane}
use nfs_rs.Nfs40.Opens.Spec as OpenSpec
use nfs_rs.Nfs40.Opens.Latest.{for_fh-run}

abbrev owner_text : List ℕ
owner_text = 0 ∷ 0 ∷ 0 ∷ 0 ∷ 0 ∷ 0 ∷ 0 ∷ 7 ∷ 0 ∷ 0 ∷ 0 ∷ 0 ∷ 0 ∷ 0 ∷ 1 ∷ 2 ∷ []

decode_owner_iff_example :
    (decode_owner owner_text ≡ some (7, 258))
    ↔ (IsU64 7 × IsU64 258 × (owner_text ≡ encode_owner 7 258))
decode_owner_iff_example = decode_owner_iff owner_text 7 258 (omega arith)

abbrev lock_lane : List ℕ → LockLane
lock_lane stateid = record {
  owner = 1;
  open_owner = 11;
  owner_wire = [];
  next_seqid = 1;
  stateid = stateid;
  fh = 9 ∷ [];
  lock_type = 2;
  offset = 0;
  length = 10;
}

-- Two locks, the first renamed, the second removed.
abbrev lock_ops : List LockSpec.Op
lock_ops =
    LockSpec.register_op (lock_lane (1 ∷ []))
    ∷ LockSpec.register_op (lock_lane (2 ∷ []))
    ∷ LockSpec.rekey_op (1 ∷ []) (3 ∷ []) 0
    ∷ LockSpec.remove_op (2 ∷ [])
    ∷ []

by_stateid-run_example : Locks.by_stateid (1 ∷ []) (LockSpec.run lock_ops Locks.new) ≡ some 0
unfolding LockSpec.spec_run LockSpec.spec_step LockSpec.named LockSpec.unnamed only
    LockSpec.AllFresh LockSpec.IsFresh bytes_eq
by_stateid-run_example = by_stateid-run lock_ops (1 ∷ []) (refl, (refl, (inl refl, (tt, tt))))

abbrev owner_lane : ℕ → ℕ → OwnerLane
owner_lane owner access = record {
  owner = owner;
  next_seqid = 1;
  stateid = replicate 16 owner;
  fh = 9 ∷ [];
  access = access;
  write_verifier = none;
  closing = false;
}

-- Two opens of one file, for reading and for writing, and the removal of the second.
abbrev open_ops : List OpenSpec.Op
open_ops =
    OpenSpec.register_op (owner_lane 11 1)
    ∷ OpenSpec.register_op (owner_lane 12 2)
    ∷ OpenSpec.remove_op 12 (9 ∷ [])
    ∷ []

for_fh-run_example :
    Opens.for_fh (9 ∷ []) 1 (OpenSpec.run open_ops Opens.new)
    ≡ OpenSpec.latest (9 ∷ []) 1 (OpenSpec.run open_ops Opens.new).cells ((11, (9 ∷ [], 0)) ∷ [])
unfolding OpenSpec.spec_run OpenSpec.spec_step OpenSpec.AllFair OpenSpec.IsFair find remove bytes_eq
for_fh-run_example = for_fh-run open_ops (9 ∷ []) 1 (refl, (refl, (inr (1, refl), tt)))
