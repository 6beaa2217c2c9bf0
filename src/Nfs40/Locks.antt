-- ===== src/Nfs40/Locks.antt =====
-- nfs40/state.rs: the byte-range locks that the client holds, found by their stateids. A lane is
-- shared by reference: it is a cell of the store, and its reference is the cell's number. A lock on
-- a map is taken and given back within one operation, so an operation is one step.
pub mod Spec
pub mod Steps
pub mod Names
use nfs_rs.Common.{
  ℕ, ◌≤◌, Bool, true, false, not, ◌||◌, List, [], ◌∷◌, ◌++◌, map, length, get_elem?, Option, none,
  some, ◌==◌, leb, bytes_eq, if◌then◌else◌,
}
use nfs_rs.Assoc.{text_eq, find, insert, remove as remove_key, retain as retain_values}

pub record LockLane : Type 0 where
  pub owner : ℕ
  pub open_owner : ℕ
  pub owner_wire : List ℕ
  pub next_seqid : ℕ
  pub stateid : List ℕ
  pub fh : List ℕ
  pub lock_type : ℕ
  pub offset : ℕ
  pub length : ℕ

abbrev pub Lanes : Type 0
Lanes = List (List ℕ × ℕ)

pub record LockState : Type 0 where
  pub cells : List LockLane
  pub lanes : Lanes
  pub aliases : Lanes

pub new : LockState
new = record { cells = []; lanes = []; aliases = [] }

pub register : LockLane → LockState → ℕ × LockState
register lane s = (
  length s.cells,
  record {
    cells = s.cells ++ (lane ∷ []);
    lanes = insert lane.stateid (length s.cells) s.lanes;
    aliases = s.aliases;
  },
)

pub by_stateid : List ℕ → LockState → Option ℕ
by_stateid stateid s = elim (find stateid s.lanes) [
  | some lane ↦ some lane
  | none ↦ find stateid s.aliases
]

-- Both calls of `retain`: every name of the lane goes.
pub forget : ℕ → LockState → LockState
forget lane s = record s {
  lanes = retain_values (λ candidate. not (candidate == lane)) s.lanes;
  aliases = retain_values (λ candidate. not (candidate == lane)) s.aliases;
}

pub remove : List ℕ → LockState → LockState
remove stateid s = elim (find stateid s.lanes) [
  | some lane ↦ forget lane (record s { lanes = remove_key stateid s.lanes })
  | none ↦ elim (find stateid s.aliases) [
    | some lane ↦ forget lane (record s { aliases = remove_key stateid s.aliases })
    | none ↦ s
  ]
]

pub rekey : List ℕ → List ℕ → ℕ → LockState → LockState
rekey old_stateid new_stateid lane s = record s {
  lanes = insert new_stateid lane (remove_key old_stateid s.lanes);
  aliases = insert old_stateid lane s.aliases;
}

pub clear : LockState → LockState
clear s = record s { lanes = []; aliases = [] }

-- The lane behind a reference.
abbrev lane_at : LockState → ℕ → Option LockLane
lane_at s lane = get_elem? s.cells lane

abbrev holds : List ℕ → Option LockLane → Bool
holds fh none = false
holds fh (some lane) = bytes_eq lane.fh fh

any_holds : List ℕ → LockState → Lanes → Bool
any_holds fh s [] = false
any_holds fh s ((key, lane) ∷ lanes) = holds fh (lane_at s lane) || any_holds fh s lanes

pub has_fh : List ℕ → LockState → Bool
has_fh fh s = any_holds fh s s.lanes

-- `sort_by_key`, which keeps the order of equal keys.
unfoldable pub insert_by_key : ℕ × ℕ → List (ℕ × ℕ) → List (ℕ × ℕ)
insert_by_key x [] = x ∷ []
insert_by_key x (y ∷ ys) =
    let rest = insert_by_key x ys in if leb x.0 y.0 then x ∷ y ∷ ys else y ∷ rest

unfoldable pub sort_by_key : List (ℕ × ℕ) → List (ℕ × ℕ)
unfolding insert_by_key
sort_by_key [] = []
sort_by_key (x ∷ xs) = insert_by_key x (sort_by_key xs)

abbrev owner_at : LockState → ℕ → ℕ
owner_at s lane = elim (get_elem? s.cells lane) [ none ↦ 0 | some l ↦ l.owner ]

pub snapshot : LockState → List ℕ
snapshot s =
    map (λ entry. entry.1) (sort_by_key (map (λ entry. (owner_at s entry.1, entry.1)) s.lanes))
