-- ===== src/Nfs40/Opens.antt =====
-- nfs40/state.rs: the open owners, by their number and by the file that each has open. A lane is
-- shared by reference: it is a cell of the store, and its reference is the cell's number. The
-- lock `io_fence` in a lane is left out.
pub mod Spec
pub mod Steps
pub mod Latest
use mathlib.Core.List.{reverse}
use nfs_rs.Common.{
  ℕ, Bool, true, false, not, List, [], ◌∷◌, ◌++◌, map, length, get_elem?, Option, none, some, ◌==◌,
  leb, bit_and, if◌then◌else◌,
}
use nfs_rs.Assoc.{nat_eq, text_eq, keep, find, insert, remove as remove_key}

pub record OwnerLane : Type 0 where
  pub owner : ℕ
  pub next_seqid : ℕ
  pub stateid : List ℕ
  pub fh : List ℕ
  pub access : ℕ
  pub write_verifier : Option (List ℕ)
  pub closing : Bool

pub record OpenState : Type 0 where
  pub cells : List OwnerLane
  pub lanes : List (ℕ × ℕ)
  pub by_fh : List (List ℕ × List ℕ)

pub new : OpenState
new = record { cells = []; lanes = []; by_fh = [] }

-- `by_fh.get(fh)`, or the vector that `or_default` makes.
unfoldable pub owners_at : List ℕ → List (List ℕ × List ℕ) → List ℕ
owners_at fh by_fh = elim (find fh by_fh) [ none ↦ [] | some owners ↦ owners ]

pub register : OwnerLane → OpenState → ℕ × OpenState
register lane s = (
  length s.cells,
  record {
    cells = s.cells ++ (lane ∷ []);
    lanes = insert lane.owner (length s.cells) s.lanes;
    by_fh = insert lane.fh (owners_at lane.fh s.by_fh ++ (lane.owner ∷ [])) s.by_fh;
  },
)

pub by_owner : ℕ → OpenState → Option ℕ
by_owner owner s = find owner s.lanes

-- `lane.access & required_access != 0`.
unfoldable pub grants : ℕ → List OwnerLane → ℕ → Bool
grants required_access cells lane = elim (get_elem? cells lane) [
  | none ↦ false
  | some l ↦ not (bit_and l.access required_access == 0)
]

-- The loop over the owners of one file; an owner without a lane ends it.
first_granting : ℕ → OpenState → List ℕ → Option ℕ
first_granting required_access s [] = none
first_granting required_access s (owner ∷ owners) =
    let rest = first_granting required_access s owners in
    elim (by_owner owner s) [
      | none ↦ none
      | some lane ↦ if grants required_access s.cells lane then some lane else rest
    ]

pub for_fh : List ℕ → ℕ → OpenState → Option ℕ
for_fh fh required_access s = elim (find fh s.by_fh) [
  | none ↦ none
  | some owners ↦ first_granting required_access s (reverse owners)
]

-- The vector of a file without an owner; a vector that is empty then goes.
without : ℕ → List ℕ → Option (List ℕ) → List (List ℕ × List ℕ) → List (List ℕ × List ℕ)
without owner fh none by_fh = by_fh
without owner fh (some owners) by_fh = elim (keep (λ candidate. not (candidate == owner)) owners) [
  | [] ↦ remove_key fh by_fh
  | candidate ∷ kept ↦ insert fh (candidate ∷ kept) by_fh
]

pub remove : ℕ → List ℕ → OpenState → OpenState
remove owner fh s = record s {
  lanes = remove_key owner s.lanes;
  by_fh = without owner fh (find fh s.by_fh) s.by_fh;
}

-- `sort_unstable` of the owners.
unfoldable pub insert_sorted : ℕ → List ℕ → List ℕ
insert_sorted x [] = x ∷ []
insert_sorted x (y ∷ ys) = let rest = insert_sorted x ys in if leb x y then x ∷ y ∷ ys else y ∷ rest

unfoldable pub sorted : List ℕ → List ℕ
unfolding insert_sorted
sorted [] = []
sorted (x ∷ xs) = insert_sorted x (sorted xs)

-- `filter_map` by the lanes.
lanes_of : List (ℕ × ℕ) → List ℕ → List ℕ
lanes_of lanes [] = []
lanes_of lanes (owner ∷ owners) =
    let rest = lanes_of lanes owners in
    elim (find owner lanes) [ none ↦ rest | some lane ↦ lane ∷ rest ]

pub snapshot : OpenState → List ℕ
snapshot s = lanes_of s.lanes (sorted (map (λ entry. entry.0) s.lanes))

pub clear : OpenState → OpenState
clear s = record s { lanes = []; by_fh = [] }
