-- ===== src/Nfs41/State.antt =====
-- nfs41/state.rs: the table of OPEN stateids with their reference counts. The map from file handles
-- is a list with one entry at most for each handle; the order in which `drain` gives its entries is
-- that of the list. `transition_to` stores the new generation before it waits for the lock, so it
-- is two steps, `fence` and `clear`. A reference count is a u32 that wraps.
pub mod Lifecycle
pub mod Generation
mod Tests
use nfs_rs.Common.{
  ℕ, zero, suc, ◌+◌, ◌-◌, ◌%◌, ◌^◌, Bool, true, false, ◌&&◌, List, [], ◌∷◌, map, replicate, Option,
  none, some, ltb, ◌==◌, bytes_eq, if◌then◌else◌,
}
use nfs_rs.Errors.{NfsError, rpc}

pub data AccessMode : Type 0 where
  read write both : AccessMode

pub share_access : AccessMode → ℕ
share_access read = 1
share_access write = 2
share_access both = 3

pub covers : AccessMode → AccessMode → Bool
covers both requested = true
covers read read = true
covers read write = false
covers read both = false
covers write read = false
covers write write = true
covers write both = false

pub upgrade : AccessMode → AccessMode → AccessMode
upgrade both requested = both
upgrade read read = read
upgrade read write = both
upgrade read both = both
upgrade write read = both
upgrade write write = write
upgrade write both = both

pub record StateId : Type 0 where
  pub raw : List ℕ
  pub generation : ℕ

abbrev pub anonymous : StateId
anonymous = record { raw = replicate 16 0; generation = 0 }

pub record OpenState : Type 0 where
  pub stateid : StateId
  pub access : AccessMode
  pub ref_count : ℕ
  pub generation : ℕ

abbrev pub OpenFiles : Type 0
OpenFiles = List (List ℕ × OpenState)

-- `HashMap::get`, `insert` and `remove`.
unfoldable pub find : List ℕ → OpenFiles → Option OpenState
find fh [] = none
find fh ((key, state) ∷ files) =
    let rest = find fh files in if bytes_eq key fh then some state else rest

unfoldable pub insert : List ℕ → OpenState → OpenFiles → OpenFiles
insert fh new [] = (fh, new) ∷ []
insert fh new ((key, state) ∷ files) =
    let rest = insert fh new files in
    if bytes_eq key fh then (key, new) ∷ files else (key, state) ∷ rest

unfoldable pub remove : List ℕ → OpenFiles → OpenFiles
remove fh [] = []
remove fh ((key, state) ∷ files) =
    let rest = remove fh files in if bytes_eq key fh then rest else (key, state) ∷ rest

pub record StateManager : Type 0 where
  pub open_files : OpenFiles
  pub active_generation : ℕ

pub new : StateManager
new = record { open_files = []; active_generation = 1 }

-- The two steps of `transition_to`.
pub fence : ℕ → StateManager → StateManager
fence generation m = record m { active_generation = generation }

pub clear : StateManager → StateManager
clear m = record m { open_files = [] }

pub transition_to : ℕ → StateManager → StateManager
unfolding fence clear
transition_to generation m = clear (fence generation m)

pub get_stateid : List ℕ → StateManager → StateId
get_stateid fh m = elim (find fh m.open_files) [
  | none ↦ anonymous
  | some state ↦
      if ltb 0 state.ref_count && state.generation == m.active_generation
      then state.stateid
      else anonymous
]

-- The entry after one more OPEN.
pub reopened : StateId → AccessMode → Option OpenState → OpenState
reopened stateid access none = record {
  stateid = stateid;
  access = access;
  ref_count = 1;
  generation = stateid.generation;
}
reopened stateid access (some existing) = record {
  stateid = stateid;
  access = upgrade existing.access access;
  ref_count = (existing.ref_count + 1) % 2 ^ 32;
  generation = stateid.generation;
}

pub register_open : List ℕ → StateId → AccessMode → StateManager → Option NfsError × StateManager
register_open fh stateid access m =
    if stateid.generation == m.active_generation
    then (
      none,
      record m {
        open_files = insert fh (reopened stateid access (find fh m.open_files)) m.open_files;
      },
    )
    else (some rpc, m)

-- What `release` returns for an entry, and the entry it leaves.
pub released : OpenState → Option StateId × OpenState
released state =
    if state.ref_count == 0
    then (some state.stateid, state)
    else if state.ref_count - 1 == 0
    then (some state.stateid, record state { ref_count = state.ref_count - 1 })
    else (none, record state { ref_count = state.ref_count - 1 })

pub release : List ℕ → StateManager → Option StateId × StateManager
release fh m = elim (find fh m.open_files) [
  | none ↦ (none, m)
  | some state ↦
      ((released state).0, record m { open_files = insert fh (released state).1 m.open_files })
]

pub stateid_eq : StateId → StateId → Bool
stateid_eq a b = bytes_eq a.raw b.raw && a.generation == b.generation

pub close_succeeded : List ℕ → StateId → StateManager → StateManager
close_succeeded fh stateid m = elim (find fh m.open_files) [
  | none ↦ m
  | some state ↦
      if state.ref_count == 0 && stateid_eq state.stateid stateid
      then record m { open_files = remove fh m.open_files }
      else m
]

pub drain : StateManager → List (List ℕ × StateId) × StateManager
unfolding clear
drain m = (map (λ entry. (entry.0, entry.1.stateid)) m.open_files, clear m)

pub has_open : List ℕ → AccessMode → StateManager → Option StateId
has_open fh access m = elim (find fh m.open_files) [
  | none ↦ none
  | some state ↦
      if ltb 0 state.ref_count
        && (state.generation == m.active_generation && covers state.access access)
      then some state.stateid
      else none
]
