-- ===== src/Nfs41/Slots.antt =====
-- nfs41/session.rs: the slot table of a session, which bounds the requests in flight and gives
-- each a slot and a sequence number. `acquire` waits between its parts, so it is three steps: it
-- takes a permit of the semaphore, and then takes a slot or gives the permit back. The two words
-- of atomic flags are functions from a bit to a Boolean.
pub mod World
pub mod Invariant
pub mod Exclusive
mod Tests
use nfs_rs.Common.{
  ℕ, zero, suc, ◌+◌, ◌-◌, ◌%◌, ◌^◌, ◌≡◌, Bool, true, false, not, ◌&&◌, ◌||◌, List, [], ◌∷◌, ◌++◌,
  length, replicate, get_elem?, min, max, Option, none, some, ltb, leb, ◌==◌, if◌then◌else◌,
}
use nfs_rs.Errors.{NfsError, rpc, xdr}

pub data SlotDisposition : Type 0 where
  release_slot : SlotDisposition
  fence_slot : SlotDisposition

pub record AcquiredSlot : Type 0 where
  pub slot_id : ℕ
  pub sequence_id : ℕ
  pub disposition : SlotDisposition

pub record SlotTable : Type 0 where
  pub slots : List ℕ
  pub free_pool : List ℕ
  pub permits : ℕ
  pub closed : Bool
  pub fenced_slots : ℕ
  pub target_highest_slot_id : ℕ
  pub active_or_fenced_slots : ℕ → Bool

-- What a call gives: a value, an error, or a panic of an index out of range.
pub data Answer (A : Type 0) : Type 0 where
  done : A → Answer A
  failed : NfsError → Answer A
  panics : Answer A

-- `(k..k + n).collect()`.
unfoldable pub range : ℕ → ℕ → List ℕ
range k zero = []
range k (suc n) = k ∷ range (suc k) n

unfoldable pub new : ℕ → SlotTable
unfolding range
new num_slots = record {
  slots = replicate num_slots 1;
  free_pool = range 0 num_slots;
  permits = num_slots;
  closed = false;
  fenced_slots = 0;
  target_highest_slot_id = num_slots - 1;
  active_or_fenced_slots = λ _. false;
}

-- `pool.iter().position(|slot_id| slot_id <= target)`, and the pool without that element.
unfoldable pub remove_first : ℕ → List ℕ → Option (ℕ × List ℕ)
remove_first target [] = none
remove_first target (slot_id ∷ pool) =
    let rest = remove_first target pool in
    if leb slot_id target
    then some (slot_id, pool)
    else elim rest [ none ↦ none | some (found, left) ↦ some (found, slot_id ∷ left) ]

pub set_bit : ℕ → Bool → (ℕ → Bool) → ℕ → Bool
set_bit bit value word i = if i == bit then value else word i

-- `semaphore.acquire()`: none where the caller waits, an error where the semaphore is closed.
pub acquire_permit : SlotTable → Answer (Option SlotTable)
acquire_permit t =
    if t.closed
    then failed rpc
    else if t.permits == 0
    then done none
    else done (some (record t { permits = t.permits - 1 }))

pub drop_permit : SlotTable → SlotTable
drop_permit t = record t { permits = t.permits + 1 }

pub acquired : ℕ → SlotTable → Answer AcquiredSlot × SlotTable
unfolding set_bit
acquired slot_id t =
    if ltb slot_id 64
    then (
      elim (get_elem? t.slots slot_id) [
        | none ↦ panics
        | some sequence_id ↦
            done
              (record { slot_id = slot_id; sequence_id = sequence_id; disposition = release_slot })
      ],
      record t { active_or_fenced_slots = set_bit slot_id true t.active_or_fenced_slots },
    )
    else (failed rpc, t)

-- What follows the permit: the first free slot up to the target, or none and the permit is back.
pub take_slot : SlotTable → Option (Answer AcquiredSlot) × SlotTable
unfolding remove_first acquired drop_permit
take_slot t = elim (remove_first t.target_highest_slot_id t.free_pool) [
  | none ↦ (none, drop_permit t)
  | some (slot_id, pool) ↦
      (let r = acquired slot_id (record t { free_pool = pool }) in (some r.0, r.1))
]

pub update_target_highest_slot_id : ℕ → SlotTable → Answer (Unit {0}) × SlotTable
update_target_highest_slot_id target t =
    if length t.slots == 0
    then (failed rpc, t)
    else if ltb (length t.slots - 1) target
    then (failed xdr, t)
    else (done tt, record t { target_highest_slot_id = target })

-- `Session::update_sequence_slot_limits`.
pub update_sequence_slot_limits : ℕ → ℕ → SlotTable → Answer (Unit {0}) × SlotTable
unfolding update_target_highest_slot_id
update_sequence_slot_limits highest target t =
    if length t.slots == 0
    then (failed rpc, t)
    else if ltb (length t.slots - 1) highest || ltb (length t.slots - 1) target
    then (failed xdr, t)
    else update_target_highest_slot_id (min target highest) t

pub release : ℕ → SlotTable → SlotTable
unfolding set_bit
release slot_id t = record t {
  active_or_fenced_slots =
      if ltb slot_id 64
      then set_bit slot_id false t.active_or_fenced_slots
      else t.active_or_fenced_slots;
  free_pool = t.free_pool ++ (slot_id ∷ []);
  permits = t.permits + 1;
}

-- `63 - leading_zeros` of the low bits of a word, and 0 for the word 0.
unfoldable pub highest_bit : ℕ → (ℕ → Bool) → ℕ
highest_bit zero word = 0
highest_bit (suc n) word = let rest = highest_bit n word in if word n then n else rest

pub highest_slot_id : SlotTable → ℕ
unfolding highest_bit
highest_slot_id t = max (highest_bit 64 t.active_or_fenced_slots) t.target_highest_slot_id

-- The methods of a slot that is held.
pub fence_on_drop : AcquiredSlot → AcquiredSlot
fence_on_drop a = record a { disposition = fence_slot }

pub resolve : AcquiredSlot → AcquiredSlot
resolve a = record a { disposition = release_slot }

pub bump : ℕ → List ℕ → List ℕ
bump i [] = []
bump zero (x ∷ xs) = (x + 1) % 2 ^ 32 ∷ xs
bump (suc i) (x ∷ xs) = x ∷ bump i xs

pub advance : AcquiredSlot → SlotTable → SlotTable
unfolding bump
advance a t = record t { slots = bump a.slot_id t.slots }

pub current_sequence_id : AcquiredSlot → SlotTable → Option ℕ
current_sequence_id a t = get_elem? t.slots a.slot_id

-- `Drop for AcquiredSlot`.
unfoldable drop_with : SlotDisposition → ℕ → SlotTable → SlotTable
unfolding release
drop_with release_slot slot_id t = release slot_id t
drop_with fence_slot slot_id t = record t {
  fenced_slots = t.fenced_slots + 1;
  closed = if leb (length t.slots) (t.fenced_slots + 1) then true else t.closed;
}

pub drop_acquired : AcquiredSlot → SlotTable → SlotTable
unfolding drop_with
drop_acquired a t = drop_with a.disposition a.slot_id t
