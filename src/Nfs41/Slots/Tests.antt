-- ===== src/Nfs41/Slots/Tests.antt =====
-- A run on a table of two slots: one request holds a slot, and a second one gets the other.
use nfs_rs.Common.{ℕ, ◌≡◌, ◌≤◌, ◌<◌, ◌↔◌, refl, true, false, [], ◌∷◌, length, arith, some}
use nfs_rs.Errors.{rpc}
use nfs_rs.Nfs41.Slots.{
  AcquiredSlot, SlotTable, release_slot, done, failed, new, range, acquire_permit, take_slot,
  highest_slot_id, set_bit,
}
use nfs_rs.Nfs41.Slots.World.{
  World, ids, count, takes_permit, takes_slot, start, Reachable, starts, then_, Inv,
}
use nfs_rs.Nfs41.Slots.Invariant.{Reachable-Inv}
use nfs_rs.Nfs41.Slots.Exclusive.{
  take_slot-exclusive, take_slot-succeeds, acquire_permit-fails_iff, highest_slot_id-bounds,
}

table_0 : ℕ → SlotTable
table_0 permits = record {
  slots = 1 ∷ 1 ∷ [];
  free_pool = 0 ∷ 1 ∷ [];
  permits = permits;
  closed = false;
  fenced_slots = 0;
  target_highest_slot_id = 1;
  active_or_fenced_slots = λ _. false;
}

table_1 : ℕ → SlotTable
unfolding table_0 set_bit
table_1 permits = record (table_0 permits) {
  free_pool = 1 ∷ [];
  active_or_fenced_slots = set_bit 0 true (λ _. false);
}

slot : ℕ → AcquiredSlot
slot i = record { slot_id = i; sequence_id = 1; disposition = release_slot }

-- One request holds slot 0, and another has a permit.
busy : World
unfolding table_1 slot
busy = record { table = table_1 0; pending = 1; held = slot 0 ∷ []; fenced = [] }

busy-Reachable : Reachable 2 busy
unfolding busy start new range acquire_permit take_slot
busy-Reachable =
    then_ (record { table = table_1 1; pending = 0; held = slot 0 ∷ []; fenced = [] }) busy
      (then_ (record { table = table_0 1; pending = 1; held = []; fenced = [] }) _
        (then_ (start 2) _ starts (takes_permit (table_0 1) refl))
        (takes_slot (slot 0) (table_1 1) (omega arith) refl))
      (takes_permit (table_1 0) refl)

Reachable-Inv_example : Inv 2 busy
Reachable-Inv_example = Reachable-Inv 2 busy (omega arith) (omega arith) busy-Reachable

taken : take_slot busy.table ≡ (some (done (slot 1)), (take_slot busy.table).1)
unfolding busy take_slot
taken = refl

take_slot-exclusive_example :
    (count 1 (ids busy.held) ≡ 0)
    × (count 1 busy.fenced ≡ 0)
    × (1 ≤ busy.table.target_highest_slot_id)
unfolding slot
take_slot-exclusive_example =
    take_slot-exclusive 2 busy (omega arith) (omega arith) busy-Reachable (slot 1)
      (take_slot busy.table).1 taken

take_slot-succeeds_example : (a : AcquiredSlot) × ((take_slot busy.table).0 ≡ some (done a))
unfolding busy
take_slot-succeeds_example =
    take_slot-succeeds 2 busy (omega arith) (omega arith) busy-Reachable 1 (omega arith)
      (omega arith)

acquire_permit-fails_iff_example :
    (acquire_permit busy.table ≡ failed rpc) ↔ ((length busy.fenced ≡ 2) × (busy.held ≡ []))
acquire_permit-fails_iff_example =
    acquire_permit-fails_iff 2 busy (omega arith) (omega arith) busy-Reachable

highest_slot_id-bounds_example : (0 ≤ highest_slot_id busy.table) × (highest_slot_id busy.table < 2)
unfolding busy slot
highest_slot_id-bounds_example =
    highest_slot_id-bounds 2 busy (omega arith) (omega arith) busy-Reachable 0 (omega arith)
