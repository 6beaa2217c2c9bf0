-- ===== src/Nfs41/Slots/Exclusive.antt =====
-- What a request may rely on when it uses a slot table that others use too.
use nfs_rs.Common.{
  ℕ, zero, suc, ◌+◌, ◌≤◌, ◌<◌, ◌≡◌, refl, Bool, true, List, [], ◌∷◌, length, max, none, some, arith,
  ◌↔◌, ◌⊎◌, Option-cases, inl, inr,
}
use nfs_rs.Errors.{rpc}
use nfs_rs.Nfs41.Slots.{
  release_slot, AcquiredSlot, SlotTable, done, failed, remove_first, acquire_permit, take_slot,
  highest_bit, highest_slot_id,
}
use nfs_rs.Nfs41.Slots.World.{World, ids, count, Reachable, Inv, remove_first-count}
use nfs_rs.Nfs41.Slots.Invariant.{take_slot-cases, Reachable-Inv}

remove_first-target :
    (target : ℕ) (pool : List ℕ) (slot_id : ℕ) (left : List ℕ)
    → remove_first target pool ≡ some (slot_id, left)
    → slot_id ≤ target
unfolding remove_first
remove_first-target target [] s left h = ground arith
remove_first-target target (x ∷ xs) s left h = elim (Option-cases (remove_first target xs)) [
  | inl p ↦ ground (arith, p)
  | inr (found, p) ↦ ground (arith, p, remove_first-target target xs found.0 found.1 p)
]

-- Where the search finds none, every free slot is above the target.
remove_first-none :
    (target : ℕ) (pool : List ℕ) (i : ℕ)
    → remove_first target pool ≡ none
    → 0 < count i pool
    → target < i
unfolding remove_first
remove_first-none target [] i h c = ground arith
remove_first-none target (x ∷ xs) i h c = elim (Option-cases (remove_first target xs)) [
  | inl p ↦ ground (arith, p, remove_first-none target xs i p)
  | inr (found, p) ↦ ground (arith, p)
]

highest_bit-bound :
    (n : ℕ) (word : ℕ → Bool) (i : ℕ) → i < n → word i ≡ true → i ≤ highest_bit n word
unfolding highest_bit
highest_bit-bound zero word i h b = ground arith
highest_bit-bound (suc n) word i h b = ground (arith, highest_bit-bound n word i)

-- The highest bit is one that is set, or 0.
highest_bit-set :
    (n : ℕ) (word : ℕ → Bool) → (word (highest_bit n word) ≡ true) ⊎ (highest_bit n word ≡ 0)
unfolding highest_bit
highest_bit-set zero word = inr refl
highest_bit-set (suc n) word = ground (arith, highest_bit-set n word)

module _ (n : ℕ) (w : World) (pos : 0 < n) (small : n ≤ 64) (r : Reachable n w) where
  inv : Inv n w
  inv = Reachable-Inv n w pos small r

  -- In every reachable state of a table of 1 to 64 slots, a slot that `take_slot` gives to a
  -- caller is held by no other request, was never given up as ambiguous, and is at most the
  -- target of the server.
  pub take_slot-exclusive :
      (a : AcquiredSlot) (t : SlotTable)
      → take_slot w.table ≡ (some (done a), t)
      → (count a.slot_id (ids w.held) ≡ 0)
        × (count a.slot_id w.fenced ≡ 0)
        × (a.slot_id ≤ w.table.target_highest_slot_id)
  take_slot-exclusive a t h = elim (take_slot-cases n small w inv) [
    | inl waits ↦ ground (arith, waits.1, h)
    | inr f ↦
        (let same : a.slot_id ≡ f.slot = ground (arith, f.answer, h) in
          let taken =
            remove_first-count w.table.target_highest_slot_id w.table.free_pool f.slot f.left
              f.found f.slot in
          let low =
            remove_first-target w.table.target_highest_slot_id w.table.free_pool f.slot f.left
              f.found in
          rw same (ground (arith, inv.once f.slot, taken, low)))
  ]

  -- In every reachable state of a table of 1 to 64 slots, where a free slot is at most the
  -- target, `take_slot` gives a slot: it does not wait, fail or panic.
  pub take_slot-succeeds :
      (i : ℕ)
      → 0 < count i w.table.free_pool
      → i ≤ w.table.target_highest_slot_id
      → (a : AcquiredSlot) × ((take_slot w.table).0 ≡ some (done a))
  take_slot-succeeds i c low = elim (take_slot-cases n small w inv) [
    | inl waits ↦
        ground
          (arith, remove_first-none w.table.target_highest_slot_id w.table.free_pool i waits.0 c)
    | inr f ↦
        (record { slot_id = f.slot; sequence_id = f.seq; disposition = release_slot }, f.answer)
  ]

  -- In every reachable state of a table of 1 to 64 slots, taking a permit fails exactly when every
  -- slot was given up as ambiguous and no request holds one.
  pub acquire_permit-fails_iff :
      (acquire_permit w.table ≡ failed rpc) ↔ ((length w.fenced ≡ n) × (w.held ≡ []))
  unfolding acquire_permit
  acquire_permit-fails_iff = (
    (λ h. (full h, empty w.held (omega (arith, inv.whole, full h)))),
    (λ h. ground (arith, inv.closing, inv.whole, h.0)),
  )
    where
      full : acquire_permit w.table ≡ failed rpc → length w.fenced ≡ n
      full h = ground (arith, h, inv.closing, inv.whole)

      empty : (hs : List AcquiredSlot) → length hs ≡ 0 → hs ≡ []
      empty [] h = refl
      empty (x ∷ xs) h = ground arith

  -- In every reachable state of a table of 1 to 64 slots, the highest slot that the client reports
  -- in SEQUENCE is at least every slot that is held or given up, and below the size of the table.
  pub highest_slot_id-bounds :
      (i : ℕ)
      → 0 < count i (ids w.held) + count i w.fenced
      → (i ≤ highest_slot_id w.table) × (highest_slot_id w.table < n)
  unfolding highest_slot_id
  highest_slot_id-bounds i h = (lower, upper)
    where
      lower : i ≤ max (highest_bit 64 w.table.active_or_fenced_slots) w.table.target_highest_slot_id
      lower =
          ground
            (arith, highest_bit-bound 64 w.table.active_or_fenced_slots i, inv.marked i, inv.once i)

      upper : max (highest_bit 64 w.table.active_or_fenced_slots) w.table.target_highest_slot_id < n
      upper = ground (
        arith,
        highest_bit-set 64 w.table.active_or_fenced_slots,
        inv.marked (highest_bit 64 w.table.active_or_fenced_slots),
        inv.once (highest_bit 64 w.table.active_or_fenced_slots),
        inv.target,
      )
