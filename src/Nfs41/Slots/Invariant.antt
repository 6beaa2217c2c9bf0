-- ===== src/Nfs41/Slots/Invariant.antt =====
-- Every step of a task that shares a slot table keeps the invariant.
use nfs_rs.Common.{
  ℕ, suc, ◌+◌, ◌-◌, ◌≤◌, ◌<◌, ◌≡◌, ◌≢◌, refl, ap, sym, ◌∙◌, true, List, [], ◌∷◌, ◌++◌, length,
  get_elem?, min, Option, none, some, ◌==◌, if◌then◌else◌, arith, subst, ◌⊎◌, lt→ltb, Option-cases,
  inl, inr, length-append,
}
use nfs_rs.Errors.{NfsError}
use nfs_rs.Nfs41.Slots.{
  SlotDisposition, release_slot, fence_slot, AcquiredSlot, SlotTable, Answer, done, failed,
  remove_first, set_bit, acquire_permit, drop_permit, acquired, take_slot,
  update_target_highest_slot_id, update_sequence_slot_limits, release, fence_on_drop, resolve,
  advance, drop_with, drop_acquired,
}
use nfs_rs.Nfs41.Slots.World.{
  World, ids, count, given_up, Step, takes_permit, finds_none, takes_slot, loses_slot, marks,
  resolves, advances, drops, limits, Reachable, starts, then_, Inv, count-append, count-ids,
  length-held, length-bump, start-Inv, remove_first-count, remove_first-length, get_elem?-below,
}

module _ (n : ℕ) (small : n ≤ 64) (w : World) (v : Inv n w) where
  -- The slot found is one of the table's.
  found-below :
      (slot_id : ℕ) (left : List ℕ)
      → remove_first w.table.target_highest_slot_id w.table.free_pool ≡ some (slot_id, left)
      → slot_id < n
  found-below s left h = ground (
    arith,
    v.once s,
    remove_first-count w.table.target_highest_slot_id w.table.free_pool s left h s,
  )

  -- What taking a permit gives.
  permit-eq :
      (t : SlotTable)
      → acquire_permit w.table ≡ done (some t)
      → (record w.table { permits = w.table.permits - 1 } ≡ t) × (0 < w.table.permits)
  unfolding acquire_permit
  permit-eq t h = ground arith

  permit-Inv :
      (t : SlotTable)
      → acquire_permit w.table ≡ done (some t)
      → Inv n (record w { table = t; pending = w.pending + 1 })
  permit-Inv t h =
      subst (λ t. Inv n (record w { table = t; pending = w.pending + 1 })) (permit-eq t h).0
        (record {
          sized = v.sized;
          once = v.once;
          whole = v.whole;
          permitted = omega (arith, v.permitted, (permit-eq t h).1);
          counted = v.counted;
          closing = v.closing;
          marked = v.marked;
          target = v.target;
        })

  -- What looking for a slot gives: none, and the permit is back, or the slot found.
  search-none : (t : SlotTable) → take_slot w.table ≡ (none, t) → drop_permit w.table ≡ t
  unfolding take_slot
  search-none t h = ground arith

  none-Inv :
      (t : SlotTable)
      → 0 < w.pending
      → take_slot w.table ≡ (none, t)
      → Inv n (record w { table = t; pending = w.pending - 1 })
  none-Inv t p h =
      subst (λ t. Inv n (record w { table = t; pending = w.pending - 1 })) (search-none t h)
        (unfold drop_permit in
          record {
            sized = v.sized;
            once = v.once;
            whole = v.whole;
            permitted = omega (arith, v.permitted);
            counted = v.counted;
            closing = v.closing;
            marked = v.marked;
            target = v.target;
          })

  -- A slot that is found has a sequence number, and the table marks it.
  pub record Found (r : Option (Answer AcquiredSlot)) (t : SlotTable) : Type 0 where
    pub slot : ℕ
    pub left : List ℕ
    pub seq : ℕ
    pub found : remove_first w.table.target_highest_slot_id w.table.free_pool ≡ some (slot, left)
    pub number : get_elem? w.table.slots slot ≡ some seq
    pub answer :
        r ≡ some (done (record { slot_id = slot; sequence_id = seq; disposition = release_slot }))
    pub after : t ≡ record w.table {
      free_pool = left;
      active_or_fenced_slots = set_bit slot true w.table.active_or_fenced_slots;
    }

  pub take_slot-cases :
      ((remove_first w.table.target_highest_slot_id w.table.free_pool ≡ none)
        × (take_slot w.table ≡ (none, drop_permit w.table)))
      ⊎ Found (take_slot w.table).0 (take_slot w.table).1
  unfolding take_slot acquired
  take_slot-cases =
      elim (Option-cases (remove_first w.table.target_highest_slot_id w.table.free_pool)) [
        | inl p ↦ inl (p, rw (p, take_slot) refl)
        | inr ((s, left), p) ↦
            (let b = found-below s left p in
              let (q, e) = get_elem?-below w.table.slots s (omega (arith, v.sized)) in
              inr (record {
                slot = s;
                left = left;
                seq = q;
                found = p;
                number = e;
                answer = rw (take_slot, p, acquired, lt→ltb s 64 (omega arith), e) refl;
                after = rw (take_slot, p, acquired, lt→ltb s 64 (omega arith)) refl;
              }))
      ]

  took-Inv :
      (f : Found (take_slot w.table).0 (take_slot w.table).1) (a : AcquiredSlot) (t : SlotTable)
      → 0 < w.pending
      → take_slot w.table ≡ (some (done a), t)
      → Inv n (record w { table = t; pending = w.pending - 1; held = a ∷ w.held })
  took-Inv f a t p h =
      subst (λ t. Inv n (record w { table = t; pending = w.pending - 1; held = a ∷ w.held }))
        (sym f.after ∙ ap (λ r. r.1) h)
        (record {
          sized = v.sized;
          once = λ i. ground (arith, v.once i, takes i, same);
          whole = omega (arith, v.whole, shorter);
          permitted = omega (arith, v.permitted, shorter);
          counted = v.counted;
          closing = v.closing;
          marked = λ i. unfold set_bit in ground (arith, v.marked i, same);
          target = v.target;
        })
    where
      same : a.slot_id ≡ f.slot
      same = ground (arith, f.answer, h)

      takes : (i : ℕ) → count i w.table.free_pool ≡ (if f.slot == i then 1 else 0) + count i f.left
      takes =
          remove_first-count w.table.target_highest_slot_id w.table.free_pool f.slot f.left f.found

      shorter : length w.table.free_pool ≡ suc (length f.left)
      shorter =
          remove_first-length w.table.target_highest_slot_id w.table.free_pool f.slot f.left f.found

  slot-Inv :
      (a : AcquiredSlot) (t : SlotTable)
      → 0 < w.pending
      → take_slot w.table ≡ (some (done a), t)
      → Inv n (record w { table = t; pending = w.pending - 1; held = a ∷ w.held })
  slot-Inv a t p h = elim take_slot-cases [
    | inl waits ↦ ground (arith, waits.1, h)
    | inr f ↦ took-Inv f a t p h
  ]

  -- No slot is lost.
  search-ne-failed : (e : NfsError) (t : SlotTable) → take_slot w.table ≢ (some (failed e), t)
  search-ne-failed e t h = elim take_slot-cases [
    | inl waits ↦ ground (arith, waits.1, h)
    | inr f ↦ ground (arith, f.answer, h)
  ]

  -- Steps on a slot that is held.
  module _ (pre post : List AcquiredSlot) (a : AcquiredSlot) (h : w.held ≡ pre ++ (a ∷ post)) where
    counts :
        (i : ℕ)
        → count i (ids w.held) ≡ (if a.slot_id == i then 1 else 0) + count i (ids (pre ++ post))
    counts i = ap (λ hs. count i (ids hs)) h ∙ count-ids i pre post a

    lengths : length w.held ≡ suc (length (pre ++ post))
    lengths = ap length h ∙ length-held pre post a

    marks-Inv :
        (b : AcquiredSlot) → b.slot_id ≡ a.slot_id → Inv n (record w { held = pre ++ (b ∷ post) })
    marks-Inv b e = record {
      sized = v.sized;
      once = λ i. ground (arith, v.once i, counts i, count-ids i pre post b, e);
      whole = omega (arith, v.whole, lengths, length-held pre post b);
      permitted = v.permitted;
      counted = v.counted;
      closing = v.closing;
      marked = λ i. ground (arith, v.marked i, counts i, count-ids i pre post b, e);
      target = v.target;
    }

    advances-Inv : Inv n (record w { table = advance a w.table })
    unfolding advance
    advances-Inv = record {
      sized = length-bump a.slot_id w.table.slots ∙ v.sized;
      once = v.once;
      whole = v.whole;
      permitted = v.permitted;
      counted = v.counted;
      closing = v.closing;
      marked = v.marked;
      target = v.target;
    }

    drops-Inv :
        (d : SlotDisposition)
        → a.disposition ≡ d
        → Inv n (record w {
          table = drop_with d a.slot_id w.table;
          held = pre ++ post;
          fenced = elim d [ release_slot ↦ w.fenced | fence_slot ↦ a.slot_id ∷ w.fenced ];
        })
    unfolding drop_with release set_bit
    drops-Inv release_slot e = record {
      sized = v.sized;
      once = λ i.
          ground (arith, v.once i, counts i, count-append i w.table.free_pool (a.slot_id ∷ []));
      whole = omega (arith, v.whole, lengths, length-append w.table.free_pool (a.slot_id ∷ []));
      permitted = omega (arith, v.permitted, length-append w.table.free_pool (a.slot_id ∷ []));
      counted = v.counted;
      closing = v.closing;
      marked =
          λ i. ground (arith, v.marked i, v.once i, counts i, v.once a.slot_id, counts a.slot_id);
      target = v.target;
    }
    drops-Inv fence_slot e = record {
      sized = v.sized;
      once = λ i. ground (arith, v.once i, counts i);
      whole = omega (arith, v.whole, lengths);
      permitted = v.permitted;
      counted = omega (arith, v.counted);
      closing = ground (arith, v.closing, v.counted, v.sized);
      marked = λ i. ground (arith, v.marked i, counts i);
      target = v.target;
    }

  -- What new limits do to the table.
  limits-cases :
      (highest target : ℕ)
      → ((update_sequence_slot_limits highest target w.table).1 ≡ w.table)
        ⊎ ((min target highest < n)
            × ((update_sequence_slot_limits highest target w.table).1
                ≡ record w.table { target_highest_slot_id = min target highest }))
  unfolding update_sequence_slot_limits update_target_highest_slot_id
  limits-cases highest target = ground (arith, v.sized)

  limits-Inv :
      (highest target : ℕ)
      → Inv n (record w { table = (update_sequence_slot_limits highest target w.table).1 })
  limits-Inv highest target = elim (limits-cases highest target) [
    | inl same ↦ subst (λ t. Inv n (record w { table = t })) (sym same) v
    | inr (below, changed) ↦
        subst (λ t. Inv n (record w { table = t })) (sym changed)
          (record {
            sized = v.sized;
            once = v.once;
            whole = v.whole;
            permitted = v.permitted;
            counted = v.counted;
            closing = v.closing;
            marked = v.marked;
            target = below;
          })
  ]

  pub Step-Inv : (u : World) → Step w u → Inv n u
  unfolding fence_on_drop resolve given_up drop_acquired
  Step-Inv u (takes_permit t h) = permit-Inv t h
  Step-Inv u (finds_none t p h) = none-Inv t p h
  Step-Inv u (takes_slot a t p h) = slot-Inv a t p h
  Step-Inv u (loses_slot e t p h) = absurd (search-ne-failed e t h)
  Step-Inv u (marks pre post a h) = marks-Inv pre post a h (fence_on_drop a) refl
  Step-Inv u (resolves pre post a h) = marks-Inv pre post a h (resolve a) refl
  Step-Inv u (advances pre post a h) = advances-Inv pre post a h
  Step-Inv u (drops pre post a h) = drops-Inv pre post a h a.disposition refl
  Step-Inv u (limits highest target) = limits-Inv highest target

-- After any sequence of steps from a new table of between 1 and 64 slots, each slot is in exactly
-- one of three places (free, held by one request, fenced); the permits that are left or in the
-- hands of searching callers are as many as the free slots; the bits of the word mark the slots
-- that are held or fenced; and the semaphore is closed exactly when all slots are fenced.
pub Reachable-Inv : (n : ℕ) (w : World) → 0 < n → n ≤ 64 → Reachable n w → Inv n w
Reachable-Inv n w pos small starts = start-Inv n pos
Reachable-Inv n w pos small (then_ u _ r s) = Step-Inv n small u (Reachable-Inv n u pos small r) w s
