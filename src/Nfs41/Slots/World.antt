-- ===== src/Nfs41/Slots/World.antt =====
-- The requests that use a slot table, as steps of a world, and the invariant that they keep.
use nfs_rs.Common.{
  ℕ, zero, suc, ◌+◌, ◌-◌, ◌<◌, ◌≡◌, refl, ap, ◌&&◌, List, [], ◌∷◌, ◌++◌, length, get_elem?, none,
  some, ltb, leb, ◌==◌, if◌then◌else◌, arith, Option-cases, inl, inr, length-append,
  length-replicate,
}
use nfs_rs.Errors.{NfsError}
use nfs_rs.Nfs41.Slots.{
  release_slot, fence_slot, AcquiredSlot, SlotTable, done, failed, range, new, remove_first,
  acquire_permit, take_slot, update_sequence_slot_limits, fence_on_drop, resolve, bump, advance,
  drop_acquired,
}

-- The table, the permits of callers that look for a slot, the slots held, and those given up.
pub record World : Type 0 where
  pub table : SlotTable
  pub pending : ℕ
  pub held : List AcquiredSlot
  pub fenced : List ℕ

abbrev pub ids : List AcquiredSlot → List ℕ
ids [] = []
ids (a ∷ rest) = a.slot_id ∷ ids rest

abbrev pub count : ℕ → List ℕ → ℕ
count i [] = 0
count i (x ∷ xs) = (if x == i then 1 else 0) + count i xs

unfoldable pub given_up : AcquiredSlot → List ℕ → List ℕ
given_up a fenced = elim a.disposition [ release_slot ↦ fenced | fence_slot ↦ a.slot_id ∷ fenced ]

-- One step of one of the tasks that share the table.
pub data Step (w : World) : World → Type 0 where
  takes_permit :
      (t : SlotTable)
      → acquire_permit w.table ≡ done (some t)
      → Step w (record w { table = t; pending = w.pending + 1 })
  finds_none :
      (t : SlotTable)
      → 0 < w.pending
      → take_slot w.table ≡ (none, t)
      → Step w (record w { table = t; pending = w.pending - 1 })
  takes_slot :
      (a : AcquiredSlot) (t : SlotTable)
      → 0 < w.pending
      → take_slot w.table ≡ (some (done a), t)
      → Step w (record w { table = t; pending = w.pending - 1; held = a ∷ w.held })
  loses_slot :
      (e : NfsError) (t : SlotTable)
      → 0 < w.pending
      → take_slot w.table ≡ (some (failed e), t)
      → Step w (record w { table = t; pending = w.pending - 1 })
  marks :
      (pre post : List AcquiredSlot) (a : AcquiredSlot)
      → w.held ≡ pre ++ (a ∷ post)
      → Step w (record w { held = pre ++ (fence_on_drop a ∷ post) })
  resolves :
      (pre post : List AcquiredSlot) (a : AcquiredSlot)
      → w.held ≡ pre ++ (a ∷ post)
      → Step w (record w { held = pre ++ (resolve a ∷ post) })
  advances :
      (pre post : List AcquiredSlot) (a : AcquiredSlot)
      → w.held ≡ pre ++ (a ∷ post)
      → Step w (record w { table = advance a w.table })
  drops :
      (pre post : List AcquiredSlot) (a : AcquiredSlot)
      → w.held ≡ pre ++ (a ∷ post)
      → Step w (record w {
        table = drop_acquired a w.table;
        held = pre ++ post;
        fenced = given_up a w.fenced;
      })
  limits :
      (highest target : ℕ)
      → Step w (record w { table = (update_sequence_slot_limits highest target w.table).1 })

unfoldable pub start : ℕ → World
start n = record { table = new n; pending = 0; held = []; fenced = [] }

pub data Reachable (n : ℕ) : World → Type 0 where
  starts : Reachable n (start n)
  then_ : (w v : World) → Reachable n w → Step w v → Reachable n v

-- Each slot is free, held once or fenced once; the permits count the free slots; the bits mark the
-- slots that are held or fenced; and the semaphore is closed when all are fenced.
pub record Inv (n : ℕ) (w : World) : Type 0 where
  pub sized : length w.table.slots ≡ n
  pub once :
      (i : ℕ)
      → count i w.table.free_pool + (count i (ids w.held) + count i w.fenced)
        ≡ (if ltb i n then 1 else 0)
  pub whole : length w.table.free_pool + (length w.held + length w.fenced) ≡ n
  pub permitted : w.table.permits + w.pending ≡ length w.table.free_pool
  pub counted : w.table.fenced_slots ≡ length w.fenced
  pub closing : w.table.closed ≡ leb n (length w.fenced)
  pub marked :
      (i : ℕ) → w.table.active_or_fenced_slots i ≡ ltb 0 (count i (ids w.held) + count i w.fenced)
  pub target : w.table.target_highest_slot_id < n

pub count-append : (i : ℕ) (xs ys : List ℕ) → count i (xs ++ ys) ≡ count i xs + count i ys
count-append i [] ys = omega arith
count-append i (x ∷ xs) ys = omega (arith, count-append i xs ys)

pub ids-append : (xs ys : List AcquiredSlot) → ids (xs ++ ys) ≡ ids xs ++ ids ys
ids-append [] ys = refl
ids-append (x ∷ xs) ys = ap (◌∷◌ x.slot_id) (ids-append xs ys)

-- The slots of the list around one that is held.
pub count-ids :
    (i : ℕ) (pre post : List AcquiredSlot) (a : AcquiredSlot)
    → count i (ids (pre ++ (a ∷ post)))
      ≡ (if a.slot_id == i then 1 else 0) + count i (ids (pre ++ post))
count-ids i [] post a = refl
count-ids i (x ∷ xs) post a = omega (arith, count-ids i xs post a)

pub length-held :
    (pre post : List AcquiredSlot) (a : AcquiredSlot)
    → length (pre ++ (a ∷ post)) ≡ suc (length (pre ++ post))
length-held pre post a = omega (arith, length-append pre (a ∷ post), length-append pre post)

pub length-range : (k n : ℕ) → length (range k n) ≡ n
unfolding range
length-range k zero = refl
length-range k (suc n) = ap suc (length-range (suc k) n)

pub count-range : (i k n : ℕ) → count i (range k n) ≡ (if leb k i && ltb i (k + n) then 1 else 0)
unfolding range
count-range i k zero = ground arith
count-range i k (suc n) = ground (arith, count-range i (suc k) n)

pub length-bump : (i : ℕ) (xs : List ℕ) → length (bump i xs) ≡ length xs
unfolding bump
length-bump i [] = refl
length-bump zero (x ∷ xs) = refl
length-bump (suc i) (x ∷ xs) = ap suc (length-bump i xs)

pub start-Inv : (n : ℕ) → 0 < n → Inv n (start n)
unfolding start new
start-Inv n h = record {
  sized = length-replicate n 1;
  once = λ i. ground (arith, count-range i 0 n);
  whole = omega (arith, length-range 0 n);
  permitted = omega (arith, length-range 0 n);
  counted = refl;
  closing = ground arith;
  marked = λ i. refl;
  target = omega arith;
}

-- What `remove_first` takes out.
pub remove_first-count :
    (target : ℕ) (pool : List ℕ) (slot_id : ℕ) (left : List ℕ)
    → remove_first target pool ≡ some (slot_id, left)
    → (i : ℕ) → count i pool ≡ (if slot_id == i then 1 else 0) + count i left
unfolding remove_first
remove_first-count target [] s left h i = ground arith
remove_first-count target (x ∷ xs) s left h i = elim (Option-cases (remove_first target xs)) [
  | inl p ↦ ground (arith, p)
  | inr (found, p) ↦ ground (arith, p, remove_first-count target xs found.0 found.1 p i)
]

pub remove_first-length :
    (target : ℕ) (pool : List ℕ) (slot_id : ℕ) (left : List ℕ)
    → remove_first target pool ≡ some (slot_id, left)
    → length pool ≡ suc (length left)
unfolding remove_first
remove_first-length target [] s left h = ground arith
remove_first-length target (x ∷ xs) s left h = elim (Option-cases (remove_first target xs)) [
  | inl p ↦ ground (arith, p)
  | inr (found, p) ↦ ground (arith, p, remove_first-length target xs found.0 found.1 p)
]

pub get_elem?-below : (xs : List ℕ) (i : ℕ) → i < length xs → (x : ℕ) × (get_elem? xs i ≡ some x)
get_elem?-below [] i h = ground arith
get_elem?-below (x ∷ xs) zero h = (x, refl)
get_elem?-below (x ∷ xs) (suc i) h = get_elem?-below xs i (omega arith)
