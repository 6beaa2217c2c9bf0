-- ===== src/Nfs41/Layout/Dirty.antt =====
-- nfs41/layout.rs: the dirty ranges. The map from file handles is a function; the lock makes each
-- call one step.
use nfs_rs.Common.{
  ℕ, ◌+◌, ◌%◌, ◌^◌, ◌≤◌, ◌<◌, ◌≡◌, refl, Bool, true, false, ◌&&◌, List, Option, none, some, min,
  max, ◌==◌, bytes_eq, bytes_eq_self, if◌then◌else◌, arith, ==_self, ap, sym, ◌∙◌, ◌⊎◌, inl, inr,
  Bool-cases,
}

pub record DirtyRange : Type 0 where
  pub generation : ℕ
  pub start : ℕ
  pub end_ : ℕ
  pub revision : ℕ

pub record DirtyRanges : Type 0 where
  pub dirty : List ℕ → Option DirtyRange
  pub active_generation : ℕ

set : List ℕ → Option DirtyRange → (List ℕ → Option DirtyRange) → List ℕ → Option DirtyRange
set fh range dirty key = if bytes_eq key fh then range else dirty key

-- `and_modify(..).or_insert(..)`; the revision wraps.
pub marked : ℕ → ℕ → ℕ → Option DirtyRange → DirtyRange
marked generation start end_ none = record {
  generation = generation;
  start = start;
  end_ = end_;
  revision = 0;
}
marked generation start end_ (some range) = record range {
  start = min range.start start;
  end_ = max range.end_ end_;
  revision = (range.revision + 1) % 2 ^ 64;
}

pub mark_dirty_at : List ℕ → ℕ → ℕ → ℕ → DirtyRanges → Bool × DirtyRanges
unfolding marked set
mark_dirty_at fh generation start end_ d =
    if generation == d.active_generation
    then (
      true,
      record d { dirty = set fh (some (marked generation start end_ (d.dirty fh))) d.dirty },
    )
    else (false, d)

-- `filter(|range| range.generation == active)`.
unfoldable pub of_generation : ℕ → Option DirtyRange → Option DirtyRange
of_generation active none = none
of_generation active (some range) = if range.generation == active then some range else none

unfoldable pub snapshot_dirty : List ℕ → DirtyRanges → Option DirtyRange
snapshot_dirty fh d = of_generation d.active_generation (d.dirty fh)

range_eq : DirtyRange → DirtyRange → Bool
range_eq a b =
    a.generation == b.generation
    && (a.start == b.start && (a.end_ == b.end_ && a.revision == b.revision))

is_range : Option DirtyRange → DirtyRange → Bool
unfolding range_eq
is_range none committed = false
is_range (some current) committed = range_eq current committed

pub acknowledge_dirty : List ℕ → DirtyRange → DirtyRanges → Bool × DirtyRanges
unfolding is_range set
acknowledge_dirty fh committed d =
    if is_range (d.dirty fh) committed && committed.generation == d.active_generation
    then (true, record d { dirty = set fh none d.dirty })
    else (false, d)

set_same :
    (fh : List ℕ) (o : Option DirtyRange) (dirty : List ℕ → Option DirtyRange)
    → set fh o dirty fh ≡ o
unfolding set
set_same fh o dirty = rw (bytes_eq_self fh) refl

set_other :
    (fh other : List ℕ) (o : Option DirtyRange) (dirty : List ℕ → Option DirtyRange)
    → bytes_eq other fh ≡ false
    → set fh o dirty other ≡ dirty other
unfolding set
set_other fh other o dirty apart = rw apart refl

snapshot-some :
    (fh : List ℕ) (d : DirtyRanges) (range : DirtyRange)
    → snapshot_dirty fh d ≡ some range
    → (d.dirty fh ≡ some range) × (range.generation ≡ d.active_generation)
unfolding snapshot_dirty
snapshot-some fh d range h = go (d.dirty fh) h
  where
    go :
        (o : Option DirtyRange)
        → of_generation d.active_generation o ≡ some range
        → (o ≡ some range) × (range.generation ≡ d.active_generation)
    go none e = unfold of_generation in ground (arith, e)
    go (some r) e = unfold of_generation in ground (arith, e)

mark_dirty_at-range :
    (fh : List ℕ) (d : DirtyRanges) (range : DirtyRange) (start end_ : ℕ)
    → d.dirty fh ≡ some range
    → ((mark_dirty_at fh d.active_generation start end_ d).1.dirty fh
        ≡ some (marked d.active_generation start end_ (some range)))
      × ((mark_dirty_at fh d.active_generation start end_ d).1.active_generation
          ≡ d.active_generation)
unfolding mark_dirty_at
mark_dirty_at-range fh d range start end_ e =
    rw (==_self d.active_generation)
      (set_same fh _ d.dirty ∙ ap (λ o. some (marked d.active_generation start end_ o)) e, refl)

range_eq-marked :
    (generation start end_ : ℕ) (range : DirtyRange)
    → range.revision < 2 ^ 64
    → range_eq (marked generation start end_ (some range)) range ≡ false
unfolding range_eq marked
range_eq-marked generation start end_ range fits = ground arith

range_eq_self : (range : DirtyRange) → range_eq range range ≡ true
unfolding range_eq
range_eq_self range = ground arith

acknowledge_dirty-changed :
    (fh : List ℕ) (committed : DirtyRange) (d : DirtyRanges) (current : DirtyRange)
    → d.dirty fh ≡ some current
    → range_eq current committed ≡ false
    → acknowledge_dirty fh committed d ≡ (false, d)
unfolding acknowledge_dirty is_range
acknowledge_dirty-changed fh committed d current e h = rw (e, is_range, h) refl

acknowledge_dirty-same :
    (fh : List ℕ) (committed : DirtyRange) (d : DirtyRanges)
    → d.dirty fh ≡ some committed
    → committed.generation ≡ d.active_generation
    → acknowledge_dirty fh committed d ≡ (true, record d { dirty = set fh none d.dirty })
unfolding acknowledge_dirty is_range
acknowledge_dirty-same fh committed d e g =
    rw (e, is_range, range_eq_self committed, g, ==_self d.active_generation) refl

snapshot_dirty-there :
    (fh : List ℕ) (d : DirtyRanges) (range : DirtyRange)
    → d.dirty fh ≡ some range
    → range.generation ≡ d.active_generation
    → snapshot_dirty fh d ≡ some range
unfolding snapshot_dirty
snapshot_dirty-there fh d range e g =
    ap (of_generation d.active_generation) e
    ∙ unfold of_generation in (rw (g, ==_self d.active_generation) refl)

-- A WRITE of the active generation that comes between the snapshot of a range and the
-- acknowledgement of its LAYOUTCOMMIT is not lost: the acknowledgement fails, and the range that
-- waits holds the one of the snapshot and that of the WRITE. The snapshot's revision is a u64.
pub acknowledge_dirty-mark_dirty_at :
    (fh : List ℕ) (d : DirtyRanges) (range : DirtyRange) (start end_ : ℕ)
    → snapshot_dirty fh d ≡ some range
    → range.revision < 2 ^ 64
    → ((acknowledge_dirty fh range (mark_dirty_at fh d.active_generation start end_ d).1).0 ≡ false)
      × ((left : DirtyRange) × (snapshot_dirty fh
              (acknowledge_dirty fh range (mark_dirty_at fh d.active_generation start end_ d).1).1
            ≡ some left)
          × (left.start ≤ min range.start start)
          × (max range.end_ end_ ≤ left.end_))
acknowledge_dirty-mark_dirty_at fh d range start end_ h fits =
    let (e, g) = snapshot-some fh d range h in
    let (there, active) = mark_dirty_at-range fh d range start end_ e in
    let kept =
      acknowledge_dirty-changed fh range _ _ there
        (range_eq-marked d.active_generation start end_ range fits) in
    (
      ap (λ r. r.0) kept,
      (
        marked d.active_generation start end_ (some range),
        ap (λ r. snapshot_dirty fh r.1) kept
            ∙ snapshot_dirty-there fh _ _ there (unfold marked in (g ∙ sym active)),
        unfold marked in omega arith,
        unfold marked in omega arith,
      ),
    )

-- With no WRITE between the snapshot of a range and the acknowledgement of its LAYOUTCOMMIT, the
-- acknowledgement succeeds, nothing waits for the file any more, and another file keeps its range.
pub acknowledge_dirty-snapshot_dirty :
    (fh other : List ℕ) (d : DirtyRanges) (range : DirtyRange)
    → snapshot_dirty fh d ≡ some range
    → bytes_eq other fh ≡ false
    → ((acknowledge_dirty fh range d).0 ≡ true)
      × (snapshot_dirty fh (acknowledge_dirty fh range d).1 ≡ none)
      × (snapshot_dirty other (acknowledge_dirty fh range d).1 ≡ snapshot_dirty other d)
unfolding snapshot_dirty
acknowledge_dirty-snapshot_dirty fh other d range h apart =
    let (e, g) = snapshot-some fh d range h in
    let gone = acknowledge_dirty-same fh range d e g in
    (
      ap (λ r. r.0) gone,
      ap (λ r. snapshot_dirty fh r.1) gone
          ∙ ap (of_generation d.active_generation) (set_same fh none d.dirty)
          ∙ unfold of_generation in refl,
      ap (λ r. snapshot_dirty other r.1) gone
          ∙ ap (of_generation d.active_generation) (set_other fh other none d.dirty apart),
    )

-- Whether a range that waits belongs to the active generation; there may be none.
unfoldable pub is_current : ℕ → Option DirtyRange → Bool
is_current active none = true
is_current active (some range) = range.generation == active

-- The smallest range that holds a WRITE and what waited before it.
pub Hull : Option DirtyRange → ℕ → ℕ → DirtyRange → Type 0
Hull none start end_ range = (range.start ≡ start) × (range.end_ ≡ end_)
Hull (some old) start end_ range =
    (range.start ≡ min old.start start) × (range.end_ ≡ max old.end_ end_)

-- A WRITE of the active generation is always accepted. Where no range waits for the file, or one
-- of the active generation, the next snapshot gives a range of that generation that holds the WRITE
-- and what waited before it, and no more than the smallest such range. Where a range of another
-- generation is left, it gives none, so the WRITE waits for no LAYOUTCOMMIT.
pub snapshot_dirty-mark_dirty_at :
    (fh : List ℕ) (d : DirtyRanges) (start end_ : ℕ)
    → let after = (mark_dirty_at fh d.active_generation start end_ d).1 in
      ((mark_dirty_at fh d.active_generation start end_ d).0 ≡ true)
      × (((is_current d.active_generation (d.dirty fh) ≡ true)
            × ((range : DirtyRange) × (snapshot_dirty fh after ≡ some range)
                × (range.generation ≡ d.active_generation)
                × (range.start ≤ start)
                × (end_ ≤ range.end_)
                × Hull (d.dirty fh) start end_ range))
          ⊎ ((is_current d.active_generation (d.dirty fh) ≡ false)
              × (snapshot_dirty fh after ≡ none)))
unfolding mark_dirty_at snapshot_dirty
snapshot_dirty-mark_dirty_at fh d start end_ = rw (==_self d.active_generation) (
  refl,
  rw (set_same fh (some (marked d.active_generation start end_ (d.dirty fh))) d.dirty)
      (by_range (d.dirty fh)),
)
  where
    by_range :
        (o : Option DirtyRange)
        → ((is_current d.active_generation o ≡ true)
            × ((range : DirtyRange) × (of_generation d.active_generation
                    (some (marked d.active_generation start end_ o))
                  ≡ some range)
                × (range.generation ≡ d.active_generation)
                × (range.start ≤ start)
                × (end_ ≤ range.end_)
                × Hull o start end_ range))
          ⊎ ((is_current d.active_generation o ≡ false)
              × (of_generation d.active_generation (some (marked d.active_generation start end_ o))
                  ≡ none))
    by_range none =
        unfold of_generation in
        unfold is_current in
        unfold marked in
        unfold Hull in
        (rw (==_self d.active_generation)
          (inl (refl, (_, refl, refl, omega arith, omega arith, (refl, refl)))))
    by_range (some r) =
        unfold of_generation in
        unfold is_current in
        unfold marked in
        unfold Hull in
        (elim (Bool-cases (r.generation == d.active_generation)) [
          | inl t ↦
              rw t
                (inl (refl, (_, refl, ground (arith, t), omega arith, omega arith, (refl, refl))))
          | inr f ↦ rw f (inr (refl, refl))
        ])
