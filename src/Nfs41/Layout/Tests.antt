-- ===== src/Nfs41/Layout/Tests.antt =====
-- Concrete inputs of the theorems on layouts.
use nfs_rs.Common.{
  ℕ, List, All, ◌⊎◌, ◌≡◌, ◌≤◌, refl, true, false, [], ◌∷◌, none, some, min, max, arith,
}
use nfs_rs.Nfs41.Layout.Decode.{LayoutSegment, io_read, block_volume, opaque_content}
use nfs_rs.Nfs41.Layout.Merge.{Apart, Among, IsSorted, merge_segments, merge_segments-IsSorted}
use nfs_rs.Nfs41.Layout.Dirty.{
  DirtyRange, DirtyRanges, mark_dirty_at, snapshot_dirty, of_generation, acknowledge_dirty,
  acknowledge_dirty-mark_dirty_at, snapshot_dirty-mark_dirty_at, is_current, Hull,
}

abbrev written : DirtyRange
written = record { generation = 1; start = 100; end_ = 200; revision = 4 }

abbrev waiting : DirtyRanges
waiting = record {
  dirty = λ fh. some (record { generation = 1; start = 100; end_ = 200; revision = 4 });
  active_generation = 1;
}

acknowledge_dirty-mark_dirty_at_example :
    ((acknowledge_dirty (7 ∷ []) written (mark_dirty_at (7 ∷ []) 1 300 400 waiting).1).0 ≡ false)
    × ((left : DirtyRange) × (snapshot_dirty
            (7 ∷ [])
            (acknowledge_dirty (7 ∷ []) written (mark_dirty_at (7 ∷ []) 1 300 400 waiting).1).1
          ≡ some left)
        × (left.start ≤ min 100 300)
        × (max 200 400 ≤ left.end_))
unfolding snapshot_dirty of_generation
acknowledge_dirty-mark_dirty_at_example =
    acknowledge_dirty-mark_dirty_at (7 ∷ []) waiting written 300 400 refl (omega arith)

-- A range of generation 0 is left.
abbrev stale : DirtyRanges
stale = record {
  dirty = λ fh. some (record { generation = 0; start = 100; end_ = 200; revision = 4 });
  active_generation = 1;
}

snapshot_dirty-mark_dirty_at_example :
    let after = (mark_dirty_at (7 ∷ []) 1 300 400 stale).1 in
    ((mark_dirty_at (7 ∷ []) 1 300 400 stale).0 ≡ true)
    × (((is_current 1 (stale.dirty (7 ∷ [])) ≡ true)
          × ((range : DirtyRange) × (snapshot_dirty (7 ∷ []) after ≡ some range)
              × (range.generation ≡ 1)
              × (range.start ≤ 300)
              × (400 ≤ range.end_)
              × Hull (stale.dirty (7 ∷ [])) 300 400 range))
        ⊎ ((is_current 1 (stale.dirty (7 ∷ [])) ≡ false) × (snapshot_dirty (7 ∷ []) after ≡ none)))
snapshot_dirty-mark_dirty_at_example = snapshot_dirty-mark_dirty_at (7 ∷ []) stale 300 400

abbrev segment : ℕ → ℕ → LayoutSegment
segment start size = record {
  offset = start;
  length_ = size;
  iomode = io_read;
  layout_type = block_volume;
  content = opaque_content [];
}

abbrev old_segments : List LayoutSegment
old_segments = segment 0 100 ∷ segment 100 100 ∷ []

abbrev new_segments : List LayoutSegment
new_segments = segment 150 100 ∷ []

merge_segments-IsSorted_example :
    IsSorted (merge_segments old_segments new_segments)
    × All
        (λ s. Apart 160 s new_segments ⊎ Among s new_segments)
        (merge_segments old_segments new_segments)
merge_segments-IsSorted_example =
    merge_segments-IsSorted old_segments new_segments 160 (omega arith)
