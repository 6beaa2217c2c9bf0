-- ===== src/Nfs41/Layout/Caches/Merged.antt =====
-- A LAYOUTGET that is merged into the layout of its file, and the lookup behind it.
use nfs_rs.Common.{
  ℕ, ◌≡◌, refl, Bool, true, false, not, List, Option, none, some, ◌==◌, if◌then◌else◌, arith,
  Bool-cases, Option-cases, inl, inr,
}
use nfs_rs.Assoc.{text_eq, find, insert, find-insert, beq_self}
use nfs_rs.Nfs41.Layout.Decode.{Layout}
use nfs_rs.Nfs41.Layout.Merge.{any_covers, any_covers-merge_segments}
use nfs_rs.Nfs41.Layout.Caches.{
  LayoutManager, get_layout, get_layout_covering, merged, merge_layout,
}

unfoldable pub stateid_of : Option Layout → Option (List ℕ)
stateid_of none = none
stateid_of (some layout) = some layout.stateid

module _ {Addr : Type 0} where
  -- The entry of a file is of a generation that is not active.
  unfoldable pub is_stale : List ℕ → LayoutManager Addr → Bool
  is_stale fh m = elim (find fh m.layouts) [
    | none ↦ false
    | some layout ↦ not (layout.generation == m.active_generation)
  ]

  -- The lookup after an entry is put in.
  get_layout_covering-insert :
      (fh : List ℕ) (o : ℕ) (layout : Layout) (m : LayoutManager Addr)
      → any_covers layout.segments o ≡ true
      → get_layout_covering fh o (record m { layouts = insert fh layout m.layouts })
        ≡ (if layout.generation == m.active_generation then some layout else none)
  unfolding get_layout_covering get_layout
  get_layout_covering-insert fh o layout m h =
      let same : find fh (insert fh layout m.layouts) ≡ some layout =
        rw (find-insert fh fh layout m.layouts, beq_self fh) refl in
      elim (Bool-cases (layout.generation == m.active_generation)) [
        | inl t ↦ rw (same, get_layout_covering, get_layout, t, h) refl
        | inr f ↦ rw (same, get_layout_covering, get_layout, f) refl
      ]

  -- After a LAYOUTGET of the active generation that covers an offset, the lookup for that offset
  -- finds a layout with the new stateid, except where an entry of another generation was left for
  -- the file: then it finds none.
  pub get_layout_covering-merge_layout :
      (fh : List ℕ) (o : ℕ) (update : Layout) (m : LayoutManager Addr)
      → update.generation ≡ m.active_generation
      → any_covers update.segments o ≡ true
      → stateid_of (get_layout_covering fh o (merge_layout fh update m))
        ≡ (if is_stale fh m then none else some update.stateid)
  unfolding merge_layout is_stale merged stateid_of
  get_layout_covering-merge_layout fh o update m same covered =
      let active : (update.generation == m.active_generation) ≡ true = ground (arith, same) in
      elim (Option-cases (find fh m.layouts)) [
        | inl gone ↦
            rw
              (
                active,
                merge_layout,
                gone,
                get_layout_covering-insert fh o update m covered,
                active,
                is_stale,
              )
              refl
        | inr (l, hit) ↦
            (let wide : any_covers (merged l update).segments o ≡ true =
                any_covers-merge_segments l.segments update.segments o covered in
              elim (Bool-cases (l.generation == m.active_generation)) [
                | inl t ↦
                    rw
                      (
                        active,
                        merge_layout,
                        hit,
                        get_layout_covering-insert fh o (merged l update) m wide,
                        t,
                        is_stale,
                      )
                      refl
                | inr f ↦
                    rw
                      (
                        active,
                        merge_layout,
                        hit,
                        get_layout_covering-insert fh o (merged l update) m wide,
                        f,
                        is_stale,
                      )
                      refl
              ])
      ]
