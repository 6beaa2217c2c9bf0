-- ===== src/Nfs41/Layout/Caches/Fence.antt =====
-- The generation as a fence around what was stored under an older one, with a transition_to that is
-- cancelled before it has cleared the caches.
use nfs_rs.Common.{
  ℕ, ◌≤◌, ◌<◌, ◌≡◌, refl, Bool, false, List, [], ◌∷◌, none, ◌==◌, All, All-imp, arith, Bool-cases,
  Option-cases, inl, inr,
}
use nfs_rs.Assoc.{Eq, text_eq, find, insert, find-All, insert-All, remove-All}
use nfs_rs.Nfs41.Layout.Decode.{Layout}
use nfs_rs.Nfs41.Layout.Caches.{
  DeviceInfo, LayoutManager, Action, store, merge, remove_file, forget_segments, store_device,
  invalidate, mark_unreachable, clear_all, clear_files, clear_addresses, clear_marks, move_to, act,
  run, new, publish, get_layout, get_device, merged, merge_layout, store_layout_at, remove_layout,
  invalidate_layout_segments, store_device_if_current, invalidate_device, mark_ds_unreachable_at,
  clear, clear_layouts, clear_devices, clear_unreachable, contains,
}

module _ {Addr : Type 0} where
  -- No entry is of a later generation than the one that is active.
  pub record IsPast (m : LayoutManager Addr) : Type 0 where
    pub files : All (λ entry. entry.1.generation ≤ m.active_generation) m.layouts
    pub devices : All (λ entry. entry.1.0 ≤ m.active_generation) m.device_cache

  new-IsPast : IsPast new
  unfolding new
  new-IsPast = record { files = tt; devices = tt }

module _ {Addr : Type 0} ⦃e : Eq Addr⦄ where
  -- A session that is set up anew has a later generation than the one before.
  unfoldable pub IsRising : List (Action Addr) → LayoutManager Addr → Type 0
  unfolding act
  IsRising [] m = Unit {0}
  IsRising (move_to generation ∷ rest) m =
      (m.active_generation < generation) × IsRising rest (publish generation m)
  IsRising (a ∷ rest) m = IsRising rest (act a m)

  store-IsPast :
      (fh : List ℕ) (layout : Layout) (m : LayoutManager Addr)
      → layout.generation ≤ m.active_generation
      → IsPast m
      → IsPast (record m { layouts = insert fh layout m.layouts })
  store-IsPast fh layout m h p = record {
    files = insert-All (λ l. l.generation ≤ m.active_generation) fh layout m.layouts h p.files;
    devices = p.devices;
  }

  merge_layout-IsPast :
      (fh : List ℕ) (update : Layout) (m : LayoutManager Addr)
      → IsPast m
      → IsPast (merge_layout fh update m)
  unfolding merge_layout merged
  merge_layout-IsPast fh update m p = elim (Bool-cases (update.generation == m.active_generation)) [
    | inl t ↦ elim (Option-cases (find fh m.layouts)) [
      | inl gone ↦ rw (t, gone) (store-IsPast fh update m (ground (arith, t)) p)
      | inr (l, hit) ↦
          rw (t, hit)
            (store-IsPast fh (merged l update) m
              (find-All (λ l. l.generation ≤ m.active_generation) fh m.layouts p.files hit) p)
    ]
    | inr f ↦ rw f p
  ]

  forget_segments-IsPast :
      (fh : List ℕ) (m : LayoutManager Addr) → IsPast m → IsPast (invalidate_layout_segments fh m)
  unfolding invalidate_layout_segments
  forget_segments-IsPast fh m p = elim (Option-cases (find fh m.layouts)) [
    | inl gone ↦ rw (gone, invalidate_layout_segments) p
    | inr (l, hit) ↦
        rw (hit, invalidate_layout_segments)
          (store-IsPast fh (record l { segments = [] }) m
            (find-All (λ l. l.generation ≤ m.active_generation) fh m.layouts p.files hit) p)
  ]

  store_layout_at-IsPast :
      (fh : List ℕ) (generation : ℕ) (layout : Layout) (m : LayoutManager Addr)
      → IsPast m
      → IsPast (store_layout_at fh generation layout m).1
  unfolding store_layout_at
  store_layout_at-IsPast fh generation layout m p =
      elim (Bool-cases (generation == m.active_generation)) [
        | inl t ↦
            rw t
              (store-IsPast fh (record layout { generation = generation }) m (ground (arith, t)) p)
        | inr f ↦ rw f p
      ]

  store_device-IsPast :
      (device : List ℕ) (generation revision : ℕ) (info : DeviceInfo Addr) (m : LayoutManager Addr)
      → IsPast m
      → IsPast (store_device_if_current device generation revision info m).1
  unfolding store_device_if_current
  store_device-IsPast device generation revision info m p =
      elim (Bool-cases (generation == m.active_generation)) [
        | inl t ↦ elim (Bool-cases (revision == m.device_revision)) [
          | inl u ↦
              rw (t, u)
                (record {
                  files = p.files;
                  devices =
                      insert-All (λ d. d.0 ≤ m.active_generation) device (generation, info)
                        m.device_cache (ground (arith, t)) p.devices;
                })
          | inr f ↦ rw (t, f) p
        ]
        | inr f ↦ rw f p
      ]

  invalidate_device-IsPast :
      (device : List ℕ) (generation : ℕ) (notified : Bool) (m : LayoutManager Addr)
      → IsPast m
      → IsPast (invalidate_device device generation notified m)
  unfolding invalidate_device
  invalidate_device-IsPast device generation notified m p =
      elim (Bool-cases (generation == m.active_generation)) [
        | inl t ↦ elim (Option-cases (find device m.device_cache)) [
          | inl gone ↦ rw (t, gone) (record { files = p.files; devices = p.devices })
          | inr (d, hit) ↦
              rw (t, hit)
                (record {
                  files = p.files;
                  devices =
                      remove-All (λ d. d.0 ≤ m.active_generation) device m.device_cache p.devices;
                })
        ]
        | inr f ↦ rw f p
      ]

  mark-IsPast :
      (a : Addr) (generation : ℕ) (m : LayoutManager Addr)
      → IsPast m
      → IsPast (mark_ds_unreachable_at a generation m).1
  unfolding mark_ds_unreachable_at
  mark-IsPast a generation m p = elim (Bool-cases (generation == m.active_generation)) [
    | inl t ↦ elim (Bool-cases (contains a m.unreachable_ds)) [
      | inl u ↦ rw (t, u) p
      | inr n ↦ rw (t, n) (record { files = p.files; devices = p.devices })
    ]
    | inr f ↦ rw f p
  ]

  publish-IsPast :
      (generation : ℕ) (m : LayoutManager Addr)
      → m.active_generation ≤ generation
      → IsPast m
      → IsPast (publish generation m)
  unfolding publish
  publish-IsPast generation m h p = record {
    files = All-imp _ _ (λ entry low. omega (arith, low, h)) m.layouts p.files;
    devices = All-imp _ _ (λ entry low. omega (arith, low, h)) m.device_cache p.devices;
  }

  run-IsPast :
      (actions : List (Action Addr)) (m : LayoutManager Addr)
      → IsRising actions m
      → IsPast m
      → IsPast (run actions m)
  unfolding run act IsRising remove_layout clear clear_layouts clear_devices clear_unreachable
  run-IsPast [] m rising p = p
  run-IsPast (store fh generation layout ∷ rest) m rising p =
      run-IsPast rest (store_layout_at fh generation layout m).1 rising
        (store_layout_at-IsPast fh generation layout m p)
  run-IsPast (merge fh update ∷ rest) m rising p =
      run-IsPast rest (merge_layout fh update m) rising (merge_layout-IsPast fh update m p)
  run-IsPast (remove_file fh ∷ rest) m rising p =
      run-IsPast rest (remove_layout fh m).1 rising (record {
        files = remove-All (λ l. l.generation ≤ m.active_generation) fh m.layouts p.files;
        devices = p.devices;
      })
  run-IsPast (forget_segments fh ∷ rest) m rising p =
      run-IsPast rest (invalidate_layout_segments fh m) rising (forget_segments-IsPast fh m p)
  run-IsPast (store_device device generation revision info ∷ rest) m rising p =
      run-IsPast rest (store_device_if_current device generation revision info m).1 rising
        (store_device-IsPast device generation revision info m p)
  run-IsPast (invalidate device generation notified ∷ rest) m rising p =
      run-IsPast rest (invalidate_device device generation notified m) rising
        (invalidate_device-IsPast device generation notified m p)
  run-IsPast (mark_unreachable a generation ∷ rest) m rising p =
      run-IsPast rest (mark_ds_unreachable_at a generation m).1 rising
        (mark-IsPast a generation m p)
  run-IsPast (clear_all ∷ rest) m rising p =
      run-IsPast rest (clear m) rising (record { files = tt; devices = tt })
  run-IsPast (clear_files ∷ rest) m rising p =
      run-IsPast rest (clear_layouts m) rising (record { files = tt; devices = p.devices })
  run-IsPast (clear_addresses ∷ rest) m rising p =
      run-IsPast rest (clear_devices m) rising (record { files = p.files; devices = tt })
  run-IsPast (clear_marks ∷ rest) m rising p =
      run-IsPast rest (clear_unreachable m) rising (record { files = p.files; devices = p.devices })
  run-IsPast (move_to generation ∷ rest) m rising p =
      run-IsPast rest (publish generation m) rising.1
        (publish-IsPast generation m (omega (arith, rising.0)) p)

  no_layout :
      (fh : List ℕ) (generation : ℕ) (m : LayoutManager Addr)
      → m.active_generation < generation
      → IsPast m
      → get_layout fh (publish generation m) ≡ none
  unfolding get_layout publish
  no_layout fh generation m later p = elim (Option-cases (find fh m.layouts)) [
    | inl gone ↦ rw (gone, get_layout) refl
    | inr (l, hit) ↦
        (let low : l.generation ≤ m.active_generation =
            find-All (λ l. l.generation ≤ m.active_generation) fh m.layouts p.files hit in
          let other : (l.generation == generation) ≡ false = ground (arith, low, later) in
          rw (hit, get_layout, other) refl)
  ]

  no_device :
      (device : List ℕ) (generation : ℕ) (m : LayoutManager Addr)
      → m.active_generation < generation
      → IsPast m
      → get_device device (publish generation m) ≡ none
  unfolding get_device publish
  no_device device generation m later p = elim (Option-cases (find device m.device_cache)) [
    | inl gone ↦ rw (gone, get_device) refl
    | inr ((owner, info), hit) ↦
        (let low : owner ≤ m.active_generation =
            find-All (λ d. d.0 ≤ m.active_generation) device m.device_cache p.devices hit in
          let other : (owner == generation) ≡ false = ground (arith, low, later) in
          rw (hit, get_device, other) refl)
  ]

  -- As soon as a later generation is published, and before transition_to has cleared anything, no
  -- layout and no device of a generation before is found, whatever the tasks did from a new manager
  -- on, transitions that were cancelled half way included.
  pub publish-fences :
      (actions : List (Action Addr)) (generation : ℕ) (fh device : List ℕ)
      → IsRising actions new
      → (run actions new).active_generation < generation
      → (get_layout fh (publish generation (run actions new)) ≡ none)
        × (get_device device (publish generation (run actions new)) ≡ none)
  publish-fences actions generation fh device rising later =
      let p = run-IsPast actions new rising new-IsPast in
      (
        no_layout fh generation (run actions new) later p,
        no_device device generation (run actions new) later p,
      )
