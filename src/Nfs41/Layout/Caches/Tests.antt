-- ===== src/Nfs41/Layout/Caches/Tests.antt =====
-- Concrete inputs of the theorems on the caches.
use nfs_rs.Common.{ℕ, List, true, false, some, none, ◌≡◌, refl, [], ◌∷◌, ◌++◌, arith, if◌then◌else◌}
use nfs_rs.Assoc.{nat_eq}
use nfs_rs.Nfs41.Layout.Decode.{Layout, io_read, block_volume, opaque_content}
use nfs_rs.Nfs41.Layout.Merge.{any_covers, covers}
use nfs_rs.Nfs41.Layout.Caches.{
  DeviceInfo, LayoutManager, Action, store, store_device, invalidate, mark_unreachable, move_to,
  clear_files, new, run, act, get_layout, get_device, publish, store_device_if_current,
  get_layout_covering, merge_layout,
}
use nfs_rs.Nfs41.Layout.Caches.Devices.{store_device_if_current-stale}
use nfs_rs.Nfs41.Layout.Caches.Fence.{IsRising, publish-fences}
use nfs_rs.Nfs41.Layout.Caches.Merged.{is_stale, stateid_of, get_layout_covering-merge_layout}

abbrev two_servers : DeviceInfo ℕ
two_servers = record { stripe_indices = 0 ∷ 1 ∷ []; ds_addrs = (10 ∷ []) ∷ (11 ∷ 12 ∷ []) ∷ [] }

abbrev whole_file : ℕ → List ℕ → Layout
whole_file generation stateid = record {
  generation = generation;
  stateid = stateid;
  return_on_close = false;
  segments =
      record {
        offset = 0;
        length_ = 4096;
        iomode = io_read;
        layout_type = block_volume;
        content = opaque_content (1 ∷ []);
      }
      ∷ [];
}

store_device_if_current-stale_example :
    let now =
      run
        ((store_device (7 ∷ []) 1 0 two_servers ∷ [])
          ++ (invalidate (7 ∷ []) 1 true ∷ (mark_unreachable 10 1 ∷ [])))
        new in
    store_device_if_current (8 ∷ []) 1 0 two_servers now ≡ (false, now)
unfolding run act new
store_device_if_current-stale_example =
    store_device_if_current-stale new (store_device (7 ∷ []) 1 0 two_servers ∷ [])
      (mark_unreachable 10 1 ∷ []) (8 ∷ []) (7 ∷ []) 1 true two_servers (omega arith) (omega arith)

-- The second transition was cancelled after it had cleared the layouts.
abbrev cancelled_transition : List (Action ℕ)
cancelled_transition =
    store (3 ∷ []) 1 (whole_file 1 (9 ∷ []))
    ∷ move_to 2
    ∷ clear_files
    ∷ store (3 ∷ []) 2 (whole_file 2 (9 ∷ []))
    ∷ store_device (7 ∷ []) 2 0 two_servers
    ∷ []

publish-fences_example :
    (get_layout (3 ∷ []) (publish 3 (run cancelled_transition new)) ≡ none)
    × (get_device (7 ∷ []) (publish 3 (run cancelled_transition new)) ≡ none)
unfolding run act new IsRising publish
publish-fences_example =
    publish-fences cancelled_transition 3 (3 ∷ []) (7 ∷ []) (omega arith, tt) (omega arith)

-- A layout of generation 1 is left, and generation 2 is active.
abbrev left_layout : LayoutManager ℕ
left_layout = record {
  layouts = (3 ∷ [], whole_file 1 (9 ∷ [])) ∷ [];
  device_cache = [];
  device_revision = 0;
  unreachable_ds = [];
  active_generation = 2;
}

get_layout_covering-merge_layout_example :
    stateid_of
      (get_layout_covering (3 ∷ []) 5 (merge_layout (3 ∷ []) (whole_file 2 (8 ∷ [])) left_layout))
    ≡ (if is_stale (3 ∷ []) left_layout then none else some (8 ∷ []))
unfolding any_covers covers
get_layout_covering-merge_layout_example =
    get_layout_covering-merge_layout (3 ∷ []) 5 (whole_file 2 (8 ∷ [])) left_layout refl refl
