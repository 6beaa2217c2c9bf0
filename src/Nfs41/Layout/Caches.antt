-- ===== src/Nfs41/Layout/Caches.antt =====
-- nfs41/layout.rs: the caches of LayoutManager, that is the layouts of files, the addresses of
-- devices and the data servers that did not answer. `Addr` is std::net::SocketAddr. Each operation
-- holds the locks that it takes to its end; transition_to takes them one after the other, and is
-- the steps `publish`, `clear_layouts`, `clear_devices` and `clear_unreachable`.
pub mod Devices
pub mod Fence
pub mod Merged
mod Tests
use nfs_rs.Common.{
  ℕ, ◌+◌, ◌%◌, ◌^◌, Bool, true, false, not, ◌&&◌, ◌||◌, List, [], ◌∷◌, ◌++◌, Option, none, some,
  ◌==◌, if◌then◌else◌,
}
use nfs_rs.Assoc.{Eq, text_eq, find, insert, remove, keep}
use nfs_rs.Nfs41.Layout.Decode.{Layout, LayoutSegment}
use nfs_rs.Nfs41.Layout.Merge.{any_covers, merge_segments}

pub record DeviceInfo (Addr : Type 0) : Type 0 where
  pub stripe_indices : List ℕ
  pub ds_addrs : List (List Addr)

pub record LayoutManager (Addr : Type 0) : Type 0 where
  pub layouts : List (List ℕ × Layout)
  pub device_cache : List (List ℕ × (ℕ × DeviceInfo Addr))
  pub device_revision : ℕ
  pub unreachable_ds : List Addr
  pub active_generation : ℕ

unfoldable pub flatten {ℓ} : {A : Type ℓ} → List (List A) → List A
flatten [] = []
flatten (xs ∷ xss) = xs ++ flatten xss

-- The generation of the entry that is there stays.
unfoldable pub merged : Layout → Layout → Layout
merged current update = record current {
  segments = merge_segments current.segments update.segments;
  stateid = update.stateid;
  return_on_close = current.return_on_close || update.return_on_close;
}

module _ {Addr : Type 0} where
  unfoldable pub new : LayoutManager Addr
  new = record {
    layouts = [];
    device_cache = [];
    device_revision = 0;
    unreachable_ds = [];
    active_generation = 1;
  }

  unfoldable pub store_layout_at :
      List ℕ → ℕ → Layout → LayoutManager Addr → Bool × LayoutManager Addr
  store_layout_at fh generation layout m =
      if generation == m.active_generation
      then (
        true,
        record m { layouts = insert fh (record layout { generation = generation }) m.layouts },
      )
      else (false, m)

  unfoldable pub get_layout : List ℕ → LayoutManager Addr → Option Layout
  get_layout fh m = elim (find fh m.layouts) [
    | none ↦ none
    | some layout ↦ if layout.generation == m.active_generation then some layout else none
  ]

  unfoldable pub get_layout_covering : List ℕ → ℕ → LayoutManager Addr → Option Layout
  unfolding get_layout any_covers
  get_layout_covering fh offset m = elim (get_layout fh m) [
    | none ↦ none
    | some layout ↦ if any_covers layout.segments offset then some layout else none
  ]

  unfoldable pub merge_layout : List ℕ → Layout → LayoutManager Addr → LayoutManager Addr
  unfolding merged
  merge_layout fh update m =
      if update.generation == m.active_generation
      then (elim (find fh m.layouts) [
        | none ↦ record m { layouts = insert fh update m.layouts }
        | some current ↦ record m { layouts = insert fh (merged current update) m.layouts }
      ])
      else m

  unfoldable pub remove_layout : List ℕ → LayoutManager Addr → Option Layout × LayoutManager Addr
  remove_layout fh m = (find fh m.layouts, record m { layouts = remove fh m.layouts })

  unfoldable pub invalidate_layout_segments : List ℕ → LayoutManager Addr → LayoutManager Addr
  invalidate_layout_segments fh m = elim (find fh m.layouts) [
    | none ↦ m
    | some layout ↦ record m { layouts = insert fh (record layout { segments = [] }) m.layouts }
  ]

  -- The compare of the generation and of the revision, under the lock of the cache.
  unfoldable pub store_device_if_current :
      List ℕ → ℕ → ℕ → DeviceInfo Addr → LayoutManager Addr → Bool × LayoutManager Addr
  store_device_if_current device_id generation revision info m =
      if not (generation == m.active_generation) || not (revision == m.device_revision)
      then (false, m)
      else (true, record m { device_cache = insert device_id (generation, info) m.device_cache })

  unfoldable pub get_device : List ℕ → LayoutManager Addr → Option (DeviceInfo Addr)
  get_device device_id m = elim (find device_id m.device_cache) [
    | none ↦ none
    | some (owner, info) ↦ if owner == m.active_generation then some info else none
  ]

  unfoldable pub clear_devices : LayoutManager Addr → LayoutManager Addr
  clear_devices m = record m {
    device_revision = (m.device_revision + 1) % 2 ^ 64;
    device_cache = [];
  }

  -- `clear`, which takes all locks before it clears.
  unfoldable pub clear : LayoutManager Addr → LayoutManager Addr
  unfolding clear_devices
  clear m = clear_devices (record m { layouts = [] })

  unfoldable pub publish : ℕ → LayoutManager Addr → LayoutManager Addr
  publish generation m = record m { active_generation = generation }

  unfoldable pub clear_layouts : LayoutManager Addr → LayoutManager Addr
  clear_layouts m = record m { layouts = [] }

  unfoldable pub clear_unreachable : LayoutManager Addr → LayoutManager Addr
  clear_unreachable m = record m { unreachable_ds = [] }

  unfoldable pub transition_to : ℕ → LayoutManager Addr → LayoutManager Addr
  unfolding publish clear_layouts clear_devices clear_unreachable
  transition_to generation m =
      clear_unreachable (clear_devices (clear_layouts (publish generation m)))

-- What the tasks that share the manager do, one after the other.
pub data Action (Addr : Type 0) : Type 0 where
  store : List ℕ → ℕ → Layout → Action Addr
  merge : List ℕ → Layout → Action Addr
  remove_file : List ℕ → Action Addr
  forget_segments : List ℕ → Action Addr
  store_device : List ℕ → ℕ → ℕ → DeviceInfo Addr → Action Addr
  invalidate : List ℕ → ℕ → Bool → Action Addr
  mark_unreachable : Addr → ℕ → Action Addr
  clear_all clear_files clear_addresses clear_marks : Action Addr
  move_to : ℕ → Action Addr

module _ {Addr : Type 0} ⦃e : Eq Addr⦄ where
  unfoldable pub contains : Addr → List Addr → Bool
  contains a [] = false
  contains a (b ∷ bs) = e.beq b a || contains a bs

  unfoldable pub is_ds_unreachable : Addr → LayoutManager Addr → Bool
  unfolding contains
  is_ds_unreachable a m = contains a m.unreachable_ds

  unfoldable pub mark_ds_unreachable_at : Addr → ℕ → LayoutManager Addr → Bool × LayoutManager Addr
  unfolding contains
  mark_ds_unreachable_at a generation m =
      if generation == m.active_generation
      then (
        true,
        if contains a m.unreachable_ds
            then m
            else record m { unreachable_ds = a ∷ m.unreachable_ds },
      )
      else (false, m)

  unfoldable pub remove_all : List Addr → List Addr → List Addr
  unfolding keep
  remove_all [] set = set
  remove_all (a ∷ rest) set = remove_all rest (keep (λ b. not (e.beq b a)) set)

  unfoldable pub invalidate_device : List ℕ → ℕ → Bool → LayoutManager Addr → LayoutManager Addr
  unfolding remove_all flatten
  invalidate_device device_id generation notified m =
      if generation == m.active_generation
      then (elim (find device_id m.device_cache) [
        | none ↦ record m { device_revision = (m.device_revision + 1) % 2 ^ 64 }
        | some (owner, info) ↦ record m {
          device_revision = (m.device_revision + 1) % 2 ^ 64;
          device_cache = remove device_id m.device_cache;
          unreachable_ds =
              if notified
              then remove_all (flatten info.ds_addrs) m.unreachable_ds
              else m.unreachable_ds;
        }
      ])
      else m

  unfoldable pub act : Action Addr → LayoutManager Addr → LayoutManager Addr
  unfolding store_layout_at merge_layout remove_layout invalidate_layout_segments
      store_device_if_current invalidate_device mark_ds_unreachable_at clear publish clear_layouts
      clear_devices clear_unreachable
  act (store fh generation layout) m = (store_layout_at fh generation layout m).1
  act (merge fh update) m = merge_layout fh update m
  act (remove_file fh) m = (remove_layout fh m).1
  act (forget_segments fh) m = invalidate_layout_segments fh m
  act (store_device device_id generation revision info) m =
      (store_device_if_current device_id generation revision info m).1
  act (invalidate device_id generation notified) m =
      invalidate_device device_id generation notified m
  act (mark_unreachable a generation) m = (mark_ds_unreachable_at a generation m).1
  act clear_all m = clear m
  act clear_files m = clear_layouts m
  act clear_addresses m = clear_devices m
  act clear_marks m = clear_unreachable m
  act (move_to generation) m = publish generation m

  unfoldable pub run : List (Action Addr) → LayoutManager Addr → LayoutManager Addr
  unfolding act
  run [] m = m
  run (a ∷ rest) m = run rest (act a m)
