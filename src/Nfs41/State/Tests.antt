-- ===== src/Nfs41/State/Tests.antt =====
-- Concrete inputs of the theorems on the table of open files.
use nfs_rs.Common.{◌≡◌, ◌⊎◌, refl, [], ◌∷◌, some, none, arith}
use nfs_rs.Nfs41.State.{
  StateId, anonymous, read, write, find, new, fence, register_open, get_stateid, has_open,
  close_succeeded,
}
use nfs_rs.Nfs41.State.Generation.{Reachable, starts, then_, fences, registers, stateid-current}
use nfs_rs.Nfs41.State.Lifecycle.{
  register_many, release_many, last_stateid, Active, release_many-register_many,
}

first_id : StateId
first_id = record { raw = 1 ∷ []; generation = 1 }

second_id : StateId
second_id = record { raw = 2 ∷ []; generation = 1 }

-- A file was opened, and the session changes.
changing : Reachable (fence 2 (register_open (7 ∷ []) first_id read new).1)
changing = then_ _ _ (then_ _ _ starts (registers (7 ∷ []) first_id read)) (fences 2)

stateid-current_example :
    ((get_stateid (7 ∷ []) (fence 2 (register_open (7 ∷ []) first_id read new).1) ≡ anonymous)
      ⊎ ((get_stateid (7 ∷ []) (fence 2 (register_open (7 ∷ []) first_id read new).1)).generation
          ≡ (fence 2 (register_open (7 ∷ []) first_id read new).1).active_generation))
    × ((has_open (7 ∷ []) read (fence 2 (register_open (7 ∷ []) first_id read new).1) ≡ none)
        ⊎ ((stateid : StateId) × (has_open
                (7 ∷ [])
                read
                (fence 2 (register_open (7 ∷ []) first_id read new).1)
              ≡ some stateid)
            × (stateid.generation
                ≡ (fence 2 (register_open (7 ∷ []) first_id read new).1).active_generation)))
stateid-current_example =
    stateid-current (fence 2 (register_open (7 ∷ []) first_id read new).1) (7 ∷ []) read changing

release_many-register_many_example :
    ((release_many 2
        (7 ∷ [])
        (register_many (7 ∷ []) ((first_id, read) ∷ (second_id, write) ∷ []) new)).0
      ≡ none ∷ some second_id ∷ [])
    × (find
          (7 ∷ [])
          (close_succeeded
            (7 ∷ [])
            second_id
            (release_many 2 (7 ∷ []) (
              register_many
                (7 ∷ [])
                ((first_id, read) ∷ (second_id, write) ∷ [])
                new)).1).open_files
        ≡ none)
unfolding last_stateid new Active first_id second_id find
release_many-register_many_example =
    release_many-register_many (7 ∷ []) first_id read ((second_id, write) ∷ []) new refl
      (refl, (refl, tt)) (omega arith)
