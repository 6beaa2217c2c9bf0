-- ===== src/Nfs41/State/Generation.antt =====
-- A stateid of an older session never reaches a request.
use nfs_rs.Common.{
  ℕ, ◌≡◌, refl, List, [], ◌∷◌, Option, none, some, ◌⊎◌, inl, inr, arith, ltb, ◌==◌, ◌&&◌, bytes_eq,
  Bool-cases, Option-cases, All,
}
use nfs_rs.Nfs41.State.{
  AccessMode, StateId, anonymous, OpenState, OpenFiles, find, insert, remove, StateManager, new,
  fence, clear, get_stateid, reopened, register_open, released, release, close_succeeded, drain,
  has_open, stateid_eq, covers,
}

-- One step of a task that shares the table.
pub data Step (m : StateManager) : StateManager → Type 0 where
  fences : (generation : ℕ) → Step m (fence generation m)
  clears : Step m (clear m)
  registers :
      (fh : List ℕ) (stateid : StateId) (access : AccessMode)
      → Step m (register_open fh stateid access m).1
  releases : (fh : List ℕ) → Step m (release fh m).1
  closes : (fh : List ℕ) (stateid : StateId) → Step m (close_succeeded fh stateid m)
  drains : Step m (drain m).1

pub data Reachable : StateManager → Type 0 where
  starts : Reachable new
  then_ : (m k : StateManager) → Reachable m → Step m k → Reachable k

-- An entry is as old as its stateid.
abbrev pub Dated : List ℕ × OpenState → Type 0
Dated entry = entry.1.generation ≡ entry.1.stateid.generation

find-Dated :
    (fh : List ℕ) (files : OpenFiles) (state : OpenState)
    → All Dated files
    → find fh files ≡ some state
    → state.generation ≡ state.stateid.generation
unfolding find
find-Dated fh [] state h e = ground arith
find-Dated fh ((key, s) ∷ files) state h e = ground (arith, find-Dated fh files state h.1, h.0, e)

insert-Dated :
    (fh : List ℕ) (state : OpenState) (files : OpenFiles)
    → state.generation ≡ state.stateid.generation
    → All Dated files
    → All Dated (insert fh state files)
unfolding insert
insert-Dated fh state [] d h = (d, tt)
insert-Dated fh state ((key, s) ∷ files) d h = elim (Bool-cases (bytes_eq key fh)) [
  | inl e ↦ rw e (d, h.1)
  | inr e ↦ rw e (h.0, insert-Dated fh state files d h.1)
]

remove-Dated : (fh : List ℕ) (files : OpenFiles) → All Dated files → All Dated (remove fh files)
unfolding remove
remove-Dated fh [] h = tt
remove-Dated fh ((key, s) ∷ files) h = elim (Bool-cases (bytes_eq key fh)) [
  | inl e ↦ rw e (remove-Dated fh files h.1)
  | inr e ↦ rw e (h.0, remove-Dated fh files h.1)
]

reopened-dated :
    (stateid : StateId) (access : AccessMode) (o : Option OpenState)
    → (reopened stateid access o).generation ≡ (reopened stateid access o).stateid.generation
unfolding reopened
reopened-dated stateid access none = refl
reopened-dated stateid access (some s) = refl

released-dated :
    (state : OpenState)
    → state.generation ≡ state.stateid.generation
    → (released state).1.generation ≡ (released state).1.stateid.generation
unfolding released
released-dated state h = ground (arith, h)

Step-Dated : (m k : StateManager) → Step m k → All Dated m.open_files → All Dated k.open_files
unfolding fence clear register_open release close_succeeded drain
Step-Dated m k (fences generation) h = h
Step-Dated m k clears h = tt
Step-Dated m k (registers fh stateid access) h =
    elim (Bool-cases (stateid.generation == m.active_generation)) [
      | inl e ↦
          rw e (
            insert-Dated fh _ m.open_files (reopened-dated stateid access (find fh m.open_files)) h)
      | inr e ↦ rw e h
    ]
Step-Dated m k (releases fh) h = elim (Option-cases (find fh m.open_files)) [
  | inl e ↦ rw (e, release) h
  | inr (state, e) ↦
      rw (e, release)
        (insert-Dated fh _ m.open_files
          (released-dated state (find-Dated fh m.open_files state h e)) h)
]
Step-Dated m k (closes fh stateid) h = elim (Option-cases (find fh m.open_files)) [
  | inl e ↦ rw (e, close_succeeded) h
  | inr (state, e) ↦ elim (Bool-cases (state.ref_count == 0 && stateid_eq state.stateid stateid)) [
    | inl t ↦ rw (e, close_succeeded, t) (remove-Dated fh m.open_files h)
    | inr t ↦ rw (e, close_succeeded, t) h
  ]
]
Step-Dated m k drains h = tt

Reachable-Dated : (m : StateManager) → Reachable m → All Dated m.open_files
unfolding new
Reachable-Dated m starts = tt
Reachable-Dated m (then_ k _ r s) = Step-Dated k m s (Reachable-Dated k r)

get_stateid-cases :
    (m : StateManager) (fh : List ℕ)
    → All Dated m.open_files
    → (get_stateid fh m ≡ anonymous) ⊎ ((get_stateid fh m).generation ≡ m.active_generation)
unfolding get_stateid
get_stateid-cases m fh h = elim (Option-cases (find fh m.open_files)) [
  | inl e ↦ inl (rw (e, get_stateid) refl)
  | inr (state, e) ↦
      elim (Bool-cases (ltb 0 state.ref_count && state.generation == m.active_generation)) [
        | inl t ↦
            inr (rw (e, get_stateid, t) (ground (arith, find-Dated fh m.open_files state h e, t)))
        | inr t ↦ inl (rw (e, get_stateid, t) refl)
      ]
]

has_open-cases :
    (m : StateManager) (fh : List ℕ) (access : AccessMode)
    → All Dated m.open_files
    → (has_open fh access m ≡ none)
      ⊎ ((stateid : StateId) × (has_open fh access m ≡ some stateid)
          × (stateid.generation ≡ m.active_generation))
unfolding has_open
has_open-cases m fh access h = elim (Option-cases (find fh m.open_files)) [
  | inl e ↦ inl (rw (e, has_open) refl)
  | inr (state, e) ↦
      elim (Bool-cases (
        ltb 0 state.ref_count
        && (state.generation == m.active_generation && covers state.access access))) [
          | inl t ↦ inr (
            state.stateid,
            rw (e, has_open, t) refl,
            ground (arith, t, find-Dated fh m.open_files state h e),
          )
          | inr t ↦ inl (rw (e, has_open, t) refl)
        ]
]

-- After any steps of the tasks that share the table, also between the two halves of a change of
-- session, a stateid that `get_stateid` gives is the anonymous one or belongs to the active
-- generation, and `has_open` gives none or one that belongs to the active generation.
pub stateid-current :
    (m : StateManager) (fh : List ℕ) (access : AccessMode)
    → Reachable m
    → ((get_stateid fh m ≡ anonymous) ⊎ ((get_stateid fh m).generation ≡ m.active_generation))
      × ((has_open fh access m ≡ none)
          ⊎ ((stateid : StateId) × (has_open fh access m ≡ some stateid)
              × (stateid.generation ≡ m.active_generation)))
stateid-current m fh access r =
    (get_stateid-cases m fh (Reachable-Dated m r), has_open-cases m fh access (Reachable-Dated m r))
