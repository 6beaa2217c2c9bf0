-- ===== src/Nfs41/State/Lifecycle.antt =====
-- The life of an open file: each OPEN counts, and the stateid goes to CLOSE once, with the last
-- release.
use nfs_rs.Common.{
  ℕ, zero, suc, ◌+◌, ◌^◌, ◌<◌, ◌≡◌, refl, ap, sym, ◌∙◌, subst, true, List, [], ◌∷◌, ◌++◌, length,
  replicate, Option, none, some, inl, inr, arith, ◌==◌, ==_self, bytes_eq, bytes_eq_self,
  if◌then◌else◌, Bool-cases, All,
}
use native.Mathlib.Nat.{mod-eq_of_lt}
use nfs_rs.Nfs41.State.{
  AccessMode, StateId, OpenState, OpenFiles, find, insert, remove, StateManager, reopened,
  register_open, released, release, close_succeeded, stateid_eq,
}

find-insert :
    (fh : List ℕ) (state : OpenState) (files : OpenFiles)
    → find fh (insert fh state files) ≡ some state
unfolding find insert
find-insert fh state [] = rw (bytes_eq_self fh) refl
find-insert fh state ((key, s) ∷ files) = elim (Bool-cases (bytes_eq key fh)) [
  | inl e ↦ rw (e, e) refl
  | inr e ↦ rw (e, e) (find-insert fh state files)
]

find-remove : (fh : List ℕ) (files : OpenFiles) → find fh (remove fh files) ≡ none
unfolding find remove
find-remove fh [] = refl
find-remove fh ((key, s) ∷ files) = elim (Bool-cases (bytes_eq key fh)) [
  | inl e ↦ rw e (find-remove fh files)
  | inr e ↦ rw (e, e) (find-remove fh files)
]

-- Several OPENs of one file, in their order.
pub register_many : List ℕ → List (StateId × AccessMode) → StateManager → StateManager
register_many fh [] m = m
register_many fh ((stateid, access) ∷ opens) m =
    register_many fh opens (register_open fh stateid access m).1

-- Several releases, and what each returns.
pub release_many : ℕ → List ℕ → StateManager → List (Option StateId) × StateManager
release_many zero fh m = ([], m)
release_many (suc n) fh m =
    let r = release fh m in let rest = release_many n fh r.1 in (r.0 ∷ rest.0, rest.1)

unfoldable pub last_stateid : StateId → List (StateId × AccessMode) → StateId
last_stateid stateid [] = stateid
last_stateid stateid ((next, access) ∷ opens) = last_stateid next opens

-- All OPENs belong to the active generation.
unfoldable pub Active : ℕ → List (StateId × AccessMode) → Type 0
Active generation = All λ o. o.0.generation ≡ generation

-- The entry of a file, with its count and its stateid.
record Entry (fh : List ℕ) (m : StateManager) (refs : ℕ) (stateid : StateId) : Type 0 where
  state : OpenState
  found : find fh m.open_files ≡ some state
  counted : state.ref_count ≡ refs
  named : state.stateid ≡ stateid

register_open-active :
    (fh : List ℕ) (stateid : StateId) (access : AccessMode) (m : StateManager)
    → stateid.generation ≡ m.active_generation
    → ((register_open fh stateid access m).1.active_generation ≡ m.active_generation)
      × (find fh (register_open fh stateid access m).1.open_files
          ≡ some (reopened stateid access (find fh m.open_files)))
unfolding register_open
register_open-active fh stateid access m h =
    rw (h, ==_self m.active_generation) (refl, find-insert fh _ m.open_files)

register_many-Entry :
    (fh : List ℕ) (opens : List (StateId × AccessMode)) (m : StateManager) (refs : ℕ)
    (stateid : StateId)
    → Entry fh m refs stateid
    → Active m.active_generation opens
    → refs + length opens < 2 ^ 32
    → Entry fh (register_many fh opens m) (refs + length opens) (last_stateid stateid opens)
unfolding register_many last_stateid Active
register_many-Entry fh [] m refs stateid v h b = subst (λ n. Entry fh m n stateid) (omega arith) v
register_many-Entry fh ((next, access) ∷ opens) m refs stateid v h b =
    subst (λ n. Entry fh (register_many fh opens m') n (last_stateid next opens)) (omega arith)
      (register_many-Entry fh opens m' (refs + 1) next entry
        (subst (λ g. Active g opens) (sym step.0) h.1) (omega arith))
  where
    m' : StateManager
    m' = (register_open fh next access m).1

    step :
        (m'.active_generation ≡ m.active_generation)
        × (find fh m'.open_files ≡ some (reopened next access (find fh m.open_files)))
    step = register_open-active fh next access m h.0

    entry : Entry fh m' (refs + 1) next
    entry = record {
      state = reopened next access (some v.state);
      found = step.1 ∙ ap (λ o. some (reopened next access o)) v.found;
      counted = unfold reopened in (rw v.counted (mod-eq_of_lt (omega arith)));
      named = unfold reopened in refl;
    }

release-Entry :
    (fh : List ℕ) (n : ℕ) (m : StateManager) (stateid : StateId)
    → Entry fh m (suc n) stateid
    → ((release fh m).0 ≡ (if n == 0 then some stateid else none))
      × Entry fh (release fh m).1 n stateid
unfolding release
release-Entry fh n m stateid v = (
  output,
  record {
    state = (released v.state).1;
    found = rw (v.found, release) (find-insert fh (released v.state).1 m.open_files);
    counted = unfold released in ground (arith, v.counted);
    named = unfold released in ground (arith, v.named, v.counted);
  },
)
  where
    output : (release fh m).0 ≡ (if n == 0 then some stateid else none)
    output = rw (v.found, release) (unfold released in ground (arith, v.named, v.counted))

release_many-Entry :
    (fh : List ℕ) (n : ℕ) (m : StateManager) (stateid : StateId)
    → Entry fh m (suc n) stateid
    → ((release_many (suc n) fh m).0 ≡ replicate n none ++ (some stateid ∷ []))
      × Entry fh (release_many (suc n) fh m).1 0 stateid
unfolding release_many
release_many-Entry fh zero m stateid v =
    let (out, left) = release-Entry fh 0 m stateid v in (ap (λ o. o ∷ []) out, left)
release_many-Entry fh (suc n) m stateid v =
    let (out, left) = release-Entry fh (suc n) m stateid v in
    let (outs, done) = release_many-Entry fh n (release fh m).1 stateid left in
    (rw outs (ap (λ o. o ∷ (replicate n none ++ (some stateid ∷ []))) (out ∙ ground arith)), done)

stateid_eq_self : (a : StateId) → stateid_eq a a ≡ true
unfolding stateid_eq
stateid_eq_self a = rw (bytes_eq_self a.raw, ==_self a.generation) refl

close_succeeded-Entry :
    (fh : List ℕ) (m : StateManager) (stateid : StateId)
    → Entry fh m 0 stateid
    → find fh (close_succeeded fh stateid m).open_files ≡ none
unfolding close_succeeded find
close_succeeded-Entry fh m stateid v =
    rw (v.found, close_succeeded, v.counted, v.named, stateid_eq_self stateid)
      (find-remove fh m.open_files)

-- For a file that is not open, fewer than 2 ^ 32 OPENs of the active generation and as many
-- releases: every release but the last returns nothing, the last one returns the stateid of the
-- last OPEN, and once its CLOSE succeeds the file is not in the table.
pub release_many-register_many :
    (fh : List ℕ) (stateid : StateId) (access : AccessMode) (opens : List (StateId × AccessMode))
    (m : StateManager)
    → find fh m.open_files ≡ none
    → Active m.active_generation ((stateid, access) ∷ opens)
    → suc (length opens) < 2 ^ 32
    → ((release_many (suc (length opens)) fh (register_many fh ((stateid, access) ∷ opens) m)).0
        ≡ replicate (length opens) none ++ (some (last_stateid stateid opens) ∷ []))
      × (find fh
            (close_succeeded fh
              (last_stateid stateid opens)
              (release_many
                (suc (length opens))
                fh
                (register_many fh ((stateid, access) ∷ opens) m)).1).open_files
          ≡ none)
unfolding register_many Active
release_many-register_many fh stateid access opens m fresh active few =
    (result.0, close_succeeded-Entry fh _ _ result.1)
  where
    m' : StateManager
    m' = (register_open fh stateid access m).1

    first :
        (m'.active_generation ≡ m.active_generation)
        × (find fh m'.open_files ≡ some (reopened stateid access (find fh m.open_files)))
    first = register_open-active fh stateid access m active.0

    entry : Entry fh m' 1 stateid
    entry = record {
      state = reopened stateid access none;
      found = first.1 ∙ ap (λ o. some (reopened stateid access o)) fresh;
      counted = unfold reopened in refl;
      named = unfold reopened in refl;
    }

    all : Entry fh (register_many fh opens m') (suc (length opens)) (last_stateid stateid opens)
    all =
        subst (λ n. Entry fh (register_many fh opens m') n (last_stateid stateid opens))
          (omega arith)
          (register_many-Entry fh opens m' 1 stateid entry
            (subst (λ g. Active g opens) (sym first.0) active.1) (omega arith))

    result :
        ((release_many (suc (length opens)) fh (register_many fh opens m')).0
          ≡ replicate (length opens) none ++ (some (last_stateid stateid opens) ∷ []))
        × Entry fh
            (release_many (suc (length opens)) fh (register_many fh opens m')).1
            0
            (last_stateid stateid opens)
    result =
        release_many-Entry fh (length opens) (register_many fh opens m')
          (last_stateid stateid opens) all
