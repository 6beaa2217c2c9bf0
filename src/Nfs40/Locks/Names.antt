-- ===== src/Nfs40/Locks/Names.antt =====
-- What the table of locks promises after any operations: each stateid names at most one lane, and a
-- renamed lane keeps its old names.
use nfs_rs.Common.{
  ℕ, ◌≡◌, refl, ap, sym, subst, ◌∙◌, inl, inr, Bool, not, List, [], ◌∷◌, Option, none, some, ◌==◌,
  bytes_eq, bytes_eq_iff, arith, Bool-cases, Option-cases,
}
use nfs_rs.Assoc.{
  text_eq, find, remove as remove_key, retain as retain_values, find-remove, only, find-retain,
  Distinct, remove-Distinct, retain-Distinct,
}
use nfs_rs.Nfs40.Locks.{LockState, new, by_stateid, forget, remove}
use nfs_rs.Nfs40.Locks.Spec.{
  Op, register_op, rekey_op, remove_op, clear_op, step, run, Spec, spec_new, unnamed, spec_step,
  spec_run, IsFresh, AllFresh,
}
use nfs_rs.Nfs40.Locks.Steps.{Refines, register-Refines, rekey-Refines, clear-Refines}

-- The test of `retain`: another lane.
abbrev other : ℕ → ℕ → Bool
other lane candidate = not (candidate == lane)

only-some : (lane a : ℕ) (o : Option ℕ) → only (other lane) o ≡ some a → o ≡ some a
unfolding only
only-some lane a o h = ground (arith, h)

abbrev first_of : Option ℕ → Option ℕ → Option ℕ
first_of lane alias = elim lane [ some l ↦ some l | none ↦ alias ]

first_of-only :
    (lane : ℕ) (a b : Option ℕ)
    → ((x y : ℕ) → a ≡ some x → b ≡ some y → x ≡ y)
    → first_of (only (other lane) a) (only (other lane) b) ≡ only (other lane) (first_of a b)
unfolding only
first_of-only lane none b h = refl
first_of-only lane (some x) none h = ground arith
first_of-only lane (some x) (some y) h = ground (arith, h x y refl refl)

-- The table without the names of one lane, of which one entry was taken out before.
module _ (s : LockState) (t : Spec) (h : Refines s t) (lane : ℕ) (stateid : List ℕ) where
  forget-Refines :
      (s' : LockState)
      → t.names stateid ≡ some lane
      → s'.cells ≡ s.cells
      → Distinct s'.lanes
      → Distinct s'.aliases
      → ((q : List ℕ) → only (other lane) (find q s'.lanes) ≡ only (other lane) (find q s.lanes))
      → ((q : List ℕ)
          → only (other lane) (find q s'.aliases) ≡ only (other lane) (find q s.aliases))
      → Refines (forget lane s') (spec_step (remove_op stateid) t)
  unfolding forget spec_step unnamed by_stateid only
  forget-Refines s' known kept dl da lost_lanes lost_aliases = record {
    allocated = rw kept h.allocated;
    reads = λ q.
        ap (λ o. first_of o (find q (retain_values (other lane) s'.aliases))) (left_lanes q)
        ∙ ap (first_of (only (other lane) (find q s.lanes))) (left_aliases q)
        ∙ first_of-only lane (find q s.lanes) (find q s.aliases) (h.agree q)
        ∙ ap (only (other lane)) (h.reads q)
        ∙ ap (λ o. unnamed o t.names q) (sym known);
    agree = λ q a b ha hb.
        h.agree q a b (only-some lane a _ (sym (left_lanes q) ∙ ha))
          (only-some lane b _ (sym (left_aliases q) ∙ hb));
    lanes_distinct = retain-Distinct (other lane) s'.lanes dl;
    aliases_distinct = retain-Distinct (other lane) s'.aliases da;
  }
    where
      left_lanes :
          (q : List ℕ)
          → find q (retain_values (other lane) s'.lanes) ≡ only (other lane) (find q s.lanes)
      left_lanes q = find-retain (other lane) q s'.lanes dl ∙ lost_lanes q

      left_aliases :
          (q : List ℕ)
          → find q (retain_values (other lane) s'.aliases) ≡ only (other lane) (find q s.aliases)
      left_aliases q = find-retain (other lane) q s'.aliases da ∙ lost_aliases q

-- An entry of the lane that is taken out first changes nothing in the end.
only-remove :
    (lane : ℕ) (k q : List ℕ) (m : List (List ℕ × ℕ))
    → find k m ≡ some lane
    → only (other lane) (find q (remove_key k m)) ≡ only (other lane) (find q m)
unfolding only
only-remove lane k q m known = elim (Bool-cases (bytes_eq k q)) [
  | inl e ↦
      let same : find q m ≡ some lane =
        subst (λ x. find x m ≡ some lane) ((bytes_eq_iff k q).0 e) known in
      ground (arith, find-remove k q m, e, same)
  | inr e ↦ ground (arith, find-remove k q m, e)
]

absent-Refines :
    (stateid : List ℕ) (s : LockState) (t : Spec)
    → Refines s t
    → t.names stateid ≡ none
    → Refines s (spec_step (remove_op stateid) t)
unfolding spec_step unnamed
absent-Refines stateid s t h gone = record {
  allocated = h.allocated;
  reads = λ q. h.reads q ∙ ap (λ o. unnamed o t.names q) (sym gone);
  agree = h.agree;
  lanes_distinct = h.lanes_distinct;
  aliases_distinct = h.aliases_distinct;
}

remove-Refines :
    (stateid : List ℕ) (s : LockState) (t : Spec)
    → Refines s t
    → Refines (remove stateid s) (spec_step (remove_op stateid) t)
unfolding remove by_stateid
remove-Refines stateid s t h = elim (Option-cases (find stateid s.lanes)) [
  | inr (lane, hit) ↦
      rw (hit, remove)
        (forget-Refines s t h lane stateid (record s { lanes = remove_key stateid s.lanes })
          (sym (h.reads stateid) ∙ ground (arith, hit)) refl
          (remove-Distinct stateid s.lanes h.lanes_distinct) h.aliases_distinct
          (λ q. only-remove lane stateid q s.lanes hit) (λ q. refl))
  | inl miss ↦ elim (Option-cases (find stateid s.aliases)) [
    | inr (lane, hit) ↦
        rw (miss, remove, hit)
          (forget-Refines s t h lane stateid (record s { aliases = remove_key stateid s.aliases })
            (sym (h.reads stateid) ∙ ground (arith, miss, hit)) refl h.lanes_distinct
            (remove-Distinct stateid s.aliases h.aliases_distinct) (λ q. refl)
            (λ q. only-remove lane stateid q s.aliases hit))
    | inl gone ↦
        rw (miss, remove, gone)
          (absent-Refines stateid s t h (sym (h.reads stateid) ∙ ground (arith, miss, gone)))
  ]
]

step-Refines :
    (op : Op) (s : LockState) (t : Spec)
    → Refines s t
    → IsFresh op t
    → Refines (step op s) (spec_step op t)
unfolding step IsFresh
step-Refines (register_op lane) s t h f = register-Refines s t h lane f
step-Refines (rekey_op old new lane) s t h f = rekey-Refines s t h old new lane f
step-Refines (remove_op stateid) s t h f = remove-Refines stateid s t h
step-Refines clear_op s t h f = clear-Refines s t h

run-Refines :
    (ops : List Op) (s : LockState) (t : Spec)
    → Refines s t
    → AllFresh ops t
    → Refines (run ops s) (spec_run ops t)
unfolding run spec_run AllFresh
run-Refines [] s t h f = h
run-Refines (op ∷ ops) s t h f =
    run-Refines ops (step op s) (spec_step op t) (step-Refines op s t h f.0) f.1

-- After any operations on a new table, where a stateid that the server gives to a lock names no
-- other lock, by_stateid finds for every stateid what the specification gives, a function from
-- stateids to lanes: register names a new lane, rekey gives a lane a second name and keeps the
-- first, remove takes all names of the lane, and clear all names.
pub by_stateid-run :
    (ops : List Op) (q : List ℕ)
    → AllFresh ops spec_new
    → by_stateid q (run ops new) ≡ (spec_run ops spec_new).names q
by_stateid-run ops q f = (run-Refines ops new spec_new empty f).reads q
  where
    empty : Refines new spec_new
    empty =
        unfold new by_stateid find Distinct in
        (record {
          allocated = refl;
          reads = λ q. refl;
          agree = λ q a b ha hb. cc;
          lanes_distinct = tt;
          aliases_distinct = tt;
        })
