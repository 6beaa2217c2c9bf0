-- ===== src/Nfs40/Locks/Spec.antt =====
-- The specification of the table of locks: a function from stateids to lanes, and the operations on
-- it beside those of nfs40/state.rs.
use nfs_rs.Common.{
  ℕ, ◌+◌, ◌≡◌, ◌⊎◌, not, List, [], ◌∷◌, Option, none, some, ◌==◌, bytes_eq, if◌then◌else◌,
}
use nfs_rs.Assoc.{text_eq, only}
use nfs_rs.Nfs40.Locks.{LockLane, LockState, new, register, remove, rekey, clear}

pub data Op : Type 0 where
  register_op : LockLane → Op
  rekey_op : List ℕ → List ℕ → ℕ → Op
  remove_op : List ℕ → Op
  clear_op : Op

unfoldable pub step : Op → LockState → LockState
step (register_op lane) s = (register lane s).1
step (rekey_op old new lane) s = rekey old new lane s
step (remove_op stateid) s = remove stateid s
step clear_op s = clear s

unfoldable pub run : List Op → LockState → LockState
unfolding step
run [] s = s
run (op ∷ ops) s = run ops (step op s)

-- The specification: a function from stateids to lanes, and the number of the next lane.
pub record Spec : Type 0 where
  pub next : ℕ
  pub names : List ℕ → Option ℕ

abbrev pub spec_new : Spec
spec_new = record { next = 0; names = λ q. none }

unfoldable pub named : List ℕ → ℕ → (List ℕ → Option ℕ) → List ℕ → Option ℕ
named stateid lane names q = if bytes_eq stateid q then some lane else names q

unfoldable pub unnamed : Option ℕ → (List ℕ → Option ℕ) → List ℕ → Option ℕ
unfolding only
unnamed none names q = names q
unnamed (some lane) names q = only (λ l. not (l == lane)) (names q)

unfoldable pub spec_step : Op → Spec → Spec
unfolding named unnamed
spec_step (register_op lane) t = record {
  next = t.next + 1;
  names = named lane.stateid t.next t.names;
}
spec_step (rekey_op old new lane) t = record t { names = named new lane (named old lane t.names) }
spec_step (remove_op stateid) t = record t { names = unnamed (t.names stateid) t.names }
spec_step clear_op t = record t { names = λ q. none }

unfoldable pub spec_run : List Op → Spec → Spec
unfolding spec_step
spec_run [] t = t
spec_run (op ∷ ops) t = spec_run ops (spec_step op t)

-- The server gives no stateid of one lock to another.
unfoldable pub IsFresh : Op → Spec → Type 0
IsFresh (register_op lane) t = t.names lane.stateid ≡ none
IsFresh (rekey_op old new lane) t = (t.names new ≡ none) ⊎ (t.names new ≡ some lane)
IsFresh (remove_op stateid) t = Unit
IsFresh clear_op t = Unit

unfoldable pub AllFresh : List Op → Spec → Type 0
unfolding IsFresh spec_step
AllFresh [] t = Unit
AllFresh (op ∷ ops) t = IsFresh op t × AllFresh ops (spec_step op t)
