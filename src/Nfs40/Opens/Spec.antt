-- ===== src/Nfs40/Opens/Spec.antt =====
-- The specification of the open owners: the opens from the latest to the oldest, each the owner's
-- number with the file and the lane.
use nfs_rs.Common.{
  ℕ, zero, suc, ◌+◌, ◌≡◌, ◌⊎◌, List, [], ◌∷◌, Option, none, some, ◌&&◌, bytes_eq, if◌then◌else◌,
}
use nfs_rs.Assoc.{nat_eq, find, remove as remove_key}
use nfs_rs.Nfs40.Opens.{OwnerLane, OpenState, register, remove, clear, grants}

abbrev pub Opened : Type 0
Opened = List (ℕ × (List ℕ × ℕ))

-- `store` is a change of a lane by a holder of its reference.
pub data Op : Type 0 where
  register_op : OwnerLane → Op
  remove_op : ℕ → List ℕ → Op
  store_op : ℕ → OwnerLane → Op
  clear_op : Op

unfoldable pub store : ℕ → OwnerLane → List OwnerLane → List OwnerLane
store at lane [] = []
store zero lane (l ∷ cells) = lane ∷ cells
store (suc at) lane (l ∷ cells) = l ∷ store at lane cells

unfoldable pub step : Op → OpenState → OpenState
unfolding store
step (register_op lane) s = (register lane s).1
step (remove_op owner fh) s = remove owner fh s
step (store_op at lane) s = record s { cells = store at lane s.cells }
step clear_op s = clear s

unfoldable pub run : List Op → OpenState → OpenState
unfolding step
run [] s = s
run (op ∷ ops) s = run ops (step op s)

pub record Spec : Type 0 where
  pub next : ℕ
  pub opens : Opened

abbrev pub spec_new : Spec
spec_new = record { next = 0; opens = [] }

unfoldable pub spec_step : Op → Spec → Spec
spec_step (register_op lane) t = record {
  next = t.next + 1;
  opens = (lane.owner, (lane.fh, t.next)) ∷ t.opens;
}
spec_step (remove_op owner fh) t = record t { opens = remove_key owner t.opens }
spec_step (store_op at lane) t = t
spec_step clear_op t = record t { opens = [] }

unfoldable pub spec_run : List Op → Spec → Spec
unfolding spec_step
spec_run [] t = t
spec_run (op ∷ ops) t = spec_run ops (spec_step op t)

-- The owner numbers come from a counter, and an owner is removed with the file that it opened.
unfoldable pub IsFair : Op → Spec → Type 0
IsFair (register_op lane) t = find lane.owner t.opens ≡ none
IsFair (remove_op owner fh) t =
    (find owner t.opens ≡ none) ⊎ ((lane : ℕ) × (find owner t.opens ≡ some (fh, lane)))
IsFair (store_op at lane) t = Unit
IsFair clear_op t = Unit

unfoldable pub AllFair : List Op → Spec → Type 0
unfolding IsFair spec_step
AllFair [] t = Unit
AllFair (op ∷ ops) t = IsFair op t × AllFair ops (spec_step op t)

-- The latest open of a file whose lane grants the access.
unfoldable pub latest : List ℕ → ℕ → List OwnerLane → Opened → Option ℕ
unfolding grants
latest fh required_access cells [] = none
latest fh required_access cells ((owner, (f, lane)) ∷ opens) =
    let rest = latest fh required_access cells opens in
    if bytes_eq f fh && grants required_access cells lane then some lane else rest

-- The owners of a file, from the latest to the oldest.
unfoldable pub owners_of : List ℕ → Opened → List ℕ
owners_of fh [] = []
owners_of fh ((owner, (f, lane)) ∷ opens) =
    let rest = owners_of fh opens in if bytes_eq f fh then owner ∷ rest else rest
