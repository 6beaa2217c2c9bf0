-- ===== src/Nfs41/Layout/Caches/Devices.antt =====
-- The cache of devices: an answer of GETDEVICEINFO that a notification has overtaken.
use nfs_rs.Common.{
  ℕ, ◌+◌, ◌-◌, ◌%◌, ◌^◌, ◌≤◌, ◌<◌, ◌≡◌, refl, Bool, false, List, [], ◌∷◌, ◌++◌, length, ◌==◌,
  ==_iff, arith, Bool-cases, inl, inr, ◌⊎◌,
}
use nfs_rs.Assoc.{Eq, text_eq}
use nfs_rs.Nfs41.Layout.Caches.{
  DeviceInfo, LayoutManager, Action, store, merge, remove_file, forget_segments, store_device,
  invalidate, mark_unreachable, clear_all, clear_files, clear_addresses, clear_marks, move_to, act,
  run, store_device_if_current, invalidate_device,
}

revisions-apart :
    (r a b first noted now : ℕ)
    → r < 2 ^ 64
    → a + b < 2 ^ 64 - 1
    → first ≡ (r + a) % 2 ^ 64
    → noted ≡ (first + 1) % 2 ^ 64
    → now ≡ (noted + b) % 2 ^ 64
    → (r == now) ≡ false
revisions-apart r a b first noted now h few p q s = elim (Bool-cases (r == now)) [
  | inl t ↦ absurd (omega (arith, (==_iff r now).0 t))
  | inr f ↦ f
]

module _ {Addr : Type 0} ⦃e : Eq Addr⦄ where
  Bumped : LayoutManager Addr → LayoutManager Addr → Type 0
  Bumped m m' =
      (m'.device_revision ≡ m.device_revision)
      ⊎ (m'.device_revision ≡ (m.device_revision + 1) % 2 ^ 64)

  invalidate-revision :
      (device_id : List ℕ) (notified : Bool) (m : LayoutManager Addr)
      → (invalidate_device device_id m.active_generation notified m).device_revision
        ≡ (m.device_revision + 1) % 2 ^ 64
  unfolding invalidate_device
  invalidate-revision device_id notified m = ground arith

  act-Bumped : (a : Action Addr) (m : LayoutManager Addr) → Bumped m (act a m)
  unfolding act Bumped
  act-Bumped (store fh generation layout) m = ground arith
  act-Bumped (merge fh update) m = ground arith
  act-Bumped (remove_file fh) m = ground arith
  act-Bumped (forget_segments fh) m = ground arith
  act-Bumped (store_device device_id generation revision info) m = ground arith
  act-Bumped (invalidate device_id generation notified) m = ground arith
  act-Bumped (mark_unreachable a generation) m = ground arith
  act-Bumped clear_all m = inr refl
  act-Bumped clear_files m = inl refl
  act-Bumped clear_addresses m = inr refl
  act-Bumped clear_marks m = inl refl
  act-Bumped (move_to generation) m = inl refl

  -- The revision after some actions is that before, plus at most one for each.
  record Counted (m m' : LayoutManager Addr) (n : ℕ) : Type 0 where
    pub times : ℕ
    pub few : times ≤ n
    pub revision : m'.device_revision ≡ (m.device_revision + times) % 2 ^ 64

  run-Counted :
      (actions : List (Action Addr)) (m : LayoutManager Addr)
      → m.device_revision < 2 ^ 64
      → Counted m (run actions m) (length actions)
  unfolding run Bumped
  run-Counted [] m h = record { times = 0; few = omega arith; revision = omega (arith, h) }
  run-Counted (a ∷ rest) m h = elim (act-Bumped a m) [
    | inl same ↦
        (let later = run-Counted rest (act a m) (omega (arith, same, h)) in
          record { times = later.times; few = omega arith; revision = omega (arith, same) })
    | inr more ↦
        (let later = run-Counted rest (act a m) (omega (arith, more)) in
          record { times = later.times + 1; few = omega arith; revision = omega (arith, more) })
  ]

  run-append :
      (xs ys : List (Action Addr)) (m : LayoutManager Addr) → run (xs ++ ys) m ≡ run ys (run xs m)
  unfolding run
  run-append [] ys m = refl
  run-append (x ∷ xs) ys m = run-append xs ys (act x m)

  other_revision :
      (device : List ℕ) (generation revision : ℕ) (info : DeviceInfo Addr) (m : LayoutManager Addr)
      → (revision == m.device_revision) ≡ false
      → store_device_if_current device generation revision info m ≡ (false, m)
  unfolding store_device_if_current
  other_revision device generation revision info m h =
      elim (Bool-cases (generation == m.active_generation)) [
        | inl t ↦ rw (t, h) refl
        | inr f ↦ rw f refl
      ]

  -- The revision that a GETDEVICEINFO was sent at is not the present one after a notification of
  -- the generation that is active, so its answer is not stored and nothing changes, whatever fewer
  -- than 2 ^ 64 - 1 actions of the other tasks stand before the notification and behind it: the
  -- revision is a u64 that wraps.
  pub store_device_if_current-stale :
      (m : LayoutManager Addr) (before after : List (Action Addr)) (device notified_device : List ℕ)
      (generation : ℕ) (notified : Bool) (info : DeviceInfo Addr)
      → m.device_revision < 2 ^ 64
      → length before + length after < 2 ^ 64 - 1
      → let now =
          run
            (before
              ++ (invalidate notified_device (run before m).active_generation notified ∷ after))
            m in
        store_device_if_current device generation m.device_revision info now ≡ (false, now)
  unfolding run act
  store_device_if_current-stale m before after device other generation notified info h few =
      let first = run before m in
      let noted = invalidate_device other first.active_generation notified first in
      let now = run after noted in
      let c1 = run-Counted before m h in
      let bump = invalidate-revision other notified first in
      let c2 = run-Counted after noted (omega (arith, bump)) in
      let apart : (m.device_revision == now.device_revision) ≡ false =
        revisions-apart m.device_revision c1.times c2.times first.device_revision
          noted.device_revision now.device_revision h (omega (arith, c1.few, c2.few, few))
          c1.revision bump c2.revision in
      rw (run-append before (invalidate other first.active_generation notified ∷ after) m)
        (other_revision device generation m.device_revision info now apart)
