-- ===== src/Nfs40/Locks/Steps.antt =====
-- The table of locks beside its specification, after the operations that give names.
use nfs_rs.Common.{
  ℕ, ◌≡◌, refl, subst, ◌∙◌, ◌⊎◌, inl, inr, true, List, [], ◌∷◌, length, none, some, bytes_eq,
  bytes_eq_iff, if◌then◌else◌, arith, length-append, Bool-cases, Option-cases,
}
use nfs_rs.Assoc.{
  text_eq, find, insert, remove as remove_key, find-insert, find-remove, Distinct, insert-Distinct,
  remove-Distinct,
}
use nfs_rs.Nfs40.Locks.{LockLane, LockState, new, register, by_stateid, rekey, clear}
use nfs_rs.Nfs40.Locks.Spec.{register_op, rekey_op, clear_op, Spec, named, spec_step}

pub record Refines (s : LockState) (t : Spec) : Type 0 where
  pub allocated : length s.cells ≡ t.next
  pub reads : (q : List ℕ) → by_stateid q s ≡ t.names q
  pub agree : (q : List ℕ) (a b : ℕ) → find q s.lanes ≡ some a → find q s.aliases ≡ some b → a ≡ b
  pub lanes_distinct : Distinct s.lanes
  pub aliases_distinct : Distinct s.aliases

module _ (s : LockState) (t : Spec) (h : Refines s t) where
  -- A stateid that the table does not know, or that names the lane already.
  absent_alias : (k q : List ℕ) → bytes_eq k q ≡ true → t.names k ≡ none → find q s.aliases ≡ none
  unfolding by_stateid
  absent_alias k q same fresh =
      let e : k ≡ q = (bytes_eq_iff k q).0 same in
      let r : by_stateid q s ≡ none = h.reads q ∙ subst (λ x. t.names x ≡ none) e fresh in
      elim (Option-cases (find q s.lanes)) [
        | inl miss ↦ ground (arith, r, miss)
        | inr (v, hit) ↦ absurd (ground (arith, r, hit))
      ]

  pub register-Refines :
      (lane : LockLane)
      → t.names lane.stateid ≡ none
      → Refines (register lane s).1 (spec_step (register_op lane) t)
  unfolding register spec_step named by_stateid
  register-Refines lane fresh = record {
    allocated = omega (arith, length-append s.cells (lane ∷ []), h.allocated);
    reads = λ q.
        ground (arith, find-insert lane.stateid q (length s.cells) s.lanes, h.reads q, h.allocated);
    agree = λ q a b ha hb. elim (Bool-cases (bytes_eq lane.stateid q)) [
      | inl e ↦ absurd (ground (arith, absent_alias lane.stateid q e fresh, hb))
      | inr e ↦
          h.agree q a b (ground (arith, ha, e, find-insert lane.stateid q (length s.cells) s.lanes))
            hb
    ];
    lanes_distinct = insert-Distinct lane.stateid (length s.cells) s.lanes h.lanes_distinct;
    aliases_distinct = h.aliases_distinct;
  }

  pub clear-Refines : Refines (clear s) (spec_step clear_op t)
  unfolding clear spec_step by_stateid find Distinct
  clear-Refines = record {
    allocated = h.allocated;
    reads = λ q. refl;
    agree = λ q a b ha hb. cc;
    lanes_distinct = tt;
    aliases_distinct = tt;
  }

  alias_of_fresh :
      (k q : List ℕ) (lane b : ℕ)
      → bytes_eq k q ≡ true
      → (t.names k ≡ none) ⊎ (t.names k ≡ some lane)
      → find q s.aliases ≡ some b
      → lane ≡ b
  unfolding by_stateid
  alias_of_fresh k q lane b same (inl fresh) hb =
      absurd (ground (arith, absent_alias k q same fresh, hb))
  alias_of_fresh k q lane b same (inr known) hb =
      let e : k ≡ q = (bytes_eq_iff k q).0 same in
      let r : by_stateid q s ≡ some lane = h.reads q ∙ subst (λ x. t.names x ≡ some lane) e known in
      elim (Option-cases (find q s.lanes)) [
        | inl miss ↦ ground (arith, r, miss, hb)
        | inr (v, hit) ↦ ground (arith, r, hit, h.agree q v b hit hb)
      ]

  pub rekey-Refines :
      (old new : List ℕ) (lane : ℕ)
      → (t.names new ≡ none) ⊎ (t.names new ≡ some lane)
      → Refines (rekey old new lane s) (spec_step (rekey_op old new lane) t)
  unfolding rekey spec_step named by_stateid
  rekey-Refines old new lane fresh = record {
    allocated = h.allocated;
    reads = λ q. ground (arith, reads_lanes q, reads_aliases q, h.reads q);
    agree = λ q a b ha hb. elim (Bool-cases (bytes_eq new q)) [
      | inl e ↦ elim (Bool-cases (bytes_eq old q)) [
        | inl o ↦ ground (arith, ha, hb, e, o, reads_lanes q, reads_aliases q)
        | inr o ↦ ground (
          arith,
          ha,
          e,
          reads_lanes q,
          alias_of_fresh new q lane b e fresh (ground (arith, hb, o, reads_aliases q)),
        )
      ]
      | inr e ↦ elim (Bool-cases (bytes_eq old q)) [
        | inl o ↦ absurd (ground (arith, ha, e, o, reads_lanes q))
        | inr o ↦
            h.agree q a b (ground (arith, ha, e, o, reads_lanes q))
              (ground (arith, hb, o, reads_aliases q))
      ]
    ];
    lanes_distinct =
        insert-Distinct new lane (remove_key old s.lanes)
          (remove-Distinct old s.lanes h.lanes_distinct);
    aliases_distinct = insert-Distinct old lane s.aliases h.aliases_distinct;
  }
    where
      reads_lanes :
          (q : List ℕ)
          → find q (insert new lane (remove_key old s.lanes)) ≡ (
              if bytes_eq new q then some lane else if bytes_eq old q then none else find q s.lanes)
      reads_lanes q =
          ground (arith, find-insert new q lane (remove_key old s.lanes), find-remove old q s.lanes)

      reads_aliases :
          (q : List ℕ)
          → find q (insert old lane s.aliases)
            ≡ (if bytes_eq old q then some lane else find q s.aliases)
      reads_aliases q = find-insert old q lane s.aliases
