-- ===== src/Nfs40/Opens/Steps.antt =====
-- The open owners beside their specification, through each operation.
use mathlib.Core.List.{reverse, reverse-append, reverse-cons, append-nil}
use nfs_rs.Common.{
  ℕ, zero, suc, ◌≡◌, refl, ap, sym, subst, ◌∙◌, inl, inr, Bool, false, not, List, [], ◌∷◌, ◌++◌,
  length, Option, none, some, ◌==◌, ==_iff, bytes_eq, bytes_eq_iff, if◌then◌else◌, arith,
  length-append, Bool-cases, Option-cases,
}
use nfs_rs.Assoc.{
  nat_eq, text_eq, keep, find, insert, remove as remove_key, remove_absent, find-insert,
  find-remove, Distinct, remove-Distinct,
}
use nfs_rs.Nfs40.Opens.{OwnerLane, OpenState, owners_at, register, remove, without, clear}
use nfs_rs.Nfs40.Opens.Spec.{
  Opened, Op, register_op, remove_op, store_op, clear_op, store, step, run, Spec, spec_step,
  spec_run, IsFair, AllFair, owners_of,
}

-- The lane of an entry.
unfoldable pub lane_of : Option (List ℕ × ℕ) → Option ℕ
lane_of none = none
lane_of (some (fh, lane)) = some lane

pub record Refines (s : OpenState) (t : Spec) : Type 0 where
  pub allocated : length s.cells ≡ t.next
  pub owners : (owner : ℕ) → find owner s.lanes ≡ lane_of (find owner t.opens)
  pub files : (fh : List ℕ) → reverse (owners_at fh s.by_fh) ≡ owners_of fh t.opens
  pub distinct : Distinct t.opens

module _ {ℓ} {A : Type ℓ} (p : A → Bool) where
  keep-append : (xs ys : List A) → keep p (xs ++ ys) ≡ keep p xs ++ keep p ys
  unfolding keep
  keep-append [] ys = refl
  keep-append (x ∷ xs) ys = ground (arith, keep-append xs ys)

  reverse-keep : (xs : List A) → reverse (keep p xs) ≡ keep p (reverse xs)
  unfolding keep
  reverse-keep [] = refl
  reverse-keep (x ∷ xs) = elim (Bool-cases (p x)) [
    | inl y ↦ rw y (
        reverse-cons x (keep p xs)
        ∙ ap (λ l. l ++ (x ∷ [])) (reverse-keep xs)
        ∙ sym (right ∙ rw y refl))
    | inr n ↦ rw n (reverse-keep xs ∙ sym (right ∙ rw (n, append-nil) refl))
  ]
    where
      right : keep p (reverse (x ∷ xs)) ≡ keep p (reverse xs) ++ (if p x then x ∷ [] else [])
      right = ap (keep p) (reverse-cons x xs) ∙ keep-append (reverse xs) (x ∷ [])

owners_at-insert :
    (k q owners : List ℕ) (m : List (List ℕ × List ℕ))
    → owners_at q (insert k owners m) ≡ (if bytes_eq k q then owners else owners_at q m)
unfolding owners_at
owners_at-insert k q owners m = ground (arith, find-insert k q owners m)

owners_at-none : (q : List ℕ) (m : List (List ℕ × List ℕ)) → find q m ≡ none → owners_at q m ≡ []
unfolding owners_at
owners_at-none q m h = ground (arith, h)

owners_at-some :
    (q os : List ℕ) (m : List (List ℕ × List ℕ)) → find q m ≡ some os → owners_at q m ≡ os
unfolding owners_at
owners_at-some q os m h = ground (arith, h)

owners_at-kept :
    (k q kept : List ℕ) (m : List (List ℕ × List ℕ))
    → owners_at q (elim kept [ [] ↦ remove_key k m | c ∷ cs ↦ insert k (c ∷ cs) m ])
      ≡ (if bytes_eq k q then kept else owners_at q m)
unfolding owners_at
owners_at-kept k q [] m = ground (arith, find-remove k q m)
owners_at-kept k q (c ∷ cs) m = ground (arith, find-insert k q (c ∷ cs) m)

owners_at-without :
    (owner : ℕ) (k q : List ℕ) (m : List (List ℕ × List ℕ))
    → owners_at q (without owner k (find k m) m)
      ≡ (if bytes_eq k q then keep (λ c. not (c == owner)) (owners_at q m) else owners_at q m)
unfolding without keep
owners_at-without owner k q m = elim (Option-cases (find k m)) [
  | inl gone ↦ rw gone (elim (Bool-cases (bytes_eq k q)) [
    | inl e ↦
        let none_at : owners_at q m ≡ [] =
          owners_at-none q m (subst (λ x. find x m ≡ none) ((bytes_eq_iff k q).0 e) gone) in
        rw (e, none_at) refl
    | inr e ↦ rw e refl
  ])
  | inr (os, hit) ↦
      rw (hit, owners_at-kept k q (keep (λ c. not (c == owner)) os) m)
        (elim (Bool-cases (bytes_eq k q)) [
          | inl e ↦
              let at : owners_at q m ≡ os =
                owners_at-some q os m
                  (subst (λ x. find x m ≡ some os) ((bytes_eq_iff k q).0 e) hit) in
              rw (e, at) refl
          | inr e ↦ rw e refl
        ])
]

register-Refines :
    (lane : OwnerLane) (s : OpenState) (t : Spec)
    → Refines s t
    → find lane.owner t.opens ≡ none
    → Refines (register lane s).1 (spec_step (register_op lane) t)
unfolding register spec_step
register-Refines lane s t h fresh = record {
  allocated = omega (arith, length-append s.cells (lane ∷ []), h.allocated);
  owners = λ q.
      unfold find lane_of in
      ground (arith, find-insert lane.owner q (length s.cells) s.lanes, h.owners q, h.allocated);
  files = λ q.
      unfold owners_of in
      (elim (Bool-cases (bytes_eq lane.fh q)) [
        | inl e ↦
            rw
              (
                owners_at-insert lane.fh q (owners_at lane.fh s.by_fh ++ (lane.owner ∷ [])) s.by_fh,
                e,
              )
              (reverse-append (owners_at lane.fh s.by_fh) (lane.owner ∷ [])
                ∙ ap (◌∷◌ lane.owner) (
                    h.files lane.fh ∙ ap (λ f. owners_of f t.opens) ((bytes_eq_iff lane.fh q).0 e)))
        | inr e ↦
            rw
              (
                owners_at-insert lane.fh q (owners_at lane.fh s.by_fh ++ (lane.owner ∷ [])) s.by_fh,
                e,
              )
              (h.files q)
      ]);
  distinct = unfold Distinct in (fresh, h.distinct);
}

-- The owners of a file, without one owner.
owners_of-remove_self :
    (owner : ℕ) (q : List ℕ) (opens : Opened)
    → owners_of q (remove_key owner opens) ≡ keep (λ c. not (c == owner)) (owners_of q opens)
unfolding owners_of remove_key keep
owners_of-remove_self owner q [] = refl
owners_of-remove_self owner q ((o, (f, l)) ∷ opens) =
    ground (arith, owners_of-remove_self owner q opens)

owners_of-remove_ne :
    (owner : ℕ) (q : List ℕ) (opens : Opened)
    → Distinct opens
    → ((f : List ℕ) (l : ℕ) → find owner opens ≡ some (f, l) → bytes_eq f q ≡ false)
    → owners_of q (remove_key owner opens) ≡ owners_of q opens
unfolding owners_of remove_key Distinct find
owners_of-remove_ne owner q [] d other = refl
owners_of-remove_ne owner q ((o, (f, l)) ∷ opens) d other = elim (Bool-cases (o == owner)) [
  | inl e ↦
      rw
        (
          e,
          other f l (rw e refl),
          remove_absent owner opens (subst (λ x. find x opens ≡ none) ((==_iff o owner).0 e) d.0),
        )
        refl
  | inr e ↦ rw (e, owners_of-remove_ne owner q opens d.1 (λ f' l' hit. other f' l' (rw e hit))) refl
]

remove-Refines :
    (owner : ℕ) (fh : List ℕ) (s : OpenState) (t : Spec)
    → Refines s t
    → IsFair (remove_op owner fh) t
    → Refines (remove owner fh s) (spec_step (remove_op owner fh) t)
unfolding remove spec_step IsFair
remove-Refines owner fh s t h fair = record {
  allocated = h.allocated;
  owners = λ q.
      unfold lane_of in
      ground (arith, find-remove owner q s.lanes, find-remove owner q t.opens, h.owners q);
  files = λ q.
      ap reverse (owners_at-without owner fh q s.by_fh) ∙ elim (Bool-cases (bytes_eq fh q)) [
        | inl e ↦ rw e (
            reverse-keep (λ c. not (c == owner)) (owners_at q s.by_fh)
            ∙ ap (keep (λ c. not (c == owner))) (h.files q)
            ∙ sym (owners_of-remove_self owner q t.opens))
        | inr e ↦ rw e (
            h.files q
            ∙ sym (
                owners_of-remove_ne owner q t.opens h.distinct
                  (λ f l hit. ground (arith, hit, e, fair))))
      ];
  distinct = remove-Distinct owner t.opens h.distinct;
}

length-store :
    (at : ℕ) (lane : OwnerLane) (cells : List OwnerLane)
    → length (store at lane cells) ≡ length cells
unfolding store
length-store at lane [] = refl
length-store zero lane (l ∷ cells) = refl
length-store (suc at) lane (l ∷ cells) = ap suc (length-store at lane cells)

step-Refines :
    (op : Op) (s : OpenState) (t : Spec)
    → Refines s t
    → IsFair op t
    → Refines (step op s) (spec_step op t)
unfolding step
step-Refines (register_op lane) s t h f = register-Refines lane s t h (unfold IsFair in f)
step-Refines (remove_op owner fh) s t h f = remove-Refines owner fh s t h f
step-Refines (store_op at lane) s t h f =
    unfold spec_step in
    record {
      allocated = length-store at lane s.cells ∙ h.allocated;
      owners = h.owners;
      files = h.files;
      distinct = h.distinct;
    }
step-Refines clear_op s t h f =
    unfold clear spec_step in
    record {
      allocated = h.allocated;
      owners = λ q. unfold find lane_of in refl;
      files = λ q. unfold owners_of owners_at find in refl;
      distinct = unfold Distinct in tt;
    }

pub run-Refines :
    (ops : List Op) (s : OpenState) (t : Spec)
    → Refines s t
    → AllFair ops t
    → Refines (run ops s) (spec_run ops t)
unfolding run spec_run AllFair
run-Refines [] s t h f = h
run-Refines (op ∷ ops) s t h f =
    run-Refines ops (step op s) (spec_step op t) (step-Refines op s t h f.0) f.1
