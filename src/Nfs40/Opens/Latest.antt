-- ===== src/Nfs40/Opens/Latest.antt =====
-- What the open owners promise: the lane of a file is that of its latest open with enough access.
use mathlib.Core.List.{reverse}
use nfs_rs.Common.{
  ℕ, ◌≡◌, refl, ap, ◌∙◌, List, [], ◌∷◌, All, some, inl, inr, ◌==◌, ==_iff, arith, Bool-cases,
  Option-cases,
}
use nfs_rs.Assoc.{nat_eq, text_eq, find, Distinct}
use nfs_rs.Nfs40.Opens.{OpenState, new, owners_at, by_owner, first_granting, for_fh}
use nfs_rs.Nfs40.Opens.Spec.{Opened, Op, run, Spec, spec_new, spec_run, AllFair, latest, owners_of}
use nfs_rs.Nfs40.Opens.Steps.{lane_of, Refines, run-Refines}

for_fh-owners_at :
    (fh : List ℕ) (access : ℕ) (s : OpenState)
    → for_fh fh access s ≡ first_granting access s (reverse (owners_at fh s.by_fh))
unfolding for_fh first_granting owners_at
for_fh-owners_at fh access s = elim (Option-cases (find fh s.by_fh)) [
  | inl gone ↦ rw (for_fh, gone, owners_at) refl
  | inr (os, hit) ↦ rw (for_fh, hit, owners_at) refl
]

-- Each open is found in the table by its owner.
Listed : OpenState → Opened → Type 0
Listed s opens = All (λ o. by_owner o.0 s ≡ some o.1.1) opens

first_granting-latest :
    (fh : List ℕ) (access : ℕ) (s : OpenState) (opens : Opened)
    → Listed s opens
    → first_granting access s (owners_of fh opens) ≡ latest fh access s.cells opens
unfolding first_granting owners_of latest Listed
first_granting-latest fh access s [] h = refl
first_granting-latest fh access s ((o, (f, l)) ∷ opens) h =
    ground (arith, h.0, first_granting-latest fh access s opens h.1)

Listed-tails :
    (s : OpenState) (opens : Opened)
    → Distinct opens
    → ((o : ℕ) (v : List ℕ × ℕ) → find o opens ≡ some v → by_owner o s ≡ some v.1)
    → Listed s opens
unfolding Listed Distinct find
Listed-tails s [] d h = tt
Listed-tails s ((o, v) ∷ opens) d h = (
  h o v (ground arith),
  Listed-tails s opens d.1 (λ q w hit. h q w (elim (Bool-cases (o == q)) [
    | inl e ↦ absurd (ground (arith, hit, d.0, ==_iff o q, e))
    | inr e ↦ rw e hit
  ])),
)

new-Refines : Refines new spec_new
unfolding new
new-Refines = record {
  allocated = refl;
  owners = λ q. unfold find lane_of in refl;
  files = λ q. unfold owners_of owners_at find in refl;
  distinct = unfold Distinct in tt;
}

-- After any operations on a new table, where each register has an owner that is not in it and each
-- remove names the file that the owner opened, and whatever the holders of lanes wrote into them in
-- between: for_fh gives the lane of the latest open of the file that is still registered and whose
-- lane grants a bit of the access, and none exactly where the specification, the list of opens,
-- has none.
pub for_fh-run :
    (ops : List Op) (fh : List ℕ) (access : ℕ)
    → AllFair ops spec_new
    → for_fh fh access (run ops new)
      ≡ latest fh access (run ops new).cells (spec_run ops spec_new).opens
for_fh-run ops fh access f =
    for_fh-owners_at fh access s
    ∙ ap (first_granting access s) (r.files fh)
    ∙ first_granting-latest fh access s t.opens (
        Listed-tails s t.opens r.distinct
          (λ o v hit. unfold by_owner in (r.owners o ∙ rw hit (unfold lane_of in refl))))
  where
    s : OpenState
    s = run ops new

    t : Spec
    t = spec_run ops spec_new

    r : Refines s t
    r = run-Refines ops new spec_new new-Refines f
