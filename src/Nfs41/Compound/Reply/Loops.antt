-- ===== src/Nfs41/Compound/Reply/Loops.antt =====
-- Rules for readers that stand in each other and for loops.
use nfs_rs.Common.{
  ℕ, zero, suc, ◌+◌, ◌≡◌, refl, Bool, true, false, List, ◌∷◌, length, drop, length-drop, leb, ◌==◌,
  if◌then◌else◌, arith, Bool-cases, inl, inr,
}
use nfs_rs.Errors.{xdr}
use nfs_rs.Wire.{
  Reader, Outcome, ok, err, panic, and_then, ◌>>=◌, ◌>>◌, pure, require, advance, remaining, repeat,
}
use nfs_rs.Wire.Grammar.{Grammar, end, fixed_then, text_then, words_then}
use nfs_rs.Nfs41.Compound.Reply.Skip.{skip, skip_entries, skip_var_bytes, skip_bitmap, skip_fattr4}
use nfs_rs.Nfs41.Compound.Reply.Session.{times}
use nfs_rs.Nfs41.Compound.Reply.Results.{void}
use nfs_rs.Nfs41.Compound.Reply.Grammar.{iterate, entries}
use nfs_rs.Nfs41.Compound.Reply.Rules.{
  Skips, void-Skips, fixed-Skips, text-Skips, words-Skips, word-Skips, skip_word-Skips, last-Skips,
  never-Skips, if-Skips, eq-Skips, then_void, look-Skips,
}

module _ {ℓ κ} {A : Type ℓ} {B : Type κ} where
  and_then-and_then :
      {C : Type 0} (o : Outcome (A × List ℕ)) (f : A → Reader B) (g : B → Reader C)
      → and_then (and_then o f) g ≡ and_then o (λ a r. and_then (f a r) g)
  unfolding and_then
  and_then-and_then (ok (a, r)) f g = refl
  and_then-and_then (err e) f g = refl
  and_then-and_then panic f g = refl

-- The parts of a reader, taken from the left.
pub assoc-Skips {ℓ} :
    {A : Type ℓ} (k : Reader (Unit {0})) (m : Reader A) (f : A → Reader (Unit {0})) {g : Grammar}
    → Skips (m >>= λ a. f a >> k) g
    → Skips ((m >>= f) >> k) g
unfolding ◌>>=◌
assoc-Skips k m f p = eq-Skips (λ s. and_then-and_then (m s) f (λ _. k)) p

pub if_then-Skips :
    (m l k : Reader (Unit {0})) {g e : Grammar} (b : Bool)
    → Skips (m >> k) g
    → Skips (l >> k) e
    → Skips ((if b then m else l) >> k) (if b then g else e)
if_then-Skips m l k true p q = p
if_then-Skips m l k false p q = q

module _ (m : Reader (Unit {0})) where
  times-zero : (k : Reader (Unit {0})) (s : List ℕ) → (times zero m >> k) s ≡ k s
  unfolding times repeat pure ◌>>=◌ and_then
  times-zero k s = refl

  module _ (n : ℕ) (k : Reader (Unit {0})) where
    later :
        (a : Unit {0}) (o : Outcome (List (Unit {0}) × List ℕ))
        → and_then (and_then (and_then o (λ rest. pure (a ∷ rest))) (λ _. void)) (λ _. k)
          ≡ and_then (and_then o (λ _. void)) (λ _. k)
    unfolding and_then pure
    later a (ok (rest, r)) = refl
    later a (err e) = refl
    later a panic = refl

    first :
        (o : Outcome (Unit {0} × List ℕ))
        → and_then
            (and_then (and_then o (λ a. repeat n m >>= λ rest. pure (a ∷ rest))) (λ _. void))
            (λ _. k)
          ≡ and_then o (λ _. times n m >> k)
    unfolding and_then ◌>>=◌ times
    first (ok (a, r)) = later a (repeat n m r)
    first (err e) = refl
    first panic = refl

    times-suc : (s : List ℕ) → (times (suc n) m >> k) s ≡ (m >> (times n m >> k)) s
    unfolding times repeat ◌>>=◌
    times-suc s = first (m s)

  pub times-Skips :
      {f : Grammar → Grammar} (k : Reader (Unit {0})) {g : Grammar}
      → ((l : Reader (Unit {0})) (e : Grammar) → Skips l e → Skips (m >> l) (f e))
      → (n : ℕ) → Skips k g
      → Skips (times n m >> k) (iterate n f g)
  unfolding iterate
  times-Skips k step zero p = eq-Skips (times-zero k) p
  times-Skips {f} k {g} step (suc n) p =
      eq-Skips (times-suc n k) (step (times n m >> k) (iterate n f g) (times-Skips k step n p))

-- The value of LAYOUTCOMMIT that is there if a word says so.
pub optional-Skips :
    (c : Bool) (n : ℕ)
    → Skips
        (remaining >>= λ left. if c then (if leb n left then advance n else pure tt) else pure tt)
        (if c then fixed_then n end else end)
unfolding remaining ◌>>=◌ and_then
optional-Skips true n = eq-Skips same (look-Skips n void-Skips)
  where
    same :
        (s : List ℕ)
        → (if leb n (length s) then advance n else pure tt) s
          ≡ (if leb n (length s) then (advance n >> void) else void) s
    same s = elim (Bool-cases (leb n (length s))) [
      | inl t ↦ rw (t, then_void (advance n) s) refl
      | inr f ↦ rw f refl
    ]
optional-Skips false n = eq-Skips (λ s. refl) void-Skips

-- The test for both parts at once fails where one of the two tests fails.
room_eq :
    (a b : ℕ) (k : Reader (Unit {0})) (s : List ℕ)
    → (require (a + b) xdr >> (advance a >> (skip b >> k))) s ≡ (skip a >> (skip b >> k)) s
unfolding require advance ◌>>=◌ and_then
room_eq a b k s =
    let rest = length-drop a s in
    elim (Bool-cases (leb a (length s))) [
      | inl t ↦ elim (Bool-cases (leb b (length (drop a s)))) [
        | inl u ↦
            (let both : leb (a + b) (length s) ≡ true = ground (arith, rest, t, u) in
              rw (both, t, t, u) refl)
        | inr u ↦
            (let none : leb (a + b) (length s) ≡ false = ground (arith, rest, t, u) in
              rw (none, t, t, u) refl)
      ]
      | inr f ↦ (let none : leb (a + b) (length s) ≡ false = ground (arith, f) in rw (none, f) refl)
    ]

pub room-Skips :
    (a b : ℕ) (k : Reader (Unit {0})) {g : Grammar}
    → Skips (skip a >> (skip b >> k)) g
    → Skips (require (a + b) xdr >> (advance a >> (skip b >> k))) g
room-Skips a b k p = eq-Skips (room_eq a b k) p

pub fattr-Skips :
    {k : Reader (Unit {0})} {g : Grammar}
    → Skips k g
    → Skips (skip_fattr4 >> k) (words_then (text_then g))
unfolding skip_fattr4
fattr-Skips {k} p = assoc-Skips k skip_bitmap (λ _. skip_var_bytes) (words-Skips (text-Skips p))

pub entries-Skips : (n : ℕ) → Skips (skip_entries n) (entries n)
unfolding skip_entries entries
entries-Skips zero =
    word-Skips λ more. if-Skips (more == 0) (last-Skips (skip_word-Skips void-Skips)) never-Skips
entries-Skips (suc n) = word-Skips λ more.
    if-Skips (more == 0) (last-Skips (skip_word-Skips void-Skips))
      (fixed-Skips (text-Skips (fattr-Skips (entries-Skips n))) 8)
