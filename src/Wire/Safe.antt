-- ===== src/Wire/Safe.antt =====
-- Readers that do not panic. `Safe n m` says that `m` does not panic on any input of at least `n`
-- bytes; there is a rule for each way in which a reader is put together.
use nfs_rs.Common.{
  ℕ, zero, suc, ◌+◌, ◌-◌, ◌*◌, ◌^◌, ◌≤◌, ◌≡◌, refl, ◌≢◌, List, [], ◌∷◌, length, length-drop, drop,
  arith, leb, if◌then◌else◌, Bool, true, false, Bool-cases, inl, inr, ◌⊎◌, leb→le, le→leb, take,
}
use nfs_rs.Errors.{NfsError}
use nfs_rs.Wire.{
  Reader, Outcome, ok, err, panic, and_then, ◌>>=◌, pure, fail, require, get_u32, get_u64, split_to,
  advance, peek, repeat, remaining, run_on,
}

pub record Safe {ℓ} {A : Type ℓ} (n : ℕ) (m : Reader A) : Type ℓ where
  pub apply : (s : List ℕ) → n ≤ length s → m s ≢ panic

-- A reader that also says how far it goes: it does not panic on `n` bytes, and takes `k` of them.
pub record Takes {ℓ} {A : Type ℓ} (n k : ℕ) (m : Reader A) : Type ℓ where
  pub runs :
      (s : List ℕ)
      → n ≤ length s
      → (a : A) × (r : List ℕ) × (m s ≡ ok (a, r)) × (length s ≡ length r + k)

module _ {ℓ} {A : Type ℓ} where
  pub pure-Safe : {n : ℕ} (a : A) → Safe n (pure a)
  unfolding pure
  pure-Safe a = record { apply = λ s h e. cc }

  pub fail-Safe : {n : ℕ} (e : NfsError) → Safe n (fail {A = A} e)
  unfolding fail
  fail-Safe e = record { apply = λ s h e. cc }

  pub Safe-weaken : {n : ℕ} {m : Reader A} → Safe 0 m → Safe n m
  Safe-weaken w = record { apply = λ s h. w.apply s (omega arith) }

  pub if-Safe :
      {n : ℕ} {x y : Reader A} (b : Bool) → Safe n x → Safe n y → Safe n (if b then x else y)
  if-Safe true p q = p
  if-Safe false p q = q

module _ {ℓ κ} {A : Type ℓ} {B : Type κ} where
  pub bind-Safe :
      {n : ℕ} {m : Reader A} {f : A → Reader B}
      → Safe n m
      → ((a : A) → Safe 0 (f a))
      → Safe n (m >>= f)
  unfolding ◌>>=◌
  bind-Safe {n} {m} {f} p q = record { apply = λ s h. go (m s) (p.apply s h) }
    where
      go : (o : Outcome (A × List ℕ)) → o ≢ panic → and_then o f ≢ panic
      go (ok (a, r)) ne = (q a).apply r (omega arith)
      go (err e) ne = λ x. cc
      go panic ne = absurd (ne refl)

  pub take_then-Safe :
      {n k i : ℕ} {m : Reader A} {f : A → Reader B}
      → Takes n k m
      → n ≤ i
      → k ≤ i
      → ((a : A) → Safe (i - k) (f a))
      → Safe i (m >>= f)
  unfolding ◌>>=◌
  take_then-Safe {n} {k} {i} {m} {f} t hn hk q = record {
    apply = λ s h. go s h (t.runs s (omega arith));
  }
    where
      go :
          (s : List ℕ)
          → i ≤ length s
          → ((a : A) × (r : List ℕ) × (m s ≡ ok (a, r)) × (length s ≡ length r + k))
          → and_then (m s) f ≢ panic
      go s h (a, r, e, l) = rw e ((q a).apply r (omega arith))

-- A reader that only looks: it fails, or it leaves the bytes as they are.
pub record Keeps {ℓ} {A : Type ℓ} (m : Reader A) : Type ℓ where
  pub looks : (s : List ℕ) → ((e : NfsError) × (m s ≡ err e)) ⊎ ((a : A) × (m s ≡ ok (a, s)))

module _ {ℓ} {A : Type ℓ} where
  pub pure-Keeps : (a : A) → Keeps (pure a)
  unfolding pure
  pure-Keeps a = record { looks = λ s. inr (a, refl) }

  pub fail-Keeps : (e : NfsError) → Keeps (fail {A = A} e)
  unfolding fail
  fail-Keeps e = record { looks = λ s. inl (e, refl) }

  pub if-Keeps : {x y : Reader A} (b : Bool) → Keeps x → Keeps y → Keeps (if b then x else y)
  if-Keeps true p q = p
  if-Keeps false p q = q

pub keep_then-Safe {ℓ κ} :
    {A : Type ℓ} {B : Type κ} {n : ℕ} {m : Reader A} {f : A → Reader B}
    → Keeps m
    → ((a : A) → Safe n (f a))
    → Safe n (m >>= f)
unfolding ◌>>=◌ and_then
keep_then-Safe {m} {f} k q = record {
  apply =
      λ s h. elim (k.looks s) [ inl (e, p) ↦ rw p (λ x. cc) | inr (a, p) ↦ rw p ((q a).apply s h) ];
}

module _ {κ} {B : Type κ} where
  pub require-Safe :
      (n : ℕ) (e : NfsError) {f : Unit {0} → Reader B}
      → ((u : Unit {0}) → Safe n (f u))
      → Safe 0 (require n e >>= f)
  unfolding ◌>>=◌ require and_then
  require-Safe n e {f} p = record {
    apply = λ s h. elim (Bool-cases (leb n (length s))) [
      | inl t ↦ rw t ((p tt).apply s (leb→le n (length s) t))
      | inr t ↦ rw t (λ x. cc)
    ];
  }

pub Takes→Safe {ℓ} : {A : Type ℓ} {n k : ℕ} {m : Reader A} → Takes n k m → Safe n m
Takes→Safe {A} {n} {k} {m} t = record { apply = λ s h x. go (t.runs s h) x }
  where
    go :
        {s : List ℕ}
        → (a : A) × (r : List ℕ) × (m s ≡ ok (a, r)) × (length s ≡ length r + k)
        → m s ≢ panic
    go (a, r, e, l) = rw e (λ x. cc)

pub get_u32-Takes : Takes 4 4 get_u32
unfolding get_u32
get_u32-Takes = record { runs = go }
  where
    go :
        (s : List ℕ)
        → 4 ≤ length s
        → (a : ℕ) × (r : List ℕ) × (get_u32 s ≡ ok (a, r)) × (length s ≡ length r + 4)
    go [] h = absurd (omega arith)
    go (a ∷ []) h = absurd (omega arith)
    go (a ∷ b ∷ []) h = absurd (omega arith)
    go (a ∷ b ∷ c ∷ []) h = absurd (omega arith)
    go (a ∷ b ∷ c ∷ d ∷ r) h = (_, r, refl, omega arith)

pub get_u64-Takes : Takes 8 8 get_u64
unfolding get_u64 ◌>>=◌ pure and_then
get_u64-Takes = record { runs = go }
  where
    go :
        (s : List ℕ)
        → 8 ≤ length s
        → (a : ℕ) × (r : List ℕ) × (get_u64 s ≡ ok (a, r)) × (length s ≡ length r + 8)
    go s h =
        let (a, r, e, l) = get_u32-Takes.runs s (omega arith) in
        let (b, r', e', l') = get_u32-Takes.runs r (omega arith) in
        (a * 2 ^ 32 + b, r', rw (e, and_then, e', and_then) refl, omega arith)

pub split_to-Takes : (n : ℕ) → Takes n n (split_to n)
unfolding split_to
split_to-Takes n = record {
  runs = λ s h. (take n s, drop n s, rw (le→leb n (length s) h), omega (arith, length-drop n s));
}

pub advance-Takes : (n : ℕ) → Takes n n (advance n)
unfolding advance
advance-Takes n = record {
  runs = λ s h. (tt, drop n s, rw (le→leb n (length s) h), omega (arith, length-drop n s));
}

pub peek-Takes : (n : ℕ) → Takes n 0 (peek n)
unfolding peek
peek-Takes n = record { runs = λ s h. (take n s, s, rw (le→leb n (length s) h), omega arith) }

pub remaining-Takes : Takes 0 0 remaining
unfolding remaining
remaining-Takes = record { runs = λ s h. (length s, s, refl, omega arith) }

module _ {κ} {B : Type κ} where
  pub u32-Safe :
      {n : ℕ} {f : ℕ → Reader B} → 4 ≤ n → ((a : ℕ) → Safe (n - 4) (f a)) → Safe n (get_u32 >>= f)
  u32-Safe h q = take_then-Safe get_u32-Takes h h q

  pub u64-Safe :
      {n : ℕ} {f : ℕ → Reader B} → 8 ≤ n → ((a : ℕ) → Safe (n - 8) (f a)) → Safe n (get_u64 >>= f)
  u64-Safe h q = take_then-Safe get_u64-Takes h h q

module _ {ℓ} {A : Type ℓ} where
  pub repeat-Safe : {m : Reader A} (n : ℕ) → Safe 0 m → Safe 0 (repeat n m)
  unfolding repeat
  repeat-Safe zero p = pure-Safe _
  repeat-Safe (suc n) p = bind-Safe p (λ a. bind-Safe (repeat-Safe n p) (λ r. pure-Safe _))

  pub run_on-Safe : (bytes : List ℕ) {m : Reader A} → Safe 0 m → Safe 0 (run_on bytes m)
  unfolding run_on
  run_on-Safe bytes {m} p = record { apply = λ s h. go s (m bytes) (p.apply bytes (omega arith)) }
    where
      go :
          (s : List ℕ) (o : Outcome (A × List ℕ))
          → o ≢ panic
          → elim o as (λ _. Outcome (A × List ℕ)) [
            | ok (a, r) ↦ ok (a, s)
            | err e ↦ err e
            | panic ↦ panic
          ]
            ≢ panic
      go s (ok (a, r)) ne = λ x. cc
      go s (err e) ne = λ x. cc
      go s panic ne = absurd (ne refl)
