-- ===== src/Wire/Gives.antt =====
-- What readers give for bytes, and that they leave bytes.
use nfs_rs.Common.{
  ℕ, ◌≡◌, subst, Bool, true, false, List, ◌∷◌, Option, none, some, leb, if◌then◌else◌, length,
  arith, Bool-cases, inl, inr, All, All-drop,
}
use nfs_rs.Errors.{NfsError, xdr}
use nfs_rs.Wire.{
  Reader, Outcome, ok, ◌>>=◌, pure, fail, require, get_u32, split_to, advance, peek, remaining,
  IsByte, IsU32,
}
use nfs_rs.Wire.Words.{>>=-inv}
use nfs_rs.Wire.Opaque.{take_u32, take_opaque, take_padded}

-- What a reader gives for bytes, with bytes behind it.
pub record Inherits {ℓ} {A : Type ℓ} (P : A → Type 0) (m : Reader A) : Type ℓ where
  pub passes :
      (s : List ℕ) (a : A) (r : List ℕ) → All IsByte s → m s ≡ ok (a, r) → P a × All IsByte r

-- What a reader gives for bytes.
pub record Gives {ℓ} {A : Type ℓ} (P : A → Type 0) (m : Reader A) : Type ℓ where
  pub gives : (s : List ℕ) (a : A) (r : List ℕ) → All IsByte s → m s ≡ ok (a, r) → P a

-- What a reader gives for any input.
pub record Always {ℓ} {A : Type ℓ} (P : A → Type 0) (m : Reader A) : Type ℓ where
  pub holds : (s : List ℕ) (a : A) (r : List ℕ) → m s ≡ ok (a, r) → P a

module _ {ℓ} {A : Type ℓ} where
  pub ok-inj :
      {a b : A} {s r : List ℕ} → ◌≡◌ {A = Outcome (A × List ℕ)} (ok (a, s)) (ok (b, r)) → a ≡ b
  ok-inj h = ground (arith, h)

  pub rest-inj :
      {a b : A} {s r : List ℕ} → ◌≡◌ {A = Outcome (A × List ℕ)} (ok (a, s)) (ok (b, r)) → s ≡ r
  rest-inj h = ground (arith, h)

module _ {ℓ} {A : Type ℓ} {P : A → Type 0} where
  pub pure-Always : (a : A) → P a → Always P (pure a)
  unfolding pure
  pure-Always a p = record { holds = λ s b r h. subst P (ok-inj h) p }

  pub fail-Always : (e : NfsError) → Always P (fail {A = A} e)
  unfolding fail
  fail-Always e = record { holds = λ s b r h. absurd (ground (arith, h)) }

  pub Always-Gives : {m : Reader A} → Always P m → Gives P m
  Always-Gives h = record { gives = λ s a r b e. h.holds s a r e }

  pub if-Gives : {x y : Reader A} (b : Bool) → Gives P x → Gives P y → Gives P (if b then x else y)
  if-Gives true p q = p
  if-Gives false p q = q

  pub if-Always :
      {x y : Reader A} (b : Bool) → Always P x → Always P y → Always P (if b then x else y)
  if-Always true p q = p
  if-Always false p q = q

module _ {ℓ κ} {A : Type ℓ} {B : Type κ} where
  pub bind-Always :
      {P : B → Type 0} (m : Reader A) {f : A → Reader B}
      → ((a : A) → Always P (f a))
      → Always P (m >>= f)
  bind-Always {P} m {f} q = record {
    holds = λ s b r h. (let (a, t, first, second) = >>=-inv m f s h in (q a).holds t b r second);
  }

  pub chain-Always :
      {P : A → Type 0} {Q : B → Type 0} {m : Reader A} {f : A → Reader B}
      → Always P m
      → ((a : A) → P a → Always Q (f a))
      → Always Q (m >>= f)
  chain-Always {m} {f} p q = record {
    holds = λ s b r h.
        (let (a, t, first, second) = >>=-inv m f s h in
          (q a (p.holds s a t first)).holds t b r second);
  }

  pub bind-Gives :
      {P : A → Type 0} {Q : B → Type 0} {m : Reader A} {f : A → Reader B}
      → Inherits P m
      → ((a : A) → P a → Gives Q (f a))
      → Gives Q (m >>= f)
  bind-Gives {m} {f} p q = record {
    gives = λ s b r bytes h.
        (let (a, t, first, second) = >>=-inv m f s h in
          let (pa, rest) = p.passes s a t bytes first in (q a pa).gives t b r rest second);
  }

  pub bind-Inherits :
      {P : A → Type 0} {Q : B → Type 0} {m : Reader A} {f : A → Reader B}
      → Inherits P m
      → ((a : A) → P a → Inherits Q (f a))
      → Inherits Q (m >>= f)
  bind-Inherits {m} {f} p q = record {
    passes = λ s b r bytes h.
        (let (a, t, first, second) = >>=-inv m f s h in
          let (pa, rest) = p.passes s a t bytes first in (q a pa).passes t b r rest second);
  }

abbrev pub Any {ℓ} : {A : Type ℓ} → A → Type 0
Any a = Unit {0}

pub pure-Inherits {ℓ} : {A : Type ℓ} {P : A → Type 0} (a : A) → P a → Inherits P (pure a)
unfolding pure
pure-Inherits {P} a p = record {
  passes = λ s b r bytes h. (subst P (ok-inj h) p, subst (All IsByte) (rest-inj h) bytes);
}

pub fail-Inherits {ℓ} : {A : Type ℓ} {P : A → Type 0} (e : NfsError) → Inherits P (fail {A = A} e)
unfolding fail
fail-Inherits e = record { passes = λ s b r bytes h. absurd (ground (arith, h)) }

pub require-Inherits : (n : ℕ) (e : NfsError) → Inherits Any (require n e)
unfolding require
require-Inherits n e = record {
  passes = λ s a r bytes h. elim (Bool-cases (leb n (length s))) [
    | inl t ↦ (tt, subst (All IsByte) (rest-inj (rw t at h)) bytes)
    | inr f ↦ absurd (ground (arith, f, h))
  ];
}

pub remaining-Inherits : Inherits Any remaining
unfolding remaining
remaining-Inherits = record {
  passes = λ s a r bytes h. (tt, subst (All IsByte) (rest-inj h) bytes);
}

pub get_u32-Inherits : Inherits IsU32 get_u32
unfolding get_u32
get_u32-Inherits = record { passes = go }
  where
    go :
        (s : List ℕ) (n : ℕ) (r : List ℕ)
        → All IsByte s
        → get_u32 s ≡ ok (n, r)
        → IsU32 n × All IsByte r
    go (a ∷ b ∷ c ∷ d ∷ r) n r' bytes h = (
      subst IsU32 (ok-inj h) (omega (arith, bytes.0, bytes.1.0, bytes.1.1.0, bytes.1.1.1.0)),
      subst (All IsByte) (rest-inj h) bytes.1.1.1.1,
    )
    go s n r bytes h = absurd (ground (arith, h))

module _ (n : ℕ) where
  pub split_to-Inherits : Inherits Any (split_to n)
  unfolding split_to
  split_to-Inherits = record {
    passes = λ s a r bytes h. elim (Bool-cases (leb n (length s))) [
      | inl t ↦ (tt, subst (All IsByte) (rest-inj (rw t at h)) (All-drop IsByte n s bytes))
      | inr f ↦ absurd (ground (arith, f, h))
    ];
  }

  pub advance-Inherits : Inherits Any (advance n)
  unfolding advance
  advance-Inherits = record {
    passes = λ s a r bytes h. elim (Bool-cases (leb n (length s))) [
      | inl t ↦ (tt, subst (All IsByte) (rest-inj (rw t at h)) (All-drop IsByte n s bytes))
      | inr f ↦ absurd (ground (arith, f, h))
    ];
  }

  pub peek-Inherits : Inherits Any (peek n)
  unfolding peek
  peek-Inherits = record {
    passes = λ s a r bytes h. elim (Bool-cases (leb n (length s))) [
      | inl t ↦ (tt, subst (All IsByte) (rest-inj (rw t at h)) bytes)
      | inr f ↦ absurd (ground (arith, f, h))
    ];
  }

pub take_padded-Inherits : (len : ℕ) (o : Option ℕ) → Inherits Any (take_padded len o)
unfolding take_padded
take_padded-Inherits len none = fail-Inherits xdr
take_padded-Inherits len (some sum) = bind-Inherits (require-Inherits _ xdr) λ _ _.
    bind-Inherits (peek-Inherits len)
      λ v _. bind-Inherits (advance-Inherits _) λ _ _. pure-Inherits v tt

pub take_opaque-Inherits : Inherits Any take_opaque
unfolding take_opaque take_u32
take_opaque-Inherits =
    bind-Inherits (bind-Inherits (require-Inherits 4 xdr) λ _ _. get_u32-Inherits)
      λ len _. take_padded-Inherits len _

module _ {ℓ κ} {A : Type ℓ} {B : Type κ} where
  pub then-Gives :
      {P : A → Type 0} {Q : B → Type 0} {m : Reader A} {f : A → Reader B}
      → Gives P m
      → ((a : A) → P a → Always Q (f a))
      → Gives Q (m >>= f)
  then-Gives {m} {f} p q = record {
    gives = λ s b r bytes h.
        (let (a, t, first, second) = >>=-inv m f s h in
          (q a (p.gives s a t bytes first)).holds t b r second);
  }
