-- ===== src/Wire.antt =====
-- Byte strings and the readers of the client. A byte string is a list of numbers below 256. A
-- reader takes the bytes that remain in a `bytes::Bytes` and gives a value and the bytes behind
-- it, or an error, or it panics: `Buf::get_u32` and its like panic when too few bytes remain, so
-- a decoder has to test `remaining()` first.
pub mod Gives
pub mod Safe
pub mod Words
pub mod Opaque
pub mod Utf8
pub mod Grammar
use nfs_rs.Common.{
  ℕ, zero, suc, ◌+◌, ◌*◌, ◌/◌, ◌%◌, ◌^◌, ◌≤◌, ◌<◌, ◌≡◌, refl, ◌∙◌, List, [], ◌∷◌, ◌++◌, length,
  take, drop, leb, if◌then◌else◌,
}
use nfs_rs.Errors.{NfsError, xdr}

abbrev pub IsByte : ℕ → Type 0
IsByte b = b < 256

abbrev pub IsU32 : ℕ → Type 0
IsU32 n = n < 2 ^ 32

abbrev pub IsU64 : ℕ → Type 0
IsU64 n = n < 2 ^ 64

pub data Outcome {ℓ} (A : Type ℓ) : Type ℓ where
  ok : A → Outcome A
  err : NfsError → Outcome A
  panic : Outcome A

abbrev pub Reader {ℓ} : Type ℓ → Type ℓ
Reader A = List ℕ → Outcome (A × List ℕ)

unfoldable pub and_then {ℓ κ} :
    {A : Type ℓ} {B : Type κ} → Outcome (A × List ℕ) → (A → Reader B) → Outcome (B × List ℕ)
and_then (ok (a, r)) f = f a r
and_then (err e) f = err e
and_then panic f = panic

-- The `?` operator between two readers.
infixl 5 ◌>>=◌ ◌>>◌
unfoldable pub ◌>>=◌ {ℓ κ} : {A : Type ℓ} {B : Type κ} → Reader A → (A → Reader B) → Reader B
unfolding and_then
◌>>=◌ m f s = and_then (m s) f

abbrev pub ◌>>◌ {ℓ} : {B : Type ℓ} → Reader (Unit {0}) → Reader B → Reader B
m >> k = m >>= λ _. k

unfoldable pub pure {ℓ} : {A : Type ℓ} → A → Reader A
pure a s = ok (a, s)

unfoldable pub fail {ℓ} : {A : Type ℓ} → NfsError → Reader A
fail e s = err e

-- `if buf.remaining() < n { return Err(e); }`
unfoldable pub require : ℕ → NfsError → Reader (Unit {0})
require n e s = if leb n (length s) then ok (tt, s) else err e

-- `Buf::get_u32`, big-endian.
unfoldable pub get_u32 : Reader ℕ
get_u32 (a ∷ b ∷ c ∷ d ∷ r) = ok (a * 2 ^ 24 + b * 2 ^ 16 + c * 2 ^ 8 + d, r)
get_u32 _ = panic

unfoldable pub get_u64 : Reader ℕ
get_u64 = do hi ← get_u32; lo ← get_u32; pure (hi * 2 ^ 32 + lo)

-- `Bytes::split_to`, which panics beyond the end.
unfoldable pub split_to : ℕ → Reader (List ℕ)
split_to n s = if leb n (length s) then ok (take n s, drop n s) else panic

-- `Buf::advance`, which panics beyond the end.
unfoldable pub advance : ℕ → Reader (Unit {0})
advance n s = if leb n (length s) then ok (tt, drop n s) else panic

-- `buf.slice(..n)`: the bytes stay; it panics beyond the end.
unfoldable pub peek : ℕ → Reader (List ℕ)
peek n s = if leb n (length s) then ok (take n s, s) else panic

-- A loop `for _ in 0..n { out.push(m?) }`.
unfoldable pub repeat {ℓ} : {A : Type ℓ} → ℕ → Reader A → Reader (List A)
repeat zero m = pure []
repeat (suc n) m = do a ← m; rest ← repeat n m; pure (a ∷ rest)

-- `Buf::remaining`.
unfoldable pub remaining : Reader ℕ
remaining s = ok (length s, s)

-- A reader run on a byte string of its own.
unfoldable pub run_on {ℓ} : {A : Type ℓ} → List ℕ → Reader A → Reader A
run_on bytes m s = elim (m bytes) [ ok (a, r) ↦ ok (a, s) | err e ↦ err e | panic ↦ panic ]
