-- ===== src/Wire/Words.antt =====
-- `to_be_bytes` of the machine words, and how the readers give them back.
use nfs_rs.Common.{
  ℕ, ◌+◌, ◌*◌, ◌/◌, ◌%◌, ◌^◌, ◌≤◌, ◌≡◌, refl, ap, List, [], ◌∷◌, ◌++◌, length, take-append,
  drop-append, length-append, All, arith, le→leb, append_assoc,
}
use nfs_rs.Errors.{NfsError}
use nfs_rs.Wire.{
  Reader, Outcome, ok, err, panic, and_then, ◌>>=◌, pure, require, get_u32, get_u64, split_to,
  advance, peek, repeat, run_on, IsByte, IsU32, IsU64,
}

-- `n` is below 2 ^ 32 where the source has a u32.
unfoldable pub be32 : ℕ → List ℕ
be32 n = n / 2 ^ 24 % 256 ∷ n / 2 ^ 16 % 256 ∷ n / 2 ^ 8 % 256 ∷ n % 256 ∷ []

unfoldable pub be64 : ℕ → List ℕ
be64 n = be32 (n / 2 ^ 32) ++ be32 (n % 2 ^ 32)

pub length-be32 : (n : ℕ) → length (be32 n) ≡ 4
unfolding be32
length-be32 n = refl

pub length-be64 : (n : ℕ) → length (be64 n) ≡ 8
unfolding be64 be32
length-be64 n = refl

pub be32-IsByte : (n : ℕ) → All IsByte (be32 n)
unfolding be32
be32-IsByte n = omega arith

pub get_u32-be32 : (n : ℕ) (r : List ℕ) → IsU32 n → get_u32 (be32 n ++ r) ≡ ok (n, r)
unfolding get_u32 be32
get_u32-be32 n r h = ap (λ k. ok (k, r)) (omega arith)

-- What a reader gives on an input where the first part succeeds.
module _ {ℓ κ} {A : Type ℓ} {B : Type κ} where
  pub >>=-run :
      (m : Reader A) (f : A → Reader B) {s : List ℕ} {a : A} {r : List ℕ} {o : Outcome (B × List ℕ)}
      → m s ≡ ok (a, r)
      → f a r ≡ o
      → (m >>= f) s ≡ o
  unfolding ◌>>=◌ and_then
  >>=-run m f e p = rw e p

  -- A run that succeeds is a run of the first part and one of the second.
  pub >>=-inv :
      (m : Reader A) (f : A → Reader B) (s : List ℕ) {b : B} {t : List ℕ}
      → (m >>= f) s ≡ ok (b, t)
      → (a : A) × (r : List ℕ) × (m s ≡ ok (a, r)) × (f a r ≡ ok (b, t))
  unfolding ◌>>=◌
  >>=-inv m f s {b} {t} = go (m s)
    where
      go :
          (o : Outcome (A × List ℕ))
          → and_then o f ≡ ok (b, t)
          → (a : A) × (r : List ℕ) × (o ≡ ok (a, r)) × (f a r ≡ ok (b, t))
      go (ok (a, r)) h = (a, r, refl, unfold and_then in h)
      go (err e) h = unfold and_then in cc
      go panic h = unfold and_then in cc

halves : (n : ℕ) → n / 2 ^ 32 * 2 ^ 32 + n % 2 ^ 32 ≡ n
halves n = omega arith

pub get_u64-be64 : (n : ℕ) (r : List ℕ) → IsU64 n → get_u64 (be64 n ++ r) ≡ ok (n, r)
unfolding get_u64 be64 pure
get_u64-be64 n r h = rw append_assoc (
    >>=-run _ _ (get_u32-be32 (n / 2 ^ 32) (be32 (n % 2 ^ 32) ++ r) (omega arith))
      (>>=-run _ _ (get_u32-be32 (n % 2 ^ 32) r (omega arith)) (ap (λ k. ok (k, r)) (halves n))))

pub run_on-run {ℓ} :
    {A : Type ℓ} (m : Reader A) (bytes s : List ℕ) {a : A} {r : List ℕ}
    → m bytes ≡ ok (a, r)
    → run_on bytes m s ≡ ok (a, s)
unfolding run_on
run_on-run m bytes s h = rw (h, run_on) refl

pub require-run : (n : ℕ) (e : NfsError) (s : List ℕ) → n ≤ length s → require n e s ≡ ok (tt, s)
unfolding require
require-run n e s h = rw (le→leb n (length s) h)

pub require32-run :
    (e : NfsError) (n : ℕ) (r : List ℕ) → require 4 e (be32 n ++ r) ≡ ok (tt, be32 n ++ r)
require32-run e n r =
    require-run 4 e (be32 n ++ r) (omega (arith, length-append (be32 n) r, length-be32 n))

pub split_to-run : (n : ℕ) (xs r : List ℕ) → n ≡ length xs → split_to n (xs ++ r) ≡ ok (xs, r)
unfolding split_to
split_to-run n xs r h = rw (
  h,
  le→leb (length xs) (length (xs ++ r)) (omega (arith, length-append xs r)),
  take-append,
  drop-append,
)

pub peek-run : (n : ℕ) (xs r : List ℕ) → n ≡ length xs → peek n (xs ++ r) ≡ ok (xs, xs ++ r)
unfolding peek
peek-run n xs r h =
    rw (h, le→leb (length xs) (length (xs ++ r)) (omega (arith, length-append xs r)), take-append)

pub advance-run : (n : ℕ) (xs r : List ℕ) → n ≡ length xs → advance n (xs ++ r) ≡ ok (tt, r)
unfolding advance
advance-run n xs r h =
    rw (h, le→leb (length xs) (length (xs ++ r)) (omega (arith, length-append xs r)), drop-append)

-- A loop reads back what a loop wrote.
module _ {ℓ} {A : Type ℓ} where
  unfoldable pub concat_map : (A → List ℕ) → List A → List ℕ
  concat_map f [] = []
  concat_map f (x ∷ xs) = f x ++ concat_map f xs

  pub repeat-run :
      {P : A → Type 0} (m : Reader A) (write : A → List ℕ)
      → ((a : A) (r : List ℕ) → P a → m (write a ++ r) ≡ ok (a, r))
      → (xs : List A) (r : List ℕ) → All P xs
      → repeat (length xs) m (concat_map write xs ++ r) ≡ ok (xs, r)
  unfolding repeat concat_map pure
  repeat-run m write back [] r h = refl
  repeat-run m write back (x ∷ xs) r h = rw append_assoc (
      >>=-run _ _ (back x (concat_map write xs ++ r) h.0)
        (>>=-run _ _ (repeat-run m write back xs r h.1) refl))

pub length-words : (ws : List ℕ) → length (concat_map be32 ws) ≡ length ws * 4
unfolding concat_map
length-words [] = refl
length-words (w ∷ ws) =
    omega (arith, length-append (be32 w) (concat_map be32 ws), length-be32 w, length-words ws)
