-- ===== src/Wire/Grammar.antt =====
-- Arguments of a request as a list of XDR fields, and a grammar that says which fields follow each
-- other: a reader for the side of the server.
use nfs_rs.Common.{
  ℕ, ◌%◌, ◌^◌, ◌≡◌, refl, sym, Bool, true, false, ◌&&◌, List, [], ◌∷◌, ◌++◌, length, append_assoc,
  All, length-append, ◌==◌, ==_iff, arith,
}
use native.Mathlib.Nat.{mod-eq_of_lt}
use nfs_rs.Errors.{xdr}
use nfs_rs.Wire.{
  Reader, ok, ◌>>=◌, ◌>>◌, pure, fail, require, split_to, repeat, IsU32, IsU64, get_u64,
}
use nfs_rs.Wire.Words.{
  be32, be64, length-be64, get_u64-be64, >>=-run, require-run, split_to-run, concat_map, repeat-run,
}
use nfs_rs.Wire.Opaque.{xdr_opaque, take_u32, take_u32-run, take_opaque, take_opaque-run}

pub data Field : Type 0 where
  word : ℕ → Field
  wide : ℕ → Field
  fixed : ℕ → List ℕ → Field
  text : List ℕ → Field
  words : List ℕ → Field

unfoldable pub encode_field : Field → List ℕ
encode_field (word n) = be32 n
encode_field (wide n) = be64 n
encode_field (fixed n bytes) = bytes
encode_field (text value) = xdr_opaque value
encode_field (words ws) = be32 (length ws % 2 ^ 32) ++ concat_map be32 ws

unfoldable pub encode_fields : List Field → List ℕ
unfolding encode_field
encode_fields [] = []
encode_fields (f ∷ []) = encode_field f
encode_fields (f ∷ g ∷ fs) = encode_field f ++ encode_fields (g ∷ fs)

-- The values have the width that the source's types give them.
unfoldable pub IsSized : Field → Type 0
IsSized (word n) = IsU32 n
IsSized (wide n) = IsU64 n
IsSized (fixed n bytes) = length bytes ≡ n
IsSized (text value) = IsU32 (length value)
IsSized (words ws) = IsU32 (length ws) × All IsU32 ws

-- What may follow can depend on a word; nothing follows `never`.
pub data Grammar : Type 0 where
  never end : Grammar
  word_then : (ℕ → Grammar) → Grammar
  wide_then : Grammar → Grammar
  fixed_then : ℕ → Grammar → Grammar
  text_then : Grammar → Grammar
  words_then : Grammar → Grammar

unfoldable pub matches : Grammar → List Field → Bool
matches end [] = true
matches (word_then k) (word n ∷ fs) = matches (k n) fs
matches (wide_then g) (wide n ∷ fs) = matches g fs
matches (fixed_then n g) (fixed m bytes ∷ fs) = n == m && matches g fs
matches (text_then g) (text value ∷ fs) = matches g fs
matches (words_then g) (words ws ∷ fs) = matches g fs
matches _ _ = false

pub take_u64 : Reader ℕ
take_u64 = require 8 xdr >> get_u64

pub take_fixed : ℕ → Reader (List ℕ)
take_fixed n = require n xdr >> split_to n

pub take_words : Reader (List ℕ)
take_words = do n ← take_u32; repeat n take_u32

unfoldable pub read_fields : Grammar → Reader (List Field)
unfolding take_u64
read_fields never = fail xdr
read_fields end = pure []
read_fields (word_then k) = do n ← take_u32; fs ← read_fields (k n); pure (word n ∷ fs)
read_fields (wide_then g) = do n ← take_u64; fs ← read_fields g; pure (wide n ∷ fs)
read_fields (fixed_then n g) = do
  bytes ← take_fixed n
  fs ← read_fields g
  pure (fixed n bytes ∷ fs)
read_fields (text_then g) = do value ← take_opaque; fs ← read_fields g; pure (text value ∷ fs)
read_fields (words_then g) = do ws ← take_words; fs ← read_fields g; pure (words ws ∷ fs)

pub encode_fields-cons :
    (f : Field) (fs : List Field) (r : List ℕ)
    → encode_fields (f ∷ fs) ++ r ≡ encode_field f ++ (encode_fields fs ++ r)
unfolding encode_fields
encode_fields-cons f [] r = refl
encode_fields-cons f (g ∷ fs) r = append_assoc (encode_field f) (encode_fields (g ∷ fs)) r

take_u64-run : (n : ℕ) (r : List ℕ) → IsU64 n → take_u64 (be64 n ++ r) ≡ ok (n, r)
unfolding take_u64
take_u64-run n r h =
    >>=-run _ _
      (require-run 8 xdr (be64 n ++ r) (omega (arith, length-append (be64 n) r, length-be64 n)))
      (get_u64-be64 n r h)

take_fixed-run :
    (n : ℕ) (bytes r : List ℕ) → length bytes ≡ n → take_fixed n (bytes ++ r) ≡ ok (bytes, r)
unfolding take_fixed
take_fixed-run n bytes r h =
    >>=-run _ _ (require-run n xdr (bytes ++ r) (omega (arith, length-append bytes r)))
      (split_to-run n bytes r (sym h))

take_words-run :
    (ws r : List ℕ) → IsSized (words ws) → take_words (encode_field (words ws) ++ r) ≡ ok (ws, r)
unfolding take_words IsSized encode_field
take_words-run ws r h =
    rw (append_assoc, mod-eq_of_lt h.0)
      (>>=-run _ _ (take_u32-run (length ws) (concat_map be32 ws ++ r) h.0)
        (repeat-run take_u32 be32 take_u32-run ws r h.1))

pub and_left : (a b : Bool) → (a && b) ≡ true → a ≡ true
and_left a b h = ground (arith, h)

pub and_right : (a b : Bool) → (a && b) ≡ true → b ≡ true
and_right a b h = ground (arith, h)

-- A list of fields that follows the grammar is read back from its bytes.
pub read_fields-encode_fields :
    (g : Grammar) (fs : List Field) (r : List ℕ)
    → matches g fs ≡ true
    → All IsSized fs
    → read_fields g (encode_fields fs ++ r) ≡ ok (fs, r)
unfolding read_fields pure matches encode_field IsSized
read_fields-encode_fields end [] r m h = unfold encode_fields in refl
read_fields-encode_fields (word_then k) (word n ∷ fs) r m h =
    rw (encode_fields-cons (word n) fs r) (
      >>=-run _ _ (take_u32-run n _ h.0)
        (>>=-run _ _ (read_fields-encode_fields (k n) fs r m h.1) refl))
read_fields-encode_fields (wide_then g) (wide n ∷ fs) r m h =
    rw (encode_fields-cons (wide n) fs r) (
      >>=-run _ _ (take_u64-run n _ h.0)
        (>>=-run _ _ (read_fields-encode_fields g fs r m h.1) refl))
read_fields-encode_fields (fixed_then n g) (fixed k bytes ∷ fs) r m h =
    let same : n ≡ k = (==_iff n k).0 (and_left (n == k) (matches g fs) m) in
    rw (same, encode_fields-cons (fixed k bytes) fs r)
      (>>=-run _ _ (take_fixed-run k bytes _ h.0) (
        >>=-run _ _ (read_fields-encode_fields g fs r (and_right (n == k) (matches g fs) m) h.1)
          refl))
read_fields-encode_fields (text_then g) (text value ∷ fs) r m h =
    rw (encode_fields-cons (text value) fs r) (
      >>=-run _ _ (take_opaque-run value _ h.0)
        (>>=-run _ _ (read_fields-encode_fields g fs r m h.1) refl))
read_fields-encode_fields (words_then g) (words ws ∷ fs) r m h =
    rw (encode_fields-cons (words ws) fs r) (
      >>=-run _ _ (take_words-run ws _ h.0)
        (>>=-run _ _ (read_fields-encode_fields g fs r m h.1) refl))
read_fields-encode_fields g fs r m h = absurd (ground (arith, m))
