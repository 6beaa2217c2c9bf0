-- ===== src/Nfs41/Compound/Reply/Rules.antt =====
-- A part of the decoder takes exactly the fields that a grammar allows: a rule for each way in which
-- such parts are put together.
use nfs_rs.Common.{
  ℕ, ◌*◌, ◌≤◌, ◌%◌, ◌^◌, ◌≡◌, refl, sym, ◌∙◌, Bool, true, false, List, [], ◌∷◌, ◌++◌, length, All,
  append_assoc, length-append, ltb, leb, le→leb, ◌==◌, ==_iff, if◌then◌else◌, arith,
}
use native.Mathlib.Nat.{mod-eq_of_lt}
use nfs_rs.Errors.{xdr}
use nfs_rs.Wire.{
  Reader, Outcome, ok, err, panic, and_then, ◌>>=◌, ◌>>◌, pure, advance, remaining, IsU32,
}
use nfs_rs.Wire.Words.{
  length-words, be32, length-be32, get_u32-be32, >>=-run, require-run, require32-run, advance-run,
  concat_map,
}
use nfs_rs.Wire.Opaque.{xdr_opaque, padded, xdr_opaque-parts}
use nfs_rs.Wire.Grammar.{
  Field, word, wide, fixed, text, words, encode_field, encode_fields, encode_fields-cons, IsSized,
  Grammar, never, end, word_then, fixed_then, text_then, words_then, matches, and_left, and_right,
}
use nfs_rs.Nfs41.Compound.Reply.Skip.{skip, checked_u32, skip_var_bytes, skip_bitmap}
use nfs_rs.Nfs41.Compound.Reply.Results.{void}

-- A field of a reply: its value has its width, and a bitmap is not longer than the client accepts.
unfoldable pub IsReplyField : Field → Type 0
unfolding IsSized
IsReplyField (words ws) = IsSized (words ws) × (length ws ≤ 16)
IsReplyField (word n) = IsSized (word n)
IsReplyField (wide n) = IsSized (wide n)
IsReplyField (fixed n bytes) = IsSized (fixed n bytes)
IsReplyField (text value) = IsSized (text value)

pub record Skips (m : Reader (Unit {0})) (g : Grammar) : Type 0 where
  pub runs :
      (fs : List Field) (r : List ℕ)
      → matches g fs ≡ true
      → All IsReplyField fs
      → m (encode_fields fs ++ r) ≡ ok (tt, r)

pub skip-run : (n : ℕ) (bytes r : List ℕ) → n ≡ length bytes → skip n (bytes ++ r) ≡ ok (tt, r)
skip-run n bytes r h =
    >>=-run _ _ (require-run n xdr (bytes ++ r) (omega (arith, length-append bytes r)))
      (advance-run n bytes r h)

pub checked_u32-run : (n : ℕ) (r : List ℕ) → IsU32 n → checked_u32 (be32 n ++ r) ≡ ok (n, r)
checked_u32-run n r h = >>=-run _ _ (require32-run xdr n r) (get_u32-be32 n r h)

skip_var_bytes-run :
    (v r : List ℕ) → IsU32 (length v) → skip_var_bytes (xdr_opaque v ++ r) ≡ ok (tt, r)
unfolding skip_var_bytes
skip_var_bytes-run v r h =
    let (z, parts, whole) = xdr_opaque-parts v r h in
    rw parts (
      >>=-run _ _ (checked_u32-run (length v) ((v ++ z) ++ r) h)
        (skip-run (padded (length v)) (v ++ z) r whole))

le→not-lt : (a b : ℕ) → b ≤ a → ltb a b ≡ false
le→not-lt a b h = ground arith

skip_bitmap-run :
    (ws r : List ℕ)
    → IsU32 (length ws)
    → length ws ≤ 16
    → skip_bitmap (encode_field (words ws) ++ r) ≡ ok (tt, r)
unfolding skip_bitmap encode_field
skip_bitmap-run ws r h short =
    rw (append_assoc (be32 (length ws % 2 ^ 32)) (concat_map be32 ws) r, mod-eq_of_lt h)
      (>>=-run _ _ (checked_u32-run (length ws) (concat_map be32 ws ++ r) h) (
        rw (le→not-lt 16 (length ws) short)
          (skip-run (length ws * 4) (concat_map be32 ws) r (sym (length-words ws)))))

pub void-Skips : Skips void end
unfolding pure matches
void-Skips = record { runs = go }
  where
    go :
        (fs : List Field) (r : List ℕ)
        → matches end fs ≡ true
        → All IsReplyField fs
        → void (encode_fields fs ++ r) ≡ ok (tt, r)
    go [] r m h = unfold encode_fields in refl
    go (f ∷ fs) r m h = absurd (ground (arith, m))

module _ {k : Reader (Unit {0})} {g : Grammar} (rest : Skips k g) where
  pub fixed-Skips : (n : ℕ) → Skips (skip n >> k) (fixed_then n g)
  unfolding matches encode_field IsReplyField IsSized
  fixed-Skips n = record { runs = go }
    where
      go :
          (fs : List Field) (r : List ℕ)
          → matches (fixed_then n g) fs ≡ true
          → All IsReplyField fs
          → (skip n >> k) (encode_fields fs ++ r) ≡ ok (tt, r)
      go (fixed i bytes ∷ fs) r m h =
          let same : n ≡ i = (==_iff n i).0 (and_left (n == i) (matches g fs) m) in
          rw (encode_fields-cons (fixed i bytes) fs r) (
            >>=-run _ _ (skip-run n bytes (encode_fields fs ++ r) (same ∙ sym h.0))
              (rest.runs fs r (and_right (n == i) (matches g fs) m) h.1))
      go fs r m h = absurd (ground (arith, m))

  pub text-Skips : Skips (skip_var_bytes >> k) (text_then g)
  unfolding matches encode_field IsReplyField IsSized
  text-Skips = record { runs = go }
    where
      go :
          (fs : List Field) (r : List ℕ)
          → matches (text_then g) fs ≡ true
          → All IsReplyField fs
          → (skip_var_bytes >> k) (encode_fields fs ++ r) ≡ ok (tt, r)
      go (text v ∷ fs) r m h =
          rw (encode_fields-cons (text v) fs r)
            (>>=-run _ _ (skip_var_bytes-run v (encode_fields fs ++ r) h.0) (rest.runs fs r m h.1))
      go fs r m h = absurd (ground (arith, m))

  pub words-Skips : Skips (skip_bitmap >> k) (words_then g)
  unfolding matches IsReplyField IsSized
  words-Skips = record { runs = go }
    where
      go :
          (fs : List Field) (r : List ℕ)
          → matches (words_then g) fs ≡ true
          → All IsReplyField fs
          → (skip_bitmap >> k) (encode_fields fs ++ r) ≡ ok (tt, r)
      go (words ws ∷ fs) r m h = rw (encode_fields-cons (words ws) fs r) (
          >>=-run _ _ (skip_bitmap-run ws (encode_fields fs ++ r) h.0.0.0 h.0.1)
            (rest.runs fs r m h.1))
      go fs r m h = absurd (ground (arith, m))

pub word-Skips :
    {k : ℕ → Reader (Unit {0})} {g : ℕ → Grammar}
    → ((n : ℕ) → Skips (k n) (g n))
    → Skips (checked_u32 >>= k) (word_then g)
unfolding matches encode_field IsReplyField IsSized
word-Skips {k} {g} rest = record { runs = go }
  where
    go :
        (fs : List Field) (r : List ℕ)
        → matches (word_then g) fs ≡ true
        → All IsReplyField fs
        → (checked_u32 >>= k) (encode_fields fs ++ r) ≡ ok (tt, r)
    go (word n ∷ fs) r m h =
        rw (encode_fields-cons (word n) fs r)
          (>>=-run _ _ (checked_u32-run n (encode_fields fs ++ r) h.0) ((rest n).runs fs r m h.1))
    go fs r m h = absurd (ground (arith, m))

-- A word whose value does not matter.
pub skip_word-Skips :
    {k : Reader (Unit {0})} {g : Grammar} → Skips k g → Skips (skip 4 >> k) (word_then λ _. g)
unfolding matches encode_field IsReplyField IsSized
skip_word-Skips {k} {g} rest = record { runs = go }
  where
    go :
        (fs : List Field) (r : List ℕ)
        → matches (word_then λ _. g) fs ≡ true
        → All IsReplyField fs
        → (skip 4 >> k) (encode_fields fs ++ r) ≡ ok (tt, r)
    go (word n ∷ fs) r m h = rw (encode_fields-cons (word n) fs r) (
        >>=-run _ _ (skip-run 4 (be32 n) (encode_fields fs ++ r) (sym (length-be32 n)))
          (rest.runs fs r m h.1))
    go fs r m h = absurd (ground (arith, m))

-- The last part of a reader stands with nothing behind it.
and_void : (o : Outcome (Unit {0} × List ℕ)) → and_then o (λ _. void) ≡ o
unfolding pure and_then
and_void (ok (u, r)) = refl
and_void (err e) = refl
and_void panic = refl

pub then_void : (m : Reader (Unit {0})) (s : List ℕ) → (m >> void) s ≡ m s
unfolding ◌>>=◌ and_then
then_void m s = and_void (m s)

-- A reader that does the same takes the same fields.
pub eq-Skips :
    {m k : Reader (Unit {0})} {g : Grammar} → ((s : List ℕ) → m s ≡ k s) → Skips k g → Skips m g
eq-Skips same h = record { runs = λ fs r fits sized. same _ ∙ h.runs fs r fits sized }

pub last-Skips : {m : Reader (Unit {0})} {g : Grammar} → Skips (m >> void) g → Skips m g
last-Skips {m} h = eq-Skips (λ s. sym (then_void m s)) h

pub never-Skips : {m : Reader (Unit {0})} → Skips m never
unfolding matches
never-Skips = record { runs = λ fs r m h. absurd (ground (arith, m)) }

-- A choice of the reader goes with one of the grammar.
pub if-Skips :
    {m k : Reader (Unit {0})} {g e : Grammar} (b : Bool)
    → Skips m g
    → Skips k e
    → Skips (if b then m else k) (if b then g else e)
if-Skips true p q = p
if-Skips false p q = q

-- Where the test holds, no reply follows the grammar.
pub guard-Skips :
    (m : Reader (Unit {0})) {k : Reader (Unit {0})} {g : Grammar} (b : Bool)
    → Skips k g
    → Skips ((if b then m else void) >> k) (if b then never else g)
unfolding ◌>>=◌ and_then pure
guard-Skips m true p = never-Skips
guard-Skips m false p = p

pub void_then-Skips : {k : Reader (Unit {0})} {g : Grammar} → Skips k g → Skips (void >> k) g
unfolding ◌>>=◌ and_then pure
void_then-Skips p = p

-- Bytes that are skipped where enough of them are left.
pub look-Skips :
    {k : Reader (Unit {0})} {g : Grammar} (n : ℕ)
    → Skips k g
    → Skips (remaining >>= λ left. if leb n left then (advance n >> k) else void) (fixed_then n g)
unfolding matches encode_field IsReplyField IsSized remaining ◌>>=◌ and_then
look-Skips {k} {g} n rest = record { runs = go }
  where
    go :
        (fs : List Field) (r : List ℕ)
        → matches (fixed_then n g) fs ≡ true
        → All IsReplyField fs
        → (remaining >>= λ left. if leb n left then (advance n >> k) else void)
            (encode_fields fs ++ r)
          ≡ ok (tt, r)
    go (fixed i bytes ∷ fs) r m h =
        let same : n ≡ i = (==_iff n i).0 (and_left (n == i) (matches g fs) m) in
        let room : n ≤ length (bytes ++ (encode_fields fs ++ r)) =
          omega (arith, same, h.0, length-append bytes (encode_fields fs ++ r)) in
        rw
          (
            encode_fields-cons (fixed i bytes) fs r,
            le→leb n (length (bytes ++ (encode_fields fs ++ r))) room,
          )
          (>>=-run (advance n) (λ _. k)
            (advance-run n bytes (encode_fields fs ++ r) (same ∙ sym h.0))
            (rest.runs fs r (and_right (n == i) (matches g fs) m) h.1))
    go fs r m h = absurd (ground (arith, m))
