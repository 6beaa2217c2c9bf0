-- ===== src/Rpc/Record/Fragments.antt =====
-- A record that a server sends in fragments, and its way through the reader.
use nfs_rs.Common.{
  subst, ℕ, zero, suc, ◌+◌, ◌^◌, ◌≤◌, ◌<◌, ◌≡◌, refl, ap, sym, ◌∙◌, List, [], ◌∷◌, ◌++◌, length,
  arith, length-append, ltb, true, false, le→leb, take-append, drop-append, append_assoc,
  append-nil,
}
use nfs_rs.Wire.{ok, and_then, pure, get_u32, IsU32}
use nfs_rs.Wire.Words.{be32, length-be32, get_u32-be32, >>=-run}
use nfs_rs.Rpc.Record.{
  max_rpc_response, take_fragment, rest_of_record, read_exact, is_last, size_of, read_header,
  more_fragments, record_bytes, with_xid, read_one_response,
}

-- Every fragment but the last has a header with the top bit clear.
pub fragments : List ℕ → List (List ℕ) → List ℕ
fragments p [] = be32 (2 ^ 31 + length p) ++ p
fragments p (q ∷ qs) = be32 (length p) ++ (p ++ fragments q qs)

unfoldable pub joined : List ℕ → List (List ℕ) → List ℕ
joined p [] = p
joined p (q ∷ qs) = p ++ joined q qs

read_exact-run : (n : ℕ) (xs r : List ℕ) → n ≡ length xs → read_exact n (xs ++ r) ≡ ok (xs, r)
unfolding read_exact
read_exact-run n xs r h = rw (
  h,
  le→leb (length xs) (length (xs ++ r)) (omega (arith, length-append xs r)),
  take-append,
  drop-append,
)

read_header-run : (n : ℕ) (r : List ℕ) → IsU32 n → read_header (be32 n ++ r) ≡ ok (n, r)
unfolding read_header pure and_then
read_header-run n r h =
    >>=-run _ _ (read_exact-run 4 (be32 n) r (sym (length-be32 n))) (rw (opened, and_then) refl)
  where
    opened : get_u32 (be32 n) ≡ ok (n, [])
    opened = subst (λ s. get_u32 s ≡ ok (n, [])) (append-nil (be32 n)) (get_u32-be32 n [] h)

take_fragment-run :
    (raw : ℕ) (buf p r : List ℕ)
    → size_of raw ≡ length p
    → length buf + length p ≤ max_rpc_response
    → take_fragment raw buf (p ++ r) ≡ ok (buf ++ p, r)
unfolding take_fragment pure
take_fragment-run raw buf p r size fits =
    rw within (>>=-run _ _ (read_exact-run (size_of raw) p r size) refl)
  where
    within : ltb max_rpc_response (length buf + size_of raw) ≡ false
    within = ground arith

-- What a fragment's header says.
last_header :
    (n : ℕ)
    → n ≤ max_rpc_response
    → (is_last (2 ^ 31 + n) ≡ true) × (size_of (2 ^ 31 + n) ≡ n) × IsU32 (2 ^ 31 + n)
last_header n h = (le→leb _ _ (omega arith), omega arith, omega arith)

inner_header : (n : ℕ) → n ≤ max_rpc_response → (is_last n ≡ false) × (size_of n ≡ n) × IsU32 n
inner_header n h = (ground arith, omega arith, omega arith)

length-joined :
    (p : List ℕ) (q : List ℕ) (qs : List (List ℕ))
    → length (joined p (q ∷ qs)) ≡ length p + length (joined q qs)
unfolding joined
length-joined p q qs = length-append p (joined q qs)

head_le : (p : List ℕ) (ps : List (List ℕ)) → length p ≤ length (joined p ps)
unfolding joined
head_le p [] = omega arith
head_le p (q ∷ qs) = omega (arith, length-append p (joined q qs))

more_fragments-run :
    (p : List ℕ) (ps : List (List ℕ)) (fuel : ℕ) (buf r : List ℕ)
    → length ps < fuel
    → length buf + length (joined p ps) ≤ max_rpc_response
    → more_fragments fuel buf (fragments p ps ++ r) ≡ ok (buf ++ joined p ps, r)
unfolding more_fragments fragments joined pure
more_fragments-run p ps zero buf r h fits = absurd (omega arith)
more_fragments-run p [] (suc fuel) buf r h fits =
    let (last, size, word) = last_header (length p) (omega arith) in
    rw append_assoc (
      >>=-run _ _ (read_header-run _ (p ++ r) word)
        (>>=-run _ _ (take_fragment-run _ buf p r size fits) (rw last)))
more_fragments-run p (q ∷ qs) (suc fuel) buf r h fits =
    let (more, size, word) = inner_header (length p) (omega (arith, length-joined p q qs)) in
    simp append_assoc (
      >>=-run _ _ (read_header-run _ (p ++ (fragments q qs ++ r)) word) (
        >>=-run _ _
          (take_fragment-run _ buf p (fragments q qs ++ r) size
            (omega (arith, length-joined p q qs)))
          (rw more (
            more_fragments-run q qs fuel (buf ++ p) r (omega arith)
              (omega (arith, length-joined p q qs, length-append buf p))
            ∙ ap (λ x. ok (x, r)) (append_assoc buf p (joined q qs))))))

length-fragments : (p : List ℕ) (ps : List (List ℕ)) → length ps ≤ length (fragments p ps)
unfolding fragments
length-fragments p [] = omega arith
length-fragments p (q ∷ qs) = omega (
  arith,
  length-append (be32 (length p)) (p ++ fragments q qs),
  length-be32 (length p),
  length-append p (fragments q qs),
  length-fragments q qs,
)

record_bytes-run :
    (p : List ℕ) (ps : List (List ℕ)) (r : List ℕ)
    → length (joined p ps) ≤ max_rpc_response
    → record_bytes (fragments p ps ++ r) ≡ ok (joined p ps, r)
unfolding record_bytes rest_of_record fragments joined pure
record_bytes-run p [] r fits =
    let (last, size, word) = last_header (length p) (omega arith) in
    rw append_assoc (
      >>=-run _ _ (read_header-run _ (p ++ r) word)
        (>>=-run _ _ (take_fragment-run _ [] p r size (omega arith)) (rw last)))
record_bytes-run p (q ∷ qs) r fits =
    let (more, size, word) = inner_header (length p) (omega (arith, length-joined p q qs)) in
    simp append_assoc (
      >>=-run _ _ (read_header-run _ (p ++ (fragments q qs ++ r)) word) (
        >>=-run _ _
          (take_fragment-run _ [] p (fragments q qs ++ r) size
            (omega (arith, length-joined p q qs)))
          (rw more (
            more_fragments-run q qs _ p r
              (omega (arith, length-fragments q qs, length-append (fragments q qs) r))
              (omega (arith, length-joined p q qs))))))

-- However a record that begins with its call id is cut into fragments, the reader returns it whole
-- with its call id and leaves the bytes behind it, provided that it has at most 4 MiB + 4 KiB.
pub read_one_response-fragments :
    (xid : ℕ) (body p : List ℕ) (ps : List (List ℕ)) (r : List ℕ)
    → IsU32 xid
    → joined p ps ≡ be32 xid ++ body
    → length (joined p ps) ≤ max_rpc_response
    → read_one_response (fragments p ps ++ r) ≡ ok ((xid, be32 xid ++ body), r)
unfolding read_one_response with_xid pure and_then
read_one_response-fragments xid body p ps r word whole fits =
    >>=-run _ _ (record_bytes-run p ps r fits)
      (rw (whole, long, get_u32-be32 xid body word, and_then) refl)
  where
    long : ltb (length (be32 xid ++ body)) 4 ≡ false
    long = ground (arith, length-append (be32 xid) body, length-be32 xid)
