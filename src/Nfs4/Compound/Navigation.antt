-- ===== src/Nfs4/Compound/Navigation.antt =====
-- A navigation request, the reply of a server that walked the path, and the decoder on it.
use nfs_rs.Common.{
  ℕ, zero, suc, ◌+◌, ◌≡◌, refl, ap, sym, ◌∙◌, Bool, List, [], ◌∷◌, ◌++◌, length, replicate, arith,
  append_assoc, length-append, length-replicate, All, All-append, map, ==_self, append-nil,
}
use nfs_rs.Wire.{ok, pure, IsU32}
use nfs_rs.Wire.Words.{be32, >>=-run, concat_map}
use nfs_rs.Wire.Opaque.{xdr_opaque, take_u32-run, take_opaque-run}
use nfs_rs.Nfs4.Compound.{
  op_getfh, op_lookup, op_putrootfh, CompoundBuilder, new, operation, putrootfh, lookup, getfh,
  check_status, response_ops, expect_ops, decode_navigation_response,
}

lookup_all : List (List ℕ) → CompoundBuilder → CompoundBuilder
lookup_all [] b = b
lookup_all (name ∷ names) b = lookup_all names (lookup name b)

-- PUTROOTFH, a LOOKUP for each component, GETFH.
pub navigate : List ℕ → ℕ → List (List ℕ) → CompoundBuilder
unfolding lookup_all
navigate tag minor_version names = getfh (lookup_all names (putrootfh (new tag minor_version)))

opcodes : List (ℕ × List ℕ) → List ℕ
opcodes = map λ op. op.0

-- The results of operations that succeed and have no body.
results : List ℕ → List ℕ
results = concat_map λ op. be32 op ++ be32 0

-- A successful reply to the operations of a request, with the file handle that GETFH returned.
pub navigation_reply : CompoundBuilder → List ℕ → List ℕ
navigation_reply b fh =
    be32 0
    ++ (xdr_opaque b.tag ++ (be32 (length b.ops) ++ (results (opcodes b.ops) ++ xdr_opaque fh)))

-- What the reply holds for the operations of a request.
walk : ℕ → List ℕ
walk n = op_putrootfh ∷ (replicate n op_lookup ++ (op_getfh ∷ []))

opcodes-operation :
    (op : ℕ) (args : List ℕ) (b : CompoundBuilder)
    → opcodes (operation op args b).ops ≡ opcodes b.ops ++ (op ∷ [])
unfolding opcodes operation
opcodes-operation op args b = go b.ops
  where
    go :
        (ops : List (ℕ × List ℕ))
        → map (λ o. o.0) (ops ++ ((op, args) ∷ [])) ≡ map (λ o. o.0) ops ++ (op ∷ [])
    go [] = refl
    go (x ∷ xs) = ap (◌∷◌ x.0) (go xs)

opcodes-lookup_all :
    (names : List (List ℕ)) (b : CompoundBuilder)
    → opcodes (lookup_all names b).ops ≡ opcodes b.ops ++ replicate (length names) op_lookup
unfolding lookup_all lookup
opcodes-lookup_all [] b = sym (append-nil (opcodes b.ops))
opcodes-lookup_all (name ∷ names) b =
    rw
      (
        opcodes-lookup_all names (lookup name b),
        opcodes-operation op_lookup (xdr_opaque name) b,
        append_assoc,
      )
      refl

opcodes-putrootfh :
    (tag : List ℕ) (mv : ℕ) → opcodes (putrootfh (new tag mv)).ops ≡ op_putrootfh ∷ []
unfolding opcodes putrootfh new
opcodes-putrootfh tag mv = refl

opcodes-navigate :
    (tag : List ℕ) (mv : ℕ) (names : List (List ℕ))
    → opcodes (navigate tag mv names).ops ≡ walk (length names)
unfolding navigate getfh walk
opcodes-navigate tag mv names =
    opcodes-operation op_getfh [] (lookup_all names (putrootfh (new tag mv)))
    ∙ ap (λ ops. ops ++ (op_getfh ∷ []))
        (opcodes-lookup_all names (putrootfh (new tag mv))
          ∙ ap (λ ops. ops ++ replicate (length names) op_lookup) (opcodes-putrootfh tag mv))

length-ops : (b : CompoundBuilder) → length (opcodes b.ops) ≡ length b.ops
unfolding opcodes
length-ops b = go b.ops
  where
    go : (ops : List (ℕ × List ℕ)) → length (map (λ o. o.0) ops) ≡ length ops
    go [] = refl
    go (x ∷ xs) = ap suc (go xs)

length-walk : (n : ℕ) → length (walk n) ≡ n + 2
unfolding walk
length-walk n =
    omega
      (arith, length-append (replicate n op_lookup) (op_getfh ∷ []), length-replicate n op_lookup)

count-navigate :
    (tag : List ℕ) (mv : ℕ) (names : List (List ℕ))
    → length (navigate tag mv names).ops ≡ length names + 2
count-navigate tag mv names =
    sym (length-ops (navigate tag mv names))
    ∙ ap length (opcodes-navigate tag mv names)
    ∙ length-walk (length names)

tag-navigate : (tag : List ℕ) (mv : ℕ) (names : List (List ℕ)) → (navigate tag mv names).tag ≡ tag
unfolding navigate getfh
tag-navigate tag mv names = go names (putrootfh (new tag mv)) start
  where
    start : (putrootfh (new tag mv)).tag ≡ tag
    start = unfold putrootfh in unfold new in refl

    go :
        (names : List (List ℕ)) (b : CompoundBuilder) → b.tag ≡ tag → (lookup_all names b).tag ≡ tag
    go [] b h = h
    go (name ∷ names) b h = go names (lookup name b) (unfold lookup in h)

module _ (known : ℕ → Bool) where
  status-run : (r : List ℕ) → check_status known 0 r ≡ ok (tt, r)
  unfolding check_status pure
  status-run r = refl

  expect_ops-run :
      (ops r : List ℕ) → All IsU32 ops → expect_ops known ops (results ops ++ r) ≡ ok (tt, r)
  unfolding expect_ops results concat_map pure be32
  expect_ops-run [] r h = refl
  expect_ops-run (op ∷ ops) r h = rw append_assoc (
      >>=-run _ _ (take_u32-run op (be32 0 ++ (results ops ++ r)) h.0) (
        rw (==_self op) (
          >>=-run _ _ (take_u32-run 0 (results ops ++ r) (omega arith))
            (>>=-run _ _ (status-run (results ops ++ r)) (expect_ops-run ops r h.1)))))

  walk-IsU32 : (n : ℕ) → All IsU32 (walk n)
  unfolding walk
  walk-IsU32 n = (
    omega arith,
    All-append IsU32 (replicate n op_lookup) (op_getfh ∷ []) (lookups n) (omega arith, tt),
  )
    where
      lookups : (n : ℕ) → All IsU32 (replicate n op_lookup)
      lookups zero = tt
      lookups (suc n) = (omega arith, lookups n)

  response_ops-run :
      (tag r : List ℕ) (count : ℕ)
      → IsU32 (length tag)
      → IsU32 count
      → response_ops known (be32 0 ++ (xdr_opaque tag ++ (be32 count ++ r))) ≡ ok (count, r)
  unfolding response_ops
  response_ops-run tag r count h c =
      >>=-run _ _ (take_u32-run 0 _ (omega arith)) (
        >>=-run _ _ (status-run _) (>>=-run _ _ (take_opaque-run tag _ h) (take_u32-run count r c)))

  -- Where the server answers each operation of the request for a path of components with success,
  -- and the tag, the file handle and the number of operations fit a u32, the client gets the file
  -- handle of GETFH and leaves the bytes behind the reply. The number of components that the
  -- decoder is called with is that of the request.
  pub decode_navigation_response-navigation_reply :
      (tag : List ℕ) (minor_version : ℕ) (names : List (List ℕ)) (fh r : List ℕ)
      → IsU32 (length tag)
      → IsU32 (length names + 2)
      → IsU32 (length fh)
      → decode_navigation_response known
          (length names)
          (navigation_reply (navigate tag minor_version names) fh ++ r)
        ≡ ok (fh, r)
  unfolding decode_navigation_response walk
  decode_navigation_response-navigation_reply tag mv names fh r ht hn hf =
      unfold navigation_reply in
      rw (opcodes-navigate tag mv names, count-navigate tag mv names, tag-navigate tag mv names)
        (simp append_assoc (
          >>=-run _ _ (response_ops-run tag _ (length names + 2) ht hn) (
            rw (==_self (length names + 2)) (
              >>=-run _ _ (expect_ops-run (walk (length names)) _ (walk-IsU32 (length names)))
                (take_opaque-run fh r hf)))))
