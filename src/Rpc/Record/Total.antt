-- ===== src/Rpc/Record/Total.antt =====
-- The record reader ends on every stream, and a record that it returns is bounded.
use nfs_rs.Common.{
  ℕ, zero, suc, ◌+◌, ◌≤◌, ◌<◌, ◌≡◌, refl, List, [], ◌++◌, length, take, drop, arith, length-append,
  length-take, length-drop, leb, ltb, Bool-cases, ◌⊎◌, inl, inr, leb→le,
}
use nfs_rs.Errors.{NfsError, io, plain, unexpected_eof, rpc}
use nfs_rs.Wire.{Outcome, ok, err, and_then, ◌>>=◌, pure, fail, get_u32}
use nfs_rs.Wire.Safe.{get_u32-Takes}
use nfs_rs.Rpc.Record.{
  max_rpc_response, take_fragment, rest_of_record, read_exact, is_last, size_of, read_header,
  more_fragments, record_bytes, with_xid, read_one_response,
}

read_exact-cases :
    (n : ℕ) (s : List ℕ)
    → ((e : NfsError) × (read_exact n s ≡ err e))
      ⊎ ((a : List ℕ) × (r : List ℕ) × (read_exact n s ≡ ok (a, r))
          × (length s ≡ length r + n)
          × (length a ≡ n))
unfolding read_exact
read_exact-cases n s = elim (Bool-cases (leb n (length s))) [
  | inl t ↦
      let h : n ≤ length s = leb→le n (length s) t in
      inr (take n s, drop n s, rw t, omega (arith, length-drop n s), omega (arith, length-take n s))
  | inr t ↦ inl (io unexpected_eof plain, rw t)
]

read_header-cases :
    (s : List ℕ)
    → ((e : NfsError) × (read_header s ≡ err e))
      ⊎ ((raw : ℕ) × (r : List ℕ) × (read_header s ≡ ok (raw, r)) × (length s ≡ length r + 4))
unfolding read_header ◌>>=◌ pure
read_header-cases s = elim (read_exact-cases 4 s) [
  | inl (e, p) ↦ inl (e, rw (p, and_then) refl)
  | inr (a, r, p, l, four) ↦
      let (raw, r', q, l') = get_u32-Takes.runs a (omega arith) in
      inr (raw, r, rw (p, and_then, q, and_then) refl, l)
]

take_fragment-cases :
    (raw : ℕ) (buf s : List ℕ)
    → ((e : NfsError) × (take_fragment raw buf s ≡ err e))
      ⊎ ((a : List ℕ) × (r : List ℕ) × (take_fragment raw buf s ≡ ok (a, r))
          × (length r ≤ length s)
          × (length a ≤ max_rpc_response))
unfolding take_fragment ◌>>=◌ pure fail
take_fragment-cases raw buf s =
    elim (Bool-cases (ltb max_rpc_response (length buf + size_of raw))) [
      | inl over ↦ inl (rpc, rw over)
      | inr fits ↦ elim (read_exact-cases (size_of raw) s) [
        | inl (e, p) ↦ inl (e, rw (fits, p, and_then) refl)
        | inr (a, r, p, l, n) ↦ inr (
          buf ++ a,
          r,
          rw (fits, p, and_then) refl,
          omega arith,
          ground (arith, length-append buf a),
        )
      ]
    ]

-- Enough fuel: the loop fails, or returns a bounded buffer.
Bounded : Outcome (List ℕ × List ℕ) → Type 0
Bounded o =
    ((e : NfsError) × (o ≡ err e))
    ⊎ ((a : List ℕ) × (r : List ℕ) × (o ≡ ok (a, r)) × (length a ≤ max_rpc_response))

more_fragments-Bounded :
    (fuel : ℕ) (buf s : List ℕ) → length s < fuel → Bounded (more_fragments fuel buf s)
unfolding more_fragments ◌>>=◌ pure Bounded
more_fragments-Bounded zero buf s h = absurd (omega arith)
more_fragments-Bounded (suc fuel) buf s h = elim (read_header-cases s) [
  | inl (e, p) ↦ inl (e, rw (p, and_then) refl)
  | inr (raw, r, p, l) ↦ elim (take_fragment-cases raw buf r) [
    | inl (e, q) ↦ inl (e, rw (p, and_then, q, and_then) refl)
    | inr (whole, t, q, shorter, fits) ↦ elim (Bool-cases (is_last raw)) [
      | inl last ↦ inr (whole, t, rw (p, and_then, q, and_then, last) refl, fits)
      | inr more ↦
          rw (p, and_then, q, and_then, more) (more_fragments-Bounded fuel whole t (omega arith))
    ]
  ]
]

record_bytes-Bounded : (s : List ℕ) → Bounded (record_bytes s)
unfolding record_bytes rest_of_record ◌>>=◌ pure Bounded
record_bytes-Bounded s = elim (read_header-cases s) [
  | inl (e, p) ↦ inl (e, rw (p, and_then) refl)
  | inr (raw, r, p, l) ↦ elim (take_fragment-cases raw [] r) [
    | inl (e, q) ↦ inl (e, rw (p, and_then, q, and_then) refl)
    | inr (buf, t, q, shorter, fits) ↦ elim (Bool-cases (is_last raw)) [
      | inl last ↦ inr (buf, t, rw (p, and_then, q, and_then, last) refl, fits)
      | inr more ↦
          rw (p, and_then, q, and_then, more)
            (more_fragments-Bounded (suc (length t)) buf t (omega arith))
    ]
  ]
]

-- On every stream the record reader ends without a panic: it fails, or it returns a record of 4 to
-- 4 MiB + 4 KiB bytes with the call id that stands in its first four bytes.
pub read_one_response-total :
    (s : List ℕ)
    → ((e : NfsError) × (read_one_response s ≡ err e))
      ⊎ ((xid : ℕ) × (buf : List ℕ) × (r : List ℕ) × (read_one_response s ≡ ok ((xid, buf), r))
          × (4 ≤ length buf)
          × (length buf ≤ max_rpc_response)
          × ((rest : List ℕ) × (get_u32 buf ≡ ok (xid, rest))))
unfolding read_one_response with_xid ◌>>=◌ pure fail Bounded
read_one_response-total s = elim (record_bytes-Bounded s) [
  | inl (e, p) ↦ inl (e, rw (p, and_then) refl)
  | inr (buf, r, p, fits) ↦ elim (Bool-cases (ltb (length buf) 4)) [
    | inl short ↦ inl (rpc, rw (p, and_then, short) refl)
    | inr long ↦
        let (xid, rest, q, l) = get_u32-Takes.runs buf (ground arith) in
        inr (xid, buf, r, rw (p, and_then, long, q, and_then) refl, ground arith, fits, (rest, q))
  ]
]
