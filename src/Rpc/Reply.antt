-- ===== src/Rpc/Reply.antt =====
-- `parse_rpc_response` of rpc/mod.rs: it takes the reply envelope off by positions in the buffer.
pub mod Envelope
use nfs_rs.Common.{
  ℕ, ◌+◌, ◌≤◌, ◌≡◌, ◌≢◌, refl, List, [], ◌∷◌, ◌++◌, length, drop, arith, leb, ltb, ◌==◌, not, ◌&&◌,
  if◌then◌else◌, length-drop, Bool-cases, leb→le, ◌⊎◌, inl, inr,
}
use nfs_rs.Errors.{rpc, unsupported}
use nfs_rs.Wire.{Outcome, ok, err, panic, get_u32}
use nfs_rs.Wire.Safe.{get_u32-Takes}
use nfs_rs.Wire.Words.{be32}
use nfs_rs.Wire.Opaque.{padding}

infixl 5 ◌>>=◌
abbrev ◌>>=◌ {ℓ κ} : {A : Type ℓ} {B : Type κ} → Outcome A → (A → Outcome B) → Outcome B
ok a >>= f = f a
err e >>= f = err e
panic >>= f = panic

value : Outcome (ℕ × List ℕ) → Outcome ℕ
value (ok (n, r)) = ok n
value (err e) = err e
value panic = panic

-- `BigEndian::read_u32(&data[p..p + 4])`, which panics beyond the end.
word : List ℕ → ℕ → Outcome ℕ
unfolding value
word bytes p = value (get_u32 (drop p bytes))

-- The closure `read_u32`.
read_u32 : List ℕ → ℕ → Outcome ℕ
unfolding word
read_u32 bytes p = if leb (p + 4) (length bytes) then word bytes p else err rpc

-- `res.slice(pos..)`, which panics beyond the end.
slice_from : List ℕ → ℕ → Outcome (List ℕ)
slice_from bytes p = if leb p (length bytes) then ok (drop p bytes) else panic

-- Behind the verifier: the accept status and the payload.
accepted : List ℕ → ℕ → Outcome (List ℕ)
accepted res pos = do
  accept_status ← read_u32 res pos
  if accept_status == 0
      then slice_from res (pos + 4)
      else if leb 1 accept_status && leb accept_status 3
      then err unsupported
      else err rpc

-- From the verifier's length, at `pos`, on.
verified : List ℕ → ℕ → Outcome (List ℕ)
verified res pos = do
  verf_len ← read_u32 res pos
  if leb (pos + 4 + (verf_len + padding verf_len)) (length res)
      then accepted res (pos + 4 + (verf_len + padding verf_len))
      else err rpc

reply_body : List ℕ → Outcome (List ℕ)
reply_body res = do
  msg_status ← read_u32 res 8
  if msg_status == 0 then verified res 16 else err rpc

pub parse_rpc_response : List ℕ → ℕ → Outcome (List ℕ)
parse_rpc_response res xid = if ltb (length res) 8 then err rpc else do
  res_xid ← word res 0
  res_msgtype ← word res 4
  if not (res_xid == xid)
      then err rpc
      else if not (res_msgtype == 1)
      then err rpc
      else reply_body res

word-ok : (bytes : List ℕ) (p : ℕ) → p + 4 ≤ length bytes → (n : ℕ) × (word bytes p ≡ ok n)
unfolding word
word-ok bytes p h =
    let (n, r, e, l) = get_u32-Takes.runs (drop p bytes) (omega (arith, length-drop p bytes)) in
    (n, rw (e, value))

read_u32-cases :
    (bytes : List ℕ) (p : ℕ)
    → ((n : ℕ) × (read_u32 bytes p ≡ ok n) × (p + 4 ≤ length bytes)) ⊎ (read_u32 bytes p ≡ err rpc)
unfolding read_u32
read_u32-cases bytes p = elim (Bool-cases (leb (p + 4) (length bytes))) [
  | inl fits ↦
      let (n, e) = word-ok bytes p (leb→le _ _ fits) in inl (n, rw (fits, e), leb→le _ _ fits)
  | inr short ↦ inr (rw short)
]

accepted-ne-panic : (res : List ℕ) (pos : ℕ) → accepted res pos ≢ panic
unfolding accepted slice_from
accepted-ne-panic res pos = elim (read_u32-cases res pos) [
  | inl (n, e, fits) ↦ ground (arith, e)
  | inr e ↦ ground (arith, e)
]

verified-ne-panic : (res : List ℕ) (pos : ℕ) → verified res pos ≢ panic
unfolding verified
verified-ne-panic res pos = elim (read_u32-cases res pos) [
  | inl (n, e, fits) ↦ ground (arith, e, accepted-ne-panic res (pos + 4 + (n + padding n)))
  | inr e ↦ ground (arith, e)
]

reply_body-ne-panic : (res : List ℕ) → reply_body res ≢ panic
unfolding reply_body
reply_body-ne-panic res = elim (read_u32-cases res 8) [
  | inl (n, e, fits) ↦ ground (arith, e, verified-ne-panic res 16)
  | inr e ↦ ground (arith, e)
]

-- No record that a server sends makes the reply parser panic, whatever the call's id.
pub parse_rpc_response-ne-panic : (res : List ℕ) (xid : ℕ) → parse_rpc_response res xid ≢ panic
unfolding parse_rpc_response
parse_rpc_response-ne-panic res xid = elim (Bool-cases (ltb (length res) 8)) [
  | inl short ↦ rw short (λ e. cc)
  | inr fits ↦
      let (x, ex) = word-ok res 0 (ground arith) in
      let (t, et) = word-ok res 4 (ground arith) in
      rw (fits, ex, et) (ground (arith, reply_body-ne-panic res))
]
