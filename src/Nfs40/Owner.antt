-- ===== src/Nfs40/Owner.antt =====
-- nfs40/state.rs: the text that names an open owner to the callers, its issuer and its number.
use nfs_rs.Common.{
  ℕ, ◌+◌, ◌*◌, ◌≡◌, ap, ◌∙◌, ◌↔◌, List, [], ◌∷◌, ◌++◌, length, length-take, All-take, All-drop,
  take-drop, length-drop, All, sym, Option, none, some, ◌==◌, not, if◌then◌else◌, take, drop, arith,
}
use nfs_rs.Wire.{IsByte, IsU64}
use nfs_rs.Wire.Words.{be32, be64}

pub encode_owner : ℕ → ℕ → List ℕ
encode_owner issuer owner = be64 issuer ++ be64 owner

-- `u64::from_be_bytes`.
unfoldable pub from_be : ℕ → List ℕ → ℕ
from_be acc [] = acc
from_be acc (b ∷ bs) = from_be (acc * 256 + b) bs

pub decode_owner : List ℕ → Option (ℕ × ℕ)
decode_owner state =
    if not (length state == 16)
    then none
    else some (from_be 0 (take 8 state), from_be 0 (drop 8 state))

from_be-be64 : (n : ℕ) → IsU64 n → from_be 0 (be64 n) ≡ n
unfolding from_be be64 be32
from_be-be64 n h = omega arith

-- Eight bytes are those of the number they make.
be64-from_be : (s : List ℕ) → length s ≡ 8 → All IsByte s → be64 (from_be 0 s) ≡ s
unfolding from_be be64 be32
be64-from_be (a ∷ b ∷ c ∷ d ∷ e ∷ f ∷ g ∷ i ∷ []) l h = ground arith
be64-from_be s l h = absurd (omega arith)

from_be-IsU64 : (s : List ℕ) → length s ≡ 8 → All IsByte s → IsU64 (from_be 0 s)
unfolding from_be
from_be-IsU64 (a ∷ b ∷ c ∷ d ∷ e ∷ f ∷ g ∷ i ∷ []) l h = omega arith
from_be-IsU64 s l h = absurd (omega arith)

decode_owner-encode_owner :
    (issuer owner : ℕ)
    → IsU64 issuer
    → IsU64 owner
    → decode_owner (encode_owner issuer owner) ≡ some (issuer, owner)
unfolding decode_owner encode_owner be64 be32
decode_owner-encode_owner issuer owner hi ho = ap some (
    ap (λ i. (i, from_be 0 (be64 owner))) (from_be-be64 issuer hi)
    ∙ ap (λ o. (issuer, o)) (from_be-be64 owner ho))

encode_owner-decode_owner :
    (state : List ℕ)
    → length state ≡ 16
    → All IsByte state
    → encode_owner (from_be 0 (take 8 state)) (from_be 0 (drop 8 state)) ≡ state
unfolding encode_owner
encode_owner-decode_owner state l h =
    rw
      (
        be64-from_be (take 8 state) (omega (arith, length-take 8 state))
            (All-take IsByte 8 state h),
        be64-from_be (drop 8 state) (omega (arith, length-drop 8 state))
            (All-drop IsByte 8 state h),
      )
      (take-drop 8 state)

-- A byte string decodes to an issuer and an owner exactly when both are 64-bit numbers and the
-- string is what encode_owner writes for them: decode_owner refuses every other length, and no two
-- owners share a text.
pub decode_owner_iff :
    (state : List ℕ) (issuer owner : ℕ)
    → All IsByte state
    → (decode_owner state ≡ some (issuer, owner))
      ↔ (IsU64 issuer × IsU64 owner × (state ≡ encode_owner issuer owner))
decode_owner_iff state issuer owner h = (to, back)
  where
    split :
        decode_owner state ≡ some (issuer, owner)
        → (length state ≡ 16)
          × (issuer ≡ from_be 0 (take 8 state))
          × (owner ≡ from_be 0 (drop 8 state))
    split e = unfold decode_owner in ground (arith, e)

    to :
        decode_owner state ≡ some (issuer, owner)
        → IsU64 issuer × IsU64 owner × (state ≡ encode_owner issuer owner)
    to e =
        let (l, i, o) = split e in
        rw (i, o)
          (
            from_be-IsU64 (take 8 state) (omega (arith, length-take 8 state))
                (All-take IsByte 8 state h),
            from_be-IsU64 (drop 8 state) (omega (arith, length-drop 8 state))
                (All-drop IsByte 8 state h),
            sym (encode_owner-decode_owner state l h),
          )

    back :
        IsU64 issuer × IsU64 owner × (state ≡ encode_owner issuer owner)
        → decode_owner state ≡ some (issuer, owner)
    back (hi, ho, e) = rw e (decode_owner-encode_owner issuer owner hi ho)
