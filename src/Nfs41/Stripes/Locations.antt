-- ===== src/Nfs41/Stripes/Locations.antt =====
-- Where the striping puts each byte of a file, and that the chunks of a range agree.
use nfs_rs.Common.{
  ℕ, zero, suc, ◌+◌, ◌-◌, ◌*◌, ◌/◌, ◌%◌, ◌^◌, ◌≤◌, ◌<◌, ◌≡◌, ◌≢◌, refl, ap, true, ◌||◌, List, [],
  ◌∷◌, ltb, ◌==◌, if◌then◌else◌, arith, ltb→lt, Bool-cases, inl, inr,
}
use native.Mathlib.Nat.{
  div-le_self, mul-le-mul_left, mul-le-mul_right, div-add-mod', mod-lt, mod-eq_of_lt,
}
use nfs_rs.Nfs41.Stripes.{
  StripeChunk, saturating_add, stripe_ds_index, ds_offset, Striping, chunk_end, chunk_at,
  split_loop, split_into_stripes,
}
use nfs_rs.Nfs41.Stripes.Tiles.{
  Fits, unit_pos, chunk_end-after, chunk_end-stripe, length-chunk_at, same_stripe, same_stripe-mod,
}

-- The stripe-table index and the data server offset of a byte of the file.
pub location : Striping → ℕ → ℕ × ℕ
location l byte = (
  ((byte - l.pattern_offset) / l.stripe_unit + l.first_stripe_index) % l.stripe_count,
  (if l.is_dense
      then (byte - l.pattern_offset) / l.stripe_unit / l.stripe_count * l.stripe_unit
        + (byte - l.pattern_offset) % l.stripe_unit
      else byte),
)

pub Located : Striping → List StripeChunk → Type 0
Located l [] = Unit {0}
Located l (c ∷ cs) =
    ((k : ℕ) → k < c.length → location l (c.file_offset + k) ≡ (c.ds_index, c.ds_offset + k))
    × Located l cs

-- Two multiples of c whose sums with the same rest are closer than c are equal.
not_below : (x y c m s t : ℕ) → x * c + m ≡ s → y * c + m ≡ t → t < s + c → y ≤ x
not_below x y c m s t hs ht close = elim (Bool-cases (ltb x y)) [
  | inl h ↦ omega (arith, mul-le-mul_right {m = suc x} {n = y} c (ltb→lt x y h))
  | inr h ↦ ground (arith, h)
]

quotients : (x y c r s : ℕ) → r < c → s < c → x * c + r ≡ y * c + s → (x ≡ y) × (r ≡ s)
quotients x y c r s hr hs h = (same, omega (arith, ap (λ q. q * c) same))
  where
    same : x ≡ y
    same = omega (
      arith,
      not_below x y c 0 (x * c) (y * c) (omega arith) (omega arith) (omega arith),
      not_below y x c 0 (y * c) (x * c) (omega arith) (omega arith) (omega arith),
    )

-- A shift by f can be undone below c.
unshift : (q p f c : ℕ) → 0 < c → q / c ≡ p / c → (q + f) % c ≡ (p + f) % c → q ≡ p
unshift q p f c pos hq hm = omega (arith, sq, sp, ap (λ z. z * c) turns, hm)
  where
    sq : (q + f) / c * c + (q + f) % c ≡ q + f
    sq = div-add-mod' (q + f) c

    sp : (p + f) / c * c + (p + f) % c ≡ p + f
    sp = div-add-mod' (p + f) c

    near : (q < p + c) × (p < q + c)
    near =
        omega (
          arith,
          div-add-mod' q c,
          div-add-mod' p c,
          ap (λ z. z * c) hq,
          mod-lt q pos,
          mod-lt p pos,
        )

    turns : (q + f) / c ≡ (p + f) / c
    turns = omega (
      arith,
      not_below ((q + f) / c) ((p + f) / c) c ((q + f) % c) (q + f) (p + f) sq
          (omega (arith, sp, hm)) (omega (arith, near)),
      not_below ((p + f) / c) ((q + f) / c) c ((p + f) % c) (p + f) (q + f) sp
          (omega (arith, sq, hm)) (omega (arith, near)),
    )

module _ (l : Striping) (v : Fits l) where
  -- The quotient of an offset by the stripe unit is far from the wrap.
  quotient-bound : (a : ℕ) → a < 2 ^ 64 → a / l.stripe_unit < 2 ^ 63
  quotient-bound a h =
      omega
        (arith, div-add-mod' a l.stripe_unit, mul-le-mul_left (a / l.stripe_unit) v.unit_at_least)

  dense-bound : (a : ℕ) → a / l.stripe_unit / l.stripe_count * l.stripe_unit + a % l.stripe_unit ≤ a
  dense-bound a = omega (
    arith,
    div-add-mod' a l.stripe_unit,
    mul-le-mul_right l.stripe_unit (div-le_self (a / l.stripe_unit) l.stripe_count),
  )

  index-eq :
      (a : ℕ)
      → a < 2 ^ 64
      → stripe_ds_index a l.stripe_unit l.first_stripe_index l.stripe_count
        ≡ (a / l.stripe_unit + l.first_stripe_index) % l.stripe_count
  unfolding stripe_ds_index
  index-eq a h =
      rw
        (mod-eq_of_lt {n = a / l.stripe_unit + l.first_stripe_index} {m = 2 ^ 64}
          (omega (arith, quotient-bound a h, v.first_below)))
        (mod-eq_of_lt (
          omega (
            arith,
            mod-lt (a / l.stripe_unit + l.first_stripe_index) v.some_stripes,
            v.count_below,
          )))

  -- The arguments of a chunk that starts at `pos`, for its byte `k`.
  module _ (pos k : ℕ) (p : l.pattern_offset ≤ pos) (b : pos < 2 ^ 64)
      (inside : (pos - l.pattern_offset) % l.stripe_unit + k < l.stripe_unit) where
    adjusted : pos + k - l.pattern_offset ≡ pos - l.pattern_offset + k
    adjusted = omega arith

    place : location l (pos + k) ≡ (
      stripe_ds_index (pos - l.pattern_offset) l.stripe_unit l.first_stripe_index l.stripe_count,
      (if l.is_dense
            then ds_offset (pos - l.pattern_offset) l.stripe_unit l.stripe_count true
            else pos)
          + k,
    )
    unfolding location ds_offset
    place =
        rw
          (
            adjusted,
            same_stripe (pos - l.pattern_offset) k l.stripe_unit inside,
            same_stripe-mod (pos - l.pattern_offset) k l.stripe_unit inside,
            index-eq (pos - l.pattern_offset) (omega arith),
          )
          (ap
            (λ o. (
              ((pos - l.pattern_offset) / l.stripe_unit + l.first_stripe_index) % l.stripe_count,
              o,
            ))
            offset)
      where
        offset :
            (if l.is_dense
              then (pos - l.pattern_offset) / l.stripe_unit / l.stripe_count * l.stripe_unit
                + ((pos - l.pattern_offset) % l.stripe_unit + k)
              else pos + k)
            ≡ (if l.is_dense
                then ds_offset (pos - l.pattern_offset) l.stripe_unit l.stripe_count true
                else pos)
              + k
        offset = elim (Bool-cases l.is_dense) [
          | inl d ↦ rw d (omega (arith, wrap))
          | inr s ↦ rw s refl
        ]
          where
            wrap :
                ((pos - l.pattern_offset) / l.stripe_unit / l.stripe_count * l.stripe_unit
                    + (pos - l.pattern_offset) % l.stripe_unit)
                  % 2 ^ 64
                ≡ (pos - l.pattern_offset) / l.stripe_unit / l.stripe_count * l.stripe_unit
                  + (pos - l.pattern_offset) % l.stripe_unit
            wrap = mod-eq_of_lt (omega (arith, dense-bound (pos - l.pattern_offset)))

  chunk_at-location :
      (last pos k : ℕ)
      → l.pattern_offset ≤ pos
      → pos < last
      → last < 2 ^ 64
      → k < (chunk_at l last pos).length
      → location l ((chunk_at l last pos).file_offset + k)
        ≡ ((chunk_at l last pos).ds_index, (chunk_at l last pos).ds_offset + k)
  chunk_at-location last pos k p h b hk =
      unfold chunk_at in
      place pos k p (omega arith) (
        omega (
          arith,
          hk,
          length-chunk_at l v last pos h b,
          chunk_end-stripe l v last pos h b,
          chunk_end-after l v last pos h b,
        ))

  split_loop-Located :
      (fuel last pos : ℕ)
      → last < 2 ^ 64
      → l.pattern_offset ≤ pos
      → Located l (split_loop fuel l last pos)
  unfolding split_loop Located
  split_loop-Located zero last pos b p = tt
  split_loop-Located (suc fuel) last pos b p = elim (Bool-cases (ltb pos last)) [
    | inl h ↦
        (let lt = ltb→lt pos last h in
          rw h (
            (λ k. chunk_at-location last pos k p lt b),
            split_loop-Located fuel last (chunk_end l last pos) b
                (omega (arith, chunk_end-after l v last pos lt b)),
          ))
    | inr h ↦ rw h tt
  ]

  -- For a layout whose numbers fit their types and whose stripe unit is 2 or more, every byte of
  -- every chunk of a range lies at the data server and the offset that the striping gives for it.
  -- There is no condition on the range: one that starts before the pattern has no chunks.
  pub split_into_stripes-Located :
      (offset count : ℕ) → Located l (split_into_stripes offset count l)
  unfolding split_into_stripes Located
  split_into_stripes-Located offset count =
      elim (Bool-cases (l.stripe_unit == 0 || l.stripe_count == 0 || ltb offset l.pattern_offset)) [
        | inl h ↦ rw h tt
        | inr h ↦ rw h (
            split_loop-Located count (saturating_add offset count) offset (omega arith)
              (ground (arith, h)))
      ]

  location-injective :
      (a b : ℕ)
      → l.is_dense ≡ true
      → l.pattern_offset ≤ a
      → l.pattern_offset ≤ b
      → location l a ≡ location l b
      → a ≡ b
  unfolding location
  location-injective a b dense pa pb h = omega (
    arith,
    div-add-mod' (a - l.pattern_offset) u,
    div-add-mod' (b - l.pattern_offset) u,
    ap (λ q. q * u) same_number,
    rows.1,
  )
    where
      u : ℕ
      u = l.stripe_unit

      second :
          (if l.is_dense
            then (a - l.pattern_offset) / u / l.stripe_count * u + (a - l.pattern_offset) % u
            else a)
          ≡ (if l.is_dense
              then (b - l.pattern_offset) / u / l.stripe_count * u + (b - l.pattern_offset) % u
              else b)
      second = ap (λ r. r.1) h

      rows :
          ((a - l.pattern_offset) / u / l.stripe_count
            ≡ (b - l.pattern_offset) / u / l.stripe_count)
          × ((a - l.pattern_offset) % u ≡ (b - l.pattern_offset) % u)
      rows =
          quotients _ _ u _ _ (mod-lt (a - l.pattern_offset) (unit_pos l v))
            (mod-lt (b - l.pattern_offset) (unit_pos l v)) (simp dense at second)

      same_number : (a - l.pattern_offset) / u ≡ (b - l.pattern_offset) / u
      same_number =
          unshift _ _ l.first_stripe_index l.stripe_count v.some_stripes rows.0 (ap (λ r. r.0) h)

  -- With dense packing, and for a layout whose numbers fit their types and whose stripe unit is 2
  -- or more, two bytes of the file at or behind the pattern offset never share a stripe-table
  -- index and data server offset: no write overwrites another byte.
  pub location-apart :
      (a b : ℕ)
      → l.is_dense ≡ true
      → l.pattern_offset ≤ a
      → l.pattern_offset ≤ b
      → a ≢ b
      → location l a ≢ location l b
  location-apart a b dense pa pb apart same = apart (location-injective a b dense pa pb same)
