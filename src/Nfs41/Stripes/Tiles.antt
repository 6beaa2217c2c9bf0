-- ===== src/Nfs41/Stripes/Tiles.antt =====
-- The chunks of a range are its tiles, and each byte of a chunk lies where the striping puts it.
use nfs_rs.Common.{
  ℕ, zero, suc, ◌+◌, ◌-◌, ◌*◌, ◌/◌, ◌%◌, ◌^◌, ◌≤◌, ◌<◌, ◌≡◌, refl, ap, true, false, ◌||◌, List, [],
  ◌∷◌, ltb, ◌==◌, arith, ltb→lt, Bool-cases, inl, inr, subst,
}
use native.Mathlib.Nat.{div-eq_of_lt-le, div-add-mod', mod-lt, mod-eq_of_lt}
use nfs_rs.Nfs41.Stripes.{
  StripeChunk, saturating_add, Striping, chunk_end, chunk_at, split_loop, split_into_stripes,
}

-- The chunks stand one behind the other from `pos` to `last`, none of them empty.
pub Tiles : ℕ → ℕ → List StripeChunk → Type 0
Tiles pos last [] = pos ≡ last
Tiles pos last (c ∷ cs) = (c.file_offset ≡ pos) × (0 < c.length) × Tiles (pos + c.length) last cs

-- Bytes of one stripe.
pub same_stripe : (a k u : ℕ) → a % u + k < u → (a + k) / u ≡ a / u
same_stripe a k u h =
    div-eq_of_lt-le u (omega (arith, div-add-mod' a u)) (omega (arith, div-add-mod' a u))

pub same_stripe-mod : (a k u : ℕ) → a % u + k < u → (a + k) % u ≡ a % u + k
same_stripe-mod a k u h =
    omega (arith, div-add-mod' a u, div-add-mod' (a + k) u, ap (λ q. q * u) (same_stripe a k u h))

-- The numbers of a layout fit their types, the stripe unit is 2 or more (the unit on the wire is a
-- multiple of 64), and there is a stripe: with a stripe count of 0 the source gives no chunks.
pub record Fits (l : Striping) : Type 0 where
  pub unit_at_least : 2 ≤ l.stripe_unit
  pub unit_below : l.stripe_unit < 2 ^ 32
  pub first_below : l.first_stripe_index < 2 ^ 32
  pub some_stripes : 0 < l.stripe_count
  pub count_below : l.stripe_count < 2 ^ 32

module _ (l : Striping) (v : Fits l) where
  pub unit_pos : 0 < l.stripe_unit
  unit_pos = omega (arith, v.unit_at_least)

  pub chunk_end-after :
      (last pos : ℕ)
      → pos < last
      → last < 2 ^ 64
      → (pos < chunk_end l last pos) × (chunk_end l last pos ≤ last)
  unfolding chunk_end
  chunk_end-after last pos h b = omega (arith, mod-lt (pos - l.pattern_offset) unit_pos)

  pub chunk_end-stripe :
      (last pos : ℕ)
      → pos < last
      → last < 2 ^ 64
      → (pos - l.pattern_offset) % l.stripe_unit + (chunk_end l last pos - pos) ≤ l.stripe_unit
  unfolding chunk_end
  chunk_end-stripe last pos h b = omega (arith, mod-lt (pos - l.pattern_offset) unit_pos)

  pub length-chunk_at :
      (last pos : ℕ)
      → pos < last
      → last < 2 ^ 64
      → (chunk_at l last pos).length ≡ chunk_end l last pos - pos
  unfolding chunk_at
  length-chunk_at last pos h b =
      mod-eq_of_lt
        (omega (arith, chunk_end-after last pos h b, chunk_end-stripe last pos h b, v.unit_below))

  split_loop-Tiles :
      (fuel last pos : ℕ)
      → last < 2 ^ 64
      → pos ≤ last
      → last ≤ pos + fuel
      → Tiles pos last (split_loop fuel l last pos)
  unfolding split_loop Tiles
  split_loop-Tiles zero last pos b h f = omega arith
  split_loop-Tiles (suc fuel) last pos b h f = elim (Bool-cases (ltb pos last)) [
    | inl p ↦ rw p (
      unfold chunk_at in refl,
      omega (arith, step p, length-chunk_at last pos (ltb→lt pos last p) b),
      subst (λ q. Tiles q last (split_loop fuel l last (chunk_end l last pos))) (behind p)
          (split_loop-Tiles fuel last (chunk_end l last pos) b (step p).1 (omega (arith, step p))),
    )
    | inr p ↦ rw p (ground arith)
  ]
    where
      step : ltb pos last ≡ true → (pos < chunk_end l last pos) × (chunk_end l last pos ≤ last)
      step p = chunk_end-after last pos (ltb→lt pos last p) b

      behind : ltb pos last ≡ true → chunk_end l last pos ≡ pos + (chunk_at l last pos).length
      behind p = omega (arith, step p, length-chunk_at last pos (ltb→lt pos last p) b)

  -- For a layout whose numbers fit their types, whose stripe unit is 2 or more and whose stripe count
  -- is 1 or more, and for a range that starts at or behind the pattern offset, the chunks stand one behind the other, none of
  -- them empty, from the offset to the end of the range, which is cut at the largest u64.
  pub split_into_stripes-Tiles :
      (offset count : ℕ)
      → l.pattern_offset ≤ offset
      → offset < 2 ^ 64
      → count < 2 ^ 32
      → Tiles offset (saturating_add offset count) (split_into_stripes offset count l)
  unfolding split_into_stripes
  split_into_stripes-Tiles offset count p b c = rw guard (
      split_loop-Tiles count (saturating_add offset count) offset (omega arith) (omega arith)
        (omega arith))
    where
      guard : (l.stripe_unit == 0 || l.stripe_count == 0 || ltb offset l.pattern_offset) ≡ false
      guard = ground (arith, unit_pos, v.some_stripes)
