-- ===== src/Nfs41/Stripes.antt =====
-- nfs41/layout.rs: how a range of a file is split over the data servers of a layout. Offsets are
-- u64, the stripe unit, the counts and the lengths u32; the sums that the source does not guard
-- wrap at 2 ^ 64.
pub mod Tiles
pub mod Locations
mod Tests
use nfs_rs.Common.{
  ℕ, zero, suc, ◌+◌, ◌-◌, ◌*◌, ◌/◌, ◌%◌, ◌^◌, Bool, true, false, ◌||◌, List, [], ◌∷◌, min, ltb,
  ◌==◌, if◌then◌else◌,
}

pub record StripeChunk : Type 0 where
  pub ds_index : ℕ
  pub file_offset : ℕ
  pub ds_offset : ℕ
  pub length : ℕ

-- `u64::saturating_add`.
abbrev pub saturating_add : ℕ → ℕ → ℕ
saturating_add a b = min (a + b) (2 ^ 64 - 1)

unfoldable pub stripe_ds_index : ℕ → ℕ → ℕ → ℕ → ℕ
stripe_ds_index offset stripe_unit first_stripe_index stripe_count =
    (offset / stripe_unit + first_stripe_index) % 2 ^ 64 % stripe_count % 2 ^ 32

unfoldable pub ds_offset : ℕ → ℕ → ℕ → Bool → ℕ
ds_offset file_offset stripe_unit stripe_count is_dense =
    if is_dense
    then (file_offset / stripe_unit / stripe_count * stripe_unit + file_offset % stripe_unit)
      % 2 ^ 64
    else file_offset

-- The layout of a file, as the arguments of `split_into_stripes` that do not change in its loop.
pub record Striping : Type 0 where
  pub stripe_unit : ℕ
  pub is_dense : Bool
  pub first_stripe_index : ℕ
  pub stripe_count : ℕ
  pub pattern_offset : ℕ

-- The chunk at a position, and the position behind it.
unfoldable pub chunk_end : Striping → ℕ → ℕ → ℕ
chunk_end l last pos =
    min last (saturating_add pos (l.stripe_unit - (pos - l.pattern_offset) % l.stripe_unit))

unfoldable pub chunk_at : Striping → ℕ → ℕ → StripeChunk
unfolding chunk_end stripe_ds_index ds_offset
chunk_at l last pos = record {
  ds_index =
      stripe_ds_index (pos - l.pattern_offset) l.stripe_unit l.first_stripe_index l.stripe_count;
  file_offset = pos;
  ds_offset =
      if l.is_dense
      then ds_offset (pos - l.pattern_offset) l.stripe_unit l.stripe_count true
      else pos;
  length = (chunk_end l last pos - pos) % 2 ^ 32;
}

-- `while pos < end`. Each turn moves on by a byte or more, so a fuel of the length is enough.
unfoldable pub split_loop : ℕ → Striping → ℕ → ℕ → List StripeChunk
unfolding chunk_end chunk_at
split_loop zero l last pos = []
split_loop (suc fuel) l last pos =
    let rest = split_loop fuel l last (chunk_end l last pos) in
    if ltb pos last then chunk_at l last pos ∷ rest else []

pub split_into_stripes : ℕ → ℕ → Striping → List StripeChunk
unfolding split_loop
split_into_stripes offset count l =
    if l.stripe_unit == 0 || l.stripe_count == 0 || ltb offset l.pattern_offset
    then []
    else split_loop count l (saturating_add offset count) offset
