-- ===== src/Nfs41/Stripes/Tests.antt =====
-- A range over three data servers with a stripe unit of 64 bytes.
use nfs_rs.Common.{◌≡◌, refl, true, [], ◌∷◌, arith}
use nfs_rs.Nfs41.Stripes.{
  Striping, split_into_stripes, saturating_add, split_loop, chunk_at, chunk_end, stripe_ds_index,
  ds_offset,
}
use nfs_rs.Nfs41.Stripes.Tiles.{Tiles, Fits, split_into_stripes-Tiles}
use nfs_rs.Nfs41.Stripes.Locations.{Located, split_into_stripes-Located}

abbrev three : Striping
three = record {
  stripe_unit = 64;
  is_dense = true;
  first_stripe_index = 1;
  stripe_count = 3;
  pattern_offset = 0;
}

three-Fits : Fits three
three-Fits = record {
  unit_at_least = omega arith;
  unit_below = omega arith;
  first_below = omega arith;
  some_stripes = omega arith;
  count_below = omega arith;
}

two_chunks :
    split_into_stripes 60 10 three
    ≡ record { ds_index = 1; file_offset = 60; ds_offset = 60; length = 4 }
      ∷ record { ds_index = 2; file_offset = 64; ds_offset = 0; length = 6 }
      ∷ []
unfolding split_into_stripes split_loop chunk_at chunk_end stripe_ds_index ds_offset
two_chunks = refl

split_into_stripes-Tiles_example : Tiles 60 (saturating_add 60 10) (split_into_stripes 60 10 three)
split_into_stripes-Tiles_example =
    split_into_stripes-Tiles three three-Fits 60 10 (omega arith) (omega arith) (omega arith)

split_into_stripes-Located_example : Located three (split_into_stripes 60 10 three)
split_into_stripes-Located_example = split_into_stripes-Located three three-Fits 60 10
