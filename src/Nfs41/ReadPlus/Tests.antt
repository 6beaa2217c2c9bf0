-- ===== src/Nfs41/ReadPlus/Tests.antt =====
-- Tests of clip_read_plus.
use nfs_rs.Common.{◌+◌, ◌≤◌, ◌≡◌, refl, false, [], ◌∷◌, arith}
use nfs_rs.Nfs41.Compound.Reply.Extensions.{data_at, hole_at, ReadPlusResult}
use nfs_rs.Nfs41.ReadPlus.{clip_read_plus}
use nfs_rs.Nfs41.ReadPlus.Clip.{IsContiguous, stop_of, byte_at, clip_read_plus-byte_at}

-- A hole that starts before the range, and data behind it.
abbrev two_extents : ReadPlusResult
two_extents = record { eof = false; contents = hole_at 40 20 ∷ data_at 60 (1 ∷ 2 ∷ 3 ∷ []) ∷ [] }

abbrev cut_extents : ReadPlusResult
cut_extents = record { eof = false; contents = hole_at 50 10 ∷ data_at 60 (1 ∷ 2 ∷ 3 ∷ []) ∷ [] }

clip_read_plus-byte_at_example :
    IsContiguous 50 cut_extents.contents
    × (stop_of 50 cut_extents.contents ≤ 50 + 20)
    × (byte_at cut_extents.contents 61 ≡ byte_at two_extents.contents 61)
unfolding clip_read_plus stop_of
clip_read_plus-byte_at_example =
    clip_read_plus-byte_at two_extents cut_extents 50 20 61 refl (omega arith) (omega arith)
