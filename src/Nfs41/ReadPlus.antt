-- ===== src/Nfs41/ReadPlus.antt =====
-- nfs41/v42_ops.rs: clip_read_plus, which checks the extents of a READ_PLUS reply and cuts them to
-- the range that was asked for.
pub mod Clip
mod Tests
use nfs_rs.Common.{
  ℕ, ◌+◌, ◌-◌, ◌^◌, min, Bool, true, false, not, ◌&&◌, ◌||◌, List, [], ◌∷◌, length, Option, none,
  some, ltb, leb, ◌==◌, if◌then◌else◌,
}
use nfs_rs.Errors.{xdr, invalid_input}
use nfs_rs.Wire.{Outcome, ok, err, panic}
use nfs_rs.Nfs41.Compound.Reply.Extensions.{
  ReadPlusContent, data_at, hole_at, ReadPlusResult, is_empty,
}

unfoldable pub start_of : ReadPlusContent → ℕ
start_of (data_at offset bytes) = offset
start_of (hole_at offset len) = offset

unfoldable pub length_of : ReadPlusContent → ℕ
length_of (data_at offset bytes) = length bytes
length_of (hole_at offset len) = len

unfoldable pub is_data : ReadPlusContent → Bool
is_data (data_at offset bytes) = true
is_data (hole_at offset len) = false

-- `previous_end.is_some_and(|last| last != start)`.
unfoldable pub is_apart : Option ℕ → ℕ → Bool
is_apart none start = false
is_apart (some last) start = not (last == start)

unfoldable pub clipped : ℕ → ℕ → ReadPlusContent → ReadPlusContent
clipped cursor clipped_end (data_at offset bytes) = data_at cursor bytes
clipped cursor clipped_end (hole_at offset len) = hole_at cursor (clipped_end - cursor)

unfoldable pub push : ReadPlusContent → Outcome ReadPlusResult → Outcome ReadPlusResult
push x (ok c) = ok (record c { contents = x ∷ c.contents })
push x (err e) = err e
push x panic = panic

-- The loop, with what it still has to read, the cursor, the end of the extent before and the flag.
unfoldable pub clip_loop :
    ℕ → ℕ → List ReadPlusContent → ℕ → Option ℕ → Bool → Outcome ReadPlusResult
unfolding start_of length_of is_data is_apart clipped push
clip_loop offset end_ [] cursor previous eof = ok (record { eof = eof; contents = [] })
clip_loop offset end_ (x ∷ xs) cursor previous eof =
    let start = start_of x in
    let extent_end = start + length_of x in
    let clipped_end = min extent_end end_ in
    let rest =
      clip_loop offset end_ xs clipped_end (some extent_end)
        (if ltb end_ extent_end then false else eof) in
    if leb (2 ^ 64) extent_end
    then err xdr
    else if length_of x == 0
        || (is_apart previous start
            || (ltb cursor start || (leb extent_end cursor || cursor == end_)))
    then err xdr
    else if is_data x && (ltb start offset || ltb end_ extent_end)
    then err xdr
    else push (clipped cursor clipped_end x) rest

-- The test at the end: an extent is pushed for each one of the reply.
unfoldable pub is_stuck : List ReadPlusContent → Bool → ℕ → Bool
is_stuck [] eof count = not eof && not (count == 0)
is_stuck (x ∷ xs) eof count = false

unfoldable pub checked : ReadPlusResult → ℕ → Outcome ReadPlusResult → Outcome ReadPlusResult
unfolding is_stuck
checked reply count (ok c) = if is_stuck c.contents reply.eof count then err xdr else ok c
checked reply count (err e) = err e
checked reply count panic = panic

unfoldable pub clip_read_plus : ReadPlusResult → ℕ → ℕ → Outcome ReadPlusResult
unfolding clip_loop checked
clip_read_plus reply offset count =
    if leb (2 ^ 64) (offset + count)
    then err invalid_input
    else checked reply count
        (clip_loop offset (offset + count) reply.contents offset none reply.eof)
