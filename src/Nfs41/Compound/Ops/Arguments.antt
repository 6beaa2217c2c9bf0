-- ===== src/Nfs41/Compound/Ops/Arguments.antt =====
-- The side of the server: the grammar of the arguments of each operation in RFC 8881, RFC 7862 and
-- RFC 8276, and the reader of a COMPOUND. Where a choice has an arm that this client never sends,
-- the grammar of that arm ends at once.
use nfs_rs.Common.{ℕ, ◌*◌, List, [], ◌∷◌, none, some, ◌==◌, ◌||◌, if◌then◌else◌}
use nfs_rs.Errors.{xdr}
use nfs_rs.Wire.{Reader, ◌>>=◌, pure, fail, repeat}
use nfs_rs.Wire.Opaque.{take_u32, take_opaque}
use nfs_rs.Wire.Grammar.{
  Field, Grammar, end, word_then, wide_then, fixed_then, text_then, words_then, read_fields,
}
use nfs_rs.Assoc.{nat_eq, find}

abbrev plain : Grammar → Grammar
plain g = word_then λ _. g

abbrev stateid : Grammar → Grammar
stateid g = fixed_then 16 g

abbrev channel : Grammar → Grammar
channel g =
    plain (plain (plain (plain (plain (plain (word_then λ n. if n == 0 then g else plain g))))))

abbrev claim : Grammar
claim = word_then λ c. if c == 0 then text_then end else end

abbrev openflag : ℕ → Grammar
openflag n =
    if n == 0
    then claim
    else word_then λ mode. if mode == 0 || mode == 1 then words_then (text_then claim) else end

abbrev created : ℕ → Grammar
created objtype =
    if objtype == 5
    then text_then (text_then (words_then (text_then end)))
    else if objtype == 3 || objtype == 4
    then plain (plain (text_then (words_then (text_then end))))
    else text_then (words_then (text_then end))

abbrev range_arguments : Grammar
range_arguments = stateid (wide_then (wide_then end))

abbrev part_arguments : Grammar
part_arguments = stateid (wide_then (plain end))

abbrev copy_arguments : Grammar → Grammar
copy_arguments g = stateid (stateid (wide_then (wide_then (wide_then g))))

abbrev layout_update : Grammar
layout_update = word_then λ changed. if changed == 0 then plain (text_then end) else end

abbrev locker : ℕ → Grammar
locker known =
    if known == 1 then plain (stateid (plain (wide_then (text_then end)))) else stateid (plain end)

abbrev new_offset : ℕ → Grammar
new_offset given = if given == 0 then layout_update else wide_then layout_update

abbrev returned : ℕ → Grammar
returned kind = if kind == 1 then wide_then (wide_then (stateid (text_then end))) else end

abbrev implementation : ℕ → Grammar
implementation n = if n == 0 then end else text_then (text_then (wide_then (plain end)))

abbrev protected : ℕ → Grammar
protected how = if how == 0 then word_then implementation else end

abbrev callback_security : ℕ → Grammar
callback_security n = if n == 0 then end else plain end

unfoldable pub arguments : List (ℕ × Grammar)
arguments =
    (3, plain end)
    ∷ (4, plain (stateid end))
    ∷ (5, wide_then (plain end))
    ∷ (6, word_then created)
    ∷ (8, stateid end)
    ∷ (9, words_then end)
    ∷ (10, end)
    ∷ (11, text_then end)
    ∷ (12, plain (plain (wide_then (wide_then (word_then locker)))))
    ∷ (13, plain (wide_then (wide_then (wide_then (text_then end)))))
    ∷ (14, plain (plain (stateid (wide_then (wide_then end)))))
    ∷ (15, text_then end)
    ∷ (16, end)
    ∷ (18, plain (plain (plain (wide_then (text_then (word_then openflag))))))
    ∷ (19, plain end)
    ∷ (20, stateid (plain end))
    ∷ (22, text_then end)
    ∷ (24, end)
    ∷ (25, part_arguments)
    ∷ (26, wide_then (fixed_then 8 (plain (plain (words_then end)))))
    ∷ (27, end)
    ∷ (28, text_then end)
    ∷ (29, text_then (text_then end))
    ∷ (31, end)
    ∷ (32, end)
    ∷ (34, stateid (words_then (text_then end)))
    ∷ (38, stateid (wide_then (plain (text_then end))))
    ∷ (41, fixed_then 16 (plain (plain end)))
    ∷ (42, fixed_then 8 (text_then (plain (word_then protected))))
    ∷ (43, wide_then (plain (plain (channel (channel (plain (word_then callback_security)))))))
    ∷ (44, fixed_then 16 end)
    ∷ (45, stateid end)
    ∷ (47, fixed_then 16 (plain (plain (words_then end))))
    ∷ (49, wide_then (wide_then (plain (stateid (word_then new_offset)))))
    ∷ (50, plain (plain (plain (wide_then (wide_then (wide_then (stateid (plain end))))))))
    ∷ (51, plain (plain (plain (word_then returned))))
    ∷ (53, fixed_then 16 (plain (plain (plain (plain end)))))
    ∷ (55, word_then λ n. fixed_then (16 * n) end)
    ∷ (57, wide_then end)
    ∷ (58, plain end)
    ∷ (59, range_arguments)
    ∷ (60, copy_arguments (plain (plain (plain end))))
    ∷ (62, range_arguments)
    ∷ (66, stateid end)
    ∷ (68, part_arguments)
    ∷ (69, part_arguments)
    ∷ (71, copy_arguments end)
    ∷ (72, text_then end)
    ∷ (73, plain (text_then (text_then end)))
    ∷ (74, wide_then (plain end))
    ∷ (75, text_then end)
    ∷ []

abbrev pub Described : Type 0
Described = ℕ × List Field

unfoldable pub read_op : Reader Described
unfolding arguments
read_op = do
  opcode ← take_u32
  elim (find opcode arguments) [
    | none ↦ fail xdr
    | some g ↦ do fs ← read_fields g; pure (opcode, fs)
  ]

-- The tag, the minor version, and the operations.
unfoldable pub read_compound : Reader (List ℕ × ℕ × List Described)
unfolding read_op
read_compound = do
  tag ← take_opaque
  minor_version ← take_u32
  count ← take_u32
  ops ← repeat count read_op
  pure (tag, minor_version, ops)
