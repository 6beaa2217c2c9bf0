-- ===== src/Nfs41/Layout/Merge.antt =====
-- nfs41/layout.rs: the segments of a file's layout after another LAYOUTGET: the old ones that meet
-- no new one, and the new ones, in the order of their offsets. A length of 2 ^ 64 - 1 means to the
-- end of the file.
use nfs_rs.Common.{
  ℕ, ◌+◌, ◌-◌, ◌^◌, ◌≤◌, ◌<◌, ◌≡◌, refl, Bool, true, false, not, ◌&&◌, ◌||◌, List, [], ◌∷◌, ◌++◌,
  min, ltb, leb, ◌==◌, if◌then◌else◌, arith, Bool-cases, inl, inr, ◌⊎◌, All, All-append,
}
use nfs_rs.Nfs41.Layout.Decode.{LayoutSegment}

abbrev end_of_file : ℕ
end_of_file = 2 ^ 64 - 1

-- `LayoutSegment::covers`.
unfoldable pub covers : LayoutSegment → ℕ → Bool
covers s offset =
    leb s.offset offset
    && (s.length_ == 2 ^ 64 - 1
        || (if ltb (s.offset + s.length_) (2 ^ 64)
            then ltb offset (s.offset + s.length_)
            else true))

segment_end : LayoutSegment → ℕ
segment_end s =
    if s.length_ == 2 ^ 64 - 1 then 2 ^ 64 - 1 else min (s.offset + s.length_) (2 ^ 64 - 1)

pub layout_segments_overlap : LayoutSegment → LayoutSegment → Bool
unfolding segment_end
layout_segments_overlap left right =
    ltb left.offset (segment_end right) && ltb right.offset (segment_end left)

any_overlap : LayoutSegment → List LayoutSegment → Bool
any_overlap old [] = false
any_overlap old (new ∷ news) = layout_segments_overlap old new || any_overlap old news

-- `current.segments.retain(..)`.
pub retain : List LayoutSegment → List LayoutSegment → List LayoutSegment
retain news [] = []
retain news (old ∷ olds) =
    let rest = retain news olds in if not (any_overlap old news) then old ∷ rest else rest

-- `sort_by_key`, which is stable.
insert_sorted : LayoutSegment → List LayoutSegment → List LayoutSegment
insert_sorted s [] = s ∷ []
insert_sorted s (t ∷ ts) =
    let rest = insert_sorted s ts in if leb s.offset t.offset then s ∷ t ∷ ts else t ∷ rest

sort_by_offset : List LayoutSegment → List LayoutSegment
sort_by_offset [] = []
sort_by_offset (s ∷ ss) = insert_sorted s (sort_by_offset ss)

pub merge_segments : List LayoutSegment → List LayoutSegment → List LayoutSegment
unfolding retain sort_by_offset
merge_segments olds news = sort_by_offset (retain news olds ++ news)

covers-overlap :
    (s t : LayoutSegment) (o : ℕ)
    → o < 2 ^ 64 - 1
    → covers s o ≡ true
    → covers t o ≡ true
    → layout_segments_overlap s t ≡ true
unfolding covers layout_segments_overlap segment_end
covers-overlap s t o b hs ht = ground arith

-- A segment does not share an offset with any of some others.
pub Apart : ℕ → LayoutSegment → List LayoutSegment → Type 0
Apart o s = All λ t. (covers s o && covers t o) ≡ false

any_overlap-Apart :
    (o : ℕ) (s : LayoutSegment) (news : List LayoutSegment)
    → o < 2 ^ 64 - 1
    → any_overlap s news ≡ false
    → Apart o s news
unfolding any_overlap Apart
any_overlap-Apart o s [] b h = tt
any_overlap-Apart o s (t ∷ news) b h =
    (ground (arith, h, covers-overlap s t o b), any_overlap-Apart o s news b (ground (arith, h)))

-- Of the old segments, those that stay cover no offset that a new segment covers.
retain-Apart :
    (o : ℕ) (olds news : List LayoutSegment)
    → o < 2 ^ 64 - 1
    → All (λ s. Apart o s news) (retain news olds)
unfolding retain
retain-Apart o [] news b = tt
retain-Apart o (s ∷ olds) news b = elim (Bool-cases (any_overlap s news)) [
  | inl h ↦ rw h (retain-Apart o olds news b)
  | inr h ↦ rw h (any_overlap-Apart o s news b h, retain-Apart o olds news b)
]

-- Ascending offsets.
pub IsSorted : List LayoutSegment → Type 0
IsSorted [] = Unit {0}
IsSorted (s ∷ ss) = All (λ t. s.offset ≤ t.offset) ss × IsSorted ss

insert-above :
    (k : ℕ) (s : LayoutSegment) (ts : List LayoutSegment)
    → k ≤ s.offset
    → All (λ t. k ≤ t.offset) ts
    → All (λ t. k ≤ t.offset) (insert_sorted s ts)
unfolding insert_sorted
insert-above k s [] h hs = (h, tt)
insert-above k s (t ∷ ts) h hs = elim (Bool-cases (leb s.offset t.offset)) [
  | inl e ↦ rw e (h, hs)
  | inr e ↦ rw e (hs.0, insert-above k s ts h hs.1)
]

All-above :
    (k m : ℕ) (ts : List LayoutSegment)
    → k ≤ m
    → All (λ t. m ≤ t.offset) ts
    → All (λ t. k ≤ t.offset) ts
All-above k m [] h hs = tt
All-above k m (t ∷ ts) h hs = (omega (arith, hs.0), All-above k m ts h hs.1)

insert_sorted-IsSorted :
    (s : LayoutSegment) (ts : List LayoutSegment) → IsSorted ts → IsSorted (insert_sorted s ts)
unfolding insert_sorted IsSorted
insert_sorted-IsSorted s [] h = (tt, tt)
insert_sorted-IsSorted s (t ∷ ts) h = elim (Bool-cases (leb s.offset t.offset)) [
  | inl e ↦ rw e ((ground (arith, e), All-above s.offset t.offset ts (ground (arith, e)) h.0), h)
  | inr e ↦
      rw e (insert-above t.offset s ts (ground (arith, e)) h.0, insert_sorted-IsSorted s ts h.1)
]

sort_by_offset-IsSorted : (ss : List LayoutSegment) → IsSorted (sort_by_offset ss)
unfolding sort_by_offset IsSorted
sort_by_offset-IsSorted [] = tt
sort_by_offset-IsSorted (s ∷ ss) =
    insert_sorted-IsSorted s (sort_by_offset ss) (sort_by_offset-IsSorted ss)

-- A segment is one of some others.
pub Among : LayoutSegment → List LayoutSegment → Type 0
Among s [] = ⊥
Among s (t ∷ ts) = (s ≡ t) ⊎ Among s ts

insert_sorted-All :
    (P : LayoutSegment → Type 0) (s : LayoutSegment) (ts : List LayoutSegment)
    → P s
    → All P ts
    → All P (insert_sorted s ts)
unfolding insert_sorted
insert_sorted-All P s [] h hs = (h, tt)
insert_sorted-All P s (t ∷ ts) h hs = elim (Bool-cases (leb s.offset t.offset)) [
  | inl e ↦ rw e (h, hs)
  | inr e ↦ rw e (hs.0, insert_sorted-All P s ts h hs.1)
]

sort_by_offset-All :
    (P : LayoutSegment → Type 0) (ss : List LayoutSegment) → All P ss → All P (sort_by_offset ss)
unfolding sort_by_offset
sort_by_offset-All P [] h = tt
sort_by_offset-All P (s ∷ ss) h =
    insert_sorted-All P s (sort_by_offset ss) h.0 (sort_by_offset-All P ss h.1)

All-map :
    {P Q : LayoutSegment → Type 0} (ss : List LayoutSegment)
    → ((s : LayoutSegment) → P s → Q s)
    → All P ss
    → All Q ss
All-map [] f h = tt
All-map (s ∷ ss) f h = (f s h.0, All-map ss f h.1)

All-Among : (ss : List LayoutSegment) → All (λ s. Among s ss) ss
unfolding Among
All-Among [] = tt
All-Among (s ∷ ss) = (inl refl, All-map ss (λ t h. inr h) (All-Among ss))

-- After a merge the segments stand in the order of their offsets, and each one is new or covers no
-- offset below 2 ^ 64 - 1 that a new segment covers: no byte has an old mapping beside a new one.
pub merge_segments-IsSorted :
    (olds news : List LayoutSegment) (o : ℕ)
    → o < 2 ^ 64 - 1
    → IsSorted (merge_segments olds news)
      × All (λ s. Apart o s news ⊎ Among s news) (merge_segments olds news)
unfolding merge_segments
merge_segments-IsSorted olds news o b = (
  sort_by_offset-IsSorted (retain news olds ++ news),
  sort_by_offset-All _ (retain news olds ++ news) (
      All-append (λ s. Apart o s news ⊎ Among s news) (retain news olds) news
        (All-map (retain news olds) (λ s h. inl h) (retain-Apart o olds news b))
        (All-map news (λ s h. inr h) (All-Among news))),
)

-- `segments.iter().any(|segment| segment.covers(offset))`.
unfoldable pub any_covers : List LayoutSegment → ℕ → Bool
any_covers [] offset = false
any_covers (s ∷ ss) offset = covers s offset || any_covers ss offset

any_covers-append :
    (xs ys : List LayoutSegment) (o : ℕ) → any_covers ys o ≡ true → any_covers (xs ++ ys) o ≡ true
unfolding any_covers
any_covers-append [] ys o h = h
any_covers-append (x ∷ xs) ys o h = ground (arith, any_covers-append xs ys o h)

insert_sorted-any_covers :
    (s : LayoutSegment) (ts : List LayoutSegment) (o : ℕ)
    → any_covers (insert_sorted s ts) o ≡ (covers s o || any_covers ts o)
unfolding insert_sorted any_covers
insert_sorted-any_covers s [] o = refl
insert_sorted-any_covers s (t ∷ ts) o = ground (arith, insert_sorted-any_covers s ts o)

sort_by_offset-any_covers :
    (ss : List LayoutSegment) (o : ℕ) → any_covers (sort_by_offset ss) o ≡ any_covers ss o
unfolding sort_by_offset any_covers
sort_by_offset-any_covers [] o = refl
sort_by_offset-any_covers (s ∷ ss) o =
    ground (arith, insert_sorted-any_covers s (sort_by_offset ss) o, sort_by_offset-any_covers ss o)

-- What the new segments cover is covered after the merge.
pub any_covers-merge_segments :
    (olds news : List LayoutSegment) (o : ℕ)
    → any_covers news o ≡ true
    → any_covers (merge_segments olds news) o ≡ true
unfolding merge_segments
any_covers-merge_segments olds news o h =
    rw (sort_by_offset-any_covers (retain news olds ++ news) o)
      (any_covers-append (retain news olds) news o h)
