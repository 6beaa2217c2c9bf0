-- ===== src/Nfs41/ReadPlus/Clip.antt =====
-- clip_read_plus gives extents that follow each other from the offset, with the bytes of the reply.
use nfs_rs.Common.{
  ℕ, ◌+◌, ◌-◌, ◌^◌, ◌≤◌, ◌<◌, ◌≡◌, refl, min, Bool, true, false, ◌&&◌, ◌||◌, List, [], ◌∷◌,
  get_elem?, Option, none, some, ltb, leb, ◌==◌, if◌then◌else◌, arith, Bool-cases, inl, inr,
}
use nfs_rs.Wire.{Outcome, ok, err, panic}
use nfs_rs.Nfs41.Compound.Reply.Extensions.{ReadPlusContent, data_at, hole_at, ReadPlusResult}
use nfs_rs.Nfs41.ReadPlus.{
  start_of, length_of, is_data, is_apart, clipped, push, clip_loop, is_stuck, checked,
  clip_read_plus,
}

-- Each extent holds a byte or more and starts where the one before it ends.
unfoldable pub IsContiguous : ℕ → List ReadPlusContent → Type 0
unfolding start_of length_of
IsContiguous cursor [] = Unit {0}
IsContiguous cursor (x ∷ xs) =
    (start_of x ≡ cursor) × (0 < length_of x) × IsContiguous (cursor + length_of x) xs

-- Where the extents from `cursor` on end.
unfoldable pub stop_of : ℕ → List ReadPlusContent → ℕ
unfolding length_of
stop_of cursor [] = cursor
stop_of cursor (x ∷ xs) = stop_of (cursor + length_of x) xs

-- The byte at a place of the file, which is 0 in a hole.
unfoldable pub content : ReadPlusContent → ℕ → Option ℕ
content (data_at offset bytes) p = get_elem? bytes (p - offset)
content (hole_at offset len) p = some 0

unfoldable pub byte_at : List ReadPlusContent → ℕ → Option ℕ
unfolding start_of length_of content
byte_at [] p = none
byte_at (x ∷ xs) p =
    let rest = byte_at xs p in
    if leb (start_of x) p && ltb p (start_of x + length_of x) then content x p else rest

-- The cursor stands where the extent before ended, or at the end of the range.
unfoldable pub Follows : ℕ → ℕ → ℕ → Option ℕ → Type 0
Follows offset end_ cursor none = cursor ≡ offset
Follows offset end_ cursor (some last) = cursor ≡ min last end_

ok_inj : {a b : ReadPlusResult} → ok a ≡ ok b → b ≡ a
ok_inj {a} {b} h = ground (arith, h)

push-ok :
    (x : ReadPlusContent) (o : Outcome ReadPlusResult) {c : ReadPlusResult}
    → push x o ≡ ok c
    → (d : ReadPlusResult) × (o ≡ ok d) × (c ≡ record d { contents = x ∷ d.contents })
unfolding push
push-ok x (ok d) h = (d, refl, ok_inj h)
push-ok x (err e) h = absurd (ground (arith, h))
push-ok x panic h = absurd (ground (arith, h))

-- What the guards of the loop leave open: the extent that is pushed.
record Step (offset end_ cursor : ℕ) (x : ReadPlusContent) : Type 0 where
  pub low : start_of x ≤ cursor
  pub progress : cursor < start_of x + length_of x
  pub inside : cursor < end_
  pub exact : is_data x ≡ true → (start_of x ≡ cursor) × (start_of x + length_of x ≤ end_)

-- The guards of one pass through the loop.
abbrev guard : ℕ → Option ℕ → ReadPlusContent → ℕ → Bool
guard cursor previous x end_ =
    length_of x == 0
    || (is_apart previous (start_of x)
        || (ltb cursor (start_of x) || (leb (start_of x + length_of x) cursor || cursor == end_)))

data-starts :
    (offset end_ cursor : ℕ) (previous : Option ℕ) (x : ReadPlusContent)
    → Follows offset end_ cursor previous
    → cursor ≤ end_
    → guard cursor previous x end_ ≡ false
    → (ltb (start_of x) offset || ltb end_ (start_of x + length_of x)) ≡ false
    → (start_of x ≡ cursor) × (start_of x + length_of x ≤ end_)
unfolding Follows is_apart
data-starts offset end_ cursor none x follows low a b =
    (ground (arith, a, b, follows), ground (arith, b))
data-starts offset end_ cursor (some last) x follows low a b =
    (ground (arith, a, b, follows, low), ground (arith, b))

module _ (offset end_ cursor : ℕ) (previous : Option ℕ) (x : ReadPlusContent) where
  guards-Step :
      Follows offset end_ cursor previous
      → cursor ≤ end_
      → guard cursor previous x end_ ≡ false
      → (is_data x && (ltb (start_of x) offset || ltb end_ (start_of x + length_of x))) ≡ false
      → Step offset end_ cursor x
  guards-Step follows low a b = record {
    low = ground (arith, a);
    progress = ground (arith, a);
    inside = ground (arith, a, low);
    exact = λ data_here.
        data-starts offset end_ cursor previous x follows low a (ground (arith, b, data_here));
  }

-- The extent that is pushed stands at the cursor and ends at `clipped_end`, with the same bytes.
start_of-clipped :
    (cursor stop : ℕ) (x : ReadPlusContent) → start_of (clipped cursor stop x) ≡ cursor
unfolding start_of clipped
start_of-clipped cursor stop (data_at offset bytes) = refl
start_of-clipped cursor stop (hole_at offset len) = refl

module _ {offset end_ cursor : ℕ} where
  clipped-ends :
      (x : ReadPlusContent)
      → Step offset end_ cursor x
      → cursor + length_of (clipped cursor (min (start_of x + length_of x) end_) x)
        ≡ min (start_of x + length_of x) end_
  unfolding start_of length_of clipped is_data
  clipped-ends (data_at start bytes) s = (let e = s.exact refl in omega (arith, e.0, e.1))
  clipped-ends (hole_at start len) s = omega (arith, s.progress, s.inside)

  content-clipped :
      (x : ReadPlusContent) (stop p : ℕ)
      → Step offset end_ cursor x
      → content (clipped cursor stop x) p ≡ content x p
  unfolding start_of content clipped is_data
  content-clipped (data_at start bytes) stop p s = rw ((s.exact refl).0) refl
  content-clipped (hole_at start len) stop p s = refl

checked-inv :
    (reply : ReadPlusResult) (count : ℕ) (o : Outcome ReadPlusResult) {c : ReadPlusResult}
    → checked reply count o ≡ ok c
    → o ≡ ok c
unfolding checked
checked-inv reply count (ok d) h = elim (Bool-cases (is_stuck d.contents reply.eof count)) [
  | inl t ↦ absurd (ground (arith, t, h))
  | inr f ↦ rw f at h
]
checked-inv reply count (err e) h = absurd (ground (arith, h))
checked-inv reply count panic h = absurd (ground (arith, h))

record Clipped (end_ cursor : ℕ) (xs : List ReadPlusContent) (c : ReadPlusResult) (p : ℕ)
    : Type 0 where
  pub contiguous : IsContiguous cursor c.contents
  pub bounded : stop_of cursor c.contents ≤ end_
  pub same : cursor ≤ p → p < stop_of cursor c.contents → byte_at c.contents p ≡ byte_at xs p

-- The extents behind one do not end before it.
stop_of-bound : (cursor : ℕ) (xs : List ReadPlusContent) → cursor ≤ stop_of cursor xs
unfolding stop_of
stop_of-bound cursor [] = omega arith
stop_of-bound cursor (x ∷ xs) = omega (arith, stop_of-bound (cursor + length_of x) xs)

abbrev cut_end : ℕ → ReadPlusContent → ℕ
cut_end end_ x = min (start_of x + length_of x) end_

module _ {offset end_ cursor : ℕ} (x : ReadPlusContent) (xs : List ReadPlusContent)
    (d : ReadPlusResult) (p : ℕ) where
  push-byte_at :
      Step offset end_ cursor x
      → Clipped end_ (cut_end end_ x) xs d p
      → cursor ≤ p
      → p < stop_of (cut_end end_ x) d.contents
      → byte_at (clipped cursor (cut_end end_ x) x ∷ d.contents) p ≡ byte_at (x ∷ xs) p
  unfolding byte_at
  push-byte_at s rest low high =
      let y = clipped cursor (cut_end end_ x) x in
      let ends = clipped-ends x s in
      let starts = start_of-clipped cursor (cut_end end_ x) x in
      elim (Bool-cases (ltb p (cut_end end_ x))) [
        | inl t ↦
            (let new : (leb (start_of y) p && ltb p (start_of y + length_of y)) ≡ true =
                ground (arith, starts, ends, low, t) in
              let old : (leb (start_of x) p && ltb p (start_of x + length_of x)) ≡ true =
                ground (arith, s.low, low, t) in
              rw (new, old) (content-clipped x (cut_end end_ x) p s))
        | inr f ↦
            (let new : (leb (start_of y) p && ltb p (start_of y + length_of y)) ≡ false =
                ground (arith, starts, ends, f) in
              let old : (leb (start_of x) p && ltb p (start_of x + length_of x)) ≡ false =
                ground (arith, f, high, rest.bounded) in
              rw (new, old) (rest.same (ground (arith, f)) high))
      ]

  push-Clipped :
      Step offset end_ cursor x
      → Clipped end_ (cut_end end_ x) xs d p
      → Clipped end_ cursor
          (x ∷ xs)
          (record d { contents = clipped cursor (cut_end end_ x) x ∷ d.contents })
          p
  unfolding IsContiguous stop_of
  push-Clipped s rest =
      let ends = clipped-ends x s in
      let starts = start_of-clipped cursor (cut_end end_ x) x in
      record {
        contiguous = (starts, omega (arith, ends, s.progress, s.inside), rw ends rest.contiguous);
        bounded = rw ends rest.bounded;
        same = λ low high. push-byte_at s rest low (rw ends at high);
      }

clip_loop-Clipped :
    (offset end_ cursor : ℕ) (previous : Option ℕ) (eof : Bool) (p : ℕ) (xs : List ReadPlusContent)
    {c : ReadPlusResult}
    → Follows offset end_ cursor previous
    → cursor ≤ end_
    → clip_loop offset end_ xs cursor previous eof ≡ ok c
    → Clipped end_ cursor xs c p
unfolding clip_loop IsContiguous stop_of Follows
clip_loop-Clipped offset end_ cursor previous eof p [] {c} follows low h = rw (ok_inj h) (record {
  contiguous = tt;
  bounded = low;
  same = λ after before. absurd (omega (arith, after, before));
})
clip_loop-Clipped offset end_ cursor previous eof p (x ∷ xs) {c} follows low h =
    elim (Bool-cases (leb (2 ^ 64) (start_of x + length_of x))) [
      | inl t ↦ absurd (ground (arith, t, h))
      | inr f ↦ elim (Bool-cases (guard cursor previous x end_)) [
        | inl t ↦ absurd (ground (arith, t, h))
        | inr a ↦
            elim (Bool-cases
              (is_data x && (ltb (start_of x) offset || ltb end_ (start_of x + length_of x)))) [
                | inl t ↦ absurd (ground (arith, t, h))
                | inr b ↦
                    (let (d, got, same) = push-ok _ _ (rw (f, a, b) at h) in
                      rw same (
                        push-Clipped x xs d p
                          (guards-Step offset end_ cursor previous x follows low a b)
                          (clip_loop-Clipped offset end_ (cut_end end_ x)
                            (some (start_of x + length_of x))
                            (if ltb end_ (start_of x + length_of x) then false else eof) p xs refl
                            (omega arith) got)))
              ]
      ]
    ]

-- Where clip_read_plus accepts a READ_PLUS reply, its extents follow each other from the offset that
-- was asked for, none is empty and none ends behind the range; and each byte of the range before
-- their end is the same as in the reply, where a byte of a hole is 0.
pub clip_read_plus-byte_at :
    (reply c : ReadPlusResult) (offset count p : ℕ)
    → clip_read_plus reply offset count ≡ ok c
    → offset ≤ p
    → p < stop_of offset c.contents
    → IsContiguous offset c.contents
      × (stop_of offset c.contents ≤ offset + count)
      × (byte_at c.contents p ≡ byte_at reply.contents p)
unfolding clip_read_plus Follows
clip_read_plus-byte_at reply c offset count p h low high =
    let run : clip_loop offset (offset + count) reply.contents offset none reply.eof ≡ ok c =
      elim (Bool-cases (leb (2 ^ 64) (offset + count))) [
        | inl t ↦ absurd (ground (arith, t, h))
        | inr f ↦ checked-inv reply count _ (rw f at h)
      ] in
    let all =
      clip_loop-Clipped offset (offset + count) offset none reply.eof p reply.contents refl
        (omega arith) run in
    (all.contiguous, all.bounded, all.same low high)
