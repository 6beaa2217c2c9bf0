-- ===== src/Wire/Utf8.antt =====
-- `String::from_utf8`: which byte strings are texts. A text of the client is its bytes.
use nfs_rs.Common.{
  ℕ, zero, suc, ◌<◌, ◌≡◌, refl, Bool, true, false, ◌&&◌, ◌||◌, Option, none, some, List, [], ◌∷◌,
  ltb, leb, ◌==◌, if◌then◌else◌, All, arith,
}

within : ℕ → ℕ → ℕ → Bool
within lo hi b = leb lo b && leb b hi

-- How many bytes follow a first byte, and the range of the next one.
lead : ℕ → Option (ℕ × ℕ × ℕ)
unfolding within
lead b =
    if ltb b 0x80
    then some (0, 0x80, 0xbf)
    else if within 0xc2 0xdf b
    then some (1, 0x80, 0xbf)
    else if b == 0xe0
    then some (2, 0xa0, 0xbf)
    else if within 0xe1 0xec b || within 0xee 0xef b
    then some (2, 0x80, 0xbf)
    else if b == 0xed
    then some (2, 0x80, 0x9f)
    else if b == 0xf0
    then some (3, 0x90, 0xbf)
    else if within 0xf1 0xf3 b
    then some (3, 0x80, 0xbf)
    else if b == 0xf4
    then some (3, 0x80, 0x8f)
    else none

utf8_from : ℕ → ℕ → ℕ → List ℕ → Bool
unfolding lead within
utf8_from zero lo hi [] = true
utf8_from (suc n) lo hi [] = false
utf8_from zero lo hi (b ∷ r) = elim (lead b) [
  | none ↦ false
  | some (n, lo', hi') ↦ utf8_from n lo' hi' r
]
utf8_from (suc n) lo hi (b ∷ r) = within lo hi b && utf8_from n 0x80 0xbf r

unfoldable pub is_utf8 : List ℕ → Bool
unfolding utf8_from
is_utf8 = utf8_from 0 0x80 0xbf

-- Plain ASCII is text.
pub ascii_utf8 : (s : List ℕ) → All (λ b. b < 0x80) s → is_utf8 s ≡ true
unfolding is_utf8
ascii_utf8 [] h = refl
ascii_utf8 (b ∷ r) h = ground (arith, ascii_utf8 r h.1)
