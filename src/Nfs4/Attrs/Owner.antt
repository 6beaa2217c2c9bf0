-- ===== src/Nfs4/Attrs/Owner.antt =====
-- nfs4/attrs.rs: `parse_numeric_owner`, and the decimal texts of `to_string` that it reads.
use nfs_rs.Common.{
  ℕ, zero, suc, ◌+◌, ◌-◌, ◌*◌, ◌/◌, ◌%◌, ◌^◌, ◌≤◌, ◌<◌, ◌≡◌, refl, ◌&&◌, List, [], ◌∷◌, ◌++◌,
  Option, none, some, ltb, leb, ◌==◌, bytes_eq, if◌then◌else◌, arith, All, All-append, Bool-cases,
  inl, inr, ltb→lt, subst, ap, ◌∙◌,
}

-- The digits of `str::parse::<u32>`: none for an empty text, another sign, or a number too large.
parse_digits : ℕ → List ℕ → Option ℕ
parse_digits acc [] = if ltb acc (2 ^ 32) then some acc else none
parse_digits acc (c ∷ cs) =
    if leb 48 c && leb c 57 then parse_digits (acc * 10 + (c - 48)) cs else none

-- A plus sign is allowed in front.
parse_u32 : List ℕ → Option ℕ
parse_u32 [] = none
parse_u32 (c ∷ []) = if c == 43 then none else parse_digits 0 (c ∷ [])
parse_u32 (c ∷ d ∷ cs) = if c == 43 then parse_digits 0 (d ∷ cs) else parse_digits 0 (c ∷ d ∷ cs)

-- `s.split('@').next()`.
before_at : List ℕ → List ℕ
before_at [] = []
before_at (c ∷ cs) = let rest = before_at cs in if c == 64 then [] else c ∷ rest

-- The bytes of `root`.
abbrev root : List ℕ
root = 114 ∷ 111 ∷ 111 ∷ 116 ∷ []

or_named : List ℕ → Option ℕ → ℕ
or_named name (some n) = n
or_named name none = if bytes_eq name root then 0 else 65534

or_name : List ℕ → Option ℕ → ℕ
or_name s (some n) = n
or_name s none = or_named (before_at s) (parse_u32 (before_at s))

pub parse_numeric_owner : List ℕ → ℕ
parse_numeric_owner s = or_name s (parse_u32 s)

-- `u32::to_string`, by division; ten digits are enough.
decimal : ℕ → ℕ → List ℕ
decimal zero n = []
decimal (suc fuel) n =
    let rest = decimal fuel (n / 10) in
    if ltb n 10 then (48 + n) ∷ [] else rest ++ ((48 + n % 10) ∷ [])

pub to_string : ℕ → List ℕ
unfolding decimal
to_string n = decimal 10 n

-- All digits, read from the left behind an accumulator.
value_of : ℕ → List ℕ → ℕ
value_of acc [] = acc
value_of acc (c ∷ cs) = value_of (acc * 10 + (c - 48)) cs

IsDigit : ℕ → Type 0
IsDigit c = (48 ≤ c) × (c ≤ 57)

value_of-append :
    (acc : ℕ) (xs : List ℕ) (c : ℕ)
    → value_of acc (xs ++ (c ∷ [])) ≡ value_of acc xs * 10 + (c - 48)
unfolding value_of
value_of-append acc [] c = refl
value_of-append acc (x ∷ xs) c = value_of-append (acc * 10 + (x - 48)) xs c

parse_digits-value :
    (acc : ℕ) (cs : List ℕ)
    → All IsDigit cs
    → value_of acc cs < 2 ^ 32
    → parse_digits acc cs ≡ some (value_of acc cs)
unfolding parse_digits value_of IsDigit
parse_digits-value acc [] h b = ground arith
parse_digits-value acc (c ∷ cs) h b =
    ground (arith, parse_digits-value (acc * 10 + (c - 48)) cs h.1 b, h.0)

decimal-IsDigit : (fuel n : ℕ) → All IsDigit (decimal fuel n)
unfolding decimal IsDigit
decimal-IsDigit zero n = tt
decimal-IsDigit (suc fuel) n = elim (Bool-cases (ltb n 10)) [
  | inl h ↦ rw h ((omega arith, omega (arith, ltb→lt n 10 h)), tt)
  | inr h ↦ rw h (
      All-append IsDigit (decimal fuel (n / 10)) _ (decimal-IsDigit fuel (n / 10))
        ((omega arith, omega arith), tt))
]

value_of-decimal : (fuel n : ℕ) → n < 10 ^ fuel → value_of 0 (decimal fuel n) ≡ n
unfolding decimal value_of
value_of-decimal zero n h = omega arith
value_of-decimal (suc fuel) n h = elim (Bool-cases (ltb n 10)) [
  | inl p ↦ rw p (omega arith)
  | inr p ↦ rw p (
      omega (
        arith,
        value_of-append 0 (decimal fuel (n / 10)) (48 + n % 10),
        value_of-decimal fuel (n / 10) (omega arith),
      ))
]

-- A text that begins with a digit is not signed.
parse_u32-digit : (c : ℕ) (cs : List ℕ) → IsDigit c → parse_u32 (c ∷ cs) ≡ parse_digits 0 (c ∷ cs)
unfolding parse_u32 parse_digits IsDigit
parse_u32-digit c [] h = ground (arith, h)
parse_u32-digit c (d ∷ cs) h = ground (arith, h)

decimal-cons : (fuel n : ℕ) → (c : ℕ) × (cs : List ℕ) × (decimal (suc fuel) n ≡ c ∷ cs)
unfolding decimal
decimal-cons fuel n = elim (Bool-cases (ltb n 10)) [
  | inl h ↦ (48 + n, [], rw h refl)
  | inr h ↦ (let (c, cs, e) = first (decimal fuel (n / 10)) (48 + n % 10) in (c, cs, rw h e))
]
  where
    first : (xs : List ℕ) (x : ℕ) → (c : ℕ) × (cs : List ℕ) × (xs ++ (x ∷ []) ≡ c ∷ cs)
    first [] x = (x, [], refl)
    first (y ∷ ys) x = (y, ys ++ (x ∷ []), refl)

-- The digits of a number, with what may stand behind them.
parse_digits-at :
    (acc : ℕ) (cs domain : List ℕ) → All IsDigit cs → parse_digits acc (cs ++ (64 ∷ domain)) ≡ none
unfolding parse_digits IsDigit
parse_digits-at acc [] domain h = refl
parse_digits-at acc (c ∷ cs) domain h =
    ground (arith, parse_digits-at (acc * 10 + (c - 48)) cs domain h.1, h.0)

before_at-digits : (cs domain : List ℕ) → All IsDigit cs → before_at (cs ++ (64 ∷ domain)) ≡ cs
unfolding before_at IsDigit
before_at-digits [] domain h = refl
before_at-digits (c ∷ cs) domain h = rw (before_at-digits cs domain h.1) (ground (arith, h.0))

module _ (n : ℕ) (fits : n < 2 ^ 32) where
  digits : All IsDigit (to_string n)
  unfolding to_string
  digits = decimal-IsDigit 10 n

  parse_u32-to_string : parse_u32 (to_string n) ≡ some n
  unfolding to_string
  parse_u32-to_string =
      let (c, cs, e) = decimal-cons 9 n in
      let all : All IsDigit (c ∷ cs) = subst (All IsDigit) e (decimal-IsDigit 10 n) in
      let value : value_of 0 (c ∷ cs) ≡ n =
        subst (λ ds. value_of 0 ds ≡ n) e (value_of-decimal 10 n (omega arith)) in
      rw e (
        parse_u32-digit c cs all.0
        ∙ parse_digits-value 0 (c ∷ cs) all (omega (arith, value))
        ∙ ap some value)

  parse_u32-domain : (domain : List ℕ) → parse_u32 (to_string n ++ (64 ∷ domain)) ≡ none
  unfolding to_string
  parse_u32-domain domain =
      let (c, cs, e) = decimal-cons 9 n in
      let all : All IsDigit (c ∷ cs) = subst (All IsDigit) e (decimal-IsDigit 10 n) in
      rw e (parse_u32-digit c (cs ++ (64 ∷ domain)) all.0 ∙ parse_digits-at 0 (c ∷ cs) domain all)

  -- The text that the client sends for a u32 owner is read back as this number, and so is the text
  -- with an `@` and any domain behind it.
  pub parse_numeric_owner-to_string :
      (domain : List ℕ)
      → (parse_numeric_owner (to_string n) ≡ n)
        × (parse_numeric_owner (to_string n ++ (64 ∷ domain)) ≡ n)
  unfolding parse_numeric_owner or_name or_named
  parse_numeric_owner-to_string domain = (
    rw parse_u32-to_string refl,
    rw (parse_u32-domain domain, before_at-digits (to_string n) domain digits, parse_u32-to_string)
        refl,
  )
