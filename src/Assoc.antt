-- ===== src/Assoc.antt =====
-- `HashMap` as a list of pairs: `get`, `insert`, `remove` and `retain`, for keys with a Boolean
-- equality. The order in which a map is walked is that of the list.
use nfs_rs.Common.{
  ℕ, ◌≡◌, ◌≢◌, ◌↔◌, refl, ap, sym, subst, ◌∙◌, Bool, true, false, List, [], ◌∷◌, Option, none, some,
  inl, inr, ◌==◌ as nat_beq, ==_iff, bytes_eq, bytes_eq_iff, if◌then◌else◌, Bool-cases, arith, All,
}

pub record Eq {ℓ} (A : Type ℓ) : Type ℓ where
  pub beq : A → A → Bool
  pub beq_iff : (a b : A) → (beq a b ≡ true) ↔ (a ≡ b)

instance abbrev pub nat_eq : Eq ℕ
nat_eq = record { beq = nat_beq; beq_iff = ==_iff }

instance abbrev pub text_eq : Eq (List ℕ)
text_eq = record { beq = bytes_eq; beq_iff = bytes_eq_iff }

-- `retain` of a vector.
unfoldable pub keep {ℓ} : {A : Type ℓ} → (A → Bool) → List A → List A
keep p [] = []
keep p (x ∷ xs) = let rest = keep p xs in if p x then x ∷ rest else rest

module _ {ℓ} {K : Type ℓ} ⦃e : Eq K⦄ where
  pub beq_self : (k : K) → e.beq k k ≡ true
  beq_self k = (e.beq_iff k k).1 refl

  pub beq_ne : (k q : K) → k ≢ q → e.beq k q ≡ false
  beq_ne k q h = elim (Bool-cases (e.beq k q)) [
    | inl t ↦ absurd (h ((e.beq_iff k q).0 t))
    | inr f ↦ f
  ]

  pub ne_of_beq : (k q : K) → e.beq k q ≡ false → k ≢ q
  ne_of_beq k q f s = let t : e.beq k q ≡ true = (e.beq_iff k q).1 s in ground (arith, t, f)

module _ {ℓ} {V : Type ℓ} where
  -- The value, if it passes the test.
  unfoldable pub only : (V → Bool) → Option V → Option V
  only p none = none
  only p (some v) = if p v then some v else none

module _ {ℓ κ} {K : Type ℓ} {V : Type κ} ⦃e : Eq K⦄ where
  unfoldable pub find : K → List (K × V) → Option V
  find k [] = none
  find k ((q, v) ∷ m) = let rest = find k m in if e.beq q k then some v else rest

  unfoldable pub remove : K → List (K × V) → List (K × V)
  remove k [] = []
  remove k ((q, v) ∷ m) = let rest = remove k m in if e.beq q k then rest else (q, v) ∷ rest

  unfoldable pub insert : K → V → List (K × V) → List (K × V)
  unfolding remove
  insert k v m = (k, v) ∷ remove k m

  unfoldable pub retain : (V → Bool) → List (K × V) → List (K × V)
  unfolding keep
  retain p m = keep (λ entry. p entry.1) m

  pub find-remove_self : (k : K) (m : List (K × V)) → find k (remove k m) ≡ none
  unfolding find remove
  find-remove_self k [] = refl
  find-remove_self k ((q, v) ∷ m) = elim (Bool-cases (e.beq q k)) [
    | inl t ↦ rw t (find-remove_self k m)
    | inr f ↦ rw (f, f) (find-remove_self k m)
  ]

  pub find-remove_ne : (k q : K) (m : List (K × V)) → k ≢ q → find q (remove k m) ≡ find q m
  unfolding find remove
  find-remove_ne k q [] h = refl
  find-remove_ne k q ((r, v) ∷ m) h = elim (Bool-cases (e.beq r k)) [
    | inl t ↦ rw (t, beq_ne r q (λ s. h (sym ((e.beq_iff r k).0 t) ∙ s))) (find-remove_ne k q m h)
    | inr f ↦ rw (f, find-remove_ne k q m h) refl
  ]

  pub remove_absent : (k : K) (m : List (K × V)) → find k m ≡ none → remove k m ≡ m
  unfolding find remove
  remove_absent k [] h = refl
  remove_absent k ((q, v) ∷ m) h = ground (arith, h, remove_absent k m)

  -- A change at one key, read at any key.
  pub find-remove :
      (k q : K) (m : List (K × V)) → find q (remove k m) ≡ (if e.beq k q then none else find q m)
  find-remove k q m = elim (Bool-cases (e.beq k q)) [
    | inl t ↦ rw (t, sym ((e.beq_iff k q).0 t)) (find-remove_self k m)
    | inr f ↦ rw f (find-remove_ne k q m (ne_of_beq k q f))
  ]

  pub find-insert :
      (k q : K) (v : V) (m : List (K × V))
      → find q (insert k v m) ≡ (if e.beq k q then some v else find q m)
  unfolding find insert
  find-insert k q v m = elim (Bool-cases (e.beq k q)) [
    | inl t ↦ rw t refl
    | inr f ↦ rw f (find-remove_ne k q m (ne_of_beq k q f))
  ]

  -- No key has two entries.
  unfoldable pub Distinct : List (K × V) → Type (ℓ ⊔ κ)
  Distinct [] = Unit
  Distinct ((k, v) ∷ m) = (find k m ≡ none) × Distinct m

  find-remove-none : (k q : K) (m : List (K × V)) → find q m ≡ none → find q (remove k m) ≡ none
  find-remove-none k q m h = elim (Bool-cases (e.beq k q)) [
    | inl t ↦ rw (sym ((e.beq_iff k q).0 t)) (find-remove_self k m)
    | inr f ↦ find-remove_ne k q m (ne_of_beq k q f) ∙ h
  ]

  pub remove-Distinct : (k : K) (m : List (K × V)) → Distinct m → Distinct (remove k m)
  unfolding Distinct remove
  remove-Distinct k [] h = tt
  remove-Distinct k ((q, v) ∷ m) h = elim (Bool-cases (e.beq q k)) [
    | inl t ↦ rw t (remove-Distinct k m h.1)
    | inr f ↦ rw f (find-remove-none k q m h.0, remove-Distinct k m h.1)
  ]

  pub insert-Distinct : (k : K) (v : V) (m : List (K × V)) → Distinct m → Distinct (insert k v m)
  unfolding Distinct insert
  insert-Distinct k v m h = (find-remove_self k m, remove-Distinct k m h)

  pub find-retain :
      (p : V → Bool) (k : K) (m : List (K × V))
      → Distinct m
      → find k (retain p m) ≡ only p (find k m)
  unfolding find retain keep only Distinct
  find-retain p k [] h = refl
  find-retain p k ((q, v) ∷ m) h = elim (Bool-cases (e.beq q k)) [
    | inl t ↦ elim (Bool-cases (p v)) [
      | inl y ↦ rw (y, t, y) refl
      | inr n ↦
          rw (n, t, n)
            (find-retain p k m h.1
              ∙ ap (only p) (subst (λ r. find r m ≡ none) ((e.beq_iff q k).0 t) h.0))
    ]
    | inr f ↦ elim (Bool-cases (p v)) [
      | inl y ↦ rw (y, f) (find-retain p k m h.1)
      | inr n ↦ rw (n, f) (find-retain p k m h.1)
    ]
  ]

  pub retain-Distinct : (p : V → Bool) (m : List (K × V)) → Distinct m → Distinct (retain p m)
  unfolding Distinct retain keep only
  retain-Distinct p [] h = tt
  retain-Distinct p ((k, v) ∷ m) h = elim (Bool-cases (p v)) [
    | inl t ↦ rw t (find-retain p k m h.1 ∙ rw (h.0, only) refl, retain-Distinct p m h.1)
    | inr f ↦ rw f (retain-Distinct p m h.1)
  ]

  pub find-All {μ} :
      (P : V → Type μ) (k : K) (m : List (K × V)) {v : V}
      → All (λ entry. P entry.1) m
      → find k m ≡ some v
      → P v
  unfolding find
  find-All P k [] h found = absurd (ground (arith, found))
  find-All P k ((q, w) ∷ m) {v} h found = elim (Bool-cases (e.beq q k)) [
    | inl t ↦ (let same : w ≡ v = ground (arith, t, found) in subst P same h.0)
    | inr f ↦ find-All P k m h.1 (ground (arith, f, found))
  ]

  pub All-find {μ} :
      (P : K → V → Type μ) (k : K) (m : List (K × V)) {v : V}
      → All (λ entry. P entry.0 entry.1) m
      → find k m ≡ some v
      → P k v
  unfolding find
  All-find P k [] h found = absurd (ground (arith, found))
  All-find P k ((q, w) ∷ m) {v} h found = elim (Bool-cases (e.beq q k)) [
    | inl t ↦
        (let same : w ≡ v = ground (arith, t, found) in
          subst (P k) same (subst (λ x. P x w) ((e.beq_iff q k).0 t) h.0))
    | inr f ↦ All-find P k m h.1 (ground (arith, f, found))
  ]

  pub remove-All {μ} :
      (P : V → Type μ) (k : K) (m : List (K × V))
      → All (λ entry. P entry.1) m
      → All (λ entry. P entry.1) (remove k m)
  unfolding remove
  remove-All P k [] h = tt
  remove-All P k ((q, v) ∷ m) h = elim (Bool-cases (e.beq q k)) [
    | inl t ↦ rw t (remove-All P k m h.1)
    | inr f ↦ rw f (h.0, remove-All P k m h.1)
  ]

  pub insert-All {μ} :
      (P : V → Type μ) (k : K) (v : V) (m : List (K × V))
      → P v
      → All (λ entry. P entry.1) m
      → All (λ entry. P entry.1) (insert k v m)
  unfolding insert
  insert-All P k v m p h = (p, remove-All P k m h)
