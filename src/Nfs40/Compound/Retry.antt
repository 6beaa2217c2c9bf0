-- ===== src/Nfs40/Compound/Retry.antt =====
-- nfs40/compound.rs: when a busy reply lets a request of NFSv4.0 be sent again.
use nfs_rs.Common.{
  ℕ, zero, suc, ◌%◌, ◌^◌, ◌≤◌, ◌≡◌, refl, subst, ap, Bool, true, not, ◌||◌, List, [], ◌∷◌, ◌++◌,
  Option, none, some, length, drop, ltb, ◌==◌, if◌then◌else◌, arith, Bool-cases, inl, inr, ◌⊎◌, All,
  append_assoc, map,
}
use nfs_rs.Errors.{NfsError, xdr}
use nfs_rs.Wire.{Reader, ok, and_then, ◌>>=◌, ◌>>◌, pure, fail, remaining, IsU32}
use nfs_rs.Wire.Words.{concat_map, >>=-run, >>=-inv}
use nfs_rs.Wire.Opaque.{take_u32, take_opaque, take_u32-run}
use nfs_rs.Wire.Gives.{Always, pure-Always, fail-Always, bind-Always, if-Always}
use nfs_rs.Rpc.Call.{Auth}
use nfs_rs.Nfs4.Compound.{new, encode_with_header}
use nfs_rs.Nfs40.Compound.Busy.{
  on, is_owner_sequenced, request_argument, reply_result, sent_head, status_error, busy_results,
  retryable_busy_response,
}
use nfs_rs.Nfs40.Compound.Calls.{
  Call, build, encoded, reads, IsCall, Rejected, ownerless, on_the_wire, argument-run, IsU32-opcode,
  request, request-head, count-calls,
}

on-Always {ℓ κ} :
    {A : Type ℓ} {B : Type κ} {P : B → Type 0} (m : Reader A) (f : A × List ℕ → Reader B)
    (sent : List ℕ) {a : A} {r : List ℕ}
    → m sent ≡ ok (a, r)
    → Always P (f (a, r))
    → Always P (on sent m >>= f)
unfolding on ◌>>=◌ and_then
on-Always m f sent e p = record { holds = λ s b r h. p.holds s b r (rw (e, on) at h) }

module _ (known : ℕ → Bool) (status : ℕ) where
  Found : ℕ → List Call → Option NfsError → Type 0
  unfolding Rejected
  Found n cs none = Unit {0}
  Found n cs (some e) = Rejected known status e n cs

  -- The loop behind the opcode, the status and the opcode of the request.
  after : ℕ → ℕ → ℕ → List ℕ → Reader (Option NfsError)
  after opcode answer n rest =
      if not (answer == 0)
      then (do
        left ← remaining
        if not (n == 0) || (not (answer == status) || not (left == 0))
            then fail xdr
            else pure
                (if is_owner_sequenced opcode then none else some (status_error known answer)))
      else (do
        argument ← on rest (request_argument opcode)
        if not argument.0
            then pure none
            else (do reply_result opcode; busy_results known status n argument.1))

  wire :
      (c : Call) (cs : List Call)
      → IsCall c
      → take_u32 (on_the_wire (c ∷ cs)) ≡ ok ((encoded c).0, (encoded c).1 ++ on_the_wire cs)
  unfolding on_the_wire concat_map
  wire c cs h = rw append_assoc (take_u32-run (encoded c).0 _ (IsU32-opcode c h))

  Found-weaken :
      (c : Call) (cs : List Call)
      → reads c ≡ true
      → (n : ℕ) (o : Option NfsError) → Found n cs o
      → Found (suc n) (c ∷ cs) o
  unfolding Found Rejected
  Found-weaken c cs t n none x = tt
  Found-weaken c cs t zero (some e) x = absurd x
  Found-weaken c cs t (suc n) (some e) x = (t, x)

  rejected :
      (c : Call) (cs : List Call) (answer : ℕ)
      → answer ≡ status
      → Found 1
          (c ∷ cs)
          (if is_owner_sequenced (encoded c).0 then none else some (status_error known answer))
  unfolding Found Rejected
  rejected c cs answer same = elim (Bool-cases (is_owner_sequenced (encoded c).0)) [
    | inl t ↦ rw t tt
    | inr f ↦ rw f (ownerless (encoded c).0 f, ap (status_error known) same)
  ]

  after-Found :
      (c : Call) (cs : List Call) (n answer : ℕ)
      → IsCall c
      → Always (Found n cs) (busy_results known status n (on_the_wire cs))
      → Always
          (Found (suc n) (c ∷ cs))
          (after (encoded c).0 answer n ((encoded c).1 ++ on_the_wire cs))
  unfolding after Found
  after-Found c cs n answer h rest =
      if-Always (not (answer == 0))
        (bind-Always _ λ left.
          elim (Bool-cases (not (n == 0) || (not (answer == status) || not (left == 0)))) [
            | inl t ↦ rw t (fail-Always xdr)
            | inr f ↦ rw f (pure-Always _ (only n answer (ground (arith, f)) (ground (arith, f))))
          ])
        (on-Always _ _ _ (argument-run c _ h) (elim (Bool-cases (reads c)) [
          | inl t ↦ rw t (
              bind-Always _
                λ _. record { holds = λ s o r e. Found-weaken c cs t n o (rest.holds s o r e) })
          | inr f ↦ rw f (pure-Always _ tt)
        ]))
    where
      only :
          (n answer : ℕ)
          → n ≡ 0
          → answer ≡ status
          → Found
              (suc n)
              (c ∷ cs)
              (if is_owner_sequenced (encoded c).0 then none else some (status_error known answer))
      only zero answer last same = rejected c cs answer same
      only (suc n) answer last same = absurd (omega (arith, last))

  busy_results-Found :
      (n : ℕ) (cs : List Call)
      → All IsCall cs
      → n ≤ length cs
      → Always (Found n cs) (busy_results known status n (on_the_wire cs))
  unfolding busy_results after
  busy_results-Found zero cs h fits = fail-Always xdr
  busy_results-Found (suc n) [] h fits = absurd (omega arith)
  busy_results-Found (suc n) (c ∷ cs) h fits = bind-Always _ λ opcode. bind-Always _ λ answer.
      on-Always take_u32 _ (on_the_wire (c ∷ cs)) (wire c cs h.0)
        (elim (Bool-cases (not ((encoded c).0 == opcode))) [
          | inl t ↦ rw t (fail-Always xdr)
          | inr f ↦
              (let same : (encoded c).0 ≡ opcode = ground (arith, f) in
                rw f (
                  subst
                    (λ o.
                      Always (Found (suc n) (c ∷ cs))
                        (after o answer n ((encoded c).1 ++ on_the_wire cs)))
                    same
                    (after-Found c cs n answer h.0
                      (busy_results-Found n cs h.1 (omega (arith, fits))))))
        ])

-- What a reply says first: its status and how many results it has.
unfoldable pub reply_head : Reader (ℕ × ℕ)
reply_head = do status ← take_u32; tag ← take_opaque; count ← take_u32; pure (status, count)

module _ (known : ℕ → Bool) where
  Found-some :
      (status count : ℕ) (calls : List Call) (o : Option NfsError) (e : NfsError)
      → o ≡ some e
      → Found known status count calls o
      → Rejected known status e count calls
  unfolding Found
  Found-some status count calls none e h x = absurd (ground (arith, h))
  Found-some status count calls (some e') e h x =
      subst (λ y. Rejected known status y count calls) (ground (arith, h)) x

  -- What an error says of the request, with the status and the number of results of the reply.
  abbrev pub Told : ℕ → ℕ → NfsError → List Call → Type 0
  Told status count e calls =
      ((status ≡ 10008) ⊎ (status ≡ 10013)) × Rejected known status e count calls

  -- A reader that ends with an error tells what the head of the same bytes says.
  record Tells (calls : List Call) (m : Reader (Option NfsError)) (head : Reader (ℕ × ℕ))
      : Type 0 where
    tells :
        (s : List ℕ) (e : NfsError) (r : List ℕ)
        → m s ≡ ok (some e, r)
        → (status count : ℕ) × (rest : List ℕ) × (head s ≡ ok ((status, count), rest))
          × Told status count e calls

  bind-Tells :
      {A : Type 0} (calls : List Call) (x : Reader A) {f : A → Reader (Option NfsError)}
      {g : A → Reader (ℕ × ℕ)}
      → ((a : A) → Tells calls (f a) (g a))
      → Tells calls (x >>= f) (x >>= g)
  bind-Tells calls x {f} {g} p = record {
    tells = λ s e r h.
        (let (a, t, first, second) = >>=-inv x f s h in
          let (status, count, rest, read, told) = (p a).tells t e r second in
          (status, count, rest, >>=-run x g first read, told));
  }

  none-Tells : (calls : List Call) (head : Reader (ℕ × ℕ)) → Tells calls (pure none) head
  unfolding pure
  none-Tells calls head = record { tells = λ s e r h. absurd (ground (arith, h)) }

  end-Tells :
      (status count : ℕ) (calls : List Call) (m : Reader (Option NfsError))
      → (status ≡ 10008) ⊎ (status ≡ 10013)
      → Always (Found known status count calls) m
      → Tells calls m (pure (status, count))
  unfolding pure
  end-Tells status count calls m busy p = record {
    tells = λ s e r h. (
      status,
      count,
      s,
      refl,
      (busy, Found-some status count calls (some e) e refl (p.holds s (some e) r h)),
    );
  }

  is_busy :
      (status : ℕ)
      → (status == 10008 || status == 10013) ≡ true
      → (status ≡ 10008) ⊎ (status ≡ 10013)
  is_busy status t = ground (arith, t)

  results-Always :
      (status count : ℕ) (calls : List Call) (tag : List ℕ) (auth : Auth)
      → All IsCall calls
      → IsU32 (length tag)
      → IsU32 (length auth.body)
      → Always (Found known status count calls) (
          on (drop 16 (request calls tag auth)) sent_head >>= (λ head.
            if not (head.0.0 == 0) || (count == 0 || (ltb 128 count || ltb head.0.1 count))
            then fail xdr
            else busy_results known status count head.1))
  results-Always status count calls tag auth h ht ha =
      on-Always sent_head _ (drop 16 (request calls tag auth)) (request-head calls tag auth ha ht)
        (elim (Bool-cases (
          not (0 == 0)
          || (count == 0 || (ltb 128 count || ltb (length (map encoded calls) % 2 ^ 32) count)))) [
            | inl bad ↦ rw bad (fail-Always xdr)
            | inr good ↦ rw good (
                busy_results-Found known status count calls h
                  (ground (arith, good, count-calls calls)))
          ])

  busy-Tells :
      (calls : List Call) (tag : List ℕ) (auth : Auth)
      → All IsCall calls
      → IsU32 (length tag)
      → IsU32 (length auth.body)
      → Tells calls (retryable_busy_response known (request calls tag auth)) reply_head
  unfolding retryable_busy_response reply_head
  busy-Tells calls tag auth h ht ha = bind-Tells calls take_u32 λ status.
      elim (Bool-cases (status == 10008 || status == 10013)) [
        | inl t ↦ rw t (
            bind-Tells calls take_opaque λ _. bind-Tells calls take_u32 λ count.
              end-Tells status count calls _ (is_busy status t) (
                if-Always _ (fail-Always xdr) (results-Always status count calls tag auth h ht ha)))
        | inr f ↦ rw f (none-Tells calls _)
      ]

  -- Where a busy reply lets a request be sent again, its status is NFS4ERR_DELAY or NFS4ERR_GRACE,
  -- and the operation of the request at the place of its last result was rejected with that status;
  -- it is not an operation with a sequence number of an owner, and all operations in front of it are
  -- reads: PUTFH, LOOKUP, GETATTR, ACCESS, GETFH, PUTROOTFH or SAVEFH. The request was written by the
  -- builder for any credential, and its texts, bitmaps and numbers fit their words.
  pub retryable_busy_response-Rejected :
      (calls : List Call) (tag : List ℕ) (auth : Auth) (reply r : List ℕ) (e : NfsError)
      → All IsCall calls
      → IsU32 (length tag)
      → IsU32 (length auth.body)
      → retryable_busy_response known (encode_with_header (build calls (new tag 0)) auth) reply
        ≡ ok (some e, r)
      → (status count : ℕ) × (rest : List ℕ) × (reply_head reply ≡ ok ((status, count), rest))
        × Told status count e calls
  retryable_busy_response-Rejected calls tag auth reply r e h ht ha x =
      (busy-Tells calls tag auth h ht ha).tells reply e r x
