-- ===== src/Nfs40/Compound/Calls.antt =====
-- The requests of NFSv4.0 as calls of the builder, and what a server reads of them.
use nfs_rs.Common.{
  ℕ, zero, suc, ◌*◌, ◌/◌, ◌%◌, ◌^◌, ◌≡◌, ◌≢◌, refl, ap, Bool, true, false, ◌||◌, List, [], ◌∷◌,
  ◌++◌, length, drop, ltb, ◌==◌, if◌then◌else◌, arith, All, append_assoc, append-nil, length-append,
  map, ◌∙◌,
}
use nfs_rs.Errors.{NfsError}
use nfs_rs.Wire.{ok, pure, remaining, IsU32}
use nfs_rs.Wire.Words.{be32, concat_map, length-words, >>=-run, advance-run}
use nfs_rs.Wire.Opaque.{xdr_opaque, take_u32-run, take_opaque-run}
use nfs_rs.Rpc.Call.{
  Auth, AuthFlavor, null, unix, flavor_number, encode_auth, encode_auth-eq, encode_header,
  rpc_header, new_null,
}
use nfs_rs.Nfs4.Compound.{
  CompoundBuilder, new, operation, putrootfh, putfh, lookup, getfh, encode_body, encode_with_header,
}
use nfs_rs.Nfs40.Compound.{getattr, access, savefh, words}
use nfs_rs.Nfs40.Compound.Busy.{
  skip_words, is_owner_sequenced, has_no_argument, request_argument, sent_auth, sent_head,
  status_error,
}

-- A call of a method of the builder. `other` is any operation that is not a read of this list.
pub data Call : Type 0 where
  put_root get_handle save_handle : Call
  put_handle look_up : List ℕ → Call
  get_attributes : List ℕ → Call
  check_access : ℕ → Call
  other : ℕ → List ℕ → Call

unfoldable pub append : Call → CompoundBuilder → CompoundBuilder
append put_root b = putrootfh b
append get_handle b = getfh b
append save_handle b = savefh b
append (put_handle fh) b = putfh fh b
append (look_up name) b = lookup name b
append (get_attributes bitmap) b = getattr bitmap b
append (check_access requested) b = access requested b
append (other opcode args) b = operation opcode args b

unfoldable pub build : List Call → CompoundBuilder → CompoundBuilder
unfolding append
build [] b = b
build (c ∷ cs) b = build cs (append c b)

abbrev pub encoded : Call → ℕ × List ℕ
encoded put_root = (24, [])
encoded get_handle = (10, [])
encoded save_handle = (32, [])
encoded (put_handle fh) = (22, xdr_opaque fh)
encoded (look_up name) = (15, xdr_opaque name)
encoded (get_attributes bitmap) = (9, words bitmap)
encoded (check_access requested) = (3, be32 requested)
encoded (other opcode args) = (opcode, args)

abbrev pub reads : Call → Bool
reads (other opcode args) = false
reads c = true

-- `other` is not one of the operations that the reply is searched for.
abbrev pub is_plain : ℕ → Bool
is_plain opcode =
    opcode == 15 || (opcode == 22 || (opcode == 3 || (opcode == 9 || has_no_argument opcode)))

abbrev pub IsCall : Call → Type 0
IsCall (put_handle fh) = IsU32 (length fh)
IsCall (look_up name) = IsU32 (length name)
IsCall (get_attributes bitmap) = IsU32 (length bitmap)
IsCall (check_access requested) = IsU32 requested
IsCall (other opcode args) = IsU32 opcode × (is_plain opcode ≡ false)
IsCall c = Unit {0}

-- The operation of the request at the place of the last of `n` results was rejected with the
-- status, and it has no sequence number of an owner (CLOSE, LOCK, LOCKU, OPEN, OPEN_CONFIRM); all
-- operations in front of it are reads.
unfoldable pub Rejected : (ℕ → Bool) → ℕ → NfsError → ℕ → List Call → Type 0
Rejected known status e zero cs = ⊥
Rejected known status e (suc n) [] = ⊥
Rejected known status e (suc zero) (c ∷ cs) =
    All (λ owned. (encoded c).0 ≢ owned) (4 ∷ 12 ∷ 14 ∷ 18 ∷ 20 ∷ [])
    × (e ≡ status_error known status)
Rejected known status e (suc (suc n)) (c ∷ cs) =
    (reads c ≡ true) × Rejected known status e (suc n) cs

pub ownerless :
    (opcode : ℕ)
    → is_owner_sequenced opcode ≡ false
    → All (λ owned. opcode ≢ owned) (4 ∷ 12 ∷ 14 ∷ 18 ∷ 20 ∷ [])
ownerless opcode f = (
  ground (arith, f),
  (ground (arith, f), (ground (arith, f), (ground (arith, f), (ground (arith, f), tt)))),
)

unfoldable pub on_the_wire : List Call → List ℕ
on_the_wire cs = concat_map (λ op. be32 op.0 ++ op.1) (map encoded cs)

appended : (c : Call) (b : CompoundBuilder) → append c b ≡ operation (encoded c).0 (encoded c).1 b
unfolding append putrootfh getfh savefh putfh lookup getattr access
appended put_root b = refl
appended get_handle b = refl
appended save_handle b = refl
appended (put_handle fh) b = refl
appended (look_up name) b = refl
appended (get_attributes bitmap) b = refl
appended (check_access requested) b = refl
appended (other opcode args) b = refl

built :
    (cs : List Call) (tag : List ℕ) (ops : List (ℕ × List ℕ))
    → build cs (record { tag = tag; minor_version = 0; ops = ops })
      ≡ record { tag = tag; minor_version = 0; ops = ops ++ map encoded cs }
unfolding build operation
built [] tag ops = rw append-nil refl
built (c ∷ cs) tag ops = rw (appended c (record { tag = tag; minor_version = 0; ops = ops })) (
    built cs tag (ops ++ (encoded c ∷ []))
    ∙ ap (λ all. record { tag = tag; minor_version = 0; ops = all }) (rw append_assoc refl))

words-run :
    (bitmap r : List ℕ) → IsU32 (length bitmap) → skip_words (words bitmap ++ r) ≡ ok (tt, r)
unfolding skip_words words remaining
words-run bitmap r h = rw append_assoc (
    >>=-run _ _ (take_u32-run (length bitmap % 2 ^ 32) (concat_map be32 bitmap ++ r) (omega arith))
      (>>=-run remaining _ {a = length (concat_map be32 bitmap ++ r)}
        {r = concat_map be32 bitmap ++ r} refl
        (rw fits (
          advance-run (length bitmap % 2 ^ 32 * 4) (concat_map be32 bitmap) r
            (omega (arith, h, length-words bitmap))))))
  where
    fits : ltb (length (concat_map be32 bitmap ++ r) / 4) (length bitmap % 2 ^ 32) ≡ false
    fits = ground (arith, h, length-words bitmap, length-append (concat_map be32 bitmap) r)

pub argument-run :
    (c : Call) (r : List ℕ)
    → IsCall c
    → request_argument (encoded c).0 ((encoded c).1 ++ r)
      ≡ ok (reads c, if reads c then r else (encoded c).1 ++ r)
unfolding request_argument pure
argument-run put_root r h = refl
argument-run get_handle r h = refl
argument-run save_handle r h = refl
argument-run (put_handle fh) r h = >>=-run _ _ (take_opaque-run fh r h) refl
argument-run (look_up name) r h = >>=-run _ _ (take_opaque-run name r h) refl
argument-run (get_attributes bitmap) r h = >>=-run _ _ (words-run bitmap r h) refl
argument-run (check_access requested) r h = >>=-run _ _ (take_u32-run requested r h) refl
argument-run (other opcode args) r h = rw (a, b, c, d) refl
  where
    a : (opcode == 15 || opcode == 22) ≡ false
    a = ground (arith, h.1)

    b : (opcode == 3) ≡ false
    b = ground (arith, h.1)

    c : (opcode == 9) ≡ false
    c = ground (arith, h.1)

    d : has_no_argument opcode ≡ false
    d = ground (arith, h.1)

pub IsU32-opcode : (c : Call) → IsCall c → IsU32 (encoded c).0
IsU32-opcode put_root h = omega arith
IsU32-opcode get_handle h = omega arith
IsU32-opcode save_handle h = omega arith
IsU32-opcode (put_handle fh) h = omega arith
IsU32-opcode (look_up name) h = omega arith
IsU32-opcode (get_attributes bitmap) h = omega arith
IsU32-opcode (check_access requested) h = omega arith
IsU32-opcode (other opcode args) h = h.0

auth-run :
    (a : Auth) (r : List ℕ) → IsU32 (length a.body) → sent_auth (encode_auth a ++ r) ≡ ok (tt, r)
unfolding sent_auth pure
auth-run a r h =
    rw (encode_auth-eq a, append_assoc)
      (>>=-run _ _ (take_u32-run (flavor_number a.flavor) _ (flavor_fits a.flavor))
        (>>=-run _ _ (take_opaque-run a.body r h) refl))
  where
    flavor_fits : (f : AuthFlavor) → IsU32 (flavor_number f)
    flavor_fits null = omega arith
    flavor_fits unix = omega arith

head-run :
    (a v : Auth) (tag r : List ℕ) (n : ℕ)
    → IsU32 (length a.body)
    → IsU32 (length v.body)
    → IsU32 (length tag)
    → IsU32 n
    → sent_head (encode_auth a ++ (encode_auth v ++ (xdr_opaque tag ++ (be32 0 ++ (be32 n ++ r)))))
      ≡ ok ((0, n), r)
unfolding sent_head pure
head-run a v tag r n ha hv ht hn = >>=-run _ _ (auth-run a _ ha) (
    >>=-run _ _ (auth-run v _ hv) (
      >>=-run _ _ (take_opaque-run tag _ ht)
        (>>=-run _ _ (take_u32-run 0 _ (omega arith)) (>>=-run _ _ (take_u32-run n r hn) refl))))

abbrev pub request : List Call → List ℕ → Auth → List ℕ
request calls tag auth = encode_with_header (build calls (new tag 0)) auth

request-drop :
    (calls : List Call) (tag : List ℕ) (auth : Auth)
    → drop 16 (request calls tag auth)
      ≡ encode_auth auth
        ++ (encode_auth new_null
            ++ (xdr_opaque tag
                ++ (be32 0 ++ (be32 (length (map encoded calls) % 2 ^ 32) ++ on_the_wire calls))))
unfolding encode_with_header new encode_header rpc_header encode_body be32 on_the_wire
request-drop calls tag auth = rw (built calls tag [], append_assoc) refl

pub request-head :
    (calls : List Call) (tag : List ℕ) (auth : Auth)
    → IsU32 (length auth.body)
    → IsU32 (length tag)
    → sent_head (drop 16 (request calls tag auth))
      ≡ ok ((0, length (map encoded calls) % 2 ^ 32), on_the_wire calls)
unfolding new_null
request-head calls tag auth ha ht = rw (request-drop calls tag auth) (
    head-run auth new_null tag (on_the_wire calls) (length (map encoded calls) % 2 ^ 32) ha
      (omega arith) ht (omega arith))

pub count-calls : (calls : List Call) → length (map encoded calls) ≡ length calls
count-calls [] = refl
count-calls (c ∷ cs) = omega (arith, count-calls cs)
