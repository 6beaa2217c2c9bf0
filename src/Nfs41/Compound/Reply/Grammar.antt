-- ===== src/Nfs41/Compound/Reply/Grammar.antt =====
-- The results of a reply as the protocol writes them (RFC 8881 and RFC 7862), with the fields of
-- each, up to the limits of the source on the entries of READDIR, the layouts of LAYOUTGET and the
-- lists of EXCHANGE_ID. SEEK, COPY, READ_PLUS, an extended attribute that changes, LISTXATTRS and a
-- granted delegation have no entry, nor have OPENATTR (19) and FREE_STATEID (45), which the source
-- looks for under the numbers of OPEN_CONFIRM (20) and WANT_DELEGATION (56).
use nfs_rs.Common.{
  ℕ, zero, suc, ltb, ◌*◌, ◌≡◌, Bool, true, false, List, [], ◌∷◌, ◌++◌, length, All, Option, none,
  some, ◌==◌, ◌&&◌, ◌||◌, not, if◌then◌else◌,
}
use nfs_rs.Assoc.{nat_eq, find}
use nfs_rs.Wire.{IsU32}
use nfs_rs.Wire.Words.{be32}
use nfs_rs.Wire.Opaque.{xdr_opaque}
use nfs_rs.Wire.Grammar.{
  Field, encode_fields, Grammar, never, end, word_then, fixed_then, text_then, words_then, matches,
}
use nfs_rs.Nfs41.Compound.Reply.Decode.{Result}
use nfs_rs.Nfs41.Compound.Reply.Rules.{IsReplyField}

-- An array of words: its length and four bytes for each.
abbrev pub word_array : Grammar
word_array = word_then λ n. fixed_then (n * 4) end

-- open_delegation4 of a reply that grants none, with the reason for it.
unfoldable pub no_delegation : Grammar
no_delegation = word_then λ kind.
    if kind == 0
    then end
    else if kind == 1
    then never
    else if kind == 2
    then never
    else if kind == 3
    then (word_then λ why. if why == 1 || why == 2 then (word_then λ _. end) else end)
    else never

-- `n` times the same fields.
unfoldable pub iterate : ℕ → (Grammar → Grammar) → Grammar → Grammar
iterate zero f g = g
iterate (suc n) f g = f (iterate n f g)

-- What a list of directory entries holds: a word stands before each entry, and before the end.
unfoldable pub entries : ℕ → Grammar
entries zero = word_then λ more. if more == 0 then (word_then λ _. end) else never
entries (suc n) = word_then λ more.
    if more == 0
    then (word_then λ _. end)
    else fixed_then 8 (text_then (words_then (text_then (entries n))))

-- EXCHANGE_ID: who the server is, and at most one implementation identifier.
unfoldable pub server_owner : Grammar
unfolding iterate
server_owner = fixed_then 8 (
    text_then (
      text_then (
        word_then λ n.
          if ltb 1 n then never else iterate n (λ g. text_then (text_then (fixed_then 12 g))) end)))

-- The protection that the server agreed to: none, by credential, or by secret.
unfoldable pub exchange_id_result : Grammar
unfolding server_owner iterate
exchange_id_result = fixed_then 16 (
    word_then λ sp.
      if sp == 0
      then server_owner
      else if sp == 1
      then words_then (words_then server_owner)
      else if sp == 2
      then (words_then (
          words_then (
            fixed_then 16
              (word_then λ nh. if ltb 64 nh then never else iterate nh text_then server_owner))))
      else never)

unfoldable pub create_session_result : Grammar
unfolding iterate
create_session_result =
    fixed_then 24 (iterate 2 (λ g. fixed_then 24 (word_then λ n. fixed_then (n * 4) g)) end)

unfoldable pub layoutget_result : Grammar
unfolding iterate
layoutget_result = word_then λ _.
    fixed_then 16 (
      word_then λ n. if ltb 1024 n then never else iterate n (λ g. fixed_then 24 (text_then g)) end)

-- A word says whether the bytes are there.
abbrev pub optional : ℕ → Grammar
optional n = word_then λ more. if not (more == 0) then fixed_then n end else end

unfoldable pub result_grammars : List (ℕ × Grammar)
unfolding no_delegation entries exchange_id_result create_session_result layoutget_result
result_grammars =
    (59, end)
    ∷ (62, end)
    ∷ (71, end)
    ∷ (66, end)
    ∷ (72, text_then end)
    ∷ (24, end)
    ∷ (22, end)
    ∷ (32, end)
    ∷ (31, end)
    ∷ (15, end)
    ∷ (16, end)
    ∷ (58, end)
    ∷ (44, end)
    ∷ (57, end)
    ∷ (8, end)
    ∷ (53, fixed_then 36 end)
    ∷ (10, text_then end)
    ∷ (9, words_then (text_then end))
    ∷ (34, words_then end)
    ∷ (3, fixed_then 8 end)
    ∷ (25, word_then λ _. text_then end)
    ∷ (38, fixed_then 16 end)
    ∷ (5, fixed_then 8 end)
    ∷ (27, text_then end)
    ∷ (18, fixed_then 16 (fixed_then 20 (word_then λ _. words_then no_delegation)))
    ∷ (4, fixed_then 16 end)
    ∷ (12, fixed_then 16 end)
    ∷ (13, end)
    ∷ (14, fixed_then 16 end)
    ∷ (55, word_array)
    ∷ (6, fixed_then 20 (words_then end))
    ∷ (28, fixed_then 20 end)
    ∷ (29, fixed_then 20 (fixed_then 20 end))
    ∷ (11, fixed_then 20 end)
    ∷ (47, word_then λ _. text_then (words_then end))
    ∷ (41, fixed_then 24 end)
    ∷ (26, fixed_then 8 (entries 65536))
    ∷ (42, exchange_id_result)
    ∷ (43, create_session_result)
    ∷ (50, layoutget_result)
    ∷ (49, optional 8)
    ∷ (51, optional 16)
    ∷ []

-- What a result that is an error holds. SETATTR says which attributes it set; LOCK and LOCKT with
-- NFS4ERR_DENIED (10010) say who holds the lock; GETDEVICEINFO with NFS4ERR_TOOSMALL (10005) says
-- how much room it needs; LAYOUTGET with NFS4ERR_LAYOUTTRYLATER (10058) says whether the server will
-- signal that the layout is there.
unfoldable pub failure_grammar : ℕ → ℕ → Grammar
failure_grammar opcode status =
    if opcode == 60 && status == 10094
    then never
    else if opcode == 34
    then words_then end
    else if (opcode == 12 || opcode == 13) && status == 10010
    then fixed_then 28 (text_then end)
    else if opcode == 47 && status == 10005
    then word_then (λ _. end)
    else if opcode == 50 && status == 10058
    then word_then (λ _. end)
    else end

-- The errors whose bytes the source does not take as the protocol writes them: it leaves the ones of
-- LOCK, LOCKT, GETDEVICEINFO and LAYOUTGET, and it takes bytes behind LOCK with NFS4ERR_LOCKED
-- (10012), which has none.
unfoldable pub is_misread : ℕ → ℕ → Bool
is_misread opcode status =
    (opcode == 12 || opcode == 13) && status == 10010
    || (opcode == 12 && status == 10012
        || (opcode == 47 && status == 10005 || opcode == 50 && status == 10058))

unfoldable pub success_grammar : Option Grammar → Grammar
success_grammar none = never
success_grammar (some g) = g

unfoldable pub result_grammar : ℕ → ℕ → Grammar
unfolding failure_grammar success_grammar result_grammars
result_grammar opcode status =
    if not (status == 0)
    then failure_grammar opcode status
    else success_grammar (find opcode result_grammars)

-- A result that a server writes.
pub record Answer : Type 0 where
  pub opcode : ℕ
  pub status : ℕ
  pub fields : List Field

unfoldable pub encode_answer : Answer → List ℕ
encode_answer a = be32 a.opcode ++ (be32 a.status ++ encode_fields a.fields)

unfoldable pub encode_answers : List Answer → List ℕ
unfolding encode_answer
encode_answers [] = []
encode_answers (a ∷ rest) = encode_answer a ++ encode_answers rest

unfoldable pub encode_reply : ℕ → List ℕ → List Answer → List ℕ
unfolding encode_answers
encode_reply status tag answers =
    be32 status ++ (xdr_opaque tag ++ (be32 (length answers) ++ encode_answers answers))

-- What the decoder is to give: the bytes of a result with all that follow it, up to `r`.
unfoldable pub results_of : List Answer → List ℕ → List Result
unfolding encode_answers
results_of [] r = []
results_of (a ∷ rest) r =
    record {
      opcode = a.opcode;
      status = a.status;
      bytes = encode_fields a.fields ++ (encode_answers rest ++ r);
    }
    ∷ results_of rest r

-- A result that follows the grammar, with a status that is known, and is not one of the misread ones.
unfoldable pub IsAnswer : (ℕ → Bool) → Answer → Type 0
IsAnswer known a =
    IsU32 a.opcode
    × IsU32 a.status
    × (known a.status ≡ true)
    × (is_misread a.opcode a.status ≡ false)
    × (matches (result_grammar a.opcode a.status) a.fields ≡ true)
    × All IsReplyField a.fields
