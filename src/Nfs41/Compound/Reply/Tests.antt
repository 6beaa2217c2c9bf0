-- ===== src/Nfs41/Compound/Reply/Tests.antt =====
-- Tests of the decoder of a reply.
use nfs_rs.Common.{ℕ, ◌≢◌, true, List, [], ◌∷◌, replicate}
use nfs_rs.Wire.{panic}
use nfs_rs.Wire.Grammar.{fixed, words}
use nfs_rs.Nfs41.Compound.Reply.Decode.{decode}
use nfs_rs.Nfs41.Compound.Reply.Safe.{decode-ne-panic}
use nfs_rs.Nfs41.Compound.Reply.Grammar.{Answer}
use nfs_rs.Assoc.{nat_eq}

-- A reply that ends inside the bitmap of an OPEN.
abbrev cut_reply : List ℕ
cut_reply =
    0 ∷ 0 ∷ 0 ∷ 0 ∷ 0 ∷ 0 ∷ 0 ∷ 0 ∷ 0 ∷ 0 ∷ 0 ∷ 1 ∷ 0 ∷ 0 ∷ 0 ∷ 34 ∷ 0 ∷ 0 ∷ 0 ∷ 0 ∷ 0 ∷ 0 ∷ 0 ∷ 2
    ∷ 7 ∷ []

decode-ne-panic_example : decode (λ _. true) cut_reply ≢ panic
decode-ne-panic_example = decode-ne-panic (λ _. true) cut_reply

-- SEQUENCE, PUTFH, and a SETATTR that failed after it had set one attribute.
abbrev failed_setattr : List Answer
failed_setattr =
    record { opcode = 53; status = 0; fields = fixed 36 (replicate 36 7) ∷ [] }
    ∷ record { opcode = 22; status = 0; fields = [] }
    ∷ record { opcode = 34; status = 13; fields = words (16 ∷ []) ∷ [] }
    ∷ []
