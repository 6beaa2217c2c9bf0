-- ===== src/Nfs41/Compound/Ops/Tests.antt =====
-- A COMPOUND and its bytes.
use nfs_rs.Common.{◌≡◌, List, [], ◌∷◌, replicate, arith, true}
use nfs_rs.Wire.{ok}
use nfs_rs.Wire.Grammar.{word, wide, fixed, text, words, IsSized}
use nfs_rs.Nfs41.Compound.{new, op_number}
use nfs_rs.Nfs41.Compound.Ops.{encode_body_for_version}
use nfs_rs.Nfs41.Compound.Ops.Files.{OpenArgs, wanted_access}
use nfs_rs.Nfs41.Compound.Ops.Request.{
  Request, build, sequence_request, putfh_request, open_file_request, getattr_request,
  getfh_request,
}
use nfs_rs.Nfs41.Compound.Ops.Fields.{open_fields, request_op, fields}
use nfs_rs.Nfs41.Compound.Ops.Arguments.{read_compound}
use nfs_rs.Nfs41.Compound.Ops.Matching.{IsStandard}
use nfs_rs.Nfs41.Compound.Ops.RoundTrip.{described, IsRequest, read_compound-encode_body}

abbrev open_args : OpenArgs
open_args = record {
  seqid = 0;
  share_access = 2;
  share_deny = 0;
  client_id = 77;
  owner = 1 ∷ 2 ∷ [];
  create = true;
  create_attrs_mask = 0 ∷ 2 ∷ [];
  create_attrs_vals = 0 ∷ 0 ∷ 1 ∷ 164 ∷ [];
  claim_file = 97 ∷ [];
  want_no_delegation = true;
}

abbrev requests : List Request
requests =
    sequence_request (replicate 16 9) 5 0 63
    ∷ putfh_request (1 ∷ 2 ∷ 3 ∷ [])
    ∷ open_file_request open_args
    ∷ getfh_request
    ∷ getattr_request (26 ∷ 176 ∷ [])
    ∷ []

read_compound-encode_body_example :
    read_compound (encode_body_for_version 1 (build requests (new (111 ∷ []))))
    ≡ ok (
      (
        111 ∷ [],
        1,
        (53, fixed 16 (replicate 16 9) ∷ word 5 ∷ word 0 ∷ word 63 ∷ word 0 ∷ [])
            ∷ (22, text (1 ∷ 2 ∷ 3 ∷ []) ∷ [])
            ∷ (
              18,
              word 0
                  ∷ word 1026
                  ∷ word 0
                  ∷ wide 77
                  ∷ text (1 ∷ 2 ∷ [])
                  ∷ word 1
                  ∷ word 0
                  ∷ words (0 ∷ 2 ∷ [])
                  ∷ text (0 ∷ 0 ∷ 1 ∷ 164 ∷ [])
                  ∷ word 0
                  ∷ text (97 ∷ [])
                  ∷ [],
            )
            ∷ (10, [])
            ∷ (9, words (26 ∷ 176 ∷ []) ∷ [])
            ∷ [],
      ),
      [],
    )
unfolding described request_op fields open_fields wanted_access IsRequest IsStandard IsSized
    op_number
read_compound-encode_body_example =
    read_compound-encode_body (111 ∷ []) 1 requests (omega arith) (omega arith) (omega arith)
      (omega arith)
