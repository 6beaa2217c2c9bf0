-- ===== src/Nfs41/Callback/Tests.antt =====
-- A call of the back channel that recalls a delegation, sent twice.
use nfs_rs.Common.{
  ℕ, ◌≡◌, ◌≢◌, refl, false, List, [], ◌∷◌, ◌++◌, Option, none, some, ltb, if◌then◌else◌, length,
  replicate, bytes_eq, arith, All, ◌⊎◌,
}
use nfs_rs.Assoc.{nat_eq}
use nfs_rs.Wire.{
  ok, IsByte, get_u32, ◌>>=◌, require, advance, pure, peek, remaining, split_to, repeat, and_then,
}
use nfs_rs.Wire.Words.{be32, concat_map}
use nfs_rs.Wire.Opaque.{take_opaque, take_u32, take_padded, xdr_opaque}
use nfs_rs.Nfs41.Compound.Reply.Decode.{view}
use nfs_rs.Nfs41.Callback.Frame.{call}
use nfs_rs.Nfs41.Callback.Parse.{SequenceArgs, read_rpc_auth, attempt, parse_sequence, parse_recall}
use nfs_rs.Nfs41.Layout.Caches.{LayoutManager}
use nfs_rs.Nfs41.Callback.{RecallNotification, delegation, CallbackSession, Backchannel}
use nfs_rs.Nfs41.Callback.Handle.{
  handle_cb_rpc, admit, admit_sequence, answer, parse_rpc_call, parse_compound, serve, serve_slot,
  execute, callback_ops, parse_callback_op, serve_recall, send, finish, set, replayed,
}
use nfs_rs.Nfs41.Callback.Replies.{build_rpc_reply, compound_body, sequence_reply, op_status}
use nfs_rs.Nfs41.Callback.Safe.{handle_cb_rpc-ne-none}
use nfs_rs.Nfs41.Callback.Served.{Executed}
use nfs_rs.Nfs41.Callback.Steps.{Recorded, handle_cb_rpc-step}
use nfs_rs.Nfs41.Callback.Replay.{handle_cb_rpc-idempotent}

-- A channel that takes two notifications.
abbrev bounded : RecallNotification → List RecallNotification → Option (List RecallNotification)
bounded n c = if ltb (length c) 2 then some (n ∷ c) else none

abbrev sid : List ℕ
sid = replicate 16 9

abbrev call_words : List ℕ
call_words =
    be32 7
    ++ (be32 0
        ++ (be32 2
            ++ (be32 0x40000000
                ++ (be32 1 ++ (be32 1 ++ (be32 0 ++ (be32 0 ++ (be32 0 ++ be32 0))))))))

abbrev sequence_words : List ℕ
sequence_words =
    be32 0
    ++ (be32 1
        ++ (be32 0
            ++ (be32 2
                ++ (be32 11 ++ (sid ++ (be32 1 ++ (be32 0 ++ (be32 0 ++ (be32 0 ++ be32 0)))))))))

abbrev recall_words : List ℕ
recall_words = be32 4 ++ (replicate 16 3 ++ (be32 0 ++ (be32 4 ++ (1 ∷ 2 ∷ 3 ∷ 4 ∷ []))))

abbrev compound : List ℕ
compound = sequence_words ++ recall_words

abbrev frame : List ℕ
frame = call_words ++ compound

abbrev no_layouts : LayoutManager ℕ
no_layouts = record {
  layouts = [];
  device_cache = [];
  device_revision = 0;
  unreachable_ds = [];
  active_generation = 1;
}

abbrev session : CallbackSession
session = record {
  minor_version = 1;
  session_id = sid;
  generation = 1;
  max_request_size = 4096;
  max_operations = 16;
  slots = record { next_sequence = 1; request = none; compound_reply = none } ∷ [];
}

abbrev fresh : Backchannel (List RecallNotification) ℕ
fresh = record { session = session; recalls = []; layouts = no_layouts }

abbrev reply : List ℕ
reply =
    be32 0
    ++ (be32 0
        ++ (be32 2
            ++ (be32 11
                ++ (be32 0
                    ++ (sid
                        ++ (be32 1 ++ (be32 0 ++ (be32 0 ++ (be32 0 ++ (be32 4 ++ be32 0))))))))))

abbrev recalled : Backchannel (List RecallNotification) ℕ
recalled = record {
  session = record session {
    slots = record { next_sequence = 2; request = some compound; compound_reply = some reply } ∷ [];
  };
  recalls = delegation (replicate 16 3) false (1 ∷ 2 ∷ 3 ∷ 4 ∷ []) ∷ [];
  layouts = no_layouts;
}

first_call : handle_cb_rpc bounded frame fresh ≡ some (some (build_rpc_reply 7 reply), recalled)
unfolding handle_cb_rpc build_rpc_reply be32 get_u32 ◌>>=◌ require read_rpc_auth advance pure
    take_opaque take_u32 peek remaining attempt parse_sequence split_to repeat bytes_eq parse_recall
    compound_body sequence_reply op_status admit admit_sequence answer parse_rpc_call parse_compound
    serve serve_slot execute callback_ops parse_callback_op serve_recall send finish set replayed
    view take_padded xdr_opaque concat_map and_then
first_call = refl

frame_bytes : All IsByte frame
unfolding be32
frame_bytes = omega arith

handle_cb_rpc-ne-none_example : handle_cb_rpc bounded frame fresh ≢ none
handle_cb_rpc-ne-none_example = handle_cb_rpc-ne-none bounded frame fresh

handle_cb_rpc-step_example :
    (recalled ≡ fresh)
    ⊎ ((xid : ℕ) × (request : List ℕ) × (q : SequenceArgs) × (r : List ℕ) × (call frame
          ≡ ok ((xid, request, q), r))
        × (reply' : List ℕ) × (some (build_rpc_reply 7 reply) ≡ some (build_rpc_reply xid reply'))
        × (x : Executed request reply' fresh recalled) × (x.sequence ≡ q)
        × Recorded q request reply' session recalled.session)
handle_cb_rpc-step_example =
    handle_cb_rpc-step bounded frame fresh (some (build_rpc_reply 7 reply)) recalled frame_bytes
      first_call

handle_cb_rpc-idempotent_example :
    handle_cb_rpc bounded frame recalled ≡ some (some (build_rpc_reply 7 reply), recalled)
handle_cb_rpc-idempotent_example =
    handle_cb_rpc-idempotent bounded frame fresh (some (build_rpc_reply 7 reply)) recalled
      frame_bytes first_call
