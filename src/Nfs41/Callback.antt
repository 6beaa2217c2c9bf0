-- ===== src/Nfs41/Callback.antt =====
-- nfs41/callback.rs: the calls that the server makes on the back channel. A session has slots, and
-- each keeps its last request with the reply to it. `C` is the state of the channel of
-- notifications (tokio::sync::mpsc) and `Addr` std::net::SocketAddr.
pub mod Parse
pub mod Replies
pub mod Handle
pub mod Safe
pub mod Widths
pub mod Frame
pub mod Served
pub mod Steps
pub mod Replay
mod Tests
use nfs_rs.Common.{
  ℕ, zero, suc, ◌+◌, ◌^◌, min, max, Bool, true, false, ◌&&◌, List, [], ◌∷◌, Option, none, some,
  replicate, ltb, ◌==◌, bytes_eq, if◌then◌else◌,
}
use nfs_rs.Errors.{NfsError, rpc}
use nfs_rs.Nfs41.Layout.Caches.{LayoutManager}

pub data RecallNotification : Type 0 where
  delegation : List ℕ → Bool → List ℕ → RecallNotification
  layout_file : List ℕ → List ℕ → ℕ → ℕ → ℕ → RecallNotification
  layout_all : RecallNotification

pub record CallbackSlot : Type 0 where
  pub next_sequence : ℕ
  pub request : Option (List ℕ)
  pub compound_reply : Option (List ℕ)

pub record CallbackSession : Type 0 where
  pub minor_version : ℕ
  pub session_id : List ℕ
  pub generation : ℕ
  pub max_request_size : ℕ
  pub max_operations : ℕ
  pub slots : List CallbackSlot

abbrev pub max_cb_ops : ℕ
max_cb_ops = 64

unfoldable pub callback_slots : ℕ → List CallbackSlot
callback_slots max_requests =
    replicate (max max_requests 1)
      (record { next_sequence = 1; request = none; compound_reply = none })

-- `max_operations.clamp(1, MAX_CB_OPS)`.
abbrev pub clamped_ops : ℕ → ℕ
clamped_ops n = min (max n 1) max_cb_ops

unfoldable pub new_negotiated : List ℕ → ℕ → ℕ → ℕ → ℕ → ℕ → CallbackSession
unfolding callback_slots
new_negotiated session_id generation max_requests max_request_size max_operations minor_version =
    record {
      minor_version = minor_version;
      session_id = session_id;
      generation = generation;
      max_request_size = max max_request_size 1;
      max_operations = clamped_ops max_operations;
      slots = callback_slots max_requests;
    }

-- `Err` for a session that is older than the one that is known.
unfoldable pub update_session :
    List ℕ → ℕ → ℕ → ℕ → ℕ → CallbackSession → Option NfsError × CallbackSession
unfolding callback_slots
update_session session_id generation max_requests max_request_size max_operations s =
    if ltb generation s.generation
    then (some rpc, s)
    else if generation == s.generation && bytes_eq session_id s.session_id
    then (none, s)
    else (
      none,
      record s {
        session_id = session_id;
        generation = generation;
        max_request_size = max max_request_size 1;
        max_operations = clamped_ops max_operations;
        slots = callback_slots max_requests;
      },
    )

-- What a call can change: the session, what was sent to the tasks that serve recalls, and the
-- caches of the layout manager.
pub record Backchannel (C Addr : Type 0) : Type 0 where
  pub session : CallbackSession
  pub recalls : C
  pub layouts : LayoutManager Addr
