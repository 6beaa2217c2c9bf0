-- ===== src/Nfs41/Compound.antt =====
-- nfs41/compound.rs: the operation numbers, and what may be repeated: the test for a retry after a
-- busy reply and the reply-cache policy of a slot. Statuses are their numbers; 0 is NFS4_OK.
pub mod Busy
pub mod Cache
pub mod Ops
pub mod Reply
mod Tests
use nfs_rs.Common.{
  ℕ, zero, suc, ◌+◌, ◌-◌, ◌*◌, ◌/◌, ◌%◌, ◌^◌, Bool, true, false, not, ◌&&◌, ◌||◌, List, [], ◌∷◌,
  ◌++◌, length, take, drop, min, Option, none, some, ltb, leb, ◌==◌, if◌then◌else◌,
}
use nfs_rs.Errors.{NfsError, OperationClass, read_only, session_control, replay_sensitive, xdr, rpc}
use nfs_rs.Wire.{Outcome, ok, err}
use nfs_rs.Wire.Words.{be32}
use nfs_rs.Wire.Opaque.{padded}

pub data OpNum : Type 0 where
  access close commit create get_attr get_fh link lookup : OpNum
  lookupp open_op put_fh put_root_fh read read_dir read_link remove : OpNum
  rename restore_fh save_fh set_attr write open_attr lock lockt : OpNum
  locku layout_get layout_commit layout_return get_device_info exchange_id create_session
        destroy_session :
      OpNum
  bind_conn_to_session sequence_op reclaim_complete destroy_client_id deleg_return test_state_id
        free_state_id allocate :
      OpNum
  copy deallocate offload_cancel read_plus seek clone get_xattr set_xattr : OpNum
  list_xattrs remove_xattr : OpNum

pub op_number : OpNum → ℕ
op_number access = 3
op_number close = 4
op_number commit = 5
op_number create = 6
op_number get_attr = 9
op_number get_fh = 10
op_number link = 11
op_number lookup = 15
op_number lookupp = 16
op_number open_op = 18
op_number put_fh = 22
op_number put_root_fh = 24
op_number read = 25
op_number read_dir = 26
op_number read_link = 27
op_number remove = 28
op_number rename = 29
op_number restore_fh = 31
op_number save_fh = 32
op_number set_attr = 34
op_number write = 38
op_number open_attr = 20
op_number lock = 12
op_number lockt = 13
op_number locku = 14
op_number layout_get = 50
op_number layout_commit = 49
op_number layout_return = 51
op_number get_device_info = 47
op_number exchange_id = 42
op_number create_session = 43
op_number destroy_session = 44
op_number bind_conn_to_session = 41
op_number sequence_op = 53
op_number reclaim_complete = 58
op_number destroy_client_id = 57
op_number deleg_return = 8
op_number test_state_id = 55
op_number free_state_id = 56
op_number allocate = 59
op_number copy = 60
op_number deallocate = 62
op_number offload_cancel = 66
op_number read_plus = 68
op_number seek = 69
op_number clone = 71
op_number get_xattr = 72
op_number set_xattr = 73
op_number list_xattrs = 74
op_number remove_xattr = 75

pub class : OpNum → OperationClass
class access = read_only
class close = replay_sensitive
class commit = replay_sensitive
class create = replay_sensitive
class get_attr = read_only
class get_fh = read_only
class link = replay_sensitive
class lookup = read_only
class lookupp = read_only
class open_op = replay_sensitive
class put_fh = read_only
class put_root_fh = read_only
class read = read_only
class read_dir = read_only
class read_link = read_only
class remove = replay_sensitive
class rename = replay_sensitive
class restore_fh = read_only
class save_fh = read_only
class set_attr = replay_sensitive
class write = replay_sensitive
class open_attr = replay_sensitive
class lock = replay_sensitive
class lockt = read_only
class locku = replay_sensitive
class layout_get = replay_sensitive
class layout_commit = replay_sensitive
class layout_return = replay_sensitive
class get_device_info = read_only
class exchange_id = session_control
class create_session = session_control
class destroy_session = session_control
class bind_conn_to_session = session_control
class sequence_op = session_control
class reclaim_complete = session_control
class destroy_client_id = session_control
class deleg_return = replay_sensitive
class test_state_id = read_only
class free_state_id = replay_sensitive
class allocate = replay_sensitive
class copy = replay_sensitive
class deallocate = replay_sensitive
class offload_cancel = replay_sensitive
class read_plus = read_only
class seek = read_only
class clone = replay_sensitive
class get_xattr = read_only
class set_xattr = replay_sensitive
class list_xattrs = read_only
class remove_xattr = replay_sensitive

pub record EncodedOp : Type 0 where
  pub opcode : OpNum
  pub args : List ℕ

pub record CompoundBuilder : Type 0 where
  pub tag : List ℕ
  pub ops : List EncodedOp
  pub required_generation : Option ℕ

pub record OpResponse : Type 0 where
  pub opcode : ℕ
  pub status : ℕ
  pub data_ : List ℕ

pub record CompoundResponse : Type 0 where
  pub status : ℕ
  pub results : List OpResponse

pub is_replay_sensitive : OperationClass → Bool
is_replay_sensitive replay_sensitive = true
is_replay_sensitive read_only = false
is_replay_sensitive session_control = false

pub no_more : List OpResponse → Bool
no_more [] = true
no_more (r ∷ rs) = false

-- The loop over the operations and their results.
unfoldable pub busy_loop : Bool → ℕ → List EncodedOp → List OpResponse → Outcome Bool
busy_loop safe status [] results = err xdr
busy_loop safe status (op ∷ ops) [] = err xdr
busy_loop safe status (op ∷ ops) (reply ∷ results) =
    let rest =
      busy_loop (if is_replay_sensitive (class op.opcode) then false else safe) status ops
        results in
    if not (op_number op.opcode == reply.opcode)
    then err xdr
    else if not (reply.status == 0)
    then (if not (no_more results) || not (reply.status == status) then err xdr else ok safe)
    else rest

pub can_retry_busy : CompoundBuilder → CompoundResponse → Outcome Bool
can_retry_busy b response =
    if length response.results == 0 || ltb (length b.ops) (length response.results)
    then err xdr
    else busy_loop true response.status b.ops response.results

pub enforce_max_operations : CompoundBuilder → ℕ → Outcome (Unit {0})
enforce_max_operations b maximum =
    if leb (2 ^ 32) (length b.ops)
    then err rpc
    else if length b.ops == 0 || ltb maximum (length b.ops)
    then err rpc
    else ok tt

-- The larger class, in the order of the constructors.
larger : OperationClass → OperationClass → OperationClass
larger replay_sensitive c = replay_sensitive
larger session_control replay_sensitive = replay_sensitive
larger session_control session_control = session_control
larger session_control read_only = session_control
larger read_only c = c

-- `ops.map(class).max().unwrap_or(SessionControl)`.
max_class : List EncodedOp → OperationClass
max_class [] = session_control
max_class (op ∷ []) = class op.opcode
max_class (op ∷ next ∷ ops) = larger (class op.opcode) (max_class (next ∷ ops))

pub operation_class : CompoundBuilder → OperationClass
unfolding max_class
operation_class b = max_class (drop 1 b.ops)

needs_original : OpNum → Bool
needs_original allocate = true
needs_original deallocate = true
needs_original copy = true
needs_original clone = true
needs_original offload_cancel = true
needs_original set_xattr = true
needs_original remove_xattr = true
needs_original _ = false

any_needs : List EncodedOp → Bool
any_needs [] = false
any_needs (op ∷ ops) = needs_original op.opcode || any_needs ops

pub requires_original_session : CompoundBuilder → Bool
unfolding any_needs
requires_original_session b = any_needs b.ops

pub require_generation : ℕ → CompoundBuilder → CompoundBuilder
require_generation generation b =
    if generation == 0 then b else record b { required_generation = some generation }

pub new : List ℕ → CompoundBuilder
new tag = record { tag = tag; ops = []; required_generation = none }

pub sequence : List ℕ → ℕ → ℕ → ℕ → CompoundBuilder → CompoundBuilder
sequence session_id sequence_id slot_id highest_slot_id b = record b {
  ops =
      b.ops
      ++ (record {
        opcode = sequence_op;
        args =
            session_id ++ (be32 sequence_id ++ (be32 slot_id ++ (be32 highest_slot_id ++ be32 0)));
      }
          ∷ []);
}

extra_size : OpNum → ℕ
extra_size copy = 32
extra_size set_xattr = 20
extra_size remove_xattr = 20
extra_size _ = 0

extra_sizes : List EncodedOp → ℕ
unfolding extra_size
extra_sizes [] = 0
extra_sizes (op ∷ ops) = extra_size op.opcode + extra_sizes ops

-- The sums saturate at 64 bits in the source and are capped at 32 here, which is the same.
pub minimum_cached_response_size : CompoundBuilder → ℕ
unfolding extra_sizes
minimum_cached_response_size b =
    min (24 + 12 + padded (length b.tag) + 44 + (length b.ops - 1) * 8 + extra_sizes b.ops)
      (2 ^ 32 - 1)

is_sequence : OpNum → Bool
is_sequence op = op_number op == 53

abbrev flag : Bool → ℕ
flag true = 1
flag false = 0

-- `args[28..32].copy_from_slice(..)`.
set_cache_this : Bool → List ℕ → List ℕ
set_cache_this cachethis args = take 28 args ++ (be32 (flag cachethis) ++ drop 32 args)

first_cached : Bool → CompoundBuilder → List EncodedOp → Outcome CompoundBuilder
unfolding set_cache_this is_sequence
first_cached cachethis b [] = err rpc
first_cached cachethis b (op ∷ ops) =
    if not (is_sequence op.opcode) || ltb (length op.args) 32
    then err rpc
    else ok (record b { ops = record op { args = set_cache_this cachethis op.args } ∷ ops })

pub apply_sequence_cache_policy : ℕ → CompoundBuilder → Outcome CompoundBuilder
apply_sequence_cache_policy max_cached_response_size b =
    if is_replay_sensitive (operation_class b)
      && ltb max_cached_response_size (minimum_cached_response_size b)
    then err rpc
    else first_cached (is_replay_sensitive (operation_class b)) b b.ops
