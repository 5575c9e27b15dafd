-- ===== src/Session.antt =====
-- services/huks_standard/huks_service/main/core/src/hks_session_manager.c: the sessions that the
-- service keeps for its clients' three-stage operations. `g_operationList` is a list, oldest
-- first; each public function holds `g_lock` throughout, but for
-- MarkOperationUnUse, which makes one store, so a call is one step of the state.
pub mod Access
pub mod Create
pub mod Remove
pub mod Evictions
pub mod Limits
pub mod Evict
pub mod InUse
pub mod Run
mod Tests
use security_huks.Prelude.{
  ℕ, ◌+◌, ◌-◌, ◌*◌, ◌%◌, ◌^◌, Bool, true, false, not, ◌&&◌, ◌||◌, Option, none, some, List, [], ◌∷◌,
  ◌++◌, length, ltb, leb, ◌==◌, if◌then◌else◌, add32, sub32, count,
}
use security_huks.Status.{Status, success, session_reached_limit, is_success}
use security_huks.ParamSet.Build.{same_bytes}

pub record ProcessInfo : Type 0 where
  pub user_id : List ℕ
  pub process_name : List ℕ
  pub access_token_id : ℕ

-- `struct HksOperation`; `addr` is the address of the block, by which a client holds it.
pub record Operation : Type 0 where
  pub addr : ℕ
  pub user_id : List ℕ
  pub process_name : List ℕ
  pub handle : ℕ
  pub abortable : Bool
  pub access_token_id : ℕ
  pub is_in_use : Bool
  pub batch_operation_timestamp : ℕ
  pub is_batch_operation : Bool
  pub is_user_id_passed_during_init : Bool
  pub user_id_passed_during_init : ℕ

-- `g_operationList`, `g_operationCount`, and the handles that were passed to `HuksAccessAbort`.
pub record Sessions : Type 0 where
  pub ops : List Operation
  pub op_count : ℕ
  pub aborted : List ℕ

-- What a call finds around it: the readings of `HksElapsedRealTime`, which may fail, in order,
-- and whether `DeleteKeyNode` finds the memory that it needs to abort a handle.
pub record World : Type 0 where
  pub clock : ℕ → Option ℕ
  pub can_abort : ℕ → Bool

abbrev pub max_operations_count : ℕ
max_operations_count = 32

-- With HKS_SUPPORT_ACCESS_TOKEN.
abbrev pub max_operations_each_token_id : ℕ
max_operations_each_token_id = 10

-- What a search finds behind a node.
unfoldable pub past :
    Operation → Option (Operation × List Operation) → Option (Operation × List Operation)
past o none = none
past o (some (x, rest)) = some (x, o ∷ rest)

-- The first operation that passes a test, and the list without its node.
unfoldable pub take_first :
    (Operation → Bool) → List Operation → Option (Operation × List Operation)
take_first p [] = none
take_first p (o ∷ os) = elim (p o) [ true ↦ some (o, os) | false ↦ past o (take_first p os) ]

-- `DeleteKeyNode`: the engine is told to abort the handle.
unfoldable pub delete_key_node : World → ℕ → List ℕ → List ℕ
delete_key_node w handle log = if w.can_abort handle then log ++ (handle ∷ []) else log

-- `DeleteKeyNodeAndDecreaseGlobalCount` of a node, which leaves the list `rest`.
unfoldable pub delete_key_node_and_decrease :
    World → Sessions → Operation × List Operation → Sessions
unfolding delete_key_node
delete_key_node_and_decrease w s (o, rest) = record {
  ops = rest;
  op_count = sub32 s.op_count 1;
  aborted = delete_key_node w o.handle s.aborted;
}

-- The deletion of what a search found: whether it found a node, and the state.
unfoldable pub give_up : World → Sessions → Option (Operation × List Operation) → Bool × Sessions
give_up w s none = (false, s)
give_up w s (some found) = (true, delete_key_node_and_decrease w s found)

unfoldable pub is_abortable : Operation → Bool
is_abortable o = not o.is_in_use

unfoldable pub is_abortable_of : ℕ → Operation → Bool
is_abortable_of token o = (o.access_token_id == token) && not o.is_in_use

-- `DeleteFirstAbortableOperation`: whether one was deleted, and the state.
unfoldable pub delete_first_abortable : World → Sessions → Bool × Sessions
delete_first_abortable w s = give_up w s (take_first is_abortable s.ops)

unfoldable pub delete_first_abortable_for_token : World → Sessions → ℕ → Bool × Sessions
delete_first_abortable_for_token w s token = give_up w s (take_first (is_abortable_of token) s.ops)

-- Whether a batch operation has run out at a reading of the clock and is not in use.
unfoldable pub is_timed_out : Option ℕ → Operation → Bool
is_timed_out none o = false
is_timed_out (some now) o = if leb now o.batch_operation_timestamp then false else not o.is_in_use

-- The search of `DeleteFirstTimeOutBatchOperation`; `k` readings of the clock were made so far.
unfoldable pub take_timed_out :
    (ℕ → Option ℕ) → ℕ → List Operation → Option (Operation × List Operation)
unfolding is_timed_out
take_timed_out clock k [] = none
take_timed_out clock k (o ∷ os) =
    let k' : ℕ = if o.is_batch_operation then k + 1 else k in
    elim (o.is_batch_operation && is_timed_out (clock k) o) [
      | true ↦ some (o, os)
      | false ↦ past o (take_timed_out clock k' os)
    ]

unfoldable pub delete_first_time_out_batch : World → Sessions → Sessions
delete_first_time_out_batch w s =
    if ltb s.op_count max_operations_count
    then s
    else (give_up w s (take_timed_out w.clock 0 s.ops)).1

unfoldable pub is_owned : ℕ → Operation → Bool
is_owned token o = o.access_token_id == token

-- `DeleteForTokenIdIfExceedLimit`.
unfoldable pub delete_for_token : World → Sessions → ℕ → Status × Sessions
delete_for_token w s token =
    let r = delete_first_abortable_for_token w s token in
    if ltb s.op_count max_operations_each_token_id
    then (success, s)
    else if leb max_operations_each_token_id (count (is_owned token) s.ops)
    then (if r.0 then (success, r.1) else (session_reached_limit, s))
    else (success, s)

unfoldable pub add_at_tail : Sessions → Operation → Sessions
add_at_tail s o = record s { ops = s.ops ++ (o ∷ []); op_count = add32 s.op_count 1 }

-- The room for one more operation in the whole list.
unfoldable pub make_room : World → Sessions → Bool × Sessions
make_room w s =
    if leb max_operations_count s.op_count then delete_first_abortable w s else (true, s)

-- `AddOperation`. `accessTokenId` has 64 bits, the parameter that it is passed for has 32.
unfoldable pub add_operation : World → Sessions → Operation → Status × Sessions
add_operation w s o =
    let t = delete_for_token w (delete_first_time_out_batch w s) (o.access_token_id % 2 ^ 32) in
    let r = make_room w t.1 in
    if is_success t.0
    then (if r.0 then (success, add_at_tail r.1 o) else (session_reached_limit, r.1))
    else t

unfoldable pub is_same_process_name : ProcessInfo → Operation → Bool
unfolding same_bytes
is_same_process_name i o = same_bytes o.process_name i.process_name

unfoldable pub is_same_user_id : ProcessInfo → Operation → Bool
unfolding same_bytes
is_same_user_id i o = same_bytes o.user_id i.user_id

-- The test of `DeleteSession`, past its check of `isInUse`.
unfoldable pub is_need_delete : ProcessInfo → Operation → Bool
is_need_delete i o =
    if length i.process_name == 0
    then is_same_user_id i o
    else is_same_user_id i o && is_same_process_name i o

unfoldable pub is_swept : ProcessInfo → Operation → Bool
is_swept i o = not o.is_in_use && is_need_delete i o

-- The loop of `DeleteSessionByProcessInfo`, from the node on with the nodes `kept` before it.
unfoldable pub sweep : World → ProcessInfo → List Operation → List Operation → Sessions → Sessions
sweep w i kept [] s = record s { ops = kept }
sweep w i kept (o ∷ os) s = elim (is_swept i o) [
  | true ↦ sweep w i kept os (delete_key_node_and_decrease w s (o, kept ++ os))
  | false ↦ sweep w i (kept ++ (o ∷ [])) os s
]

unfoldable pub delete_session_by_process_info : World → ProcessInfo → Sessions → Sessions
unfolding sweep
delete_session_by_process_info w i s = sweep w i [] s.ops s
