-- ===== src/Session/Create.antt =====
-- services/huks_standard/huks_service/main/core/src/hks_session_manager.c: `CreateOperation`. A
-- block from `HksMalloc` is zeroed, so that what is not set is false or 0.
use security_huks.Prelude.{
  ℕ, ◌+◌, ◌*◌, ◌%◌, ◌^◌, Bool, true, false, not, ◌&&◌, Option, none, some, List, [], ◌∷◌, length,
  ltb, ◌==◌, if◌then◌else◌,
}
use security_huks.Status.{Status, success, malloc_fail, not_supported, failure, is_success}
use security_huks.Memory.{Memory, hks_malloc}
use security_huks.ParamSet.{Param, ParamSet, get_param}
use security_huks.ParamSet.Tags.{
  tag_is_batch_operation, tag_batch_operation_timeout, tag_specific_user_id,
}
use security_huks.Session.{ProcessInfo, Operation, Sessions, World, add_operation}
use security_huks.Session.Access.{construct_operation_handle}

-- `sizeof(struct HksOperation)` of a 64-bit build.
abbrev operation_size : ℕ
operation_size = 112

abbrev pub default_batch_time_out : ℕ
default_batch_time_out = 60

abbrev pub max_batch_time_out : ℕ
max_batch_time_out = 600

abbrev pub s_to_ms : ℕ
s_to_ms = 1000

abbrev pub zeroed : ℕ → Operation
zeroed addr = record {
  addr = addr;
  user_id = [];
  process_name = [];
  handle = 0;
  abortable = false;
  access_token_id = 0;
  is_in_use = false;
  batch_operation_timestamp = 0;
  is_batch_operation = false;
  is_user_id_passed_during_init = false;
  user_id_passed_during_init = 0;
}

-- `ConstructOperationProcessInfo`.
unfoldable pub construct_operation_process_info :
    Memory → ProcessInfo → Operation → Status × Operation
construct_operation_process_info m i o =
    if hks_malloc m (length i.user_id) && hks_malloc m (length i.process_name)
    then (
      success,
      record o {
        user_id = i.user_id;
        process_name = i.process_name;
        access_token_id = i.access_token_id;
      },
    )
    else (malloc_fail, o)

-- What the loop of `HksAddBatchTimeToOperation` carries.
pub record Batch : Type 0 where
  pub is_batch : Bool
  pub timestamp : ℕ
  pub find_operation : Bool
  pub find_timeout : Bool

-- uint64_t `now + seconds * S_TO_MS`.
unfoldable pub deadline : ℕ → ℕ → ℕ
deadline now seconds = (now + seconds * s_to_ms) % 2 ^ 64

-- The loop over the entries; `none` is HKS_ERROR_NOT_SUPPORTED.
unfoldable pub batch_loop : ℕ → List Param → Batch → Option Batch
batch_loop now [] b = some b
batch_loop now (p ∷ ps) b = elim (p.tag == tag_is_batch_operation) [
  | true ↦
      batch_loop now ps (record b { is_batch = not (p.scalar % 2 ^ 8 == 0); find_operation = true })
  | false ↦ elim (p.tag == tag_batch_operation_timeout) [
    | true ↦ elim (ltb max_batch_time_out (p.scalar % 2 ^ 32)) [
      | true ↦ none
      | false ↦
          batch_loop now ps
            (record b { timestamp = deadline now (p.scalar % 2 ^ 32); find_timeout = true })
    ]
    | false ↦ elim (b.find_operation && b.find_timeout) [
      | true ↦ some b
      | false ↦ batch_loop now ps b
    ]
  ]
]

-- The operation with the times of the loop.
unfoldable pub set_batch : Operation → Option Batch → Status × Operation
set_batch o none = (not_supported, o)
set_batch o (some b) = (
  success,
  record o {
    is_batch_operation = b.is_batch;
    batch_operation_timestamp = if b.find_operation then b.timestamp else 0;
  },
)

-- `HksAddBatchTimeToOperation` at a reading of the clock.
unfoldable pub add_batch_time : Option ℕ → List Param → Operation → Status × Operation
unfolding set_batch
add_batch_time none ps o = (failure, o)
add_batch_time (some now) ps o = set_batch o (
    batch_loop now ps (record {
      is_batch = false;
      timestamp = deadline now default_batch_time_out;
      find_operation = false;
      find_timeout = false;
    }))

unfoldable pub batch_time_of : Option ℕ → Option ParamSet → Operation → Status × Operation
batch_time_of now none o = (success, o)
batch_time_of now (some ps) o = add_batch_time now ps.params o

-- The user that the parameters name.
unfoldable pub set_specific_user : Status × Option Param → Operation → Operation
set_specific_user (st, none) o = o
set_specific_user (st, some p) o =
    if is_success st
    then record o {
      is_user_id_passed_during_init = true;
      user_id_passed_during_init = p.scalar % 2 ^ 32;
    }
    else o

-- The operation that `CreateOperation` makes of its arguments, or why it makes none. `now` is the
-- reading of the clock that it makes for a set of parameters.
unfoldable pub make_operation :
    Memory → Option ℕ → ℕ → ProcessInfo → Option ParamSet → List ℕ → Bool → Status × Operation
make_operation m now addr i ps handle abortable =
    let named = construct_operation_process_info m i (zeroed addr) in
    let h = construct_operation_handle m handle in
    let o : Operation = record (named.1) {
      handle = h.1;
      abortable = abortable;
      is_in_use = false;
    } in
    let timed = batch_time_of now ps o in
    if hks_malloc m operation_size
    then (if is_success named.0
        then (if is_success h.0
            then (if is_success timed.0
                then (success, set_specific_user (get_param ps tag_specific_user_id) timed.1)
                else timed)
            else (h.0, named.1))
        else named)
    else (malloc_fail, zeroed addr)

-- `CreateOperation`. The operation stands at the address `addr` that `HksMalloc` returned.
unfoldable pub create_operation :
    World
    → Memory
    → Option ℕ
    → ℕ
    → ProcessInfo
    → Option ParamSet
    → List ℕ
    → Bool
    → Sessions
    → Status × Sessions
create_operation w m now addr i ps handle abortable s =
    let made = make_operation m now addr i ps handle abortable in
    if is_success made.0 then add_operation w s made.1 else (made.0, s)
