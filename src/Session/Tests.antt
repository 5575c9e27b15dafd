-- ===== src/Session/Tests.antt =====
-- Concrete sessions: runs of the model, and each theorem at an input that meets its hypotheses.
use security_huks.Prelude.{
  ℕ, ◌≤◌, ◌≡◌, refl, ◌⊎◌, inl, true, some, List, [], ◌∷◌, ◌++◌, arith, count, keep, replicate,
}
use security_huks.Status.{success, session_reached_limit}
use security_huks.Memory.{ample}
use security_huks.ParamSet.Build.{same_bytes}
use security_huks.Session.{
  ProcessInfo, Operation, Sessions, World, add_operation, is_owned, take_first, is_abortable_of,
  delete_first_time_out_batch, delete_for_token, delete_first_abortable_for_token, give_up,
  make_room, delete_session_by_process_info, past,
}
use security_huks.Session.Access.{
  query_operation_and_mark_in_use, query_loop, construct_operation_handle, is_asked, le_number,
}
use security_huks.Session.Create.{zeroed}
use security_huks.Session.Evictions.{IsBounded}
use security_huks.Session.Evict.{
  Without, is_held, is_held_by, add_operation_refuses, add_operation_adds,
}
use security_huks.Session.InUse.{
  Held, queries, deletes, deletes_all, step, step-Held, survives, cancelled,
  delete_session_by_process_info_lem,
}
use security_huks.Session.Run.{run, initial, run-IsBounded}

abbrev world : World
world = record { clock = λ _. some 5000; can_abort = λ _. true }

abbrev client : ProcessInfo
client = record { user_id = 1 ∷ []; process_name = 2 ∷ 3 ∷ []; access_token_id = 77 }

abbrev operation : Operation
operation = record (zeroed 4096) {
  user_id = 1 ∷ [];
  process_name = 2 ∷ 3 ∷ [];
  handle = 9;
  access_token_id = 77;
}

abbrev handle_bytes : List ℕ
handle_bytes = 9 ∷ 0 ∷ 0 ∷ 0 ∷ 0 ∷ 0 ∷ 0 ∷ 0 ∷ []

abbrev one : Sessions
one = record { ops = operation ∷ []; op_count = 1; aborted = [] }

-- Ten operations of one token, all in use.
abbrev busy : Sessions
busy = record {
  ops = replicate 10 (record operation { is_in_use = true });
  op_count = 10;
  aborted = [];
}

one-IsBounded : IsBounded one
unfolding count is_owned
one-IsBounded = record {
  counted = refl;
  bounded = omega arith;
  shared = λ token small. ground arith;
}

busy-IsBounded : IsBounded busy
unfolding count is_owned
busy-IsBounded = record {
  counted = refl;
  bounded = omega arith;
  shared = λ token small. ground arith;
}

busy_refuses : (add_operation world busy operation).0 ≡ session_reached_limit
unfolding add_operation delete_first_time_out_batch delete_for_token
    delete_first_abortable_for_token give_up take_first past count is_owned is_abortable_of
busy_refuses = refl

query_finds : (query_operation_and_mark_in_use ample client handle_bytes one).0 ≡ some 4096
unfolding query_operation_and_mark_in_use construct_operation_handle query_loop is_asked same_bytes
    le_number
query_finds = refl

add_operation_refuses_example :
    ((add_operation world busy operation).0 ≡ session_reached_limit)
    × ((10 ≤ count (is_held_by 77) busy.ops) ⊎ (32 ≤ count is_held busy.ops))
add_operation_refuses_example =
    add_operation_refuses world busy operation busy-IsBounded (omega arith)
      (λ h. ground (arith, busy_refuses))

one_adds : (add_operation world one operation).0 ≡ success
unfolding add_operation delete_first_time_out_batch delete_for_token
    delete_first_abortable_for_token make_room give_up take_first past
one_adds = refl

add_operation_adds_example :
    (kept : List Operation) × ((add_operation world one operation).1.ops ≡ kept ++ (operation ∷ []))
    × (n : ℕ) × (n ≤ 2)
    × Without n one.ops kept
add_operation_adds_example = add_operation_adds world one operation one-IsBounded one_adds

step-Held_example : Held 4096 (step (deletes_all world client) busy).ops
step-Held_example = step-Held 4096 (deletes_all world client) busy (λ e. cc) (inl (refl, refl))

delete_session_by_process_info_lem_example :
    let t = delete_session_by_process_info world client one in
    (t.ops ≡ keep (survives client) one.ops) × (t.aborted ≡ [] ++ cancelled world client one.ops)
delete_session_by_process_info_lem_example = delete_session_by_process_info_lem world client one

run-IsBounded_example :
    IsBounded (run (queries ample client handle_bytes ∷ deletes ample handle_bytes ∷ []) initial)
run-IsBounded_example =
    run-IsBounded (queries ample client handle_bytes ∷ deletes ample handle_bytes ∷ [])
