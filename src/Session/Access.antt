-- ===== src/Session/Access.antt =====
-- services/huks_standard/huks_service/main/core/src/hks_session_manager.c: how a client finds its
-- operation by the bytes of a handle, holds it, lets it go and deletes it.
use security_huks.Prelude.{
  ℕ, ◌+◌, ◌*◌, Bool, true, false, ◌&&◌, Option, none, some, List, [], ◌∷◌, length, ltb, ◌==◌,
  if◌then◌else◌, sub32,
}
use security_huks.Status.{Status, success, invalid_argument, insufficient_memory, is_success}
use security_huks.Memory.{Memory}
use security_huks.Session.{ProcessInfo, Operation, Sessions, is_same_process_name, is_same_user_id}

-- The number that bytes stand for, the least significant first.
unfoldable pub le_number : List ℕ → ℕ
le_number [] = 0
le_number (b ∷ bs) = b + 256 * le_number bs

abbrev pub handle_size : ℕ
handle_size = 8

-- `ConstructOperationHandle`: `memcpy_s` has room for the 8 bytes of an uint64_t.
unfoldable pub construct_operation_handle : Memory → List ℕ → Status × ℕ
construct_operation_handle m handle =
    if ltb (length handle) handle_size
    then (invalid_argument, 0)
    else if m.memcpy_s handle_size (length handle)
    then (success, le_number handle)
    else (insufficient_memory, 0)

unfoldable pub is_asked : ProcessInfo → ℕ → Operation → Bool
unfolding is_same_process_name is_same_user_id
is_asked i handle o = (o.handle == handle) && (is_same_process_name i o && is_same_user_id i o)

unfoldable pub mark_in_use : Operation → Operation
mark_in_use o = record o { is_in_use = true }

-- The search of `QueryOperationAndMarkInUse`: the address that it returns, and the list.
unfoldable pub query_loop : (Operation → Bool) → List Operation → Option ℕ × List Operation
unfolding mark_in_use
query_loop p [] = (none, [])
query_loop p (o ∷ os) =
    let rest = query_loop p os in
    if p o
    then (if o.is_in_use then (none, o ∷ os) else (some o.addr, mark_in_use o ∷ os))
    else (rest.0, o ∷ rest.1)

unfoldable pub query_operation_and_mark_in_use :
    Memory → ProcessInfo → List ℕ → Sessions → Option ℕ × Sessions
query_operation_and_mark_in_use m i handle s =
    let h = construct_operation_handle m handle in
    let r = query_loop (is_asked i h.1) s.ops in
    if is_success h.0 then (r.0, record s { ops = r.1 }) else (none, s)

-- The store through the pointer `addr`.
unfoldable pub unuse_at : ℕ → List Operation → List Operation
unuse_at addr [] = []
unuse_at addr (o ∷ os) =
    (if o.addr == addr then record o { is_in_use = false } else o) ∷ unuse_at addr os

unfoldable pub mark_operation_un_use : Option ℕ → Sessions → Sessions
mark_operation_un_use none s = s
mark_operation_un_use (some addr) s = record s { ops = unuse_at addr s.ops }

-- The loop of `DeleteOperation`: the first operation with the handle, unless it is in use.
unfoldable pub delete_loop : ℕ → List Operation → Bool × List Operation
delete_loop handle [] = (false, [])
delete_loop handle (o ∷ os) =
    let rest = delete_loop handle os in
    if o.handle == handle
    then (if o.is_in_use then (false, o ∷ os) else (true, os))
    else (rest.0, o ∷ rest.1)

unfoldable pub delete_operation : Memory → List ℕ → Sessions → Sessions
delete_operation m handle s =
    let h = construct_operation_handle m handle in
    let r = delete_loop h.1 s.ops in
    if is_success h.0
    then (if r.0
        then record s { ops = r.1; op_count = sub32 s.op_count 1 }
        else record s { ops = r.1 })
    else s
