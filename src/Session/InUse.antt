-- ===== src/Session/InUse.antt =====
-- A client works with the operation through a pointer that `QueryOperationAndMarkInUse` returned,
-- without the lock. What the calls of hks_session_manager.c do to an operation that is held.
use security_huks.Prelude.{
  ℕ, ◌%◌, ◌^◌, ◌≡◌, sym, ap, ◌∙◌, ◌≢◌, ◌⊎◌, inl, inr, Bool, true, false, not, ◌&&◌, ◌||◌, ◌==◌,
  length, Option, none, some, List, [], ◌∷◌, ◌++◌, append_assoc, arith, if◌then◌else◌, Bool-cases,
  keep, append-nil,
}
use security_huks.Status.{Status, is_success}
use security_huks.Memory.{Memory}
use security_huks.ParamSet.{ParamSet}
use security_huks.ParamSet.Build.{same_bytes}
use security_huks.Session.{
  ProcessInfo, Operation, Sessions, World, delete_key_node_and_decrease,
  delete_first_time_out_batch, delete_for_token, make_room, add_at_tail, add_operation, is_swept,
  is_need_delete, is_same_user_id, is_same_process_name, sweep, delete_session_by_process_info,
}
use security_huks.Session.Access.{
  construct_operation_handle, is_asked, query_loop, query_operation_and_mark_in_use, unuse_at,
  mark_operation_un_use, delete_loop, delete_operation,
}
use security_huks.Session.Create.{create_operation, make_operation}
use security_huks.Session.Remove.{Removed, here, there}
use security_huks.Session.Limits.{make_room-Evicts}
use security_huks.Session.Evictions.{
  Evicts, keeps, drops, IsFree, delete_timed_out-Evicts, delete_for_token-Evicts,
}

-- The block at an address is an operation of the list, and in use.
abbrev pub Held : ℕ → List Operation → Type 0
Held a [] = ⊥
Held a (o ∷ os) = ((o.addr ≡ a) × (o.is_in_use ≡ true)) ⊎ Held a os

Held-Removed :
    (a : ℕ) {x : Operation} {os rest : List Operation}
    → Removed x os rest
    → IsFree x
    → Held a os
    → Held a rest
Held-Removed a here free (inl h) = absurd (ground arith)
Held-Removed a here free (inr h) = h
Held-Removed a (there r) free (inl h) = inl h
Held-Removed a (there r) free (inr h) = inr (Held-Removed a r free h)

Held-append : (a : ℕ) (os ps : List Operation) → Held a os → Held a (os ++ ps)
Held-append a [] ps h = elim h [ ]
Held-append a (o ∷ os) ps (inl h) = inl h
Held-append a (o ∷ os) ps (inr h) = inr (Held-append a os ps h)

Held-Evicts :
    (a : ℕ) {w : World} {s t : Sessions} → Evicts IsFree w s t → Held a s.ops → Held a t.ops
unfolding delete_key_node_and_decrease
Held-Evicts a keeps h = h
Held-Evicts a (drops free r) h = Held-Removed a r free h

add_operation-Held :
    (a : ℕ) (w : World) (s : Sessions) (o : Operation)
    → Held a s.ops
    → Held a (add_operation w s o).1.ops
unfolding add_operation add_at_tail
add_operation-Held a w s o h = elim (Bool-cases (is_success t.0)) [
  | inl e ↦ elim (Bool-cases ((make_room w t.1).0)) [
    | inl f ↦ rw (e, f) (Held-append a (make_room w t.1).1.ops (o ∷ []) roomed)
    | inr f ↦ rw (e, f) roomed
  ]
  | inr e ↦ rw e kept
]
  where
    token : ℕ
    token = o.access_token_id % 2 ^ 32

    s' : Sessions
    s' = delete_first_time_out_batch w s

    t : Status × Sessions
    t = delete_for_token w s' token

    kept : Held a t.1.ops
    kept =
        Held-Evicts a (delete_for_token-Evicts w s' token)
          (Held-Evicts a (delete_timed_out-Evicts w s) h)

    roomed : Held a (make_room w t.1).1.ops
    roomed = Held-Evicts a (make_room-Evicts w t.1) kept

query_loop-Held :
    (a : ℕ) (p : Operation → Bool) (os : List Operation) → Held a os → Held a (query_loop p os).1
unfolding query_loop
query_loop-Held a p [] h = elim h [ ]
query_loop-Held a p (o ∷ os) h = ground (arith, query_loop-Held a p os)

unuse_at-Held : (a b : ℕ) (os : List Operation) → a ≢ b → Held a os → Held a (unuse_at b os)
unfolding unuse_at
unuse_at-Held a b [] ne h = elim h [ ]
unuse_at-Held a b (o ∷ os) ne h = ground (arith, unuse_at-Held a b os ne)

delete_loop-Held : (a n : ℕ) (os : List Operation) → Held a os → Held a (delete_loop n os).1
unfolding delete_loop
delete_loop-Held a n [] h = elim h [ ]
delete_loop-Held a n (o ∷ os) h = ground (arith, delete_loop-Held a n os)

-- Whether an operation belongs to a user and, if a process is named, to the process.
unfoldable pub belongs : ProcessInfo → Operation → Bool
belongs i o =
    same_bytes o.user_id i.user_id
    && ((length i.process_name == 0) || same_bytes o.process_name i.process_name)

-- What `DeleteSessionByProcessInfo` is to leave: what is in use, and what belongs to others.
unfoldable pub survives : ProcessInfo → Operation → Bool
unfolding belongs
survives i o = o.is_in_use || not (belongs i o)

survives_unless_swept : (i : ProcessInfo) (o : Operation) → survives i o ≡ not (is_swept i o)
unfolding survives is_swept is_need_delete is_same_user_id is_same_process_name
survives_unless_swept i o = ground arith

-- The handles that the engine is told to abort, in order.
unfoldable pub cancelled : World → ProcessInfo → List Operation → List ℕ
cancelled w i [] = []
cancelled w i (o ∷ os) =
    let rest = cancelled w i os in
    if not (survives i o) && w.can_abort o.handle then o.handle ∷ rest else rest

logged :
    (w : World) (s : Sessions) (o : Operation) (rest : List Operation) (more : List ℕ)
    → (delete_key_node_and_decrease w s (o, rest)).aborted ++ more
      ≡ s.aborted ++ (if w.can_abort o.handle then o.handle ∷ more else more)
unfolding delete_key_node_and_decrease
logged w s o rest more = elim (Bool-cases (w.can_abort o.handle)) [
  | inl e ↦ rw e (append_assoc s.aborted (o.handle ∷ []) more)
  | inr e ↦ rw e
]

sweep_lem :
    (w : World) (i : ProcessInfo) (kept os : List Operation) (s : Sessions)
    → let t = sweep w i kept os s in
      (t.ops ≡ kept ++ keep (survives i) os) × (t.aborted ≡ s.aborted ++ cancelled w i os)
unfolding sweep keep cancelled
sweep_lem w i kept [] s = (sym (append-nil kept), sym (append-nil s.aborted))
sweep_lem w i kept (o ∷ os) s = elim (Bool-cases (is_swept i o)) [
  | inl e ↦
      let f : survives i o ≡ false = survives_unless_swept i o ∙ ap not e in
      let (ops, aborted) =
        sweep_lem w i kept os (delete_key_node_and_decrease w s (o, kept ++ os)) in
      rw (e, f, sweep) (ops, aborted ∙ logged w s o (kept ++ os) (cancelled w i os))
  | inr e ↦
      let f : survives i o ≡ true = survives_unless_swept i o ∙ ap not e in
      let (ops, aborted) = sweep_lem w i (kept ++ (o ∷ [])) os s in
      rw (e, f, sweep) (ops ∙ append_assoc kept (o ∷ []) (keep (survives i) os), aborted)
]

-- `DeleteSessionByProcessInfo` deletes exactly the operations that are not in use and belong to
-- the user and, if one is named, to the process; the others stay in order. The engine is told to
-- abort each deleted operation, in order, as far as there is memory for the call.
pub delete_session_by_process_info_lem :
    (w : World) (i : ProcessInfo) (s : Sessions)
    → let t = delete_session_by_process_info w i s in
      (t.ops ≡ keep (survives i) s.ops) × (t.aborted ≡ s.aborted ++ cancelled w i s.ops)
unfolding delete_session_by_process_info
delete_session_by_process_info_lem w i s = sweep_lem w i [] s.ops s

keep-Held :
    (a : ℕ) (i : ProcessInfo) (os : List Operation) → Held a os → Held a (keep (survives i) os)
unfolding keep survives
keep-Held a i [] h = elim h [ ]
keep-Held a i (o ∷ os) h = ground (arith, keep-Held a i os)

-- The calls of the interface of hks_session_manager.h, with what each finds around it.
pub data Call : Type 0 where
  creates : World → Memory → Option ℕ → ℕ → ProcessInfo → Option ParamSet → List ℕ → Bool → Call
  queries : Memory → ProcessInfo → List ℕ → Call
  lets_go : Option ℕ → Call
  deletes : Memory → List ℕ → Call
  deletes_all : World → ProcessInfo → Call

unfoldable pub step : Call → Sessions → Sessions
step (creates w m now addr i ps handle abortable) s =
    (create_operation w m now addr i ps handle abortable s).1
step (queries m i handle) s = (query_operation_and_mark_in_use m i handle s).1
step (lets_go addr) s = mark_operation_un_use addr s
step (deletes m handle) s = delete_operation m handle s
step (deletes_all w i) s = delete_session_by_process_info w i s

-- An operation that is in use stays in the list, at its address and in use, under every call but
-- `MarkOperationUnUse` at that address: no call frees the block that a client works with.
pub step-Held :
    (a : ℕ) (c : Call) (s : Sessions) → c ≢ lets_go (some a) → Held a s.ops → Held a (step c s).ops
unfolding step create_operation query_operation_and_mark_in_use mark_operation_un_use
    delete_operation
step-Held a (creates w m now addr i ps handle abortable) s ne h =
    ground (arith, add_operation-Held a w s (make_operation m now addr i ps handle abortable).1 h)
step-Held a (queries m i handle) s ne h =
    ground (arith, query_loop-Held a (is_asked i (construct_operation_handle m handle).1) s.ops h)
step-Held a (lets_go none) s ne h = h
step-Held a (lets_go (some b)) s ne h =
    unuse_at-Held a b s.ops (λ e. ne (ap (λ x. lets_go (some x)) (sym e))) h
step-Held a (deletes m handle) s ne h =
    ground (arith, delete_loop-Held a (construct_operation_handle m handle).1 s.ops h)
step-Held a (deletes_all w i) s ne h =
    rw (delete_session_by_process_info_lem w i s).0 (keep-Held a i s.ops h)
