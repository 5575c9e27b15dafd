-- ===== src/Session/Run.antt =====
-- Any history of calls of hks_session_manager.c, from the empty list on, and who may hold an
-- operation.
use security_huks.Prelude.{
  ℕ, ◌+◌, ◌≤◌, ◌≡◌, refl, ap, inl, inr, Bool, Option, none, some, List, [], ◌∷◌, ◌++◌, length,
  arith, if◌then◌else◌, Bool-cases, keep, count, length-append,
}
use security_huks.Status.{Status, is_success}
use security_huks.Memory.{Memory}
use security_huks.ParamSet.{ParamSet}
use security_huks.Session.{
  ProcessInfo, Operation, Sessions, World, delete_key_node_and_decrease, is_owned, is_swept, sweep,
  delete_session_by_process_info,
}
use security_huks.Session.Access.{
  construct_operation_handle, is_asked, mark_in_use, query_loop, query_operation_and_mark_in_use,
  unuse_at, mark_operation_un_use, delete_loop, delete_operation,
}
use security_huks.Session.Create.{create_operation, make_operation}
use security_huks.Session.Limits.{add_operation-IsBounded}
use security_huks.Session.Evictions.{IsBounded}
use security_huks.Session.InUse.{
  Call, creates, queries, lets_go, deletes, deletes_all, step, survives,
  delete_session_by_process_info_lem,
}

-- A list that is no longer, and in which no token owns more.
record IsWithin (os ps : List Operation) : Type 0 where
  shorter : length ps ≤ length os
  fewer : (token : ℕ) → count (is_owned token) ps ≤ count (is_owned token) os

within-IsBounded :
    (s t : Sessions) → IsWithin s.ops t.ops → t.op_count ≡ length t.ops → IsBounded s → IsBounded t
within-IsBounded s t h counted v = record {
  counted = counted;
  bounded = omega (arith, h.shorter, v.bounded);
  shared = λ token small. omega (arith, h.fewer token, v.shared token small);
}

query_loop-same :
    (p : Operation → Bool) (token : ℕ) (os : List Operation)
    → (length (query_loop p os).1 ≡ length os)
      × (count (is_owned token) (query_loop p os).1 ≡ count (is_owned token) os)
unfolding query_loop count is_owned
query_loop-same p token [] = (refl, refl)
query_loop-same p token (o ∷ os) = ground (arith, query_loop-same p token os)

unuse_at-same :
    (a token : ℕ) (os : List Operation)
    → (length (unuse_at a os) ≡ length os)
      × (count (is_owned token) (unuse_at a os) ≡ count (is_owned token) os)
unfolding unuse_at count is_owned
unuse_at-same a token [] = (refl, refl)
unuse_at-same a token (o ∷ os) = ground (arith, unuse_at-same a token os)

delete_loop-less :
    (n token : ℕ) (os : List Operation)
    → (length os ≡ length (delete_loop n os).1 + (if (delete_loop n os).0 then 1 else 0))
      × (count (is_owned token) (delete_loop n os).1 ≤ count (is_owned token) os)
unfolding delete_loop count
delete_loop-less n token [] = omega arith
delete_loop-less n token (o ∷ os) = ground (arith, delete_loop-less n token os)

keep-within :
    (p : Operation → Bool) (token : ℕ) (os : List Operation)
    → (length (keep p os) ≤ length os)
      × (count (is_owned token) (keep p os) ≤ count (is_owned token) os)
unfolding keep count
keep-within p token [] = omega arith
keep-within p token (o ∷ os) = ground (arith, keep-within p token os)

sweep-counted :
    (w : World) (i : ProcessInfo) (kept os : List Operation) (s : Sessions)
    → length kept + length os ≤ 32
    → s.op_count ≡ length kept + length os
    → (sweep w i kept os s).op_count ≡ length (sweep w i kept os s).ops
unfolding sweep delete_key_node_and_decrease
sweep-counted w i kept [] s small h = omega arith
sweep-counted w i kept (o ∷ os) s small h = elim (Bool-cases (is_swept i o)) [
  | inl e ↦
      rw (e, sweep)
        (sweep-counted w i kept os (delete_key_node_and_decrease w s (o, kept ++ os)) (omega arith)
          (omega arith))
  | inr e ↦
      rw (e, sweep)
        (sweep-counted w i (kept ++ (o ∷ [])) os s (omega (arith, length-append kept (o ∷ [])))
          (omega (arith, length-append kept (o ∷ []))))
]

create_operation-IsBounded :
    (w : World) (m : Memory) (now : Option ℕ) (addr : ℕ) (i : ProcessInfo) (ps : Option ParamSet)
    (handle : List ℕ) (abortable : Bool) (s : Sessions)
    → IsBounded s
    → IsBounded (create_operation w m now addr i ps handle abortable s).1
unfolding create_operation
create_operation-IsBounded w m now addr i ps handle abortable s v =
    elim (Bool-cases (is_success made.0)) [
      | inl e ↦ rw e (add_operation-IsBounded w s made.1 v)
      | inr e ↦ rw e v
    ]
  where
    made : Status × Operation
    made = make_operation m now addr i ps handle abortable

query-IsBounded :
    (m : Memory) (i : ProcessInfo) (handle : List ℕ) (s : Sessions)
    → IsBounded s
    → IsBounded (query_operation_and_mark_in_use m i handle s).1
unfolding query_operation_and_mark_in_use
query-IsBounded m i handle s v =
    elim (Bool-cases (is_success (construct_operation_handle m handle).0)) [
      | inl e ↦ rw e (record {
        counted = omega (arith, v.counted, same 0);
        bounded = omega (arith, v.bounded, same 0);
        shared = λ token small. omega (arith, v.shared token small, same token);
      })
      | inr e ↦ rw e v
    ]
  where
    p : Operation → Bool
    p = is_asked i (construct_operation_handle m handle).1

    same :
        (token : ℕ)
        → (length (query_loop p s.ops).1 ≡ length s.ops)
          × (count (is_owned token) (query_loop p s.ops).1 ≡ count (is_owned token) s.ops)
    same token = query_loop-same p token s.ops

delete_operation-IsBounded :
    (m : Memory) (handle : List ℕ) (s : Sessions)
    → IsBounded s
    → IsBounded (delete_operation m handle s)
unfolding delete_operation
delete_operation-IsBounded m handle s v =
    elim (Bool-cases (is_success (construct_operation_handle m handle).0)) [
      | inl e ↦ elim (Bool-cases (delete_loop n s.ops).0) [
        | inl f ↦
            rw (e, f)
              (record {
                counted = ground (arith, v.counted, v.bounded, less 0, f);
                bounded = ground (arith, v.bounded, less 0, f);
                shared = λ token small. omega (arith, v.shared token small, less token);
              })
        | inr f ↦
            rw (e, f)
              (record {
                counted = ground (arith, v.counted, less 0, f);
                bounded = ground (arith, v.bounded, less 0, f);
                shared = λ token small. omega (arith, v.shared token small, less token);
              })
      ]
      | inr e ↦ rw e v
    ]
  where
    n : ℕ
    n = (construct_operation_handle m handle).1

    less :
        (token : ℕ)
        → (length s.ops
            ≡ length (delete_loop n s.ops).1 + (if (delete_loop n s.ops).0 then 1 else 0))
          × (count (is_owned token) (delete_loop n s.ops).1 ≤ count (is_owned token) s.ops)
    less token = delete_loop-less n token s.ops

-- Every call keeps the counter true, the list at 32 operations at most, and each token of 32 bits
-- at ten.
pub step-IsBounded : (c : Call) (s : Sessions) → IsBounded s → IsBounded (step c s)
unfolding step mark_operation_un_use delete_session_by_process_info
step-IsBounded (creates w m now addr i ps handle abortable) s v =
    create_operation-IsBounded w m now addr i ps handle abortable s v
step-IsBounded (queries m i handle) s v = query-IsBounded m i handle s v
step-IsBounded (lets_go none) s v = v
step-IsBounded (lets_go (some a)) s v = record {
  counted = omega (arith, v.counted, unuse_at-same a 0 s.ops);
  bounded = omega (arith, v.bounded, unuse_at-same a 0 s.ops);
  shared = λ token small. omega (arith, v.shared token small, unuse_at-same a token s.ops);
}
step-IsBounded (deletes m handle) s v = delete_operation-IsBounded m handle s v
step-IsBounded (deletes_all w i) s v = record {
  counted = sweep-counted w i [] s.ops s (omega (arith, v.bounded)) (omega (arith, v.counted));
  bounded = omega (
    arith,
    v.bounded,
    keep-within (survives i) 0 s.ops,
    ap length (delete_session_by_process_info_lem w i s).0,
  );
  shared = λ token small. omega (
    arith,
    v.shared token small,
    keep-within (survives i) token s.ops,
    ap (count (is_owned token)) (delete_session_by_process_info_lem w i s).0,
  );
}

unfoldable pub run : List Call → Sessions → Sessions
run [] s = s
run (c ∷ cs) s = run cs (step c s)

-- The state in which the service starts.
abbrev pub initial : Sessions
initial = record { ops = []; op_count = 0; aborted = [] }

run-from-IsBounded : (cs : List Call) (s : Sessions) → IsBounded s → IsBounded (run cs s)
unfolding run
run-from-IsBounded [] s v = v
run-from-IsBounded (c ∷ cs) s v = run-from-IsBounded cs (step c s) (step-IsBounded c s v)

-- After any history of calls, whatever the clock and the memory do, the counter of the list is
-- true, it has 32 operations at most, and no token of 32 bits owns more than ten of them.
pub run-IsBounded : (cs : List Call) → IsBounded (run cs initial)
unfolding count
run-IsBounded cs =
    run-from-IsBounded cs initial
      (record { counted = refl; bounded = omega arith; shared = λ token small. omega arith })

query_loop-twice :
    (p : Operation → Bool) (os : List Operation) (a : ℕ)
    → ((o : Operation) → p (mark_in_use o) ≡ p o)
    → (query_loop p os).0 ≡ some a
    → (query_loop p (query_loop p os).1).0 ≡ none
unfolding query_loop
query_loop-twice p [] a keeps h = refl
query_loop-twice p (o ∷ os) a keeps h = ground (arith, keeps o, query_loop-twice p os a keeps)

-- While a client holds an operation, the same query finds nothing: it is given out once.
query_twice :
    (m : Memory) (i : ProcessInfo) (handle : List ℕ) (s : Sessions) (a : ℕ)
    → (query_operation_and_mark_in_use m i handle s).0 ≡ some a
    → (query_operation_and_mark_in_use m i handle
        (query_operation_and_mark_in_use m i handle s).1).0
      ≡ none
unfolding query_operation_and_mark_in_use is_asked mark_in_use
query_twice m i handle s a h =
    elim (Bool-cases (is_success (construct_operation_handle m handle).0)) [
      | inl e ↦ rw e (
          query_loop-twice (is_asked i (construct_operation_handle m handle).1) s.ops a (λ o. refl)
            (rw e at h))
      | inr e ↦ rw e
    ]
