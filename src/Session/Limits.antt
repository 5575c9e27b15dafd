-- ===== src/Session/Limits.antt =====
-- The bounds that `AddOperation` of hks_session_manager.c keeps.
use security_huks.Prelude.{
  ℕ, ◌%◌, ◌^◌, ◌≤◌, ◌<◌, ◌≡◌, inl, inr, Bool, true, [], ◌∷◌, length, arith, leb, count,
  count-le-length, count-append, length-append, Bool-cases,
}
use security_huks.Status.{Status, success, session_reached_limit, is_success}
use security_huks.Session.{
  Operation, Sessions, World, is_abortable, is_abortable_of, delete_key_node_and_decrease, is_owned,
  delete_first_abortable, delete_first_abortable_for_token, delete_first_time_out_batch,
  delete_for_token, make_room, add_at_tail, add_operation, max_operations_count,
}
use security_huks.Session.Remove.{count-Removed, take_first-Outcome}
use security_huks.Session.Evictions.{
  Evicts, Evicts-IsBounded, IsBounded, IsFree, Outcome-map, abortable_of_owned,
  delete_first_abortable-Evicts, delete_for_token-Evicts, delete_for_token_cases,
  delete_timed_out-Evicts, drops, give_up-count, give_up-length, keeps,
}

-- Past that check the token owns at most nine operations.
delete_for_token-room :
    (w : World) (s : Sessions) (token : ℕ)
    → token < 2 ^ 32
    → IsBounded s
    → (delete_for_token w s token).0 ≡ success
    → count (is_owned token) (delete_for_token w s token).1.ops ≤ 9
unfolding delete_first_abortable_for_token
delete_for_token-room w s token small v h = elim (delete_for_token_cases w s token) [
  | inl (e, inl few) ↦ rw e (omega (arith, v.counted, count-le-length (is_owned token) s.ops))
  | inl (e, inr few) ↦ rw e (omega arith)
  | inr (inl c) ↦ rw (c.0) (
      omega (
        arith,
        v.shared token small,
        give_up-count (is_owned token) w s _
            (Outcome-map _ (λ x. is_owned token x ≡ true) s.ops _ (abortable_of_owned token)
              (take_first-Outcome (is_abortable_of token) s.ops))
            c.1,
      ))
  | inr (inr c) ↦ absurd (refused (c.0) h)
]
  where
    refused :
        delete_for_token w s token ≡ (session_reached_limit, s)
        → (delete_for_token w s token).0 ≡ success
        → ⊥
    refused e h = cc

pub make_room-Evicts : (w : World) (s : Sessions) → Evicts IsFree w s (make_room w s).1
unfolding make_room
make_room-Evicts w s = elim (Bool-cases (leb max_operations_count s.op_count)) [
  | inl e ↦ rw e (delete_first_abortable-Evicts w s)
  | inr e ↦ rw e keeps
]

-- When it succeeds there is room for one more.
pub make_room-room :
    (w : World) (s : Sessions)
    → IsBounded s
    → (make_room w s).0 ≡ true
    → length (make_room w s).1.ops < max_operations_count
unfolding make_room delete_first_abortable
make_room-room w s v h = elim (Bool-cases (leb max_operations_count s.op_count)) [
  | inl e ↦
      let found : (delete_first_abortable w s).0 ≡ true = ground arith in
      rw e (
        omega (
          arith,
          v.bounded,
          give_up-length (λ x. is_abortable x ≡ true) w s _ (take_first-Outcome is_abortable s.ops)
              found,
        ))
  | inr e ↦ rw e (ground (arith, v.counted))
]

pub count-Evicts :
    (p : Operation → Bool) {P : Operation → Type 0} {w : World} {s t : Sessions}
    → Evicts P w s t
    → count p t.ops ≤ count p s.ops
unfolding delete_key_node_and_decrease
count-Evicts p keeps = omega arith
count-Evicts p (drops h r) = omega (arith, count-Removed p r)

add_at_tail-IsBounded :
    (s : Sessions) (o : Operation)
    → IsBounded s
    → length s.ops < max_operations_count
    → count (is_owned (o.access_token_id % 2 ^ 32)) s.ops ≤ 9
    → IsBounded (add_at_tail s o)
unfolding add_at_tail is_owned count
add_at_tail-IsBounded s o v room few = record {
  counted = omega (arith, v.counted, length-append s.ops (o ∷ []));
  bounded = omega (arith, length-append s.ops (o ∷ []));
  shared = λ token small.
      ground (arith, count-append (is_owned token) s.ops (o ∷ []), v.shared token small);
}

-- `AddOperation` keeps the bounds, whether it adds the operation or refuses it.
pub add_operation-IsBounded :
    (w : World) (s : Sessions) (o : Operation) → IsBounded s → IsBounded (add_operation w s o).1
unfolding add_operation
add_operation-IsBounded w s o v = elim (Bool-cases (is_success t.0)) [
  | inl e ↦ elim (Bool-cases ((make_room w t.1).0)) [
    | inl f ↦
        rw (e, f)
          (add_at_tail-IsBounded (make_room w t.1).1 o
            (Evicts-IsBounded (make_room-Evicts w t.1) tv) (make_room-room w t.1 tv f) (few e))
    | inr f ↦ rw (e, f) (Evicts-IsBounded (make_room-Evicts w t.1) tv)
  ]
  | inr e ↦ rw e tv
]
  where
    token : ℕ
    token = o.access_token_id % 2 ^ 32

    s' : Sessions
    s' = delete_first_time_out_batch w s

    v' : IsBounded s'
    v' = Evicts-IsBounded (delete_timed_out-Evicts w s) v

    t : Status × Sessions
    t = delete_for_token w s' token

    tv : IsBounded t.1
    tv = Evicts-IsBounded (delete_for_token-Evicts w s' token) v'

    few : is_success t.0 ≡ true → count (is_owned token) (make_room w t.1).1.ops ≤ 9
    few e = omega (
      arith,
      count-Evicts (is_owned token) (make_room-Evicts w t.1),
      delete_for_token-room w s' token (omega arith) v' (ground arith),
    )
