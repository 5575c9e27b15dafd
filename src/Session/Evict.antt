-- ===== src/Session/Evict.antt =====
-- Whom `AddOperation` of hks_session_manager.c evicts, and when it refuses.
use security_huks.Prelude.{
  ℕ, suc, ◌+◌, ◌%◌, ◌^◌, ◌≤◌, ◌<◌, ◌≡◌, refl, ◌≢◌, ◌⊎◌, inl, inr, Bool, true, false, ◌&&◌, Option,
  none, some, List, [], ◌∷◌, ◌++◌, length, arith, leb, ◌==◌, count, Bool-cases, All,
}
use security_huks.Status.{Status, success, session_reached_limit, is_success}
use security_huks.Session.{
  Operation, Sessions, World, give_up, is_abortable, is_abortable_of, delete_key_node_and_decrease,
  is_owned, delete_first_abortable, delete_first_abortable_for_token, delete_first_time_out_batch,
  delete_for_token, make_room, add_at_tail, add_operation, max_operations_count,
}
use security_huks.Session.Remove.{Removed, length-Removed, take_first-none}
use security_huks.Session.Limits.{make_room-Evicts, count-Evicts}
use security_huks.Session.Evictions.{
  IsBounded, IsFree, Evicts, keeps, drops, Evicts-IsBounded, delete_timed_out-Evicts,
  delete_for_token-Evicts, delete_for_token_cases,
}

unfoldable pub is_held : Operation → Bool
is_held o = o.is_in_use

unfoldable pub is_held_by : ℕ → Operation → Bool
is_held_by token o = (o.access_token_id == token) && o.is_in_use

give_up_fails :
    (w : World) (s : Sessions) (r : Option (Operation × List Operation))
    → (give_up w s r).0 ≡ false
    → r ≡ none
unfolding give_up
give_up_fails w s none h = refl
give_up_fails w s (some found) h = absurd (cc)

count-held_by :
    (token : ℕ) (os : List Operation)
    → All (λ o. is_abortable_of token o ≡ false) os
    → count (is_owned token) os ≡ count (is_held_by token) os
unfolding count is_owned is_held_by is_abortable_of
count-held_by token [] h = refl
count-held_by token (o ∷ os) h = ground (arith, h.0, count-held_by token os h.1)

count-held :
    (os : List Operation) → All (λ o. is_abortable o ≡ false) os → count is_held os ≡ length os
unfolding count is_held is_abortable
count-held [] h = refl
count-held (o ∷ os) h = ground (arith, h.0, count-held os h.1)

-- The refusal of the check for one token.
token_refuses :
    (w : World) (s : Sessions) (token : ℕ)
    → is_success (delete_for_token w s token).0 ≡ false
    → 10 ≤ count (is_held_by token) s.ops
unfolding delete_first_abortable_for_token
token_refuses w s token h = elim (delete_for_token_cases w s token) [
  | inl c ↦ absurd (clash (c.0))
  | inr (inl c) ↦ absurd (clash (c.0))
  | inr (inr c) ↦ omega (
    arith,
    count-held_by token s.ops
        (take_first-none (is_abortable_of token) s.ops (give_up_fails w s _ c.1)),
    c.2,
  )
]
  where
    clash : {t : Sessions} → delete_for_token w s token ≡ (success, t) → ⊥
    clash e = ground arith

-- The refusal of the check for the whole list.
room_refuses :
    (w : World) (s : Sessions) → IsBounded s → (make_room w s).0 ≡ false → 32 ≤ count is_held s.ops
unfolding make_room delete_first_abortable
room_refuses w s v h = elim (Bool-cases (leb max_operations_count s.op_count)) [
  | inl e ↦
      let failed : (delete_first_abortable w s).0 ≡ false = ground arith in
      omega (
        arith,
        count-held s.ops (take_first-none is_abortable s.ops (give_up_fails w s _ failed)),
        full e,
        v.counted,
      )
  | inr e ↦ absurd (ground arith)
]
  where
    full : leb max_operations_count s.op_count ≡ true → 32 ≤ s.op_count
    full e = ground arith

-- `rest` is the list without `n` operations that were not in use, the others in their order.
pub data Without : ℕ → List Operation → List Operation → Type 0 where
  same : {os : List Operation} → Without 0 os os
  less :
      {n : ℕ}
      → {x : Operation} → {os mid rest : List Operation} → IsFree x
      → Removed x os mid
      → Without n mid rest
      → Without (suc n) os rest

length-Without :
    {n : ℕ} {os rest : List Operation} → Without n os rest → length os ≡ length rest + n
length-Without same = omega arith
length-Without (less free r w) = omega (arith, length-Removed r, length-Without w)

Evicts-Without :
    {w : World} {s t : Sessions} {n : ℕ} {rest : List Operation}
    → Evicts IsFree w s t
    → Without n t.ops rest
    → (k : ℕ) × Without k s.ops rest
unfolding delete_key_node_and_decrease
Evicts-Without {n = n} keeps h = (n, h)
Evicts-Without {n = n} (drops free r) h = (suc n, less free r h)

length-Evicts :
    {P : Operation → Type 0} {w : World} {s t : Sessions}
    → Evicts P w s t
    → (length t.ops ≤ length s.ops) × (length s.ops ≤ length t.ops + 1)
unfolding delete_key_node_and_decrease
length-Evicts keeps = omega arith
length-Evicts (drops h r) = omega (arith, length-Removed r)

-- `AddOperation` refuses only with HKS_ERROR_SESSION_REACHED_LIMIT, and only if ten operations of
-- the token, or all 32, are in use.
pub add_operation_refuses :
    (w : World) (s : Sessions) (o : Operation)
    → IsBounded s
    → o.access_token_id < 2 ^ 32
    → (add_operation w s o).0 ≢ success
    → ((add_operation w s o).0 ≡ session_reached_limit)
      × ((10 ≤ count (is_held_by o.access_token_id) s.ops) ⊎ (32 ≤ count is_held s.ops))
unfolding add_operation
add_operation_refuses w s o v small bad = elim (Bool-cases (is_success t.0)) [
  | inl e ↦ elim (Bool-cases ((make_room w t.1).0)) [
    | inl f ↦ absurd (bad (rw (e, f)))
    | inr f ↦
        rw (e, f)
          (
            refl,
            inr (
                omega (
                  arith,
                  room_refuses w t.1 tv f,
                  count-Evicts is_held (delete_for_token-Evicts w s' token),
                  count-Evicts is_held (delete_timed_out-Evicts w s),
                )),
          )
  ]
  | inr e ↦ rw e (limit e, inl (rw (← whole) (ten e)))
]
  where
    token : ℕ
    token = o.access_token_id % 2 ^ 32

    whole : token ≡ o.access_token_id
    whole = omega arith

    s' : Sessions
    s' = delete_first_time_out_batch w s

    t : Status × Sessions
    t = delete_for_token w s' token

    tv : IsBounded t.1
    tv =
        Evicts-IsBounded (delete_for_token-Evicts w s' token)
          (Evicts-IsBounded (delete_timed_out-Evicts w s) v)

    ten : is_success t.0 ≡ false → 10 ≤ count (is_held_by token) s.ops
    ten e = omega (
      arith,
      token_refuses w s' token e,
      count-Evicts (is_held_by token) (delete_timed_out-Evicts w s),
    )

    limit : is_success t.0 ≡ false → t.0 ≡ session_reached_limit
    limit e = ground (arith, delete_for_token_cases w s' token)

make_room-length :
    (w : World) (s : Sessions)
    → IsBounded s
    → (length s.ops ≤ length (make_room w s).1.ops) ⊎ (32 ≤ length s.ops)
unfolding make_room
make_room-length w s v = elim (Bool-cases (leb max_operations_count s.op_count)) [
  | inl e ↦ inr (ground (arith, v.counted))
  | inr e ↦ inl (rw e (omega arith))
]

-- When `AddOperation` succeeds the operation stands at the end of the list, behind the operations that
-- were there, unchanged and in their order, without two of them at most, which were not in use.
pub add_operation_adds :
    (w : World) (s : Sessions) (o : Operation)
    → IsBounded s
    → (add_operation w s o).0 ≡ success
    → (kept : List Operation) × ((add_operation w s o).1.ops ≡ kept ++ (o ∷ []))
      × (n : ℕ) × (n ≤ 2)
      × Without n s.ops kept
unfolding add_operation add_at_tail
add_operation_adds w s o v h = elim (Bool-cases (is_success t.0)) [
  | inl e ↦ elim (Bool-cases ((make_room w t.1).0)) [
    | inl f ↦
        let (n, gone) = all_gone in
        (
          (make_room w t.1).1.ops,
          rw (e, f),
          n,
          omega (
            arith,
            length-Without gone,
            v.bounded,
            make_room-length w t.1 tv,
            length-Evicts (make_room-Evicts w t.1),
            length-Evicts (delete_for_token-Evicts w s' token),
            length-Evicts (delete_timed_out-Evicts w s),
          ),
          gone,
        )
    | inr f ↦ absurd (ground arith)
  ]
  | inr e ↦ absurd (ground arith)
]
  where
    token : ℕ
    token = o.access_token_id % 2 ^ 32

    s' : Sessions
    s' = delete_first_time_out_batch w s

    t : Status × Sessions
    t = delete_for_token w s' token

    tv : IsBounded t.1
    tv =
        Evicts-IsBounded (delete_for_token-Evicts w s' token)
          (Evicts-IsBounded (delete_timed_out-Evicts w s) v)

    all_gone : (n : ℕ) × Without n s.ops (make_room w t.1).1.ops
    all_gone =
        let (a, x) = Evicts-Without (make_room-Evicts w t.1) same in
        let (b, y) = Evicts-Without (delete_for_token-Evicts w s' token) x in
        Evicts-Without (delete_timed_out-Evicts w s) y
