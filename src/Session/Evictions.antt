-- ===== src/Session/Evictions.antt =====
-- The steps of hks_session_manager.c that evict operations, and the bounds that they keep.
use security_huks.Prelude.{
  ℕ, suc, ◌^◌, ◌≤◌, ◌<◌, ◌≡◌, ◌⊎◌, inl, inr, Bool, true, false, Option, none, some, List, length,
  arith, ltb, count, Bool-cases,
}
use security_huks.Status.{success, session_reached_limit}
use security_huks.Session.{
  Operation, Sessions, World, give_up, take_timed_out, is_abortable, is_abortable_of,
  delete_key_node_and_decrease, is_owned, delete_first_abortable, delete_first_abortable_for_token,
  delete_first_time_out_batch, delete_for_token, max_operations_count, max_operations_each_token_id,
}
use security_huks.Session.Remove.{
  Removed, length-Removed, count-Removed, Outcome, take_first-Outcome, take_timed_out-Outcome,
}

-- The counter tells the length of the list, the list has at most 32 operations, and no token of
-- 32 bits owns more than 10 of them.
pub record IsBounded (s : Sessions) : Type 0 where
  pub counted : s.op_count ≡ length s.ops
  pub bounded : length s.ops ≤ max_operations_count
  pub shared :
      (token : ℕ) → token < 2 ^ 32 → count (is_owned token) s.ops ≤ max_operations_each_token_id

module _ (w : World) (s : Sessions) (x : Operation) (rest : List Operation)
    (gone : Removed x s.ops rest) where
  pub decrease-IsBounded : IsBounded s → IsBounded (delete_key_node_and_decrease w s (x, rest))
  unfolding delete_key_node_and_decrease
  decrease-IsBounded v = record {
    counted = omega (arith, length-Removed gone, v.counted, v.bounded);
    bounded = omega (arith, length-Removed gone, v.bounded);
    shared =
        λ token small. omega (arith, count-Removed (is_owned token) gone, v.shared token small);
  }

-- A deletion that may happen on the way: none, or that of one node.
pub data Evicts (P : Operation → Type 0) (w : World) (s : Sessions) : Sessions → Type 0 where
  keeps : Evicts P w s s
  drops :
      {x : Operation} {rest : List Operation}
      → P x
      → Removed x s.ops rest
      → Evicts P w s (delete_key_node_and_decrease w s (x, rest))

pub Evicts-IsBounded :
    {P : Operation → Type 0} {w : World} {s t : Sessions}
    → Evicts P w s t
    → IsBounded s
    → IsBounded t
Evicts-IsBounded keeps v = v
Evicts-IsBounded {w = w} {s = s} (drops {x = x} {rest = rest} p r) v =
    decrease-IsBounded w s x rest r v

-- An operation that may be evicted.
abbrev pub IsFree : Operation → Type 0
IsFree x = x.is_in_use ≡ false

give_up-Evicts :
    (P : Operation → Type 0) (w : World) (s : Sessions) (r : Option (Operation × List Operation))
    → Outcome P s.ops r
    → Evicts P w s (give_up w s r).1
unfolding give_up
give_up-Evicts P w s none h = keeps
give_up-Evicts P w s (some (x, rest)) h = drops h.0 h.1

-- A search that finds a node that counts brings the count down by one.
pub give_up-count :
    (p : Operation → Bool) (w : World) (s : Sessions) (r : Option (Operation × List Operation))
    → Outcome (λ x. p x ≡ true) s.ops r
    → (give_up w s r).0 ≡ true
    → count p s.ops ≡ suc (count p (give_up w s r).1.ops)
unfolding give_up delete_key_node_and_decrease
give_up-count p w s none h found = absurd (cc)
give_up-count p w s (some (x, rest)) h found = ground (arith, count-Removed p h.1)

pub give_up-length :
    (P : Operation → Type 0) (w : World) (s : Sessions) (r : Option (Operation × List Operation))
    → Outcome P s.ops r
    → (give_up w s r).0 ≡ true
    → length s.ops ≡ suc (length (give_up w s r).1.ops)
unfolding give_up delete_key_node_and_decrease
give_up-length P w s none h found = absurd (cc)
give_up-length P w s (some (x, rest)) h found = length-Removed h.1

pub Outcome-map :
    (P Q : Operation → Type 0) (os : List Operation) (r : Option (Operation × List Operation))
    → ((x : Operation) → P x → Q x)
    → Outcome P os r
    → Outcome Q os r
Outcome-map P Q os none f h = tt
Outcome-map P Q os (some (x, rest)) f h = (f x h.0, h.1)

pub delete_timed_out-Evicts :
    (w : World) (s : Sessions) → Evicts IsFree w s (delete_first_time_out_batch w s)
unfolding delete_first_time_out_batch
delete_timed_out-Evicts w s = elim (Bool-cases (ltb s.op_count max_operations_count)) [
  | inl e ↦ rw e keeps
  | inr e ↦ rw e (
      give_up-Evicts IsFree w s (take_timed_out w.clock 0 s.ops)
        (Outcome-map _ IsFree s.ops _ (λ x h. h.1) (take_timed_out-Outcome w.clock 0 s.ops)))
]

abortable-IsFree : (x : Operation) → is_abortable x ≡ true → IsFree x
unfolding is_abortable
abortable-IsFree x h = ground arith

abortable_of-IsFree : (token : ℕ) (x : Operation) → is_abortable_of token x ≡ true → IsFree x
unfolding is_abortable_of
abortable_of-IsFree token x h = ground arith

pub abortable_of_owned :
    (token : ℕ) (x : Operation) → is_abortable_of token x ≡ true → is_owned token x ≡ true
unfolding is_abortable_of is_owned
abortable_of_owned token x h = ground arith

pub delete_first_abortable-Evicts :
    (w : World) (s : Sessions) → Evicts IsFree w s (delete_first_abortable w s).1
unfolding delete_first_abortable
delete_first_abortable-Evicts w s =
    give_up-Evicts IsFree w s _
      (Outcome-map _ IsFree s.ops _ abortable-IsFree (take_first-Outcome is_abortable s.ops))

-- The three ways through `DeleteForTokenIdIfExceedLimit`.
pub delete_for_token_cases :
    (w : World) (s : Sessions) (token : ℕ)
    → let r = delete_first_abortable_for_token w s token in
      let owned = count (is_owned token) s.ops in
      ((delete_for_token w s token ≡ (success, s)) × ((s.op_count < 10) ⊎ (owned < 10)))
      ⊎ (((delete_for_token w s token ≡ (success, r.1)) × (r.0 ≡ true) × (10 ≤ owned))
          ⊎ ((delete_for_token w s token ≡ (session_reached_limit, s))
              × (r.0 ≡ false)
              × (10 ≤ owned)))
unfolding delete_for_token
delete_for_token_cases w s token = ground arith

for_token-Evicts :
    (w : World) (s : Sessions) (token : ℕ)
    → Evicts IsFree w s (delete_first_abortable_for_token w s token).1
unfolding delete_first_abortable_for_token
for_token-Evicts w s token = give_up-Evicts IsFree w s _ (
    Outcome-map _ IsFree s.ops _ (abortable_of-IsFree token)
      (take_first-Outcome (is_abortable_of token) s.ops))

pub delete_for_token-Evicts :
    (w : World) (s : Sessions) (token : ℕ) → Evicts IsFree w s (delete_for_token w s token).1
delete_for_token-Evicts w s token = elim (delete_for_token_cases w s token) [
  | inl c ↦ rw (c.0) keeps
  | inr (inl c) ↦ rw (c.0) (for_token-Evicts w s token)
  | inr (inr c) ↦ rw (c.0) keeps
]
