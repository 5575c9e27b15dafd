-- ===== src/KeyNode/Room.antt =====
-- The steps of `AddKeyNode` of hks_keynode.c that make room for a node.
use security_huks.Prelude.{
  ℕ, suc, ◌≤◌, ◌<◌, ◌≡◌, refl, ap, inl, inr, Bool, true, Option, Bool-cases, List, [], ◌∷◌, length,
  ltb, leb, count, count-le-length, arith,
}
use security_huks.Status.{Status, success}
use security_huks.KeyNode.{
  KeyNode, KeyNodes, is_owned, remove_first, delete_found, remove_timed_out,
  delete_first_time_out_batch_key_node, deleted, delete_for_token_if_exceed_limit,
  delete_first_if_full, then_make_room,
}
use security_huks.KeyNode.Limits.{
  IsWithin, Removal, Removes, Removes-IsWithin, Removes-count, Removes-length,
  delete_batch-IsWithin, remove_first-cases, remove_timed_out-cases,
}

-- The nodes after a step that makes room, with a bound on all nodes and on those of a token.
pub record HasRoom (token all owned : ℕ) (r : Status × KeyNodes) : Type 0 where
  pub done : r.0 ≡ success
  pub within : IsWithin r.1
  pub room : length r.1.nodes ≤ all
  pub room_owned : count (is_owned token) r.1.nodes ≤ owned

count-all : (ns : List KeyNode) → count (λ _. true) ns ≡ length ns
unfolding count
count-all [] = refl
count-all (n ∷ ns) = ap suc (count-all ns)

-- A node that passes a test is removed where there is one.
deleted-HasRoom :
    (token owned : ℕ) (p : KeyNode → Bool) (s : KeyNodes)
    → IsWithin s
    → 0 < count p s.nodes
    → ((ms : List KeyNode)
        → Removes s.nodes ms
        → count p s.nodes ≡ suc (count p ms)
        → count (is_owned token) ms ≤ owned)
    → HasRoom token 31 owned (deleted s (remove_first p s.nodes))
unfolding deleted delete_found
deleted-HasRoom token owned p s w some_pass bound = elim (remove_first-cases p s.nodes) [
  | inl (e, z) ↦ absurd (omega (arith, some_pass, z))
  | inr (ms, e, r, c) ↦ rw e (record {
    done = refl;
    within = Removes-IsWithin s ms w r;
    room = omega (arith, w.few, Removes-length r);
    room_owned = bound ms r c;
  })
]

delete_for_token-HasRoom :
    (token : ℕ) (s : KeyNodes)
    → IsWithin s
    → HasRoom token 32 9 (delete_for_token_if_exceed_limit token s)
unfolding delete_for_token_if_exceed_limit
delete_for_token-HasRoom token s w = elim (Bool-cases (ltb s.node_count 10)) [
  | inl b ↦ rw b (record {
    done = refl;
    within = w;
    room = w.few;
    room_owned = ground (arith, w.counted, count-le-length (is_owned token) s.nodes, b);
  })
  | inr b ↦ elim (Bool-cases (leb 10 (count (is_owned token) s.nodes))) [
    | inl d ↦
        rw (b, d)
          (widen (
            deleted-HasRoom token 9 (is_owned token) s w (ground (arith, d))
              (λ ms r c. omega (arith, c, w.few_owned token))))
    | inr d ↦
        rw (b, d) (record { done = refl; within = w; room = w.few; room_owned = ground (arith, d) })
  ]
]
  where
    widen :
        HasRoom token 31 9 (deleted s (remove_first (is_owned token) s.nodes))
        → HasRoom token 32 9 (deleted s (remove_first (is_owned token) s.nodes))
    widen h = record {
      done = h.done;
      within = h.within;
      room = omega (arith, h.room);
      room_owned = h.room_owned;
    }

delete_first_if_full-HasRoom :
    (token : ℕ) (s : KeyNodes)
    → IsWithin s
    → count (is_owned token) s.nodes ≤ 9
    → HasRoom token 31 9 (delete_first_if_full s)
unfolding delete_first_if_full
delete_first_if_full-HasRoom token s w o = elim (Bool-cases (leb 32 s.node_count)) [
  | inl b ↦ rw b (
      deleted-HasRoom token 9 (λ _. true) s w (all_pass b)
        (λ ms r c. omega (arith, o, Removes-count (is_owned token) r)))
  | inr b ↦
      rw b (record { done = refl; within = w; room = ground (arith, w.counted, b); room_owned = o })
]
  where
    all_pass : leb 32 s.node_count ≡ true → 0 < count (λ _. true) s.nodes
    all_pass b = ground (arith, w.counted, b, count-all s.nodes)

-- `AddKeyNode` up to the link always succeeds, and leaves room for one more node.
pub make_room-HasRoom :
    (clock : ℕ → Option ℕ) (token : ℕ) (s : KeyNodes)
    → IsWithin s
    → HasRoom token 31 9 (
        then_make_room
          (delete_for_token_if_exceed_limit token (delete_first_time_out_batch_key_node clock s)))
unfolding then_make_room
make_room-HasRoom clock token s w =
    next (delete_for_token_if_exceed_limit token (delete_first_time_out_batch_key_node clock s)) (
      delete_for_token-HasRoom token (delete_first_time_out_batch_key_node clock s)
        (delete_batch-IsWithin clock s w))
  where
    next : (r : Status × KeyNodes) → HasRoom token 32 9 r → HasRoom token 31 9 (then_make_room r)
    next (e, t) h = rw h.done (delete_first_if_full-HasRoom token t h.within h.room_owned)

-- Making room only takes nodes away.
found-count :
    (p : KeyNode → Bool) (s : KeyNodes) (r : Option (List KeyNode))
    → Removal s.nodes r
    → count p (delete_found s r).nodes ≤ count p s.nodes
unfolding delete_found
found-count p s r (inl e) = rw e (omega arith)
found-count p s r (inr (ms, e, x)) = rw e (Removes-count p x)

deleted-count :
    (p q : KeyNode → Bool) (s : KeyNodes)
    → count p (deleted s (remove_first q s.nodes)).1.nodes ≤ count p s.nodes
unfolding deleted delete_found
deleted-count p q s = elim (remove_first-cases q s.nodes) [
  | inl (e, z) ↦ rw e (omega arith)
  | inr (ms, e, r, c) ↦ rw e (Removes-count p r)
]

batch-count :
    (clock : ℕ → Option ℕ) (s : KeyNodes) (p : KeyNode → Bool)
    → count p (delete_first_time_out_batch_key_node clock s).nodes ≤ count p s.nodes
unfolding delete_first_time_out_batch_key_node
batch-count clock s p = elim (Bool-cases (ltb s.node_count 32)) [
  | inl b ↦ rw b (omega arith)
  | inr b ↦
      rw b (
        found-count p s (remove_timed_out clock 0 s.nodes) (remove_timed_out-cases clock 0 s.nodes))
]

token-count :
    (token : ℕ) (s : KeyNodes) (p : KeyNode → Bool)
    → count p (delete_for_token_if_exceed_limit token s).1.nodes ≤ count p s.nodes
unfolding delete_for_token_if_exceed_limit
token-count token s p = elim (Bool-cases (ltb s.node_count 10)) [
  | inl b ↦ rw b (omega arith)
  | inr b ↦ elim (Bool-cases (leb 10 (count (is_owned token) s.nodes))) [
    | inl d ↦ rw (b, d) (deleted-count p (is_owned token) s)
    | inr d ↦ rw (b, d) (omega arith)
  ]
]

full-count :
    (s : KeyNodes) (p : KeyNode → Bool) → count p (delete_first_if_full s).1.nodes ≤ count p s.nodes
unfolding delete_first_if_full
full-count s p = elim (Bool-cases (leb 32 s.node_count)) [
  | inl b ↦ rw b (deleted-count p (λ _. true) s)
  | inr b ↦ rw b (omega arith)
]

pub make_room-count :
    (clock : ℕ → Option ℕ) (token : ℕ) (s : KeyNodes) (p : KeyNode → Bool)
    → IsWithin s
    → count p
        (then_make_room (
          delete_for_token_if_exceed_limit token
            (delete_first_time_out_batch_key_node clock s))).1.nodes
      ≤ count p s.nodes
unfolding then_make_room
make_room-count clock token s p w =
    let batch = delete_first_time_out_batch_key_node clock s in
    let fewer = token-count token batch p in
    next (delete_for_token_if_exceed_limit token batch)
      (delete_for_token-HasRoom token batch (delete_batch-IsWithin clock s w))
      (omega (arith, fewer, batch-count clock s p))
  where
    next :
        (r : Status × KeyNodes)
        → HasRoom token 32 9 r
        → count p r.1.nodes ≤ count p s.nodes
        → count p (then_make_room r).1.nodes ≤ count p s.nodes
    next (e, t) h c = rw h.done (omega (arith, c, full-count t p))
