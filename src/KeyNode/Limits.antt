-- ===== src/KeyNode/Limits.antt =====
-- The limits on the key nodes of hks_keynode.c, and the removal of one node.
use security_huks.Prelude.{
  ℕ, suc, ◌+◌, ◌≤◌, ◌≡◌, refl, ap, ◌⊎◌, inl, inr, Bool, ◌&&◌, Option, none, some, Bool-cases, List,
  [], ◌∷◌, length, ltb, if◌then◌else◌, count, arith,
}
use security_huks.KeyNode.{
  KeyNode, KeyNodes, is_owned, has_handle, remove_first, delete_found, remove_timed_out,
  is_batch_over, delete_first_time_out_batch_key_node,
}

-- One node less, the others in order.
pub data Removes : List KeyNode → List KeyNode → Type 0 where
  here : {n : KeyNode} {ns : List KeyNode} → Removes (n ∷ ns) ns
  there : {n : KeyNode} {ns ms : List KeyNode} → Removes ns ms → Removes (n ∷ ns) (n ∷ ms)

pub Removes-length : {ns ms : List KeyNode} → Removes ns ms → length ns ≡ suc (length ms)
Removes-length here = refl
Removes-length (there r) = ap suc (Removes-length r)

pub Removes-count :
    {ns ms : List KeyNode} (p : KeyNode → Bool) → Removes ns ms → count p ms ≤ count p ns
unfolding count
Removes-count p here = ground arith
Removes-count p (there r) = ground (arith, Removes-count p r)

-- What a search for a node to remove has made of a list.
abbrev pub Removal : List KeyNode → Option (List KeyNode) → Type 0
Removal ns r = (r ≡ none) ⊎ ((ms : List KeyNode) × (r ≡ some ms) × Removes ns ms)

-- The first node that passes a test is one of those that pass it.
pub remove_first-cases :
    (p : KeyNode → Bool) (ns : List KeyNode)
    → ((remove_first p ns ≡ none) × (count p ns ≡ 0))
      ⊎ ((ms : List KeyNode) × (remove_first p ns ≡ some ms)
          × Removes ns ms
          × (count p ns ≡ suc (count p ms)))
unfolding remove_first count
remove_first-cases p [] = inl (refl, refl)
remove_first-cases p (n ∷ ns) = elim (Bool-cases (p n)) [
  | inl b ↦ inr (ns, rw b refl, here, rw b refl)
  | inr b ↦ elim (remove_first-cases p ns) [
    | inl (e, z) ↦ inl (rw (b, e) refl, rw b z)
    | inr (ms, e, r, c) ↦ inr (n ∷ ms, rw (b, e) refl, there r, ground arith)
  ]
]

pub remove_timed_out-cases :
    (clock : ℕ → Option ℕ) (k : ℕ) (ns : List KeyNode) → Removal ns (remove_timed_out clock k ns)
unfolding remove_timed_out
remove_timed_out-cases clock k [] = inl refl
remove_timed_out-cases clock k (n ∷ ns) =
    elim (Bool-cases (n.is_batch_operation && is_batch_over n (clock k))) [
      | inl b ↦ inr (ns, rw b refl, here)
      | inr b ↦ elim (remove_timed_out-cases clock (if n.is_batch_operation then k + 1 else k) ns) [
        | inl e ↦ inl (rw (b, e) refl)
        | inr (ms, e, r) ↦ inr (n ∷ ms, rw (b, e) refl, there r)
      ]
    ]

pub record IsWithin (s : KeyNodes) : Type 0 where
  pub counted : s.node_count ≡ length s.nodes
  pub few : length s.nodes ≤ 32
  pub few_owned : (token : ℕ) → count (is_owned token) s.nodes ≤ 10
  pub distinct : (handle : ℕ) → count (has_handle handle) s.nodes ≤ 1

pub Removes-IsWithin :
    (s : KeyNodes) (ms : List KeyNode)
    → IsWithin s
    → Removes s.nodes ms
    → IsWithin (delete_found s (some ms))
unfolding delete_found
Removes-IsWithin s ms w r =
    let shorter = Removes-length r in
    record {
      counted = omega (arith, w.counted, w.few, shorter);
      few = omega (arith, w.few, shorter);
      few_owned = λ token. omega (arith, w.few_owned token, Removes-count (is_owned token) r);
      distinct = λ h. omega (arith, w.distinct h, Removes-count (has_handle h) r);
    }

delete_found-IsWithin :
    (s : KeyNodes) (r : Option (List KeyNode))
    → IsWithin s
    → Removal s.nodes r
    → IsWithin (delete_found s r)
unfolding delete_found
delete_found-IsWithin s r w (inl e) = rw e w
delete_found-IsWithin s r w (inr (ms, e, x)) = rw e (Removes-IsWithin s ms w x)

pub delete_batch-IsWithin :
    (clock : ℕ → Option ℕ) (s : KeyNodes)
    → IsWithin s
    → IsWithin (delete_first_time_out_batch_key_node clock s)
unfolding delete_first_time_out_batch_key_node
delete_batch-IsWithin clock s w = elim (Bool-cases (ltb s.node_count 32)) [
  | inl b ↦ rw b w
  | inr b ↦ rw b (
      delete_found-IsWithin s (remove_timed_out clock 0 s.nodes) w
        (remove_timed_out-cases clock 0 s.nodes))
]
