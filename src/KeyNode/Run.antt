-- ===== src/KeyNode/Run.antt =====
-- The key nodes over any sequence of calls of hks_keynode.c, and the tries for a handle.
use security_huks.Prelude.{
  ℕ, zero, suc, ◌+◌, ◌%◌, ◌^◌, ◌≤◌, ◌<◌, ◌≡◌, refl, inl, inr, true, false, Option, Bool-cases, [],
  count, arith, ℕ_discrete,
}
use security_huks.Status.{is_success}
use security_huks.ParamSet.{ParamSet}
use security_huks.KeyNode.{KeyNodes, has_handle, query_key_node, delete_key_node}
use security_huks.KeyNode.Create.{
  Draws, Engine, check_unique_handle, try_handles, generate_key_node_handle, create_key_node,
}
use security_huks.KeyNode.Limits.{IsWithin}
use security_huks.KeyNode.Handles.{count-zero}
use security_huks.KeyNode.Steps.{create_key_node-IsWithin, delete_key_node-IsWithin}

-- `g_keyNodeList` and `g_keyNodeCount` at the start.
abbrev pub no_key_nodes : KeyNodes
no_key_nodes = record { nodes = []; node_count = 0 }

-- What calls of `HksCreateKeyNode` and `HksDeleteKeyNode` reach, one after the other.
pub data Reached : KeyNodes → Type 0 where
  at_start : Reached no_key_nodes
  after_create :
      (w : Engine) (input : Option ParamSet) {s : KeyNodes}
      → Reached s
      → Reached (create_key_node w input s).1
  after_delete : (handle : ℕ) {s : KeyNodes} → Reached s → Reached (delete_key_node s handle)

-- Whatever calls are made from the start, one after the other, the count is the number of nodes, there
-- are at most 32 of them and at most 10 with one token, and no two have one handle.
pub Reached-IsWithin : {s : KeyNodes} → Reached s → IsWithin s
unfolding count
Reached-IsWithin at_start = record {
  counted = refl;
  few = omega arith;
  few_owned = λ token. omega arith;
  distinct = λ handle. omega arith;
}
Reached-IsWithin (after_create w input {s} r) =
    create_key_node-IsWithin w input s (Reached-IsWithin r)
Reached-IsWithin (after_delete handle {s} r) =
    delete_key_node-IsWithin s handle (Reached-IsWithin r)

accepted :
    (s : KeyNodes) (handle : ℕ)
    → count (has_handle handle) s.nodes ≡ 0
    → is_success (check_unique_handle s handle) ≡ false
    → ⊥
unfolding check_unique_handle query_key_node
accepted s handle unused b = ground (arith, b, count-zero (has_handle handle) s.nodes unused)

try_handles-ends :
    (s : KeyNodes) (draws : Draws) (n i k : ℕ)
    → i ≤ k
    → k < i + n
    → ((j : ℕ) → j ≤ k → is_success (draws j).0 ≡ true)
    → count (has_handle ((draws k).1 % 2 ^ 32)) s.nodes ≡ 0
    → is_success (try_handles s draws n i).0 ≡ true
unfolding try_handles
try_handles-ends s draws zero i k low high ok unused = absurd (omega arith)
try_handles-ends s draws (suc n) i k low high ok unused =
    elim (Bool-cases (is_success (check_unique_handle s ((draws i).1 % 2 ^ 32)))) [
      | inl b ↦ rw (ok i low, b) refl
      | inr b ↦
          rw (ok i low, b)
            (try_handles-ends s draws n (i + 1) k (later b) (omega (arith, high)) ok unused)
    ]
  where
    later : is_success (check_unique_handle s ((draws i).1 % 2 ^ 32)) ≡ false → i + 1 ≤ k
    later b = elim (ℕ_discrete i k) [
      | yes e ↦ absurd (accepted s ((draws k).1 % 2 ^ 32) unused (rw e at b))
      | no d ↦ omega (arith, low, d)
    ]

-- Where the random source works and one of its first ten numbers is not a handle in use,
-- `GenerateKeyNodeHandle` succeeds.
pub generate_key_node_handle_lem :
    (s : KeyNodes) (draws : Draws) (k : ℕ)
    → k < 10
    → ((j : ℕ) → j ≤ k → is_success (draws j).0 ≡ true)
    → count (has_handle ((draws k).1 % 2 ^ 32)) s.nodes ≡ 0
    → is_success (generate_key_node_handle s draws).0 ≡ true
unfolding generate_key_node_handle
generate_key_node_handle_lem s draws k few ok unused =
    try_handles-ends s draws 10 0 k (omega arith) few ok unused
