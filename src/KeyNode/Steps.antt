-- ===== src/KeyNode/Steps.antt =====
-- The calls of hks_keynode.c: the limits and the search for a handle after each.
use security_huks.Prelude.{
  ℕ, ◌+◌, ◌≤◌, ◌≡◌, ◌≢◌, refl, sym, ap, ◌∙◌, ◌⊎◌, inl, inr, Bool, true, false, Option, none, some,
  Option-cases, Bool-cases, List, [], ◌∷◌, ◌++◌, length-append, ◌==◌, ==_iff, if◌then◌else◌, count,
  count-append, find, arith,
}
use security_huks.Status.{Status, success, is_success, is_success_lem}
use security_huks.Memory.{hks_malloc}
use security_huks.ParamSet.{ParamSet}
use security_huks.KeyNode.{
  KeyNode, KeyNodes, get_token_id, is_owned, has_handle, remove_first, delete_found, link,
  query_key_node, delete_key_node,
}
use security_huks.KeyNode.Create.{
  Engine, add_opened, generate_key_node_handle, build_runtime_param_set, key_node_size,
  create_key_node,
}
use security_huks.KeyNode.Limits.{IsWithin, Removes-IsWithin, remove_first-cases}
use security_huks.KeyNode.Room.{HasRoom, make_room-HasRoom, make_room-count}
use security_huks.KeyNode.Handles.{
  room, created, count-zero, generate-unused, IsReady, create_key_node-IsReady,
}

owned_by_new :
    (t token : ℕ) (n : KeyNode)
    → get_token_id n.runtime ≡ token
    → (count (is_owned t) (n ∷ []) ≡ 0) ⊎ ((count (is_owned t) (n ∷ []) ≡ 1) × (t ≡ token))
unfolding count is_owned
owned_by_new t token n e = ground arith

named_by_new :
    (g : ℕ) (n : KeyNode)
    → (count (has_handle g) (n ∷ []) ≡ 0) ⊎ ((count (has_handle g) (n ∷ []) ≡ 1) × (g ≡ n.handle))
unfolding count has_handle
named_by_new g n = ground arith

link-IsWithin :
    (token : ℕ) (r : Status × KeyNodes) (n : KeyNode)
    → HasRoom token 31 9 r
    → get_token_id n.runtime ≡ token
    → count (has_handle n.handle) r.1.nodes ≡ 0
    → IsWithin (link r.1 n)
unfolding link
link-IsWithin token r n h owner unused =
    let longer = length-append r.1.nodes (n ∷ []) in
    record {
      counted = omega (arith, h.within.counted, h.room, longer);
      few = omega (arith, h.room, longer);
      few_owned = λ t. rw (count-append (is_owned t) r.1.nodes (n ∷ [])) (owned t);
      distinct = λ g. rw (count-append (has_handle g) r.1.nodes (n ∷ [])) (named g);
    }
  where
    owned : (t : ℕ) → count (is_owned t) r.1.nodes + count (is_owned t) (n ∷ []) ≤ 10
    owned t = elim (owned_by_new t token n owner) [
      | inl z ↦ omega (arith, z, h.within.few_owned t)
      | inr (z, same_token) ↦
          rw same_token (
            omega (arith, h.room_owned, ap (λ k. count (is_owned k) (n ∷ [])) (sym same_token) ∙ z))
    ]

    named : (g : ℕ) → count (has_handle g) r.1.nodes + count (has_handle g) (n ∷ []) ≤ 1
    named g = elim (named_by_new g n) [
      | inl z ↦ omega (arith, z, h.within.distinct g)
      | inr (z, same_handle) ↦
          rw same_handle
            (omega (arith, unused, ap (λ k. count (has_handle k) (n ∷ [])) (sym same_handle) ∙ z))
    ]

created-IsWithin :
    (w : Engine) (s : KeyNodes) (handle : ℕ) (runtime : Option ParamSet)
    → IsWithin s
    → count (has_handle handle) s.nodes ≡ 0
    → IsWithin (link (room w.clock (get_token_id runtime) s).1 (created w handle runtime))
created-IsWithin w s handle runtime v z =
    let token = get_token_id runtime in
    link-IsWithin token (room w.clock token s) (created w handle runtime)
      (make_room-HasRoom w.clock token s v) refl
      (omega (arith, z, make_room-count w.clock token s (has_handle handle) v))

pair_cases :
    {A : Type 0} (r : Status × A) → ((a : A) × (r ≡ (success, a))) ⊎ (is_success r.0 ≡ false)
pair_cases (st, a) = elim (Bool-cases (is_success st)) [
  | inl e ↦ inl (a, ap (λ k. (k, a)) (is_success_lem st e))
  | inr e ↦ inr e
]

-- A call either leaves the nodes alone or was ready to link a node.
create_key_node-cases :
    (w : Engine) (input : Option ParamSet) (s : KeyNodes)
    → (create_key_node w input s ≡ (none, s))
      ⊎ ((handle : ℕ) × (runtime : Option ParamSet) × IsReady w input s handle runtime)
unfolding create_key_node add_opened
create_key_node-cases w input s = elim (Bool-cases (hks_malloc w.memory key_node_size)) [
  | inr b ↦ inl (rw b refl)
  | inl b ↦ elim (pair_cases (generate_key_node_handle s w.draws)) [
    | inr d ↦ inl (rw (b, d) refl)
    | inl (handle, d) ↦ elim (pair_cases (build_runtime_param_set w.memory input)) [
      | inr g ↦ inl (rw (b, d, g) refl)
      | inl (runtime, g) ↦ elim (Bool-cases (is_success w.opened.0)) [
        | inr o ↦ inl (rw (b, d, g, o) refl)
        | inl o ↦ inr (
          handle,
          runtime,
          record { block = b; drawn = d; built = g; opened = is_success_lem w.opened.0 o },
        )
      ]
    ]
  ]
]

-- Whatever `HksCreateKeyNode` meets, it keeps the key nodes within their limits: the count is their
-- number, at most 32 in all and 10 with one token, and no handle twice.
pub create_key_node-IsWithin :
    (w : Engine) (input : Option ParamSet) (s : KeyNodes)
    → IsWithin s
    → IsWithin (create_key_node w input s).1
create_key_node-IsWithin w input s v = elim (create_key_node-cases w input s) [
  | inl e ↦ rw e v
  | inr (handle, runtime, r) ↦
      rw (create_key_node-IsReady w input s handle runtime v r)
        (created-IsWithin w s handle runtime v (generate-unused s w.draws handle r.drawn))
]

pub delete_key_node-IsWithin :
    (s : KeyNodes) (handle : ℕ) → IsWithin s → IsWithin (delete_key_node s handle)
unfolding delete_key_node delete_found
delete_key_node-IsWithin s handle v = elim (remove_first-cases (has_handle handle) s.nodes) [
  | inl (e, z) ↦ rw e v
  | inr (ms, e, r, c) ↦ rw e (Removes-IsWithin s ms v r)
]

own_handle : (n : KeyNode) → has_handle n.handle n ≡ true
unfolding has_handle
own_handle n = ground arith

find-append :
    (p : KeyNode → Bool) (ns : List KeyNode) (n : KeyNode)
    → count p ns ≡ 0
    → p n ≡ true
    → find p (ns ++ (n ∷ [])) ≡ some n
unfolding find count
find-append p [] n z e = rw e refl
find-append p (x ∷ ns) n z e = ground (arith, find-append p ns n)

-- The list that a removal leaves.
abbrev left : List KeyNode → Option (List KeyNode) → List KeyNode
left ns none = ns
left ns (some ms) = ms

find-left :
    (handle g : ℕ) (ns : List KeyNode)
    → g ≢ handle
    → find (has_handle g) (left ns (remove_first (has_handle handle) ns)) ≡ find (has_handle g) ns
unfolding find remove_first has_handle
find-left handle g [] d = refl
find-left handle g (n ∷ ns) d = elim (Bool-cases (n.handle == handle)) [
  | inl b ↦ rw b (ground (arith, b, d))
  | inr b ↦ elim (Option-cases (remove_first (has_handle handle) ns)) [
    | inl e ↦ rw (b, e) refl
    | inr (ms, e) ↦
        rw (b, e)
          (ap (λ r. if n.handle == g then some n else r)
            (ap (λ r. find (has_handle g) (left ns r)) (sym e) ∙ find-left handle g ns d))
  ]
]

find-left-none :
    (handle : ℕ) (ns : List KeyNode)
    → count (has_handle handle) ns ≤ 1
    → find (has_handle handle) (left ns (remove_first (has_handle handle) ns)) ≡ none
find-left-none handle ns few = elim (remove_first-cases (has_handle handle) ns) [
  | inl (e, z) ↦ rw e (count-zero (has_handle handle) ns z)
  | inr (ms, e, r, c) ↦ rw e (count-zero (has_handle handle) ms (omega (arith, c, few)))
]

nodes-delete_found :
    (s : KeyNodes) (r : Option (List KeyNode)) → (delete_found s r).nodes ≡ left s.nodes r
unfolding delete_found
nodes-delete_found s none = refl
nodes-delete_found s (some ms) = refl

-- Where the key nodes are within their limits, after `HksDeleteKeyNode` a handle is found exactly as
-- before, and the one that was deleted is not found.
pub query_key_node-delete_key_node :
    (s : KeyNodes) (handle g : ℕ)
    → IsWithin s
    → query_key_node (delete_key_node s handle) g
      ≡ (if g == handle then none else query_key_node s g)
unfolding query_key_node delete_key_node
query_key_node-delete_key_node s handle g v =
    rw (nodes-delete_found s (remove_first (has_handle handle) s.nodes))
      (elim (Bool-cases (g == handle)) [
        | inl b ↦ rw (b, (==_iff g handle).0 b) (find-left-none handle s.nodes (v.distinct handle))
        | inr b ↦ rw b (find-left handle g s.nodes (ground (arith, b)))
      ])

-- Where `HksCreateKeyNode` returns a node, `HksQueryKeyNode` finds under its handle the node with the
-- key blob that was opened and the set of the caller's parameters that was built.
pub query_key_node-create_key_node :
    (w : Engine) (input : Option ParamSet) (s : KeyNodes) (handle : ℕ) (runtime : Option ParamSet)
    → IsWithin s
    → IsReady w input s handle runtime
    → query_key_node (create_key_node w input s).1 handle ≡ some (created w handle runtime)
unfolding query_key_node link
query_key_node-create_key_node w input s handle runtime v r =
    let token = get_token_id runtime in
    let unused = generate-unused s w.draws handle r.drawn in
    rw (create_key_node-IsReady w input s handle runtime v r) (
      find-append (has_handle handle) (room w.clock token s).1.nodes (created w handle runtime)
        (omega (arith, unused, make_room-count w.clock token s (has_handle handle) v))
        (own_handle (created w handle runtime)))
