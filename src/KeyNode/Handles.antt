-- ===== src/KeyNode/Handles.antt =====
-- The handles of key nodes, and `HksCreateKeyNode` where nothing fails before the link.
use security_huks.Prelude.{
  ℕ, zero, suc, ◌+◌, ◌≡◌, refl, ap, Bool, true, Option, none, some, List, [], ◌∷◌, ◌++◌, count,
  find, arith,
}
use security_huks.Status.{Status, success}
use security_huks.Memory.{hks_malloc}
use security_huks.ParamSet.{ParamSet}
use security_huks.KeyNode.{
  KeyNode, KeyNodes, get_token_id, has_handle, link, link_if, then_make_room,
  delete_for_token_if_exceed_limit, delete_first_time_out_batch_key_node, add_key_node,
  query_key_node,
}
use security_huks.KeyNode.Create.{
  Draws, Engine, zeroed, publish, finish, add_opened, check_unique_handle, try_handles,
  generate_key_node_handle, build_runtime_param_set, key_node_size, create_key_node,
}
use security_huks.KeyNode.Limits.{IsWithin}
use security_huks.KeyNode.Room.{HasRoom, make_room-HasRoom, make_room-count}

find-none : (p : KeyNode → Bool) (ns : List KeyNode) → find p ns ≡ none → count p ns ≡ 0
unfolding find count
find-none p [] e = refl
find-none p (n ∷ ns) e = ground (arith, find-none p ns)

pub count-zero : (p : KeyNode → Bool) (ns : List KeyNode) → count p ns ≡ 0 → find p ns ≡ none
unfolding find count
count-zero p [] e = refl
count-zero p (n ∷ ns) e = ground (arith, count-zero p ns)

try_handles-unused :
    (s : KeyNodes) (draws : Draws) (n i handle : ℕ)
    → try_handles s draws n i ≡ (success, handle)
    → count (has_handle handle) s.nodes ≡ 0
unfolding try_handles check_unique_handle query_key_node has_handle
try_handles-unused s draws zero i handle e = absurd (cc)
try_handles-unused s draws (suc n) i handle e =
    ground
      (arith, try_handles-unused s draws n (i + 1) handle, find-none (has_handle handle) s.nodes)

-- The nodes before the new one is linked.
abbrev pub room : (ℕ → Option ℕ) → ℕ → KeyNodes → Status × KeyNodes
room clock token s =
    then_make_room
      (delete_for_token_if_exceed_limit token (delete_first_time_out_batch_key_node clock s))

add_key_node-link :
    (clock : ℕ → Option ℕ) (n : KeyNode) (token : ℕ) (s : KeyNodes)
    → IsWithin s
    → add_key_node clock n token s ≡ (success, link (room clock token s).1 n)
unfolding add_key_node link_if
add_key_node-link clock n token s w =
    linked (room clock token s) (make_room-HasRoom clock token s w)
  where
    linked : (r : Status × KeyNodes) → HasRoom token 31 9 r → link_if n r ≡ (success, link r.1 n)
    linked (e, t) h = rw h.done refl

publish-link :
    (blob : ParamSet) (runtime : Option ParamSet) (n : KeyNode) (ns : List KeyNode)
    → count (has_handle n.handle) ns ≡ 0
    → publish n.handle blob runtime (ns ++ (n ∷ []))
      ≡ ns ++ (record n { key_blob = some blob; runtime = runtime } ∷ [])
unfolding publish count has_handle
publish-link blob runtime n [] z = ground arith
publish-link blob runtime n (x ∷ ns) z = ground (arith, publish-link blob runtime n ns)

-- The node that `HksCreateKeyNode` makes.
abbrev pub created : Engine → ℕ → Option ParamSet → KeyNode
created w handle runtime = record (zeroed handle) { key_blob = some w.opened.1; runtime = runtime }

pub generate-unused :
    (s : KeyNodes) (draws : Draws) (handle : ℕ)
    → generate_key_node_handle s draws ≡ (success, handle)
    → count (has_handle handle) s.nodes ≡ 0
unfolding generate_key_node_handle
generate-unused s draws handle e = try_handles-unused s draws 10 0 handle e

-- What has gone well before a node is linked.
pub record IsReady (w : Engine) (input : Option ParamSet) (s : KeyNodes) (handle : ℕ)
    (runtime : Option ParamSet) : Type 0 where
  pub block : hks_malloc w.memory key_node_size ≡ true
  pub drawn : generate_key_node_handle s w.draws ≡ (success, handle)
  pub built : build_runtime_param_set w.memory input ≡ (success, runtime)
  pub opened : w.opened.0 ≡ success

publish-created :
    (w : Engine) (s : KeyNodes) (handle : ℕ) (runtime : Option ParamSet) (token : ℕ)
    → IsWithin s
    → count (has_handle handle) s.nodes ≡ 0
    → publish handle w.opened.1 runtime (link (room w.clock token s).1 (zeroed handle)).nodes
      ≡ (link (room w.clock token s).1 (created w handle runtime)).nodes
unfolding link
publish-created w s handle runtime token v z =
    publish-link w.opened.1 runtime (zeroed handle) (room w.clock token s).1.nodes
      (omega (arith, z, make_room-count w.clock token s (has_handle handle) v))

-- Where the block, a handle, the sets of parameters and the key are there, `HksCreateKeyNode` never
-- fails for want of room: whatever nodes there are within the limits, it links a node with the fresh
-- handle, the decrypted key and the caller's parameters behind the nodes that are left.
pub create_key_node-IsReady :
    (w : Engine) (input : Option ParamSet) (s : KeyNodes) (handle : ℕ) (runtime : Option ParamSet)
    → IsWithin s
    → IsReady w input s handle runtime
    → create_key_node w input s
      ≡ (some handle, link (room w.clock (get_token_id runtime) s).1 (created w handle runtime))
unfolding create_key_node add_opened finish
create_key_node-IsReady w input s handle runtime v r =
    let token = get_token_id runtime in
    rw (r.block, r.drawn, r.built, r.opened, add_key_node-link w.clock (zeroed handle) token s v)
      (ap
        (λ ns. (some handle, record (link (room w.clock token s).1 (zeroed handle)) { nodes = ns }))
        (publish-created w s handle runtime token v (generate-unused s w.draws handle r.drawn)))
