-- ===== src/KeyNode.antt =====
-- services/huks_standard/huks_engine/main/core/src/hks_keynode.c: the key nodes that the engine keeps
-- for three-stage operations. `g_keyNodeList` is a list, oldest first. A node is unlinked and freed in
-- one step; the crypto contexts that are freed with it are not modelled.
pub mod Create
pub mod Limits
pub mod Room
pub mod Handles
pub mod Steps
pub mod Run
mod Tests
use security_huks.Prelude.{
  ℕ, ◌+◌, ◌-◌, ◌%◌, ◌^◌, Bool, true, false, not, ◌&&◌, ◌||◌, Option, none, some, List, [], ◌∷◌,
  ◌++◌, length, ltb, leb, ◌==◌, if◌then◌else◌, add32, sub32, count, find,
}
use security_huks.Status.{Status, success, session_reached_limit, is_success}
use security_huks.ParamSet.{Param, ParamSet, get_param}
use security_huks.ParamSet.Tags.{tag_access_token_id}

-- `struct HuksKeyNode`. The set of the caller's parameters is NULL until `HksCreateKeyNode` has stored
-- it.
pub record KeyNode : Type 0 where
  pub handle : ℕ
  pub key_blob : Option ParamSet
  pub runtime : Option ParamSet
  pub is_batch_operation : Bool
  pub batch_operation_timestamp : ℕ

-- `g_keyNodeList` and `g_keyNodeCount`.
pub record KeyNodes : Type 0 where
  pub nodes : List KeyNode
  pub node_count : ℕ

abbrev pub max_key_nodes_count : ℕ
max_key_nodes_count = 32

-- With HKS_SUPPORT_ACCESS_TOKEN.
abbrev pub max_key_nodes_each_token_id : ℕ
max_key_nodes_each_token_id = 10

-- `GetTokenIdFromParamSet`, of what the search found; `INVALID_TOKEN_ID` where it failed.
unfoldable pub found_token : Status × Option Param → ℕ
found_token (success, some p) = p.scalar % 2 ^ 32
found_token (_, _) = 0

unfoldable pub get_token_id : Option ParamSet → ℕ
unfolding found_token
get_token_id s = found_token (get_param s tag_access_token_id)

unfoldable pub is_owned : ℕ → KeyNode → Bool
is_owned token n = get_token_id n.runtime == token

unfoldable pub has_handle : ℕ → KeyNode → Bool
has_handle handle n = n.handle == handle

-- The list without the first node that passes a test, where there is one.
unfoldable pub remove_first : (KeyNode → Bool) → List KeyNode → Option (List KeyNode)
remove_first p [] = none
remove_first p (n ∷ ns) =
    let rest = remove_first p ns in
    if p n then some ns else elim rest [ none ↦ none | some r ↦ some (n ∷ r) ]

-- `DeleteKeyNodeFree` of the node that a search has found.
unfoldable pub delete_found : KeyNodes → Option (List KeyNode) → KeyNodes
delete_found s none = s
delete_found s (some ns) = record { nodes = ns; node_count = sub32 s.node_count 1 }

-- Whether a batch operation is over at a reading of the clock.
unfoldable pub is_batch_over : KeyNode → Option ℕ → Bool
is_batch_over n none = false
is_batch_over n (some now) = ltb n.batch_operation_timestamp now

-- The loop of `DeleteFirstTimeOutBatchKeyNode`; each batch operation takes the next reading of
-- `HksElapsedRealTime`, which may fail.
unfoldable pub remove_timed_out : (ℕ → Option ℕ) → ℕ → List KeyNode → Option (List KeyNode)
unfolding is_batch_over
remove_timed_out clock k [] = none
remove_timed_out clock k (n ∷ ns) =
    let rest = remove_timed_out clock (if n.is_batch_operation then k + 1 else k) ns in
    if n.is_batch_operation && is_batch_over n (clock k)
    then some ns
    else elim rest [ none ↦ none | some r ↦ some (n ∷ r) ]

unfoldable pub delete_first_time_out_batch_key_node : (ℕ → Option ℕ) → KeyNodes → KeyNodes
unfolding remove_timed_out delete_found
delete_first_time_out_batch_key_node clock s =
    if ltb s.node_count max_key_nodes_count
    then s
    else delete_found s (remove_timed_out clock 0 s.nodes)

-- `DeleteFirstKeyNodeForTokenId` and `DeleteFirstKeyNode`: whether a node was there to delete.
unfoldable pub deleted : KeyNodes → Option (List KeyNode) → Status × KeyNodes
unfolding delete_found
deleted s none = (session_reached_limit, s)
deleted s (some ns) = (success, delete_found s (some ns))

unfoldable pub delete_for_token_if_exceed_limit : ℕ → KeyNodes → Status × KeyNodes
unfolding is_owned remove_first deleted
delete_for_token_if_exceed_limit token s =
    if ltb s.node_count max_key_nodes_each_token_id
    then (success, s)
    else if leb max_key_nodes_each_token_id (count (is_owned token) s.nodes)
    then deleted s (remove_first (is_owned token) s.nodes)
    else (success, s)

unfoldable pub delete_first_if_full : KeyNodes → Status × KeyNodes
unfolding remove_first deleted
delete_first_if_full s =
    if leb max_key_nodes_count s.node_count
    then deleted s (remove_first (λ _. true) s.nodes)
    else (success, s)

unfoldable pub link : KeyNodes → KeyNode → KeyNodes
link s n = record { nodes = s.nodes ++ (n ∷ []); node_count = add32 s.node_count 1 }

unfoldable pub link_if : KeyNode → Status × KeyNodes → Status × KeyNodes
unfolding link
link_if n (success, s) = (success, link s n)
link_if n (e, s) = (e, s)

unfoldable pub then_make_room : Status × KeyNodes → Status × KeyNodes
unfolding delete_first_if_full
then_make_room (success, s) = delete_first_if_full s
then_make_room (e, s) = (e, s)

unfoldable pub add_key_node : (ℕ → Option ℕ) → KeyNode → ℕ → KeyNodes → Status × KeyNodes
unfolding delete_first_time_out_batch_key_node delete_for_token_if_exceed_limit then_make_room
    link_if
add_key_node clock n token s = link_if n (
    then_make_room
      (delete_for_token_if_exceed_limit token (delete_first_time_out_batch_key_node clock s)))

unfoldable pub query_key_node : KeyNodes → ℕ → Option KeyNode
unfolding has_handle find
query_key_node s handle = find (has_handle handle) s.nodes

unfoldable pub delete_key_node : KeyNodes → ℕ → KeyNodes
unfolding has_handle remove_first delete_found
delete_key_node s handle = delete_found s (remove_first (has_handle handle) s.nodes)
