-- ===== src/KeyNode/Tests.antt =====
-- An engine with two nodes, at which the theorems on key nodes are applied.
use security_huks.Prelude.{
  ◌+◌, ◌≡◌, refl, true, Option, none, some, [], ◌∷◌, count, ◌==◌, if◌then◌else◌, arith,
}
use security_huks.Status.{success, is_success}
use security_huks.Memory.{ample, hks_malloc}
use security_huks.ParamSet.{
  Param, ParamSet, null, check_before_add_params, add_loop, add_one, get_param, lookup,
  check_param_set, get_tag_type,
}
use security_huks.ParamSet.Tags.{tag_access_token_id}
use security_huks.ParamSet.Build.{
  build_params, fresh_param_set, fresh_params, fresh_loop, fresh_round,
}
use security_huks.KeyNode.{
  KeyNodes, link, get_token_id, query_key_node, delete_key_node, has_handle,
}
use security_huks.KeyNode.Create.{
  Engine, generate_key_node_handle, build_runtime_param_set, create_key_node,
}
use security_huks.KeyNode.Limits.{IsWithin}
use security_huks.KeyNode.Handles.{room, created, IsReady, create_key_node-IsReady}
use security_huks.KeyNode.Steps.{query_key_node-delete_key_node, query_key_node-create_key_node}
use security_huks.KeyNode.Run.{
  no_key_nodes, Reached, at_start, after_create, Reached-IsWithin, generate_key_node_handle_lem,
}

abbrev token : Param
token = record { tag = tag_access_token_id; scalar = 5; blob = record { size = 0; ptr = null } }

abbrev caller : ParamSet
caller = record { set_size = 32; params = token ∷ []; payload = [] }

abbrev key_set : ParamSet
key_set = record { set_size = 8; params = []; payload = [] }

abbrev engine : Engine
engine = record {
  memory = ample;
  draws = λ i. (success, i + 7);
  clock = λ i. none;
  opened = (success, key_set);
}

-- The first node has the handle 7, the second, after one try in vain, the handle 8.
abbrev one_node : KeyNodes
one_node = (create_key_node engine (some caller) no_key_nodes).1

first_handle : (create_key_node engine (some caller) no_key_nodes).0 ≡ some 7
unfolding create_key_node hks_malloc check_param_set check_before_add_params get_tag_type add_loop
    add_one build_params fresh_param_set fresh_params fresh_loop fresh_round get_param lookup
first_handle = refl

abbrev runtime : Option ParamSet
runtime = (build_runtime_param_set ample (some caller)).1

start-IsWithin : IsWithin no_key_nodes
start-IsWithin = Reached-IsWithin at_start

start-IsReady : IsReady engine (some caller) no_key_nodes 7 runtime
unfolding generate_key_node_handle build_runtime_param_set hks_malloc check_param_set
    check_before_add_params get_tag_type add_loop add_one build_params fresh_param_set fresh_params
    fresh_loop fresh_round get_param lookup
start-IsReady = record { block = refl; drawn = refl; built = refl; opened = refl }

create_key_node-IsReady_example : create_key_node engine (some caller) no_key_nodes ≡ (
  some 7,
  link (room engine.clock (get_token_id runtime) no_key_nodes).1 (created engine 7 runtime),
)
create_key_node-IsReady_example =
    create_key_node-IsReady engine (some caller) no_key_nodes 7 runtime start-IsWithin start-IsReady

query_key_node-create_key_node_example :
    query_key_node (create_key_node engine (some caller) no_key_nodes).1 7
    ≡ some (created engine 7 runtime)
query_key_node-create_key_node_example =
    query_key_node-create_key_node engine (some caller) no_key_nodes 7 runtime start-IsWithin
      start-IsReady

two_nodes : Reached (create_key_node engine (some caller) one_node).1
two_nodes = after_create engine (some caller) (after_create engine (some caller) at_start)

Reached-IsWithin_example : IsWithin (create_key_node engine (some caller) one_node).1
Reached-IsWithin_example = Reached-IsWithin two_nodes

two-IsWithin : IsWithin (create_key_node engine (some caller) one_node).1
two-IsWithin = Reached-IsWithin two_nodes

query_key_node-delete_key_node_example :
    query_key_node (delete_key_node (create_key_node engine (some caller) one_node).1 7) 8
    ≡ (if 8 == 7 then none else query_key_node (create_key_node engine (some caller) one_node).1 8)
query_key_node-delete_key_node_example =
    query_key_node-delete_key_node (create_key_node engine (some caller) one_node).1 7 8
      two-IsWithin

-- The handle 7 is taken, the second number is not.
unused_8 : count (has_handle 8) one_node.nodes ≡ 0
unfolding create_key_node count has_handle hks_malloc check_param_set check_before_add_params
    get_tag_type add_loop add_one build_params fresh_param_set fresh_params fresh_loop fresh_round
    get_param lookup
unused_8 = refl

generate_key_node_handle_lem_example :
    is_success (generate_key_node_handle one_node engine.draws).0 ≡ true
generate_key_node_handle_lem_example =
    generate_key_node_handle_lem one_node engine.draws 1 (omega arith) (λ j h. refl) unused_8
