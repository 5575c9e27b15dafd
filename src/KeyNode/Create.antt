-- ===== src/KeyNode/Create.antt =====
-- hks_keynode.c: a fresh handle, the set of the caller's parameters, and `HksCreateKeyNode` in the build
-- without _STORAGE_LITE_.
use security_huks.Prelude.{
  ℕ, ◌+◌, ◌%◌, ◌^◌, zero, suc, false, ◌&&◌, Option, none, some, List, [], ◌∷◌, if◌then◌else◌,
}
use security_huks.Status.{Status, success, failure, is_success}
use security_huks.Memory.{Memory, hks_malloc}
use security_huks.ParamSet.{Param, ParamSet, null, init_param_set, add_params}
use security_huks.ParamSet.Tags.{tag_crypto_ctx}
use security_huks.ParamSet.Build.{lend, build_param_set, check_is_tag_already_exist}
use security_huks.KeyNode.{
  KeyNode, KeyNodes, has_handle, get_token_id, query_key_node, add_key_node,
}

-- `HksCheckUniqueHandle`.
unfoldable pub check_unique_handle : KeyNodes → ℕ → Status
unfolding query_key_node
check_unique_handle s handle = elim (query_key_node s handle) [ none ↦ success | some n ↦ failure ]

-- What `HksCryptoHalFillRandom` gives, try by try: a code and four bytes as a number.
abbrev pub Draws : Type 0
Draws = ℕ → Status × ℕ

abbrev pub max_retry_check_unique_handle_time : ℕ
max_retry_check_unique_handle_time = 10

-- The loop of `GenerateKeyNodeHandle` with some tries left, from try `i` on.
unfoldable pub try_handles : KeyNodes → Draws → ℕ → ℕ → Status × ℕ
unfolding check_unique_handle
try_handles s draws zero i = (failure, 0)
try_handles s draws (suc n) i =
    let rest = try_handles s draws n (i + 1) in
    let handle = (draws i).1 % 2 ^ 32 in
    if is_success (draws i).0
    then (if is_success (check_unique_handle s handle) then (success, handle) else rest)
    else ((draws i).0, 0)

unfoldable pub generate_key_node_handle : KeyNodes → Draws → Status × ℕ
unfolding try_handles
generate_key_node_handle s draws = try_handles s draws max_retry_check_unique_handle_time 0

-- `{ .tag = HKS_TAG_CRYPTO_CTX, .uint64Param = 0 }`.
abbrev pub crypto_ctx : Param
crypto_ctx = record { tag = tag_crypto_ctx; scalar = 0; blob = record { size = 0; ptr = null } }

unfoldable pub add_then :
    Status × ParamSet → (ParamSet → Status × Option ParamSet) → Status × Option ParamSet
add_then (success, s) f = f s
add_then (e, s) f = (e, none)

-- The entries of the caller's set as the new set sees them.
unfoldable pub lend_all : ParamSet → List Param → List Param
unfolding lend
lend_all s [] = []
lend_all s (p ∷ ps) = lend s p ∷ lend_all s ps

unfoldable pub built_or_none : Status × Option ParamSet → Status × Option ParamSet
built_or_none (success, s) = (success, s)
built_or_none (e, s) = (e, none)

unfoldable pub add_ctx : Memory → ParamSet → Status × Option ParamSet
unfolding add_then built_or_none add_params build_param_set
add_ctx m s =
    add_then (add_params s (crypto_ctx ∷ [])) (λ t. built_or_none (build_param_set m (some t)))

unfoldable pub copy_in : Memory → ParamSet → Option ParamSet → Status × Option ParamSet
unfolding add_then lend_all add_ctx check_is_tag_already_exist
copy_in m s none = add_ctx m s
copy_in m s (some input) =
    let st = check_is_tag_already_exist (some (crypto_ctx ∷ [])) (some input) in
    if is_success st
    then add_then (add_params s (lend_all input input.params)) (add_ctx m)
    else (st, none)

unfoldable pub build_runtime_param_set : Memory → Option ParamSet → Status × Option ParamSet
unfolding copy_in init_param_set
build_runtime_param_set m input =
    let r = init_param_set m in elim r.1 [ none ↦ (r.0, none) | some s ↦ copy_in m s input ]

-- `sizeof(struct HuksKeyNode)` in a 64-bit build.
abbrev pub key_node_size : ℕ
key_node_size = 64

-- What `HksCreateKeyNode` finds around it: the memory, the random source, the clock, and what
-- HksGetAadAndParamSet and HksDecryptKeyBlob make of the key blob.
pub record Engine : Type 0 where
  pub memory : Memory
  pub draws : Draws
  pub clock : ℕ → Option ℕ
  pub opened : Status × ParamSet

-- `keyNode->keyBlobParamSet = …; keyNode->runtimeParamSet = …` of the node with a handle.
unfoldable pub publish : ℕ → ParamSet → Option ParamSet → List KeyNode → List KeyNode
unfolding has_handle
publish handle blob runtime [] = []
publish handle blob runtime (n ∷ ns) =
    let rest = publish handle blob runtime ns in
    if has_handle handle n
    then record n { key_blob = some blob; runtime = runtime } ∷ ns
    else n ∷ rest

unfoldable pub finish :
    ℕ → ParamSet → Option ParamSet → KeyNodes → Status × KeyNodes → Option ℕ × KeyNodes
unfolding publish
finish handle blob runtime s (success, t) =
    (some handle, record t { nodes = publish handle blob runtime t.nodes })
finish handle blob runtime s (e, t) = (none, t)

-- A node in a block of zeros, with its handle.
abbrev pub zeroed : ℕ → KeyNode
zeroed handle = record {
  handle = handle;
  key_blob = none;
  runtime = none;
  is_batch_operation = false;
  batch_operation_timestamp = 0;
}

unfoldable pub add_opened : Engine → ℕ → Status × Option ParamSet → KeyNodes → Option ℕ × KeyNodes
unfolding finish add_key_node get_token_id
add_opened w handle r s =
    if is_success r.0 && is_success w.opened.0
    then finish handle w.opened.1 r.1 s (add_key_node w.clock (zeroed handle) (get_token_id r.1) s)
    else (none, s)

-- `HksCreateKeyNode`: the handle of the new node, or NULL. HksMalloc fills a block with zeros.
unfoldable pub create_key_node : Engine → Option ParamSet → KeyNodes → Option ℕ × KeyNodes
unfolding add_opened generate_key_node_handle build_runtime_param_set
create_key_node w input s =
    let h = generate_key_node_handle s w.draws in
    if hks_malloc w.memory key_node_size
    then (if is_success h.0
        then add_opened w h.1 (build_runtime_param_set w.memory input) s
        else (none, s))
    else (none, s)
