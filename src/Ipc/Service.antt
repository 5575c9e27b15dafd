-- ===== src/Ipc/Service.antt =====
-- services/huks_standard/huks_service/main/os_dependency/idl/ipc/hks_service_ipc_serialization.c:
-- the calls by which the service takes the arguments out of a buffer.
use security_huks.Prelude.{
  ℕ, ◌-◌, ◌≡◌, ◌≤◌, true, false, ◌||◌, not, Option, none, some, List, ◌++◌, length, take, drop, ltb,
  ◌==◌, if◌then◌else◌, add32,
}
use security_huks.Status.{buffer_too_small, invalid_argument, malloc_fail, is_success}
use security_huks.Memory.{Memory, hks_malloc}
use security_huks.ParamSet.{ParamSet, is_addition_overflow, header_size}
use security_huks.ParamSet.Build.{fresh_param_set}
use security_huks.Ipc.{
  Reader, got, failed, ◌>>=◌, return, align_size, le_u32, is_invalid_length, max_out_blob_size,
}

-- What the build depends on: the struct that the bytes at an address are, under the layout of the
-- compiler. The size field is the first four bytes, and what stands behind a set is not read.
pub record Abi : Type 0 where
  pub layout : List ℕ → ParamSet

pub record IsAbi (abi : Abi) : Type 0 where
  pub size_first : (bs : List ℕ) → (abi.layout bs).set_size ≡ le_u32 bs
  pub own_bytes :
      (bs rest : List ℕ)
      → header_size ≤ length bs
      → le_u32 bs ≡ length bs
      → abi.layout (bs ++ rest) ≡ abi.layout bs

unfoldable pub get_uint32_from_buffer : Reader ℕ
get_uint32_from_buffer bs off =
    if ltb (length bs) off || ltb (length bs - off) 4
    then failed buffer_too_small off
    else got (le_u32 (drop off bs)) (add32 off 4)

unfoldable pub get_blob_from_buffer : Reader (List ℕ)
get_blob_from_buffer bs off =
    let size = le_u32 (drop off bs) in
    let start = add32 off 4 in
    if ltb (length bs) off || ltb (length bs - off) 4
    then failed buffer_too_small off
    else if is_addition_overflow size 3
    then failed invalid_argument off
    else if ltb (length bs - off - 4) (align_size size)
    then failed buffer_too_small off
    else got (take size (drop start bs)) (add32 start (align_size size))

module _ (m : Memory) (abi : Abi) where
  unfoldable pub get_param_set_from_buffer : Reader ParamSet
  get_param_set_from_buffer bs off =
      let s = abi.layout (drop off bs) in
      let fresh = fresh_param_set m s false in
      if ltb (length bs) off || ltb (length bs - off) header_size
      then failed invalid_argument off
      else if is_addition_overflow s.set_size 3
      then failed invalid_argument off
      else if ltb (length bs - off) (align_size s.set_size) || not (is_success fresh.0)
      then failed buffer_too_small off
      else got fresh.1 (add32 off (align_size s.set_size))

  unfoldable pub get_key_and_param_set_from_buffer : Reader (List ℕ × ParamSet)
  get_key_and_param_set_from_buffer = do
    key_alias ← get_blob_from_buffer
    param_set ← get_param_set_from_buffer
    return (key_alias, param_set)

  -- `MallocBlobFromBuffer`: the size of the block for an answer.
  unfoldable pub malloc_blob_from_buffer : Reader ℕ
  malloc_blob_from_buffer = do
    size ← get_uint32_from_buffer
    λ bs off.
        if is_invalid_length size
        then failed invalid_argument off
        else if hks_malloc m size
        then got size off
        else failed malloc_fail off

  -- `MallocParamSetFromBuffer`.
  unfoldable pub malloc_param_set_from_buffer : Reader ℕ
  malloc_param_set_from_buffer = do
    size ← get_uint32_from_buffer
    λ bs off.
        if is_invalid_length size || ltb size header_size
        then failed invalid_argument off
        else if hks_malloc m size
        then got size off
        else failed malloc_fail off

  -- The size of the key to be returned may be 0.
  unfoldable pub generate_key_unpack : Reader (List ℕ × ParamSet × ℕ)
  generate_key_unpack = do
    named ← get_key_and_param_set_from_buffer
    size ← get_uint32_from_buffer
    λ bs off.
        if ltb max_out_blob_size size
        then failed invalid_argument off
        else if (size == 0) || hks_malloc m size
        then got (named.0, named.1, size) off
        else failed malloc_fail off

  unfoldable pub import_key_unpack : Reader (List ℕ × ParamSet × List ℕ)
  import_key_unpack = do
    named ← get_key_and_param_set_from_buffer
    key ← get_blob_from_buffer
    return (named.0, named.1, key)

  unfoldable pub import_wrapped_key_unpack : Reader (List ℕ × List ℕ × ParamSet × List ℕ)
  import_wrapped_key_unpack = do
    key_alias ← get_blob_from_buffer
    wrapping_key_alias ← get_blob_from_buffer
    param_set ← get_param_set_from_buffer
    wrapped_key_data ← get_blob_from_buffer
    return (key_alias, wrapping_key_alias, param_set, wrapped_key_data)

  -- A buffer that ends at the offset holds no parameter set.
  unfoldable pub get_param_set_if_left : Reader (Option ParamSet)
  get_param_set_if_left bs off = elim (off == length bs) [
    | true ↦ got none off
    | false ↦ elim (get_param_set_from_buffer bs off) [
      | got s off' ↦ got (some s) off'
      | failed st off' ↦ failed st off'
    ]
  ]

  -- `HksDeleteKeyUnpack` and `HksKeyExistUnpack` have one body.
  unfoldable pub delete_key_unpack : Reader (List ℕ × Option ParamSet)
  delete_key_unpack = do
    key_alias ← get_blob_from_buffer
    param_set ← get_param_set_if_left
    return (key_alias, param_set)

  unfoldable pub key_exist_unpack : Reader (List ℕ × Option ParamSet)
  key_exist_unpack = do
    key_alias ← get_blob_from_buffer
    param_set ← get_param_set_if_left
    return (key_alias, param_set)

  -- A failure that is logged and then forgotten: the value is not set, and reading goes on.
  unfoldable pub or_unset : {A : Type 0} → Reader A → Reader (Option A)
  or_unset r bs off = elim (r bs off) [
    | got a off' ↦ got (some a) off'
    | failed st off' ↦ got none off'
  ]

  unfoldable pub export_public_key_unpack : Reader (List ℕ × Option ℕ × Option ParamSet)
  unfolding or_unset
  export_public_key_unpack = do
    key_alias ← get_blob_from_buffer
    key ← or_unset malloc_blob_from_buffer
    param_set ← get_param_set_if_left
    return (key_alias, key, param_set)

  unfoldable pub get_key_param_set_unpack : Reader (List ℕ × Option ℕ × Option ParamSet)
  unfolding or_unset
  get_key_param_set_unpack = do
    key_alias ← get_blob_from_buffer
    param_set_out ← or_unset malloc_param_set_from_buffer
    param_set_in ← get_param_set_if_left
    return (key_alias, param_set_out, param_set_in)

  unfoldable pub sign_verify_mac_unpack : Reader (List ℕ × ParamSet × List ℕ)
  sign_verify_mac_unpack = do
    named ← get_key_and_param_set_from_buffer
    input_data ← get_blob_from_buffer
    return (named.0, named.1, input_data)

  unfoldable pub sign_unpack : Reader (List ℕ × ParamSet × List ℕ × ℕ)
  sign_unpack = do
    args ← sign_verify_mac_unpack
    signature ← malloc_blob_from_buffer
    return (args.0, args.1, args.2, signature)

  unfoldable pub verify_unpack : Reader (List ℕ × ParamSet × List ℕ × List ℕ)
  verify_unpack = do
    args ← sign_verify_mac_unpack
    signature ← get_blob_from_buffer
    return (args.0, args.1, args.2, signature)

  unfoldable pub encrypt_decrypt_unpack : Reader (List ℕ × ParamSet × List ℕ × ℕ)
  encrypt_decrypt_unpack = do
    named ← get_key_and_param_set_from_buffer
    input_text ← get_blob_from_buffer
    output_text ← malloc_blob_from_buffer
    return (named.0, named.1, input_text, output_text)

  unfoldable pub agree_key_unpack : Reader (ParamSet × List ℕ × List ℕ × ℕ)
  agree_key_unpack = do
    param_set ← get_param_set_from_buffer
    private_key ← get_blob_from_buffer
    peer_public_key ← get_blob_from_buffer
    agreed_key ← malloc_blob_from_buffer
    return (param_set, private_key, peer_public_key, agreed_key)

  unfoldable pub derive_key_unpack : Reader (ParamSet × List ℕ × ℕ)
  derive_key_unpack = do
    param_set ← get_param_set_from_buffer
    kdf_key ← get_blob_from_buffer
    derived_key ← malloc_blob_from_buffer
    return (param_set, kdf_key, derived_key)

  unfoldable pub hmac_unpack : Reader (List ℕ × ParamSet × List ℕ × ℕ)
  hmac_unpack = do
    args ← sign_verify_mac_unpack
    mac ← malloc_blob_from_buffer
    return (args.0, args.1, args.2, mac)

  unfoldable pub certificate_chain_unpack : Reader (List ℕ × ParamSet × ℕ)
  certificate_chain_unpack = do
    named ← get_key_and_param_set_from_buffer
    cert_chain ← malloc_blob_from_buffer
    return (named.0, named.1, cert_chain)

  unfoldable pub list_aliases_unpack : Reader ParamSet
  list_aliases_unpack = get_param_set_from_buffer
