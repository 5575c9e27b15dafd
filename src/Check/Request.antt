-- ===== src/Check/Request.antt =====
-- The checks of whole requests: CheckAndGetAlgorithm, CheckAndGetDigest and the functions of
-- hks_check_paramset.c that check a request to generate, sign, agree, encrypt, derive or compute a
-- mac. A buffer that only lends its size is a number.
use Prim.Native.Nat.{bit_or}
use security_huks.Prelude.{ℕ, ◌||◌, Option, some, List, [], ◌∷◌, ◌==◌, if◌then◌else◌, elem}
use security_huks.Status.{
  Status, success, check_get_alg_fail, check_get_digest_fail, check_get_purpose_fail,
  invalid_algorithm, invalid_digest, invalid_key_size, invalid_purpose,
}
use security_huks.ParamSet.{Param, ParamSet, get_param, check_param_set_tag}
use security_huks.ParamSet.Tags.{tag_algorithm, tag_batch_purpose, tag_digest, tag_purpose}
use security_huks.Ipc.Service.{Abi}
use security_huks.Check.{
  gen_key, use_key, gen_mac_key, gen_derive_key, ParamsValues, ◌>>◌, ◌or_code◌, Result, ok, ◌>>=◌,
  return, demand, code_of, uint32_param, check_value,
}
use security_huks.Check.Values.{
  alg_aes, alg_hmac, alg_rsa, alg_sm2, alg_sm3, alg_sm4, alg_3des, alg_cmac, alg_des,
  key_purpose_mac,
}
use security_huks.Check.Algorithms.{
  gen_key_alg, cipher_alg, cipher_alg_local, sign_alg, aes_key_size_local, rsa_key_size_local,
}
use security_huks.Check.Purpose.{check_gen_key_purpose}
use security_huks.Check.Inputs.{get_input_params_by_alg}
use security_huks.Check.Fixed.{is_mac_or_derive, check_fixed_params}
use security_huks.Check.Padding.{
  check_gen_key_mutable_params, check_sign_verify_mutable_params, check_cipher_mutable_params,
}
use security_huks.Check.Cipher.{check_cipher_data}
use security_huks.Check.Material.{find_param, check_cipher_material_params}
use security_huks.Check.Signature.{get_key_size, check_signature}

-- A parameter that must be there with one of some values.
unfoldable pub find_value : ParamSet → ℕ → List ℕ → Status → Status → Result ℕ
unfolding find_param check_value
find_value s tag values missing wrong = do
  p ← find_param s tag missing
  _ ← demand (check_value (uint32_param p) values or_code wrong)
  return (uint32_param p)

unfoldable pub check_and_get_algorithm : ParamSet → List ℕ → Result ℕ
unfolding find_value
check_and_get_algorithm s expected =
    find_value s tag_algorithm expected check_get_alg_fail invalid_algorithm

unfoldable pub check_and_get_digest : ParamSet → List ℕ → Result ℕ
unfolding find_value
check_and_get_digest s expected =
    find_value s tag_digest expected check_get_digest_fail invalid_digest

-- A check of a request to generate or import a key gives the values that it has read.
unfoldable pub check_gen_key_params_by_alg : ℕ → ParamSet → ℕ → Result ParamsValues
unfolding get_input_params_by_alg check_fixed_params check_gen_key_purpose
    check_gen_key_mutable_params
check_gen_key_params_by_alg alg s key_flag = do
  v ← get_input_params_by_alg alg gen_key s
  _ ← demand (
      check_fixed_params alg gen_key v
      >> check_gen_key_purpose alg v.purpose.value key_flag
      >> check_gen_key_mutable_params alg v)
  return v

unfoldable pub check_gen_key_mac_derive_params : ℕ → ℕ → ParamSet → ℕ → Result ParamsValues
unfolding elem get_input_params_by_alg check_fixed_params check_gen_key_purpose
check_gen_key_mac_derive_params alg purpose s key_flag = do
  let t = if purpose == key_purpose_mac then gen_mac_key else gen_derive_key
  _ ← demand (
      if elem alg (alg_aes ∷ alg_des ∷ alg_3des ∷ alg_hmac ∷ alg_cmac ∷ alg_sm3 ∷ alg_sm4 ∷ [])
      then success
      else invalid_purpose)
  _ ← demand (check_gen_key_purpose alg purpose key_flag)
  v ← get_input_params_by_alg alg t s
  _ ← demand (check_fixed_params alg t v)
  return v

-- A batch purpose, where one is found, is part of the purpose.
unfoldable pub check_batch_purpose : ℕ → Status × Option Param → Status
check_batch_purpose purpose (success, some p) =
    if bit_or purpose (uint32_param p) == purpose then success else invalid_purpose
check_batch_purpose purpose (_, _) = success

unfoldable pub core_check_gen_key_params : ParamSet → ℕ → Result ParamsValues
unfolding check_and_get_algorithm gen_key_alg find_param check_batch_purpose is_mac_or_derive
    check_gen_key_mac_derive_params check_gen_key_params_by_alg
core_check_gen_key_params s key_flag = do
  _ ← demand (check_param_set_tag (some s))
  alg ← check_and_get_algorithm s gen_key_alg
  p ← find_param s tag_purpose check_get_purpose_fail
  _ ← demand (check_batch_purpose (uint32_param p) (get_param (some s) tag_batch_purpose))
  (if is_mac_or_derive (uint32_param p)
      then check_gen_key_mac_derive_params alg (uint32_param p) s key_flag
      else check_gen_key_params_by_alg alg s key_flag)

unfoldable pub check_sign_verify_params_by_alg : ℕ → ℕ → ParamsValues → Status
unfolding check_fixed_params check_sign_verify_mutable_params
check_sign_verify_params_by_alg cmd_id alg v =
    check_fixed_params alg use_key v >> check_sign_verify_mutable_params cmd_id alg v

unfoldable pub core_check_sign_verify_params : Abi → ℕ → List ℕ → ParamSet → ℕ → Status
unfolding check_and_get_algorithm sign_alg get_input_params_by_alg check_sign_verify_params_by_alg
    get_key_size check_signature
core_check_sign_verify_params abi cmd_id key s signature_size = code_of do
  alg ← check_and_get_algorithm s sign_alg
  v ← get_input_params_by_alg alg use_key s
  _ ← demand (check_sign_verify_params_by_alg cmd_id alg v)
  key_size ← get_key_size abi alg key
  demand (check_signature cmd_id alg key_size signature_size)

unfoldable pub local_check_sign_verify_params : ℕ → ℕ → ParamSet → ℕ → Status
unfolding check_and_get_algorithm sign_alg get_input_params_by_alg check_sign_verify_params_by_alg
    check_signature
local_check_sign_verify_params cmd_id key_size s signature_size = code_of do
  alg ← check_and_get_algorithm s sign_alg
  v ← get_input_params_by_alg alg use_key s
  _ ← demand (check_sign_verify_params_by_alg cmd_id alg v)
  demand (check_signature cmd_id alg key_size signature_size)

unfoldable pub check_cipher_params_by_alg : ℕ → ℕ → ParamSet → ParamsValues → Status
unfolding check_fixed_params check_cipher_mutable_params check_cipher_material_params
check_cipher_params_by_alg cmd_id alg s v =
    check_fixed_params alg use_key v
    >> check_cipher_mutable_params cmd_id alg v
    >> check_cipher_material_params alg v s

-- The length of the key comes from the key itself for RSA, SM4 and SM2.
unfoldable pub take_key_size : Abi → ℕ → List ℕ → ParamsValues → Result ParamsValues
unfolding get_key_size
take_key_size abi alg key v =
    if (alg == alg_rsa) || (alg == alg_sm4) || (alg == alg_sm2)
    then (get_key_size abi alg key >>= λ n.
        return (record v { key_len = record v.key_len { value = n } }))
    else ok v

unfoldable pub core_check_cipher_params : Abi → ℕ → List ℕ → ParamSet → ℕ → ℕ → Status
unfolding check_and_get_algorithm cipher_alg get_input_params_by_alg take_key_size
    check_cipher_params_by_alg check_cipher_data
core_check_cipher_params abi cmd_id key s in_size out_size = code_of do
  alg ← check_and_get_algorithm s cipher_alg
  w ← get_input_params_by_alg alg use_key s
  v ← take_key_size abi alg key w
  _ ← demand (check_cipher_params_by_alg cmd_id alg s v)
  demand (check_cipher_data cmd_id alg v in_size out_size)

unfoldable pub check_local_key_size : ℕ → ℕ → Status
unfolding check_value aes_key_size_local rsa_key_size_local
check_local_key_size alg key_size =
    if alg == alg_aes
    then check_value key_size aes_key_size_local
    else if alg == alg_rsa
    then check_value key_size rsa_key_size_local
    else success

unfoldable pub local_check_cipher_params : ℕ → ℕ → ParamSet → ℕ → ℕ → Status
unfolding check_and_get_algorithm cipher_alg_local check_local_key_size get_input_params_by_alg
    check_cipher_params_by_alg check_cipher_data
local_check_cipher_params cmd_id key_size s in_size out_size = code_of do
  alg ← check_and_get_algorithm s cipher_alg_local
  _ ← demand (check_local_key_size alg key_size or_code invalid_key_size)
  v ← get_input_params_by_alg alg use_key s
  _ ← demand (check_cipher_params_by_alg cmd_id alg s v)
  demand (check_cipher_data cmd_id alg v in_size out_size)
