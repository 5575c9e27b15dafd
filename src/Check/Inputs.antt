-- ===== src/Check/Inputs.antt =====
-- The parameters that a check takes from a set: GetOptionalParams, GetInputParams,
-- InitInputParams, InitInputParamsByAlg and HksGetInputParmasByAlg of hks_base_check.c.
use security_huks.Prelude.{ℕ, true, ◌||◌, Option, none, some, List, [], ◌∷◌, ◌==◌, if◌then◌else◌}
use security_huks.Status.{
  Status, success, param_not_exist, not_supported, invalid_algorithm, check_get_key_size_fail,
  check_get_purpose_fail, check_get_padding_fail, check_get_digest_fail, check_get_mode_fail,
  is_success,
}
use security_huks.ParamSet.{Param, ParamSet, get_param}
use security_huks.ParamSet.Tags.{tag_key_size, tag_purpose, tag_padding, tag_digest, tag_block_mode}
use security_huks.Check.{
  CheckKeyType, is_same_type, Params, ParamsValues, ParamsValuesChecker, Result, ok, error, ◌>>=◌,
  return, uint32_param,
}
use security_huks.Check.Values.{
  alg_aes, alg_dh, alg_dsa, alg_ecc, alg_ecdh, alg_ed25519, alg_hmac, alg_rsa, alg_sm2, alg_sm3,
  alg_sm4, alg_x25519,
}
use security_huks.Check.Asked.{
  rsa_param_set, aes_param_set, ecc_param_set, sm2_param_set, sm3_param_set, sm4_param_set,
  curve25519_param_set, hmac_param_set, dsa_param_set, dh_param_set, ecdh_param_set,
}

-- The value that a search found, in place of the one before.
unfoldable pub take_value : Params → Option Param → Status → Result Params
take_value p (some q) e = ok (record p { value = uint32_param q })
take_value p none e = error e

-- A parameter that must be there; any failure is replaced by the code `e`.
unfoldable pub get_required : ParamSet → ℕ → Status → Params → Result Params
unfolding take_value
get_required s tag e p =
    let r = get_param (some s) tag in
    if p.need_check then (if is_success r.0 then take_value p r.1 e else error e) else ok p

-- What `GetOptionalParams` makes of a search; a caller replaces every failure by the code `e`.
unfoldable pub take_optional : Params → Status → Option Param → Status → Result Params
unfolding take_value
take_optional p success q e = take_value p q e
take_optional p param_not_exist q e = ok (record p { is_absent = true })
take_optional p _ q e = error e

unfoldable pub get_optional_params : ParamSet → ℕ → Status → Params → Result Params
unfolding take_optional
get_optional_params s tag e p =
    let r = get_param (some s) tag in if p.need_check then take_optional p r.0 r.1 e else ok p

unfoldable pub get_input_params : ParamSet → ParamsValues → Result ParamsValues
get_input_params s v = do
  key_len ← get_required s tag_key_size check_get_key_size_fail v.key_len
  purpose ← get_required s tag_purpose check_get_purpose_fail v.purpose
  padding ← get_optional_params s tag_padding check_get_padding_fail v.padding
  digest ← get_optional_params s tag_digest check_get_digest_fail v.digest
  mode ← get_optional_params s tag_block_mode check_get_mode_fail v.mode
  return (record {
    key_len = key_len;
    padding = padding;
    purpose = purpose;
    digest = digest;
    mode = mode;
  })

unfoldable pub init_input_params : CheckKeyType → List ParamsValuesChecker → Result ParamsValues
init_input_params t [] = error not_supported
init_input_params t (c ∷ cs) =
    let rest = init_input_params t cs in
    if is_same_type t c.check_type then ok c.param_values else rest

-- The switch of `InitInputParamsByAlg` and `InitInputParamsByAlgOne`.
unfoldable pub param_set_of : ℕ → Option (List ParamsValuesChecker)
unfolding rsa_param_set aes_param_set ecc_param_set sm2_param_set sm3_param_set sm4_param_set
    curve25519_param_set hmac_param_set dsa_param_set dh_param_set ecdh_param_set
param_set_of alg =
    if alg == alg_rsa
    then some rsa_param_set
    else if alg == alg_aes
    then some aes_param_set
    else if alg == alg_ecc
    then some ecc_param_set
    else if alg == alg_sm2
    then some sm2_param_set
    else if alg == alg_sm3
    then some sm3_param_set
    else if alg == alg_sm4
    then some sm4_param_set
    else if (alg == alg_x25519) || (alg == alg_ed25519)
    then some curve25519_param_set
    else if alg == alg_hmac
    then some hmac_param_set
    else if alg == alg_dsa
    then some dsa_param_set
    else if alg == alg_dh
    then some dh_param_set
    else if alg == alg_ecdh
    then some ecdh_param_set
    else none

unfoldable pub init_input_params_by_alg : ℕ → CheckKeyType → Result ParamsValues
unfolding param_set_of init_input_params
init_input_params_by_alg alg t = elim (param_set_of alg) [
  | none ↦ error invalid_algorithm
  | some rows ↦ init_input_params t rows
]

unfoldable pub get_input_params_by_alg : ℕ → CheckKeyType → ParamSet → Result ParamsValues
unfolding init_input_params_by_alg
get_input_params_by_alg alg t s = do v ← init_input_params_by_alg alg t; get_input_params s v
