-- ===== src/Check/Fixed.antt =====
-- The values that a check accepts for each algorithm: GetExpectParams, CheckOptionalParams,
-- HksCheckOptionalParam and HksCheckFixedParams of hks_base_check.c.
use security_huks.Prelude.{
  ℕ, Bool, not, ◌&&◌, ◌||◌, Option, none, some, List, [], ◌∷◌, ◌==◌, if◌then◌else◌, has_bits, elem,
}
use security_huks.Status.{
  Status, success, failure, invalid_argument, not_supported, not_exist, invalid_algorithm,
  invalid_key_size, invalid_padding, invalid_purpose, invalid_digest, invalid_mode,
  check_get_mode_fail, check_get_digest_fail, check_get_padding_fail,
}
use security_huks.ParamSet.{Param}
use security_huks.ParamSet.Tags.{tag_padding, tag_digest, tag_block_mode}
use security_huks.Check.{
  CheckKeyType, gen_key, gen_mac_key, gen_derive_key, is_same_type, Params, ParamsValues,
  ExpectParams, ExpectParamsValues, ExpectParamsValuesChecker, Result, ok, error, ◌>>=◌, demand,
  ◌>>◌, ◌or_code◌, code_of, uint32_param, check_value,
}
use security_huks.Check.Values.{
  alg_3des, alg_aes, alg_cmac, alg_des, alg_dh, alg_dsa, alg_ecc, alg_ecdh, alg_ed25519, alg_hmac,
  alg_rsa, alg_sm2, alg_sm3, alg_sm4, alg_x25519, key_purpose_derive, key_purpose_mac,
}
use security_huks.Check.Expected.{
  expect_rsa_params, expect_aes_params, expect_ecc_params, expect_sm2_params, expect_sm3_params,
  expect_sm4_params, expect_curve25519_params, expect_hmac_params, expect_dsa_params,
  expect_dh_params, expect_ecdh_params,
}

unfoldable pub init_expect_params :
    CheckKeyType → List ExpectParamsValuesChecker → Result ExpectParamsValues
init_expect_params t [] = error not_supported
init_expect_params t (c ∷ cs) =
    let rest = init_expect_params t cs in
    if is_same_type t c.check_type then ok c.param_values else rest

-- The switch of `GetExpectParams` and `GetExpectParamsByAlg`.
unfoldable pub expect_params_of : ℕ → Option (List ExpectParamsValuesChecker)
unfolding expect_rsa_params expect_aes_params expect_ecc_params expect_sm2_params expect_sm3_params
    expect_sm4_params expect_curve25519_params expect_hmac_params expect_dsa_params expect_dh_params
    expect_ecdh_params
expect_params_of alg =
    if alg == alg_rsa
    then some expect_rsa_params
    else if alg == alg_aes
    then some expect_aes_params
    else if alg == alg_ecc
    then some expect_ecc_params
    else if alg == alg_sm2
    then some expect_sm2_params
    else if alg == alg_sm3
    then some expect_sm3_params
    else if alg == alg_sm4
    then some expect_sm4_params
    else if (alg == alg_x25519) || (alg == alg_ed25519)
    then some expect_curve25519_params
    else if alg == alg_hmac
    then some expect_hmac_params
    else if alg == alg_dsa
    then some expect_dsa_params
    else if alg == alg_dh
    then some expect_dh_params
    else if alg == alg_ecdh
    then some expect_ecdh_params
    else none

unfoldable pub get_expect_params : ℕ → CheckKeyType → Result ExpectParamsValues
unfolding expect_params_of init_expect_params
get_expect_params alg t = elim (expect_params_of alg) [
  | none ↦ error invalid_algorithm
  | some rows ↦ init_expect_params t rows
]

unfoldable pub check_optional_params : ExpectParams → Params → Status
unfolding check_value
check_optional_params x p =
    if x.need_check && not p.is_absent
    then check_value p.value x.values or_code invalid_argument
    else success

-- `InitCheckOptionalParams`: here an absent parameter is refused.
unfoldable pub init_check_optional_params : ExpectParams → Option Param → Status
unfolding check_value
init_check_optional_params x none = if x.need_check then not_exist else success
init_check_optional_params x (some p) =
    if x.need_check then check_value (uint32_param p) x.values or_code invalid_argument else success

unfoldable pub is_mac_or_derive : ℕ → Bool
is_mac_or_derive purpose = has_bits purpose key_purpose_derive || has_bits purpose key_purpose_mac

-- The type of the check that `HksCheckOptionalParam` makes.
unfoldable pub optional_check_type : ℕ → ℕ → Result CheckKeyType
unfolding is_mac_or_derive
optional_check_type alg purpose =
    if is_mac_or_derive purpose
    then if elem alg (alg_aes ∷ alg_des ∷ alg_3des ∷ alg_hmac ∷ alg_cmac ∷ alg_sm3 ∷ [])
      then ok (if purpose == key_purpose_derive then gen_derive_key else gen_mac_key)
      else error invalid_purpose
    else ok gen_key

-- The switch over the tag; `none` is an absent parameter.
unfoldable pub check_by_tag : ℕ → ExpectParamsValues → Option Param → Status
unfolding init_check_optional_params
check_by_tag tag x p =
    if tag == tag_block_mode
    then init_check_optional_params x.mode p or_code check_get_mode_fail
    else if tag == tag_digest
    then init_check_optional_params x.digest p or_code check_get_digest_fail
    else if tag == tag_padding
    then init_check_optional_params x.padding p or_code check_get_padding_fail
    else failure

unfoldable pub check_optional_param : ℕ → ℕ → ℕ → Option Param → Status
unfolding optional_check_type get_expect_params check_by_tag
check_optional_param tag alg purpose p = code_of do
  t ← optional_check_type alg purpose
  x ← get_expect_params alg t
  demand (check_by_tag tag x p)

-- The five comparisons of `HksCheckFixedParams`.
unfoldable pub check_against : ExpectParamsValues → ParamsValues → Status
unfolding check_optional_params
check_against x v =
    check_optional_params x.key_len v.key_len or_code invalid_key_size
    >> check_optional_params x.padding v.padding or_code invalid_padding
    >> check_optional_params x.purpose v.purpose or_code invalid_purpose
    >> check_optional_params x.digest v.digest or_code invalid_digest
    >> check_optional_params x.mode v.mode or_code invalid_mode

unfoldable pub check_fixed_params : ℕ → CheckKeyType → ParamsValues → Status
unfolding get_expect_params check_against
check_fixed_params alg t v = code_of do x ← get_expect_params alg t; demand (check_against x v)
