-- ===== src/Check/UserAuth.antt =====
-- The access control of a key by user authentication: HasValidAuthAccessType,
-- HksCheckAuthAccessTypeByUserAuthType, HksCheckUserAuthParams, HksCheckSecureSignParams,
-- CheckUserAuthKeyInfoValidity and HksCheckUserAuthKeyInfoValidity of hks_base_check.c, in a build
-- with HKS_SUPPORT_USER_AUTH_ACCESS_CONTROL.
use Prim.Native.Nat.{bit_or}
use security_huks.Prelude.{
  ℕ, not, ◌&&◌, Option, none, some, List, [], ◌∷◌, ◌==◌, if◌then◌else◌, has_bits,
}
use security_huks.Status.{
  Status, success, invalid_argument, invalid_auth_type, invalid_challenge_type, invalid_access_type,
  not_supported,
}
use security_huks.ParamSet.{ParamSet, get_param, check_param_set}
use security_huks.ParamSet.Tags.{tag_algorithm, tag_purpose, tag_block_mode}
use security_huks.Check.{◌>>◌, ◌or_code◌, uint32_param, check_value}
use security_huks.Check.Values.{
  alg_aes, alg_sm4, auth_access_always_valid, user_auth_type_face, user_auth_type_fingerprint,
  user_auth_type_pin,
}
use security_huks.Check.Lists.{
  support_user_auth_types, user_auth_challenge_type, valid_biometric_auth_access_type,
  valid_pin_auth_access_type, support_secure_sign_type, support_aes_purpose,
  support_aes_cipher_mode, support_sm4_purpose, support_sm4_cipher_mode,
}

-- The first of the allowed access types that is set.
unfoldable pub has_valid_auth_access_type : List ℕ → ℕ → Option ℕ
has_valid_auth_access_type [] access = none
has_valid_auth_access_type (v ∷ vs) access =
    let rest = has_valid_auth_access_type vs access in if has_bits access v then some v else rest

-- `g_expectAuthAccessParams`.
unfoldable pub expect_auth_access_params : List (ℕ × List ℕ)
unfolding valid_biometric_auth_access_type valid_pin_auth_access_type
expect_auth_access_params =
    (user_auth_type_face, valid_biometric_auth_access_type)
    ∷ (user_auth_type_fingerprint, valid_biometric_auth_access_type)
    ∷ (user_auth_type_pin, valid_pin_auth_access_type)
    ∷ []

unfoldable pub valid_auth_access_type : List (ℕ × List ℕ) → ℕ → ℕ → ℕ
unfolding has_valid_auth_access_type
valid_auth_access_type [] user_auth_type access = 0
valid_auth_access_type ((t, vs) ∷ rows) user_auth_type access =
    let rest = valid_auth_access_type rows user_auth_type access in
    if has_bits t user_auth_type
    then elim (has_valid_auth_access_type vs access) [ none ↦ rest | some v ↦ bit_or v rest ]
    else rest

unfoldable pub check_auth_access_type : ℕ → ℕ → Status
unfolding valid_auth_access_type expect_auth_access_params
check_auth_access_type user_auth_type access =
    if not (access == 0)
      && (access == valid_auth_access_type expect_auth_access_params user_auth_type access)
    then (if has_bits access auth_access_always_valid && not (access == auth_access_always_valid)
        then invalid_access_type
        else success)
    else invalid_access_type

unfoldable pub check_user_auth_params : ℕ → ℕ → ℕ → Status
unfolding check_value support_user_auth_types user_auth_challenge_type check_auth_access_type
check_user_auth_params user_auth_type access challenge_type =
    check_value user_auth_type support_user_auth_types or_code invalid_auth_type
    >> check_value challenge_type user_auth_challenge_type or_code invalid_challenge_type
    >> check_auth_access_type user_auth_type access

unfoldable pub check_secure_sign_params : ℕ → Status
unfolding check_value support_secure_sign_type
check_secure_sign_params t = check_value t support_secure_sign_type

-- Every row of the tables has `needCheck`. The first tag that is missing ends the loop with success.
unfoldable pub check_key_info : ParamSet → List (ℕ × List ℕ) → Status
unfolding check_value
check_key_info s [] = success
check_key_info s ((tag, values) ∷ rows) =
    let rest = check_key_info s rows in
    elim (get_param (some s) tag).0 as (λ _. Status) [
      | success ↦ elim (get_param (some s) tag).1 [
        | none ↦ success
        | some p ↦ check_value (uint32_param p) values >> rest
      ]
      | _ ↦ success
    ]

unfoldable pub valid_key_info : List (ℕ × List (ℕ × List ℕ))
unfolding support_aes_purpose support_aes_cipher_mode support_sm4_purpose support_sm4_cipher_mode
valid_key_info =
    (alg_aes, (tag_purpose, support_aes_purpose) ∷ (tag_block_mode, support_aes_cipher_mode) ∷ [])
    ∷ (alg_sm4, (tag_purpose, support_sm4_purpose) ∷ (tag_block_mode, support_sm4_cipher_mode) ∷ [])
    ∷ []

unfoldable pub check_key_info_of : ParamSet → ℕ → List (ℕ × List (ℕ × List ℕ)) → Status
unfolding check_key_info
check_key_info_of s alg [] = success
check_key_info_of s alg ((a, rows) ∷ infos) =
    let rest = check_key_info_of s alg infos in
    if alg == a then check_key_info s rows or_code not_supported >> rest else rest

unfoldable pub check_user_auth_key_info_validity : ParamSet → Status
unfolding check_key_info_of valid_key_info
check_user_auth_key_info_validity s =
    let r = get_param (some s) tag_algorithm in
    check_param_set (some s) s.set_size or_code invalid_argument
    >> r.0
    >> elim r.1 [ none ↦ success | some p ↦ check_key_info_of s (uint32_param p) valid_key_info ]
