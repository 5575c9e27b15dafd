-- ===== src/Auth.antt =====
-- services/huks_standard/huks_engine/main/core/src/hks_auth.c: whether a request may use a key, by the
-- tags of a policy. Both sets are those of a key node that `HksCreateKeyNode` has returned, or of a key
-- of one stage.
pub mod Match
mod Tests
use Prim.Native.Nat.{bit_and}
use security_huks.Prelude.{
  ℕ, ◌%◌, ◌^◌, ◌≡◌, ◌≢◌, Bool, true, false, not, ◌&&◌, ◌||◌, Option, none, some, List, [], ◌∷◌,
  ◌==◌, if◌then◌else◌, has_bits,
}
use security_huks.Status.{
  Status, success, invalid_argument, param_not_exist, not_supported, bad_state, check_get_alg_fail,
  check_get_purpose_fail, is_success,
}
use security_huks.ParamSet.{Param, ParamSet, get_param}
use security_huks.ParamSet.Tags.{
  tag_algorithm, tag_block_mode, tag_padding, tag_purpose, tag_digest,
}
use security_huks.ParamSet.Build.{check_param_match}
use security_huks.Check.{
  CheckKeyType, use_key, asks, Params, ParamsValues, ◌>>◌, Result, ok, error, ◌>>=◌, return, demand,
  code_of, uint32_param,
}
use security_huks.Check.Inputs.{get_input_params}
use security_huks.Check.Fixed.{is_mac_or_derive, check_optional_param}
use security_huks.Check.Padding.{check_gen_key_mutable_params}
use security_huks.Check.Material.{find_param}

unfoldable pub sym_cipher_policy_tag : List ℕ
sym_cipher_policy_tag = tag_algorithm ∷ tag_block_mode ∷ tag_padding ∷ tag_purpose ∷ []

unfoldable pub asym_cipher_policy_tag : List ℕ
asym_cipher_policy_tag = tag_algorithm ∷ tag_digest ∷ tag_padding ∷ tag_purpose ∷ []

unfoldable pub sign_verify_rsa_policy_tag : List ℕ
sign_verify_rsa_policy_tag = tag_algorithm ∷ tag_digest ∷ tag_padding ∷ tag_purpose ∷ []

unfoldable pub sign_verify_ecc_policy_tag : List ℕ
sign_verify_ecc_policy_tag = tag_algorithm ∷ tag_digest ∷ tag_purpose ∷ []

unfoldable pub sign_verify_ed25519_policy_tag : List ℕ
sign_verify_ed25519_policy_tag = tag_purpose ∷ []

unfoldable pub mac_policy_tag : List ℕ
mac_policy_tag = tag_digest ∷ tag_purpose ∷ []

unfoldable pub mac_sm3_policy_tag : List ℕ
mac_sm3_policy_tag = tag_algorithm ∷ tag_digest ∷ tag_purpose ∷ []

unfoldable pub mac_cmac_policy_tag : List ℕ
mac_cmac_policy_tag = tag_algorithm ∷ tag_purpose ∷ []

unfoldable pub derive_policy_tag : List ℕ
derive_policy_tag = tag_digest ∷ tag_purpose ∷ []

unfoldable pub agree_policy_tag : List ℕ
agree_policy_tag = tag_purpose ∷ []

-- `g_authPolicyList`, by the values of HKS_AUTH_ID of hks_auth.h.
unfoldable pub auth_policy_list : List (ℕ × List ℕ)
unfolding sym_cipher_policy_tag asym_cipher_policy_tag sign_verify_rsa_policy_tag
    sign_verify_ecc_policy_tag sign_verify_ed25519_policy_tag mac_policy_tag mac_sm3_policy_tag
    mac_cmac_policy_tag derive_policy_tag agree_policy_tag
auth_policy_list =
    (3, sym_cipher_policy_tag)
    ∷ (4, asym_cipher_policy_tag)
    ∷ (1, sign_verify_rsa_policy_tag)
    ∷ (2, sign_verify_ecc_policy_tag)
    ∷ (8, sign_verify_ed25519_policy_tag)
    ∷ (5, mac_policy_tag)
    ∷ (6, mac_sm3_policy_tag)
    ∷ (7, derive_policy_tag)
    ∷ (9, agree_policy_tag)
    ∷ (16, mac_cmac_policy_tag)
    ∷ []

-- The purposes of the request are some, and among those of the key.
unfoldable pub check_purpose : Param → Param → Status
check_purpose key request =
    if uint32_param request == 0
    then invalid_argument
    else if bit_and (uint32_param request) (uint32_param key) == uint32_param request
    then success
    else invalid_argument

-- The checks of `OptionalParamCheck` after its search.
unfoldable pub check_optional : ℕ → ℕ → ℕ → ParamsValues → Option Param → Status
unfolding check_optional_param is_mac_or_derive check_gen_key_mutable_params
check_optional tag alg purpose v p =
    check_optional_param tag alg purpose p
    >> (if is_mac_or_derive purpose then success else check_gen_key_mutable_params alg v)

unfoldable pub optional_param_check : ℕ → ℕ → ℕ → ParamsValues → Status × Option Param → Status
unfolding check_optional
optional_param_check tag alg purpose v (invalid_argument, p) = invalid_argument
optional_param_check tag alg purpose v (param_not_exist, p) = check_optional tag alg purpose v none
optional_param_check tag alg purpose v (_, p) = check_optional tag alg purpose v p

-- A parameter of the key against what the search in the request found.
unfoldable pub check_request :
    ParamSet → ParamSet → ℕ → Option Param → Status × Option Param → Status
unfolding check_purpose check_param_match
check_request k r tag p (success, some q) = elim p [
  | none ↦ invalid_argument
  | some a ↦
      if tag == tag_purpose then check_purpose a q else check_param_match k (some a) r (some q)
]
check_request k r tag p (success, none) = invalid_argument
check_request k r tag p (e, q) = e

-- One round of the loop of `AuthPolicy`. `HksGetParam` has three codes; at HKS_SUCCESS it has found an
-- entry.
unfoldable pub check_policy_tag :
    ParamSet → ParamSet → ℕ → ℕ → ParamsValues → ℕ → Status × Option Param → Status
unfolding optional_param_check check_request
check_policy_tag k r alg purpose v tag (param_not_exist, p) =
    optional_param_check tag alg purpose v (get_param (some r) tag)
check_policy_tag k r alg purpose v tag (success, p) =
    check_request k r tag p (get_param (some r) tag)
check_policy_tag k r alg purpose v tag (e, p) = e

unfoldable pub check_policy_tags : ParamSet → ParamSet → ℕ → ℕ → ParamsValues → List ℕ → Status
unfolding check_policy_tag
check_policy_tags k r alg purpose v [] = success
check_policy_tags k r alg purpose v (tag ∷ tags) =
    let rest = check_policy_tags k r alg purpose v tags in
    check_policy_tag k r alg purpose v tag (get_param (some k) tag) >> rest

-- What `AuthPolicy` asks of the request: all but the length of the key.
abbrev pub auth_asked : ParamsValues
auth_asked = (asks use_key false true true true true).param_values

-- `AuthPolicy` with the call of `GetAlgAndPurposeParam`.
unfoldable pub auth_policy : List ℕ → ParamSet → ParamSet → Status
unfolding find_param get_input_params check_policy_tags
auth_policy tags k r = code_of do
  alg ← find_param k tag_algorithm check_get_alg_fail
  purpose ← find_param k tag_purpose check_get_purpose_fail
  v ← get_input_params r auth_asked
  demand (check_policy_tags k r (uint32_param alg) (uint32_param purpose) v tags)

unfoldable pub policy_of : ℕ → List (ℕ × List ℕ) → Option (List ℕ)
policy_of auth_id [] = none
policy_of auth_id ((a, tags) ∷ rows) =
    let rest = policy_of auth_id rows in if auth_id == a then some tags else rest

unfoldable pub auth_by : Option (List ℕ) → ParamSet → ParamSet → Status
unfolding auth_policy
auth_by none k r = bad_state
auth_by (some tags) k r = auth_policy tags k r

-- `HksThreeStageAuth`.
unfoldable pub three_stage_auth : ℕ → ParamSet → ParamSet → Status
unfolding policy_of auth_policy_list auth_by
three_stage_auth auth_id k r = auth_by (policy_of auth_id auth_policy_list) k r

-- `HksAuth`; the first argument is what HksCheckKeybBlobIsSupportUserAuth of hks_secure_access.c found.
unfoldable pub auth : Status × Bool → ℕ → ParamSet → ParamSet → Status
unfolding three_stage_auth
auth (success, is_support_user_auth) auth_id k r =
    if is_support_user_auth then not_supported else three_stage_auth auth_id k r
auth (e, is_support_user_auth) auth_id k r = e
