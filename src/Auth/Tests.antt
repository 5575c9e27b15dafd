-- ===== src/Auth/Tests.antt =====
-- A key and a request to sign with it, at which the theorem on matching is applied.
use security_huks.Prelude.{ℕ, ◌≡◌, refl, some, List, [], ◌∷◌, All}
use security_huks.Status.{success}
use security_huks.ParamSet.{Param, ParamSet, null, get_param, lookup, check_param_set, get_tag_type}
use security_huks.ParamSet.Tags.{tag_algorithm, tag_purpose, tag_digest}
use security_huks.Check.Values.{alg_ecc, digest_sha256}
use security_huks.Check.Inputs.{get_required, get_optional_params}
use security_huks.Auth.{three_stage_auth, policy_of, auth_policy_list}
use security_huks.Auth.Match.{IsAllowed, three_stage_auth-IsAllowed}

abbrev entry : ℕ → ℕ → Param
entry tag value = record { tag = tag; scalar = value; blob = record { size = 0; ptr = null } }

abbrev with_purpose : ℕ → ParamSet
with_purpose purpose = record {
  set_size = 80;
  params =
      entry tag_algorithm alg_ecc ∷ entry tag_purpose purpose ∷ entry tag_digest digest_sha256 ∷ [];
  payload = [];
}

abbrev ecc_tags : List ℕ
ecc_tags = tag_algorithm ∷ tag_digest ∷ tag_purpose ∷ []

ecc_policy : policy_of 2 auth_policy_list ≡ some ecc_tags
unfolding policy_of auth_policy_list
ecc_policy = refl

sign_passes : three_stage_auth 2 (with_purpose 12) (with_purpose 4) ≡ success
unfolding three_stage_auth get_param lookup check_param_set get_tag_type get_required
    get_optional_params
sign_passes = refl

three_stage_auth-IsAllowed_example : All (IsAllowed (with_purpose 12) (with_purpose 4)) ecc_tags
three_stage_auth-IsAllowed_example =
    three_stage_auth-IsAllowed 2 (with_purpose 12) (with_purpose 4) ecc_tags ecc_policy sign_passes
