-- ===== src/Status.antt =====
-- The result codes of interfaces/inner_api/huks_standard/main/include/hks_type_enum.h that the
-- modelled functions return, by their names without the prefix HKS_ERROR.
use mathlib.Core.Bool.{Bool, true, false}
use mathlib.Core.Path.{◌≡◌}
use mathlib.Core.Logic.{◌↔◌}
use security_huks.Prelude.{ap, same, same_iff}
use native.Mathlib.Omega.{arith}

pub data Status : Type 0 where
  success failure : Status
  null_pointer invalid_argument malloc_fail insufficient_memory buffer_too_small : Status
  param_not_exist session_reached_limit not_supported bad_state insufficient_data : Status
  check_get_alg_fail check_get_key_size_fail check_get_padding_fail check_get_purpose_fail : Status
  check_get_digest_fail check_get_mode_fail check_get_nonce_fail check_get_aad_fail : Status
  check_get_iv_fail check_get_salt_fail check_get_iteration_fail : Status
  invalid_algorithm invalid_key_size invalid_padding invalid_purpose invalid_mode : Status
  invalid_digest invalid_signature_size invalid_iv invalid_aad invalid_nonce invalid_salt : Status
  invalid_iteration invalid_key_file invalid_key_info invalid_auth_type : Status
  invalid_challenge_type invalid_access_type not_exist unknown_error invalid_wrapped_format : Status
  storage_failure internal_error : Status
  open_file_fail read_file_fail write_file_fail remove_file_fail file_size_fail : Status

-- `ret == HKS_SUCCESS`.
abbrev pub is_success : Status → Bool
is_success success = true
is_success _ = false

pub is_success_lem : (s : Status) → is_success s ≡ true → s ≡ success
is_success_lem s h = ground arith

pub success_iff :
    (s : Status) (b : Bool) → same (is_success s) b ≡ true → (s ≡ success) ↔ (b ≡ true)
success_iff s b h = (
  λ e. (same_iff (is_success s) b h).0 (ap is_success e),
  λ e. is_success_lem s ((same_iff (is_success s) b h).1 e),
)
