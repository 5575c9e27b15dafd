-- ===== src/Check/Tests.antt =====
-- Requests and keys at which the theorems on the checks are applied.
use security_huks.Check.{ok}
use security_huks.ParamSet.{check_param_set_tag, is_valid_tag, has_tag}
use security_huks.Check.Lists.{aes_key_size}
use security_huks.Prelude.{length, ◌≤◌, ◌<◌}
use security_huks.ParamSet.Tags.{tag_key_size, tag_unwrap_algorithm_suite}
use security_huks.Check.Values.{unwrap_suite_ecdh_aes_256_gcm_nopadding}
use security_huks.Check.Algorithms.{unwrap_suite}
use security_huks.Check.Import.{
  core_check_import_wrapped_key_params, core_check_import_wrapped_key_params_lem,
}
use security_huks.Wrapped.{Framed}
use security_huks.Prelude.{
  ℕ, ◌≡◌, refl, ◌↔◌, true, false, List, [], ◌∷◌, ◌==◌, elem, arith, replicate, ◌++◌,
}
use security_huks.Status.{success}
use security_huks.ParamSet.{
  Param, ParamSet, null, outside, get_param, lookup, check_param_set, check_blob, is_null,
  get_tag_type,
}
use security_huks.ParamSet.Tags.{tag_algorithm, tag_purpose, tag_block_mode, tag_iv}
use security_huks.Ipc.{le_u32}
use security_huks.Ipc.Service.{Abi}
use security_huks.Check.{ParamsValues, asks, use_key, uint32_param}
use security_huks.Check.Values.{
  alg_aes, alg_rsa, alg_ecc, cmd_id_encrypt, mode_cbc, key_type_key_pair, key_flag_import_key,
}
use security_huks.Check.Inputs.{get_input_params, get_required, get_optional_params}
use security_huks.Check.Lists.{aes_mode}
use security_huks.Check.Purpose.{check_gen_key_purpose}
use security_huks.Check.Accepted.{accepted, check_gen_key_purpose_iff}
use security_huks.Check.KeyMaterial.{check_import_key}
use security_huks.Check.Parts.{HoldsParts, parts, struct_size, check_import_key_lem}
use security_huks.Check.Chain.{Has}
use security_huks.Check.Request.{core_check_cipher_params}
use security_huks.Check.Sound.{AesRequest, core_check_cipher_params_lem}

check_gen_key_purpose_iff_example :
    (check_gen_key_purpose alg_ecc 64 key_flag_import_key ≡ success)
    ↔ (elem 64 (accepted alg_ecc (key_flag_import_key == key_flag_import_key)) ≡ true)
check_gen_key_purpose_iff_example =
    check_gen_key_purpose_iff alg_ecc 64 key_flag_import_key (omega arith)

-- AES in the mode CBC without padding.
abbrev aes_values : ParamsValues
aes_values =
    let w = (asks use_key false true true false true).param_values in
    record w { mode = record w.mode { value = mode_cbc } }

abbrev entry : ℕ → ℕ → Param
entry tag value = record { tag = tag; scalar = value; blob = record { size = 0; ptr = null } }

abbrev iv : Param
iv = record {
  tag = tag_iv;
  scalar = 0;
  blob = record { size = 16; ptr = outside (replicate 16 7) };
}

abbrev aes_request : ParamSet
aes_request = record {
  set_size = 144;
  params =
      entry tag_algorithm alg_aes ∷ entry tag_purpose 1 ∷ entry tag_block_mode mode_cbc ∷ iv ∷ [];
  payload = [];
}

abbrev any_abi : Abi
any_abi = record { layout = λ bs. aes_request }

aes_algorithm : Has aes_request tag_algorithm (λ p. uint32_param p ≡ alg_aes)
unfolding get_param lookup check_param_set get_tag_type
aes_algorithm = (entry tag_algorithm alg_aes, refl, refl)

aes_request_accepted :
    core_check_cipher_params any_abi cmd_id_encrypt [] aes_request 32 32 ≡ success
unfolding core_check_cipher_params get_param lookup check_param_set get_tag_type check_blob is_null
    elem get_input_params get_required get_optional_params aes_mode
aes_request_accepted = refl

core_check_cipher_params_lem_example : AesRequest cmd_id_encrypt aes_request 32 32
core_check_cipher_params_lem_example =
    core_check_cipher_params_lem any_abi cmd_id_encrypt [] aes_request 32 32 (omega arith)
      aes_algorithm aes_request_accepted

-- An RSA key whose three parts are one byte each.
abbrev word : ℕ → List ℕ
word n = n ∷ 0 ∷ 0 ∷ 0 ∷ []

abbrev rsa_values : ParamsValues
rsa_values =
    let w = (asks use_key false true true false true).param_values in
    record w { key_len = record w.key_len { value = 8 } }

abbrev rsa_key : List ℕ
rsa_key = word alg_rsa ++ (word 8 ++ (word 1 ++ (word 1 ++ (word 1 ++ (3 ∷ 5 ∷ 7 ∷ [])))))

rsa_key_accepted : check_import_key alg_rsa key_type_key_pair rsa_values rsa_key ≡ success
unfolding check_import_key le_u32
rsa_key_accepted = refl

check_import_key_lem_example :
    HoldsParts alg_rsa 8 rsa_key (parts alg_rsa rsa_key) (struct_size alg_rsa)
check_import_key_lem_example =
    check_import_key_lem alg_rsa key_type_key_pair rsa_values rsa_key rsa_key_accepted

-- A request to import a wrapped AES key, whose data are one part of one byte.
abbrev import_request : ParamSet
import_request = record {
  set_size = 104;
  params =
      entry tag_algorithm alg_aes
      ∷ entry tag_purpose 1
      ∷ entry tag_key_size 256
      ∷ entry tag_unwrap_algorithm_suite unwrap_suite_ecdh_aes_256_gcm_nopadding
      ∷ [];
  payload = [];
}

abbrev wrapping_key : List ℕ
wrapping_key = 5 ∷ []

abbrev wrapped : List ℕ
wrapped = 1 ∷ 0 ∷ 0 ∷ 0 ∷ 9 ∷ []

import_accepted :
    core_check_import_wrapped_key_params wrapping_key wrapped import_request
    ≡ ok unwrap_suite_ecdh_aes_256_gcm_nopadding
unfolding core_check_import_wrapped_key_params get_param lookup check_param_set get_tag_type le_u32
    elem get_input_params get_required get_optional_params check_param_set_tag is_valid_tag has_tag
    aes_key_size
import_accepted = refl

core_check_import_wrapped_key_params_lem_example :
    (0 < length wrapping_key)
    × ((ps : List (List ℕ)) × Framed wrapped ps × (length ps ≤ 10))
    × (elem unwrap_suite_ecdh_aes_256_gcm_nopadding unwrap_suite ≡ true)
core_check_import_wrapped_key_params_lem_example =
    core_check_import_wrapped_key_params_lem wrapping_key wrapped import_request
      unwrap_suite_ecdh_aes_256_gcm_nopadding import_accepted
