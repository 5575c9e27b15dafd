-- ===== src/Check/Signature.antt =====
-- The sizes of keys and signatures: HksCheckParamSetValidity of hks_common_check.c, and
-- CheckAndGetKeySize, HksGetDsaKeySize, HksGetKeySize, CheckEccSignature, CheckEd25519Signature,
-- CheckRsaSignature and HksCheckSignature of hks_base_check.c. The standard build has no
-- HKS_SUPPORT_RSA_C_FLEX_KEYSIZE. A key is the bytes of a parameter set.
use security_huks.Prelude.{
  ℕ, ◌+◌, ◌/◌, ◌%◌, ◌||◌, Option, none, some, List, length, ◌==◌, ltb, if◌then◌else◌,
}
use security_huks.Status.{
  Status, success, null_pointer, invalid_argument, invalid_key_file, invalid_algorithm,
  buffer_too_small, invalid_signature_size,
}
use security_huks.ParamSet.{ParamSet, header_size, check_param_set, check_param_set_tag}
use security_huks.ParamSet.Tags.{tag_key_size}
use security_huks.Check.{
  ◌>>◌, ◌or_code◌, Result, error, ◌>>=◌, return, demand, uint32_param, check_value,
}
use security_huks.Check.Values.{
  alg_dh, alg_dsa, alg_ecc, alg_ecdh, alg_ed25519, alg_rsa, alg_sm2, alg_sm4, alg_x25519,
  bits_per_byte, cmd_id_sign, cmd_id_verify, ecc_sign_max_tl_size, signature_min_size,
}
use security_huks.Check.Lists.{
  rsa_key_size, ecc_key_size, ecdh_key_size, curve25519_key_size, dh_key_size, sm4_key_size,
  sm2_key_size,
}
use security_huks.Check.Material.{find_param}
use security_huks.Ipc.Service.{Abi}

unfoldable pub check_param_set_validity : Option ParamSet → Status
check_param_set_validity none = null_pointer
check_param_set_validity (some s) =
    check_param_set (some s) s.set_size or_code invalid_argument >> check_param_set_tag (some s)

-- `CheckAndGetKeySize`; without a list of sizes, `HksGetDsaKeySize`.
unfoldable pub check_and_get_key_size : Abi → List ℕ → Option (List ℕ) → Result ℕ
unfolding check_param_set_validity find_param check_value
check_and_get_key_size abi key sizes = do
  _ ← demand (if ltb (length key) header_size then invalid_key_file else success)
  _ ← demand (check_param_set_validity (some (abi.layout key)) or_code invalid_key_file)
  p ← find_param (abi.layout key) tag_key_size invalid_key_file
  _ ← demand (elim sizes [
    | none ↦ success
    | some ss ↦ check_value (uint32_param p) ss or_code invalid_key_file
  ])
  return (uint32_param p)

unfoldable pub get_key_size : Abi → ℕ → List ℕ → Result ℕ
unfolding check_and_get_key_size rsa_key_size ecc_key_size ecdh_key_size curve25519_key_size
    dh_key_size sm4_key_size sm2_key_size
get_key_size abi alg key =
    if alg == alg_rsa
    then check_and_get_key_size abi key (some rsa_key_size)
    else if alg == alg_dsa
    then check_and_get_key_size abi key none
    else if alg == alg_ecc
    then check_and_get_key_size abi key (some ecc_key_size)
    else if alg == alg_ecdh
    then check_and_get_key_size abi key (some ecdh_key_size)
    else if (alg == alg_x25519) || (alg == alg_ed25519)
    then check_and_get_key_size abi key (some curve25519_key_size)
    else if alg == alg_dh
    then check_and_get_key_size abi key (some dh_key_size)
    else if alg == alg_sm4
    then check_and_get_key_size abi key (some sm4_key_size)
    else if alg == alg_sm2
    then check_and_get_key_size abi key (some sm2_key_size)
    else error invalid_algorithm

-- The bytes of one of the two numbers of a signature.
unfoldable pub ecc_sign_size : ℕ → ℕ
ecc_sign_size key_size = key_size / bits_per_byte + key_size % bits_per_byte

unfoldable pub check_ecc_signature : ℕ → ℕ → ℕ → Status
unfolding ecc_sign_size
check_ecc_signature cmd_id key_size signature_size =
    let size = ecc_sign_size key_size + ecc_sign_size key_size + ecc_sign_max_tl_size in
    if cmd_id == cmd_id_sign
    then (if ltb signature_size size then buffer_too_small else success)
    else if cmd_id == cmd_id_verify
    then (if ltb size signature_size then invalid_signature_size else success)
    else invalid_argument

unfoldable pub check_ed25519_signature : ℕ → ℕ → Status
check_ed25519_signature cmd_id signature_size =
    if cmd_id == cmd_id_sign
    then (if ltb signature_size signature_min_size then buffer_too_small else success)
    else if cmd_id == cmd_id_verify
    then (if ltb signature_size signature_min_size then invalid_signature_size else success)
    else invalid_argument

unfoldable pub check_rsa_signature : ℕ → ℕ → ℕ → Status
check_rsa_signature cmd_id key_size signature_size =
    if cmd_id == cmd_id_sign
    then (if ltb signature_size (key_size / bits_per_byte) then buffer_too_small else success)
    else if cmd_id == cmd_id_verify
    then (if ltb (key_size / bits_per_byte) signature_size then invalid_signature_size else success)
    else invalid_argument

unfoldable pub check_signature : ℕ → ℕ → ℕ → ℕ → Status
unfolding check_value rsa_key_size ecc_key_size sm2_key_size check_rsa_signature check_ecc_signature
    check_ed25519_signature
check_signature cmd_id alg key_size signature_size =
    if alg == alg_rsa
    then check_value key_size rsa_key_size or_code invalid_argument
      >> check_rsa_signature cmd_id key_size signature_size
    else if alg == alg_dsa
    then success
    else if alg == alg_ecc
    then check_value key_size ecc_key_size or_code invalid_argument
      >> check_ecc_signature cmd_id key_size signature_size
    else if alg == alg_ed25519
    then check_ed25519_signature cmd_id signature_size
    else if alg == alg_sm2
    then check_value key_size sm2_key_size or_code invalid_argument
      >> check_ecc_signature cmd_id key_size signature_size
    else invalid_algorithm
