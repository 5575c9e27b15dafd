-- ===== src/Check/Padding.antt =====
-- The paddings that go with a mode or a purpose, and the checks of sign, verify and cipher
-- requests that depend on them: CheckRsaGenKeyPadding, CheckAesPadding, CheckSm4Padding,
-- HksCheckGenKeyMutableParams, CheckImportMutableParams, HksCheckSignVerifyMutableParams and
-- HksCheckCipherMutableParams of hks_base_check.c.
use security_huks.Prelude.{ℕ, ◌||◌, List, [], ◌∷◌, ◌==◌, if◌then◌else◌, bits, has_bits, elem}
use security_huks.Status.{Status, success, invalid_argument, invalid_padding, invalid_purpose}
use security_huks.Check.{ParamsValues, ◌>>◌, ◌or_code◌, check_value}
use security_huks.Check.Values.{
  alg_aes, alg_dsa, alg_ecc, alg_ed25519, alg_rsa, alg_sm2, alg_sm4, cmd_id_decrypt, cmd_id_encrypt,
  cmd_id_sign, cmd_id_verify, key_purpose_agree, key_purpose_decrypt, key_purpose_encrypt,
  key_purpose_sign, key_purpose_unwrap, key_purpose_verify, mode_cbc, mode_ccm, mode_cfb, mode_ctr,
  mode_ecb, mode_gcm, mode_ofb,
}
use security_huks.Check.Lists.{
  rsa_cipher_padding, rsa_sign_padding, aes_cbc_padding, aes_ctr_padding, aes_ecb_padding,
  aes_aead_padding, sm4_cbc_padding, sm4_ctr_padding, sm4_ecb_padding, sm4_cfb_padding,
  sm4_ofb_padding, sm2_cipher_padding,
}

unfoldable pub check_rsa_gen_key_padding : ParamsValues → Status
unfolding check_value rsa_cipher_padding rsa_sign_padding
check_rsa_gen_key_padding v =
    if v.padding.is_absent
    then success
    else if has_bits v.purpose.value (bits (key_purpose_encrypt ∷ key_purpose_decrypt ∷ []))
    then check_value v.padding.value rsa_cipher_padding
    else if has_bits v.purpose.value (bits (key_purpose_sign ∷ key_purpose_verify ∷ []))
    then check_value v.padding.value rsa_sign_padding
    else success

unfoldable pub check_aes_padding : ParamsValues → Status
unfolding check_value aes_cbc_padding aes_ctr_padding aes_ecb_padding aes_aead_padding
check_aes_padding v =
    if v.mode.is_absent || v.padding.is_absent
    then success
    else if v.mode.value == mode_cbc
    then check_value v.padding.value aes_cbc_padding
    else if v.mode.value == mode_ctr
    then check_value v.padding.value aes_ctr_padding
    else if v.mode.value == mode_ecb
    then check_value v.padding.value aes_ecb_padding
    else if (v.mode.value == mode_gcm) || (v.mode.value == mode_ccm)
    then check_value v.padding.value aes_aead_padding
    else success

unfoldable pub check_sm4_padding : ParamsValues → Status
unfolding check_value sm4_cbc_padding sm4_ctr_padding sm4_ecb_padding sm4_cfb_padding
    sm4_ofb_padding
check_sm4_padding v =
    if v.mode.is_absent || v.padding.is_absent
    then success
    else if v.mode.value == mode_cbc
    then check_value v.padding.value sm4_cbc_padding
    else if v.mode.value == mode_ctr
    then check_value v.padding.value sm4_ctr_padding
    else if v.mode.value == mode_ecb
    then check_value v.padding.value sm4_ecb_padding
    else if v.mode.value == mode_cfb
    then check_value v.padding.value sm4_cfb_padding
    else if v.mode.value == mode_ofb
    then check_value v.padding.value sm4_ofb_padding
    else invalid_argument

unfoldable pub check_gen_key_mutable_params : ℕ → ParamsValues → Status
unfolding check_rsa_gen_key_padding check_aes_padding check_sm4_padding
check_gen_key_mutable_params alg v =
    if alg == alg_rsa
    then check_rsa_gen_key_padding v or_code invalid_padding
    else if alg == alg_aes
    then check_aes_padding v or_code invalid_padding
    else if alg == alg_sm4
    then check_sm4_padding v or_code invalid_padding
    else success

-- A purpose that is none of those that an imported public key may have.
unfoldable pub is_import_purpose : ℕ → List ℕ → Status
is_import_purpose purpose allowed = if elem purpose allowed then success else invalid_purpose

unfoldable pub check_import_rsa_padding : ParamsValues → Status
unfolding check_value rsa_cipher_padding rsa_sign_padding
check_import_rsa_padding v =
    if v.padding.is_absent
    then success
    else if v.purpose.value == key_purpose_encrypt
    then check_value v.padding.value rsa_cipher_padding
    else if v.purpose.value == key_purpose_verify
    then check_value v.padding.value rsa_sign_padding
    else success

unfoldable pub check_import_mutable_params : ℕ → ParamsValues → Status
unfolding is_import_purpose check_import_rsa_padding
check_import_mutable_params alg v =
    let purpose = v.purpose.value in
    if (alg == alg_dsa) || (alg == alg_ed25519)
    then is_import_purpose purpose (key_purpose_verify ∷ [])
    else if alg == alg_sm2
    then is_import_purpose purpose (key_purpose_verify ∷ key_purpose_encrypt ∷ [])
    else if alg == alg_ecc
    then is_import_purpose purpose
        (key_purpose_verify ∷ key_purpose_unwrap ∷ key_purpose_agree ∷ [])
    else if alg == alg_rsa
    then is_import_purpose purpose (key_purpose_verify ∷ key_purpose_encrypt ∷ [])
      >> check_import_rsa_padding v
    else success

unfoldable pub check_purpose_bit : ParamsValues → ℕ → Status
check_purpose_bit v bit = if has_bits v.purpose.value bit then success else invalid_purpose

unfoldable pub check_sign_verify_mutable_params : ℕ → ℕ → ParamsValues → Status
unfolding check_value rsa_sign_padding check_purpose_bit
check_sign_verify_mutable_params cmd_id alg v =
    (if cmd_id == cmd_id_sign
      then check_purpose_bit v key_purpose_sign
      else if cmd_id == cmd_id_verify
      then check_purpose_bit v key_purpose_verify
      else invalid_argument)
    >> (if alg == alg_rsa
        then check_value v.padding.value rsa_sign_padding or_code invalid_padding
        else success)

-- The switch over the algorithm; DES and 3DES are those of a build without them, where no case of
-- their own is compiled.
unfoldable pub check_cipher_padding : ℕ → ParamsValues → Status
unfolding check_value rsa_cipher_padding check_aes_padding check_sm4_padding sm2_cipher_padding
check_cipher_padding alg v =
    if alg == alg_rsa
    then check_value v.padding.value rsa_cipher_padding
    else if alg == alg_aes
    then check_aes_padding v
    else if alg == alg_sm4
    then check_sm4_padding v
    else if alg == alg_sm2
    then check_value v.padding.value sm2_cipher_padding
    else invalid_padding

unfoldable pub check_cipher_mutable_params : ℕ → ℕ → ParamsValues → Status
unfolding check_cipher_padding check_purpose_bit
check_cipher_mutable_params cmd_id alg v =
    (if cmd_id == cmd_id_encrypt
      then check_purpose_bit v key_purpose_encrypt
      else if cmd_id == cmd_id_decrypt
      then check_purpose_bit v key_purpose_decrypt
      else invalid_argument)
    >> (check_cipher_padding alg v or_code invalid_padding)
