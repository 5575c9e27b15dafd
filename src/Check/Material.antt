-- ===== src/Check/Material.antt =====
-- The initial vector, additional data and nonce of a cipher request: CheckBlockCipherIvMaterial,
-- CheckCipherAeAadMaterial, CheckCipherAeNonceMaterial, CheckCipherAeMaterial and
-- HksCheckCipherMaterialParams of hks_base_check.c.
use security_huks.Prelude.{
  ℕ, Bool, false, not, ◌&&◌, ◌||◌, Option, some, [], ◌∷◌, ◌==◌, ltb, if◌then◌else◌, elem,
}
use security_huks.Status.{
  Status, success, param_not_exist, check_get_iv_fail, check_get_aad_fail, check_get_nonce_fail,
  invalid_iv, invalid_aad, invalid_nonce,
}
use security_huks.ParamSet.{Param, ParamSet, get_param, check_blob, is_null}
use security_huks.ParamSet.Tags.{tag_iv, tag_associated_data, tag_nonce}
use security_huks.Check.{ParamsValues, ◌>>◌, ◌or_code◌, Result, ok, error, ◌>>=◌, demand, code_of}
use security_huks.Check.Values.{
  aes_ccm_aad_len_min, aes_ccm_nonce_len_max, aes_ccm_nonce_len_min, aes_gcm_nonce_len_min, alg_aes,
  alg_sm4, block_cipher_cbc_iv_len, mode_cbc, mode_ccm, mode_cfb, mode_ctr, mode_gcm, mode_ofb,
}

-- What a search found, or the code `e`.
unfoldable pub found_or : Status × Option Param → Status → Result Param
found_or (success, some p) e = ok p
found_or (_, _) e = error e

unfoldable pub find_param : ParamSet → ℕ → Status → Result Param
unfolding found_or
find_param s tag e = found_or (get_param (some s) tag) e

unfoldable pub check_iv : Param → Status
unfolding is_null
check_iv p =
    if not (p.blob.size == block_cipher_cbc_iv_len) || is_null p.blob.ptr
    then invalid_iv
    else success

unfoldable pub check_block_cipher_iv_material : ParamSet → Status
unfolding find_param check_iv
check_block_cipher_iv_material s =
    code_of do p ← find_param s tag_iv check_get_iv_fail; demand (check_iv p)

unfoldable pub check_aad : ℕ → Param → Status
check_aad mode p =
    check_blob p.blob or_code invalid_aad
    >> (if (mode == mode_ccm) && ltb p.blob.size aes_ccm_aad_len_min then invalid_aad else success)

-- In the mode GCM the additional data may be missing.
unfoldable pub is_aad_optional : ℕ → Status → Bool
is_aad_optional mode param_not_exist = mode == mode_gcm
is_aad_optional mode _ = false

unfoldable pub check_found_aad : ℕ → Status × Option Param → Status
unfolding is_aad_optional found_or check_aad
check_found_aad mode r =
    if is_aad_optional mode r.0
    then success
    else code_of do p ← found_or r check_get_aad_fail; demand (check_aad mode p)

unfoldable pub check_cipher_ae_aad_material : ℕ → ParamSet → Status
unfolding check_found_aad
check_cipher_ae_aad_material mode s = check_found_aad mode (get_param (some s) tag_associated_data)

unfoldable pub check_nonce : ℕ → Param → Status
check_nonce mode p =
    check_blob p.blob or_code invalid_nonce
    >> (if mode == mode_gcm
        then (if ltb p.blob.size aes_gcm_nonce_len_min then invalid_nonce else success)
        else if mode == mode_ccm
        then (if ltb p.blob.size aes_ccm_nonce_len_min || ltb aes_ccm_nonce_len_max p.blob.size
            then invalid_nonce
            else success)
        else success)

unfoldable pub check_cipher_ae_nonce_material : ℕ → ParamSet → Status
unfolding find_param check_nonce
check_cipher_ae_nonce_material mode s =
    code_of do p ← find_param s tag_nonce check_get_nonce_fail; demand (check_nonce mode p)

unfoldable pub check_cipher_ae_material : ℕ → ParamSet → Status
unfolding check_cipher_ae_aad_material check_cipher_ae_nonce_material
check_cipher_ae_material mode s =
    check_cipher_ae_aad_material mode s >> check_cipher_ae_nonce_material mode s

unfoldable pub check_cipher_material_params : ℕ → ParamsValues → ParamSet → Status
unfolding check_block_cipher_iv_material check_cipher_ae_material
check_cipher_material_params alg v s =
    let mode = v.mode.value in
    if alg == alg_aes
    then (if mode == mode_cbc
        then check_block_cipher_iv_material s
        else if (mode == mode_ccm) || (mode == mode_gcm)
        then check_cipher_ae_material mode s
        else success)
    else if (alg == alg_sm4) && elem mode (mode_cbc ∷ mode_ctr ∷ mode_cfb ∷ mode_ofb ∷ [])
    then check_block_cipher_iv_material s
    else success
