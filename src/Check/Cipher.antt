-- ===== src/Check/Cipher.antt =====
-- The sizes of the data of a cipher request: CheckRsaNoPadCipherData, CheckRsaOaepCipherData,
-- CheckRsaCipherData, CheckBlockCbcCipherData, CheckAesAeCipherData, CheckBlockCipherData and
-- HksCheckCipherData of hks_base_check.c, and HksGetDigestLen of hks_common_check.c.
use security_huks.Prelude.{
  ℕ, ◌+◌, ◌-◌, ◌*◌, ◌/◌, ◌%◌, ◌^◌, Bool, not, ◌&&◌, ◌||◌, Option, none, some, ◌==◌, ltb, leb,
  if◌then◌else◌, elem, add32,
}
use security_huks.Status.{
  Status, success, invalid_argument, buffer_too_small, invalid_key_file, invalid_mode,
  invalid_digest, invalid_algorithm,
}
use security_huks.Check.{ParamsValues}
use security_huks.Check.Values.{
  ae_tag_len, alg_aes, alg_rsa, alg_sm2, alg_sm4, bits_per_byte, block_cipher_cbc_block_size,
  cmd_id_decrypt, cmd_id_encrypt, digest_md5, digest_md5_len, digest_none, digest_sha1,
  digest_sha1_len, digest_sha224, digest_sha224_len, digest_sha256, digest_sha256_len,
  digest_sha384, digest_sha384_len, digest_sha512, digest_sha512_len, digest_sm3, digest_sm3_len,
  mode_cbc, mode_ccm, mode_ctr, mode_ecb, mode_gcm, padding_none, padding_oaep, rsa_oaep_digest_num,
}
use security_huks.Check.Lists.{sm4_mode}

unfoldable pub get_digest_len : ℕ → Option ℕ
get_digest_len digest =
    if digest == digest_md5
    then some digest_md5_len
    else if digest == digest_sha1
    then some digest_sha1_len
    else if digest == digest_sha224
    then some digest_sha224_len
    else if digest == digest_sha256
    then some digest_sha256_len
    else if digest == digest_sha384
    then some digest_sha384_len
    else if digest == digest_sha512
    then some digest_sha512_len
    else if digest == digest_sm3
    then some digest_sm3_len
    else none

-- The checks below take the sizes of the two buffers.
unfoldable pub check_rsa_no_pad_cipher_data : ℕ → ℕ → ℕ → Status
check_rsa_no_pad_cipher_data key_size in_size out_size =
    if ltb key_size in_size
    then invalid_argument
    else if ltb out_size key_size
    then buffer_too_small
    else success

unfoldable pub check_rsa_oaep_sizes : ℕ → ℕ → ℕ → ℕ → ℕ → Status
check_rsa_oaep_sizes cmd_id key_size digest_len in_size out_size =
    let size = key_size - rsa_oaep_digest_num * digest_len - rsa_oaep_digest_num in
    if leb key_size (rsa_oaep_digest_num * digest_len + rsa_oaep_digest_num)
    then invalid_key_file
    else if cmd_id == cmd_id_encrypt
    then (if ltb size in_size
        then invalid_argument
        else if ltb out_size key_size
        then buffer_too_small
        else success)
    else if cmd_id == cmd_id_decrypt
    then (if ltb key_size in_size
        then invalid_argument
        else if ltb out_size size
        then buffer_too_small
        else success)
    else success

unfoldable pub check_rsa_oaep_cipher_data : ℕ → ℕ → ℕ → ℕ → ℕ → Status
unfolding get_digest_len check_rsa_oaep_sizes
check_rsa_oaep_cipher_data cmd_id key_size digest in_size out_size =
    elim (get_digest_len (if digest == digest_none then digest_sha1 else digest)) [
      | none ↦ invalid_digest
      | some digest_len ↦ check_rsa_oaep_sizes cmd_id key_size digest_len in_size out_size
    ]

unfoldable pub check_rsa_cipher_data : ℕ → ParamsValues → ℕ → ℕ → Status
unfolding check_rsa_no_pad_cipher_data check_rsa_oaep_cipher_data
check_rsa_cipher_data cmd_id v in_size out_size =
    let key_size = v.key_len.value / bits_per_byte in
    if v.padding.value == padding_none
    then check_rsa_no_pad_cipher_data key_size in_size out_size
    else if v.padding.value == padding_oaep
    then check_rsa_oaep_cipher_data cmd_id key_size v.digest.value in_size out_size
    else success

abbrev is_whole_blocks : ℕ → ℕ → Bool
is_whole_blocks mode in_size =
    not (
      ((mode == mode_cbc) || (mode == mode_ecb))
      && not (in_size % block_cipher_cbc_block_size == 0))

unfoldable pub check_block_encrypt : ℕ → ℕ → ℕ → ℕ → Status
check_block_encrypt mode padding in_size out_size =
    let padding_size = block_cipher_cbc_block_size - in_size % block_cipher_cbc_block_size in
    if padding == padding_none
    then (if not (is_whole_blocks mode in_size)
        then invalid_argument
        else if ltb out_size in_size
        then buffer_too_small
        else success)
    else if ltb (2 ^ 32 - 1 - padding_size) in_size
    then invalid_argument
    else if ltb out_size (add32 in_size padding_size)
    then buffer_too_small
    else success

unfoldable pub check_block_decrypt : ℕ → ℕ → ℕ → Status
check_block_decrypt mode in_size out_size =
    if not (is_whole_blocks mode in_size)
    then invalid_argument
    else if ltb out_size in_size
    then buffer_too_small
    else success

unfoldable pub check_block_cbc_cipher_data : ℕ → ℕ → ℕ → ℕ → ℕ → Status
unfolding check_block_encrypt check_block_decrypt
check_block_cbc_cipher_data mode cmd_id padding in_size out_size =
    if cmd_id == cmd_id_encrypt
    then check_block_encrypt mode padding in_size out_size
    else if cmd_id == cmd_id_decrypt
    then check_block_decrypt mode in_size out_size
    else invalid_argument

unfoldable pub check_aes_ae_cipher_data : ℕ → ℕ → ℕ → Status
check_aes_ae_cipher_data cmd_id in_size out_size =
    if cmd_id == cmd_id_encrypt
    then (if ltb (2 ^ 32 - 1 - ae_tag_len) in_size
        then invalid_argument
        else if ltb out_size (add32 in_size ae_tag_len)
        then buffer_too_small
        else success)
    else if cmd_id == cmd_id_decrypt
    then (if ltb in_size ae_tag_len || ltb out_size (in_size - ae_tag_len)
        then buffer_too_small
        else success)
    else invalid_argument

unfoldable pub check_block_cipher_data : ℕ → ParamsValues → ℕ → ℕ → ℕ → Status
unfolding check_block_cbc_cipher_data check_aes_ae_cipher_data sm4_mode
check_block_cipher_data cmd_id v in_size out_size alg =
    let mode = v.mode.value in
    let cbc = check_block_cbc_cipher_data mode cmd_id v.padding.value in_size out_size in
    if alg == alg_aes
    then (if (mode == mode_cbc) || (mode == mode_ctr) || (mode == mode_ecb)
        then cbc
        else if (mode == mode_gcm) || (mode == mode_ccm)
        then check_aes_ae_cipher_data cmd_id in_size out_size
        else invalid_mode)
    else if alg == alg_sm4
    then (if elem mode sm4_mode then cbc else invalid_mode)
    else invalid_mode

unfoldable pub check_cipher_data : ℕ → ℕ → ParamsValues → ℕ → ℕ → Status
unfolding check_rsa_cipher_data check_block_cipher_data
check_cipher_data cmd_id alg v in_size out_size =
    if alg == alg_rsa
    then check_rsa_cipher_data cmd_id v in_size out_size
    else if alg == alg_aes
    then check_block_cipher_data cmd_id v in_size out_size alg_aes
    else if alg == alg_sm4
    then check_block_cipher_data cmd_id v in_size out_size alg_sm4
    else if alg == alg_sm2
    then success
    else invalid_algorithm
