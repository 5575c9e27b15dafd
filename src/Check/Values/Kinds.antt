-- ===== src/Check/Values/Kinds.antt =====
-- What a key is for, what is asked of it, and who may use it: enumerations of
-- interfaces/inner_api/huks_standard/main/include/hks_type_enum.h and
-- frameworks/huks_standard/main/common/include/hks_cmd_id.h, by their names without HKS.
use Prim.Native.Nat.{ℕ}

abbrev pub cmd_id_sign : ℕ
cmd_id_sign = 258

abbrev pub cmd_id_verify : ℕ
cmd_id_verify = 262

abbrev pub cmd_id_encrypt : ℕ
cmd_id_encrypt = 270

abbrev pub cmd_id_decrypt : ℕ
cmd_id_decrypt = 274

abbrev pub key_purpose_encrypt : ℕ
key_purpose_encrypt = 1

abbrev pub key_purpose_decrypt : ℕ
key_purpose_decrypt = 2

abbrev pub key_purpose_sign : ℕ
key_purpose_sign = 4

abbrev pub key_purpose_verify : ℕ
key_purpose_verify = 8

abbrev pub key_purpose_derive : ℕ
key_purpose_derive = 16

abbrev pub key_purpose_wrap : ℕ
key_purpose_wrap = 32

abbrev pub key_purpose_unwrap : ℕ
key_purpose_unwrap = 64

abbrev pub key_purpose_mac : ℕ
key_purpose_mac = 128

abbrev pub key_purpose_agree : ℕ
key_purpose_agree = 256

abbrev pub alg_rsa : ℕ
alg_rsa = 1

abbrev pub alg_ecc : ℕ
alg_ecc = 2

abbrev pub alg_dsa : ℕ
alg_dsa = 3

abbrev pub alg_aes : ℕ
alg_aes = 20

abbrev pub alg_hmac : ℕ
alg_hmac = 50

abbrev pub alg_hkdf : ℕ
alg_hkdf = 51

abbrev pub alg_pbkdf2 : ℕ
alg_pbkdf2 = 52

abbrev pub alg_gmkdf : ℕ
alg_gmkdf = 53

abbrev pub alg_ecdh : ℕ
alg_ecdh = 100

abbrev pub alg_x25519 : ℕ
alg_x25519 = 101

abbrev pub alg_ed25519 : ℕ
alg_ed25519 = 102

abbrev pub alg_dh : ℕ
alg_dh = 103

abbrev pub alg_sm2 : ℕ
alg_sm2 = 150

abbrev pub alg_sm3 : ℕ
alg_sm3 = 151

abbrev pub alg_sm4 : ℕ
alg_sm4 = 152

abbrev pub alg_des : ℕ
alg_des = 160

abbrev pub alg_3des : ℕ
alg_3des = 161

abbrev pub alg_cmac : ℕ
alg_cmac = 162

abbrev pub unwrap_suite_x25519_aes_256_gcm_nopadding : ℕ
unwrap_suite_x25519_aes_256_gcm_nopadding = 1

abbrev pub unwrap_suite_ecdh_aes_256_gcm_nopadding : ℕ
unwrap_suite_ecdh_aes_256_gcm_nopadding = 2

abbrev pub unwrap_suite_sm2_sm4_128_cbc_pkcs7_with_verify_dig_sm3 : ℕ
unwrap_suite_sm2_sm4_128_cbc_pkcs7_with_verify_dig_sm3 = 3

abbrev pub unwrap_suite_sm2_sm4_128_cbc_pkcs7 : ℕ
unwrap_suite_sm2_sm4_128_cbc_pkcs7 = 4

abbrev pub key_flag_import_key : ℕ
key_flag_import_key = 1

abbrev pub key_flag_generate_key : ℕ
key_flag_generate_key = 2

abbrev pub key_type_public_key : ℕ
key_type_public_key = 0

abbrev pub key_type_private_key : ℕ
key_type_private_key = 1

abbrev pub key_type_key_pair : ℕ
key_type_key_pair = 2

abbrev pub user_auth_type_fingerprint : ℕ
user_auth_type_fingerprint = 1

abbrev pub user_auth_type_face : ℕ
user_auth_type_face = 2

abbrev pub user_auth_type_pin : ℕ
user_auth_type_pin = 4

abbrev pub auth_access_invalid_clear_password : ℕ
auth_access_invalid_clear_password = 1

abbrev pub auth_access_invalid_new_bio_enroll : ℕ
auth_access_invalid_new_bio_enroll = 2

abbrev pub auth_access_always_valid : ℕ
auth_access_always_valid = 4

abbrev pub challenge_type_normal : ℕ
challenge_type_normal = 0

abbrev pub challenge_type_custom : ℕ
challenge_type_custom = 1

abbrev pub challenge_type_none : ℕ
challenge_type_none = 2

abbrev pub secure_sign_with_authinfo : ℕ
secure_sign_with_authinfo = 1
