-- ===== src/Check/Lists.antt =====
-- The lists of accepted values of frameworks/huks_standard/main/common/src/hks_base_check.c, as the
-- standard build compiles it (hks_config.h, which has no DES, 3DES and CMAC).
use Prim.Native.Nat.{ℕ}
use mathlib.Core.List.{List, [], ◌∷◌}
use security_huks.Check.Values.{
  aes_key_size_128, aes_key_size_192, aes_key_size_256, auth_access_always_valid,
  auth_access_invalid_clear_password, auth_access_invalid_new_bio_enroll, challenge_type_custom,
  challenge_type_none, challenge_type_normal, curve25519_key_size_256, dh_key_size_2048,
  dh_key_size_3072, dh_key_size_4096, digest_md5, digest_none, digest_sha1, digest_sha224,
  digest_sha256, digest_sha384, digest_sha512, digest_sm3, ecc_key_size_224, ecc_key_size_256,
  ecc_key_size_384, ecc_key_size_521, key_purpose_decrypt, key_purpose_derive, key_purpose_encrypt,
  key_purpose_mac, mode_cbc, mode_ccm, mode_cfb, mode_ctr, mode_ecb, mode_gcm, mode_ofb,
  padding_iso_iec_9796_2, padding_none, padding_oaep, padding_pkcs1_v1_5, padding_pkcs7,
  padding_pss, rsa_key_size_1024, rsa_key_size_2048, rsa_key_size_3072, rsa_key_size_4096,
  rsa_key_size_512, rsa_key_size_768, secure_sign_with_authinfo, sm2_key_size_256, sm4_key_size_128,
  user_auth_type_face, user_auth_type_fingerprint, user_auth_type_pin,
}
use security_huks.Prelude.{bits}

unfoldable pub rsa_key_size : List ℕ
rsa_key_size =
    rsa_key_size_512 ∷ rsa_key_size_768 ∷ rsa_key_size_1024 ∷ rsa_key_size_2048 ∷ rsa_key_size_3072
    ∷ rsa_key_size_4096 ∷ []

unfoldable pub rsa_padding : List ℕ
rsa_padding =
    padding_none ∷ padding_oaep ∷ padding_pss ∷ padding_pkcs1_v1_5 ∷ padding_iso_iec_9796_2 ∷ []

unfoldable pub rsa_digest : List ℕ
rsa_digest =
    digest_md5 ∷ digest_none ∷ digest_sha1 ∷ digest_sha224 ∷ digest_sha256 ∷ digest_sha384
    ∷ digest_sha512 ∷ []

unfoldable pub rsa_sign_padding : List ℕ
rsa_sign_padding = padding_pss ∷ padding_pkcs1_v1_5 ∷ padding_iso_iec_9796_2 ∷ []

unfoldable pub rsa_cipher_padding : List ℕ
rsa_cipher_padding = padding_none ∷ padding_oaep ∷ padding_pkcs1_v1_5 ∷ padding_iso_iec_9796_2 ∷ []

unfoldable pub aes_key_size : List ℕ
aes_key_size = aes_key_size_128 ∷ aes_key_size_192 ∷ aes_key_size_256 ∷ []

unfoldable pub aes_mac_key_size : List ℕ
aes_mac_key_size = aes_key_size_256 ∷ []

unfoldable pub aes_padding : List ℕ
aes_padding = padding_none ∷ padding_pkcs7 ∷ []

unfoldable pub aes_mode : List ℕ
aes_mode = mode_cbc ∷ mode_ccm ∷ mode_ctr ∷ mode_ecb ∷ mode_gcm ∷ []

unfoldable pub aes_cbc_padding : List ℕ
aes_cbc_padding = padding_none ∷ padding_pkcs7 ∷ []

unfoldable pub aes_aead_padding : List ℕ
aes_aead_padding = padding_none ∷ []

unfoldable pub aes_ctr_padding : List ℕ
aes_ctr_padding = padding_none ∷ []

unfoldable pub aes_ecb_padding : List ℕ
aes_ecb_padding = padding_none ∷ padding_pkcs7 ∷ []

unfoldable pub sm4_key_size : List ℕ
sm4_key_size = sm4_key_size_128 ∷ []

unfoldable pub sm4_padding : List ℕ
sm4_padding = padding_none ∷ padding_pkcs7 ∷ []

unfoldable pub sm4_purpose : List ℕ
sm4_purpose =
    key_purpose_encrypt
    ∷ key_purpose_decrypt
    ∷ bits (key_purpose_encrypt ∷ key_purpose_decrypt ∷ [])
    ∷ []

unfoldable pub sm4_mode : List ℕ
sm4_mode = mode_cbc ∷ mode_ctr ∷ mode_ecb ∷ mode_cfb ∷ mode_ofb ∷ []

unfoldable pub sm4_cbc_padding : List ℕ
sm4_cbc_padding = padding_none ∷ padding_pkcs7 ∷ []

unfoldable pub sm4_ctr_padding : List ℕ
sm4_ctr_padding = padding_none ∷ []

unfoldable pub sm4_ecb_padding : List ℕ
sm4_ecb_padding = padding_none ∷ padding_pkcs7 ∷ []

unfoldable pub sm4_cfb_padding : List ℕ
sm4_cfb_padding = padding_none ∷ []

unfoldable pub sm4_ofb_padding : List ℕ
sm4_ofb_padding = padding_none ∷ []

unfoldable pub ecc_key_size : List ℕ
ecc_key_size = ecc_key_size_224 ∷ ecc_key_size_256 ∷ ecc_key_size_384 ∷ ecc_key_size_521 ∷ []

unfoldable pub ecc_digest : List ℕ
ecc_digest =
    digest_none ∷ digest_sha1 ∷ digest_sha224 ∷ digest_sha256 ∷ digest_sha384 ∷ digest_sha512 ∷ []

unfoldable pub sm2_key_size : List ℕ
sm2_key_size = sm2_key_size_256 ∷ []

unfoldable pub sm2_digest : List ℕ
sm2_digest = digest_sm3 ∷ digest_none ∷ []

unfoldable pub sm2_cipher_padding : List ℕ
sm2_cipher_padding = padding_none ∷ []

unfoldable pub sm3_digest : List ℕ
sm3_digest = digest_sm3 ∷ []

unfoldable pub digest : List ℕ
digest = digest_sha256 ∷ digest_sha384 ∷ digest_sha512 ∷ []

unfoldable pub mac_digest : List ℕ
mac_digest = digest_sha256 ∷ []

unfoldable pub ecdh_key_size : List ℕ
ecdh_key_size = ecc_key_size_224 ∷ ecc_key_size_256 ∷ ecc_key_size_384 ∷ ecc_key_size_521 ∷ []

unfoldable pub curve25519_key_size : List ℕ
curve25519_key_size = curve25519_key_size_256 ∷ []

unfoldable pub hmac_digest : List ℕ
hmac_digest =
    digest_sha1 ∷ digest_sha224 ∷ digest_sha256 ∷ digest_sha384 ∷ digest_sha512 ∷ digest_sm3 ∷ []

unfoldable pub dsa_digest : List ℕ
dsa_digest =
    digest_none ∷ digest_sha1 ∷ digest_sha224 ∷ digest_sha256 ∷ digest_sha384 ∷ digest_sha512 ∷ []

unfoldable pub dh_key_size : List ℕ
dh_key_size = dh_key_size_2048 ∷ dh_key_size_3072 ∷ dh_key_size_4096 ∷ []

unfoldable pub user_auth_challenge_type : List ℕ
user_auth_challenge_type = challenge_type_normal ∷ challenge_type_custom ∷ challenge_type_none ∷ []

unfoldable pub valid_biometric_auth_access_type : List ℕ
valid_biometric_auth_access_type =
    auth_access_invalid_new_bio_enroll ∷ auth_access_invalid_clear_password
    ∷ auth_access_always_valid ∷ []

unfoldable pub valid_pin_auth_access_type : List ℕ
valid_pin_auth_access_type = auth_access_invalid_clear_password ∷ auth_access_always_valid ∷ []

unfoldable pub support_user_auth_types : List ℕ
support_user_auth_types =
    user_auth_type_pin
    ∷ user_auth_type_fingerprint
    ∷ user_auth_type_face
    ∷ bits (user_auth_type_pin ∷ user_auth_type_fingerprint ∷ [])
    ∷ bits (user_auth_type_pin ∷ user_auth_type_face ∷ [])
    ∷ bits (user_auth_type_face ∷ user_auth_type_fingerprint ∷ [])
    ∷ bits (user_auth_type_pin ∷ user_auth_type_face ∷ user_auth_type_fingerprint ∷ [])
    ∷ []

unfoldable pub support_secure_sign_type : List ℕ
support_secure_sign_type = secure_sign_with_authinfo ∷ []

unfoldable pub support_aes_purpose : List ℕ
support_aes_purpose =
    key_purpose_encrypt
    ∷ key_purpose_decrypt
    ∷ bits (key_purpose_encrypt ∷ key_purpose_decrypt ∷ [])
    ∷ key_purpose_derive
    ∷ key_purpose_mac
    ∷ []

unfoldable pub support_aes_cipher_mode : List ℕ
support_aes_cipher_mode = mode_cbc ∷ mode_gcm ∷ mode_ccm ∷ []

unfoldable pub support_sm4_purpose : List ℕ
support_sm4_purpose =
    key_purpose_encrypt
    ∷ key_purpose_decrypt
    ∷ bits (key_purpose_encrypt ∷ key_purpose_decrypt ∷ [])
    ∷ []

unfoldable pub support_sm4_cipher_mode : List ℕ
support_sm4_cipher_mode = mode_cbc ∷ []
