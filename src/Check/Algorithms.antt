-- ===== src/Check/Algorithms.antt =====
-- The lists of accepted values of frameworks/huks_standard/main/common/src/hks_check_paramset.c, as
-- the standard build compiles it.
use Prim.Native.Nat.{ℕ}
use mathlib.Core.List.{List, [], ◌∷◌}
use security_huks.Check.Values.{
  aes_key_size_128, aes_key_size_192, aes_key_size_256, alg_aes, alg_dh, alg_dsa, alg_ecc, alg_ecdh,
  alg_ed25519, alg_gmkdf, alg_hkdf, alg_hmac, alg_pbkdf2, alg_rsa, alg_sm2, alg_sm3, alg_sm4,
  alg_x25519, digest_sha1, digest_sha224, digest_sha256, digest_sha384, digest_sha512, digest_sm3,
  rsa_key_size_1024, rsa_key_size_2048, rsa_key_size_3072, rsa_key_size_4096, rsa_key_size_512,
  rsa_key_size_768, unwrap_suite_ecdh_aes_256_gcm_nopadding, unwrap_suite_sm2_sm4_128_cbc_pkcs7,
  unwrap_suite_sm2_sm4_128_cbc_pkcs7_with_verify_dig_sm3, unwrap_suite_x25519_aes_256_gcm_nopadding,
}

unfoldable pub gen_key_alg : List ℕ
gen_key_alg =
    alg_rsa ∷ alg_aes ∷ alg_ecc ∷ alg_hmac ∷ alg_ed25519 ∷ alg_x25519 ∷ alg_dsa ∷ alg_dh ∷ alg_ecdh
    ∷ alg_sm3 ∷ alg_sm2 ∷ alg_sm4 ∷ []

unfoldable pub import_key_alg : List ℕ
import_key_alg =
    alg_rsa ∷ alg_aes ∷ alg_ecc ∷ alg_x25519 ∷ alg_ed25519 ∷ alg_dsa ∷ alg_dh ∷ alg_hmac ∷ alg_sm2
    ∷ alg_sm3 ∷ alg_sm4 ∷ []

unfoldable pub cipher_alg : List ℕ
cipher_alg = alg_rsa ∷ alg_aes ∷ alg_sm2 ∷ alg_sm4 ∷ []

unfoldable pub sign_alg : List ℕ
sign_alg = alg_rsa ∷ alg_dsa ∷ alg_ecc ∷ alg_ed25519 ∷ alg_sm2 ∷ []

unfoldable pub agree_alg : List ℕ
agree_alg = alg_x25519 ∷ alg_ecdh ∷ alg_dh ∷ []

unfoldable pub agree_alg_local : List ℕ
agree_alg_local = alg_ecdh ∷ alg_x25519 ∷ alg_dh ∷ []

unfoldable pub unwrap_suite : List ℕ
unwrap_suite =
    unwrap_suite_x25519_aes_256_gcm_nopadding ∷ unwrap_suite_ecdh_aes_256_gcm_nopadding
    ∷ unwrap_suite_sm2_sm4_128_cbc_pkcs7_with_verify_dig_sm3 ∷ unwrap_suite_sm2_sm4_128_cbc_pkcs7
    ∷ []

unfoldable pub derive_alg : List ℕ
derive_alg = alg_hkdf ∷ alg_pbkdf2 ∷ alg_gmkdf ∷ []

unfoldable pub derive_alg_local : List ℕ
derive_alg_local = alg_hkdf ∷ []

unfoldable pub digest_local : List ℕ
digest_local =
    digest_sha1 ∷ digest_sha224 ∷ digest_sha256 ∷ digest_sha384 ∷ digest_sha512 ∷ digest_sm3 ∷ []

unfoldable pub mac_digest_local : List ℕ
mac_digest_local =
    digest_sha1 ∷ digest_sha224 ∷ digest_sha256 ∷ digest_sha384 ∷ digest_sha512 ∷ digest_sm3 ∷ []

unfoldable pub aes_key_size_local : List ℕ
aes_key_size_local = aes_key_size_128 ∷ aes_key_size_192 ∷ aes_key_size_256 ∷ []

unfoldable pub rsa_key_size_local : List ℕ
rsa_key_size_local =
    rsa_key_size_512 ∷ rsa_key_size_768 ∷ rsa_key_size_1024 ∷ rsa_key_size_2048 ∷ rsa_key_size_3072
    ∷ rsa_key_size_4096 ∷ []

unfoldable pub cipher_alg_local : List ℕ
cipher_alg_local = alg_aes ∷ alg_rsa ∷ []

unfoldable pub symmetric_algorithm : List ℕ
symmetric_algorithm = alg_aes ∷ alg_hmac ∷ alg_sm3 ∷ alg_sm4 ∷ []
