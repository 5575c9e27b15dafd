-- ===== src/Check/Values/Sizes.antt =====
-- The sizes and limits of keys, digests and other data that hks_type_enum.h, hks_type.h and
-- hks_common_check.h, hks_base_check.c and hks_check_paramset.c name, without HKS.
use Prim.Native.Nat.{ℕ}

abbrev pub digest_md5_len : ℕ
digest_md5_len = 16

abbrev pub digest_sha1_len : ℕ
digest_sha1_len = 20

abbrev pub digest_sha224_len : ℕ
digest_sha224_len = 28

abbrev pub digest_sha256_len : ℕ
digest_sha256_len = 32

abbrev pub digest_sha384_len : ℕ
digest_sha384_len = 48

abbrev pub digest_sha512_len : ℕ
digest_sha512_len = 64

abbrev pub digest_sm3_len : ℕ
digest_sm3_len = 32

abbrev pub block_cipher_cbc_iv_len : ℕ
block_cipher_cbc_iv_len = 16

abbrev pub aes_ccm_aad_len_min : ℕ
aes_ccm_aad_len_min = 4

abbrev pub aes_ccm_nonce_len_min : ℕ
aes_ccm_nonce_len_min = 7

abbrev pub aes_ccm_nonce_len_max : ℕ
aes_ccm_nonce_len_max = 13

abbrev pub aes_gcm_nonce_len_min : ℕ
aes_gcm_nonce_len_min = 12

abbrev pub rsa_oaep_digest_num : ℕ
rsa_oaep_digest_num = 2

abbrev pub block_cipher_cbc_block_size : ℕ
block_cipher_cbc_block_size = 16

abbrev pub ecc_sign_max_tl_size : ℕ
ecc_sign_max_tl_size = 8

abbrev pub default_pbkdf2_iteration : ℕ
default_pbkdf2_iteration = 1000

abbrev pub max_pbkdf2_iteration : ℕ
max_pbkdf2_iteration = 524288

abbrev pub default_pbkdf2_salt_size : ℕ
default_pbkdf2_salt_size = 16

abbrev pub bits_per_byte : ℕ
bits_per_byte = 8

abbrev pub max_key_size : ℕ
max_key_size = 2048

abbrev pub ae_tag_len : ℕ
ae_tag_len = 16

abbrev pub signature_min_size : ℕ
signature_min_size = 64

abbrev pub wrapped_format_max_size : ℕ
wrapped_format_max_size = 1048576

abbrev pub import_wrapped_key_total_blobs : ℕ
import_wrapped_key_total_blobs = 10

abbrev pub rsa_key_size_512 : ℕ
rsa_key_size_512 = 512

abbrev pub rsa_key_size_768 : ℕ
rsa_key_size_768 = 768

abbrev pub rsa_key_size_1024 : ℕ
rsa_key_size_1024 = 1024

abbrev pub rsa_key_size_2048 : ℕ
rsa_key_size_2048 = 2048

abbrev pub rsa_key_size_3072 : ℕ
rsa_key_size_3072 = 3072

abbrev pub rsa_key_size_4096 : ℕ
rsa_key_size_4096 = 4096

abbrev pub ecc_key_size_224 : ℕ
ecc_key_size_224 = 224

abbrev pub ecc_key_size_256 : ℕ
ecc_key_size_256 = 256

abbrev pub ecc_key_size_384 : ℕ
ecc_key_size_384 = 384

abbrev pub ecc_key_size_521 : ℕ
ecc_key_size_521 = 521

abbrev pub aes_key_size_128 : ℕ
aes_key_size_128 = 128

abbrev pub aes_key_size_192 : ℕ
aes_key_size_192 = 192

abbrev pub aes_key_size_256 : ℕ
aes_key_size_256 = 256

abbrev pub curve25519_key_size_256 : ℕ
curve25519_key_size_256 = 256

abbrev pub dh_key_size_2048 : ℕ
dh_key_size_2048 = 2048

abbrev pub dh_key_size_3072 : ℕ
dh_key_size_3072 = 3072

abbrev pub dh_key_size_4096 : ℕ
dh_key_size_4096 = 4096

abbrev pub sm2_key_size_256 : ℕ
sm2_key_size_256 = 256

abbrev pub sm4_key_size_128 : ℕ
sm4_key_size_128 = 128
