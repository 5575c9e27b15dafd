-- ===== src/Check/Expected.antt =====
-- The values that hks_base_check.c accepts, for each algorithm and purpose of the check (struct
-- ExpectParamsValuesChecker): of the key size, padding, purpose, digest and mode.
use mathlib.Core.List.{List, [], ◌∷◌}
use security_huks.Check.{
  ExpectParamsValuesChecker, expects, among, unchecked, gen_key, use_key, gen_mac_key,
  gen_derive_key,
}
use security_huks.Check.Lists.{
  aes_key_size, aes_mac_key_size, aes_mode, aes_padding, curve25519_key_size, dh_key_size, digest,
  dsa_digest, ecc_digest, ecc_key_size, ecdh_key_size, hmac_digest, mac_digest, rsa_digest,
  rsa_key_size, rsa_padding, sm2_digest, sm2_key_size, sm3_digest, sm4_key_size, sm4_mode,
  sm4_padding, sm4_purpose,
}

unfoldable pub expect_rsa_params : List ExpectParamsValuesChecker
expect_rsa_params =
    expects gen_key (among rsa_key_size) (among rsa_padding) unchecked (among rsa_digest) unchecked
    ∷ expects use_key (among rsa_key_size) (among rsa_padding) unchecked (among rsa_digest)
        unchecked
    ∷ []

unfoldable pub expect_aes_params : List ExpectParamsValuesChecker
expect_aes_params =
    expects gen_key (among aes_key_size) (among aes_padding) unchecked unchecked (among aes_mode)
    ∷ expects use_key unchecked (among aes_padding) unchecked unchecked (among aes_mode)
    ∷ expects gen_mac_key (among aes_mac_key_size) unchecked unchecked (among mac_digest) unchecked
    ∷ expects gen_derive_key (among aes_key_size) unchecked unchecked (among digest) unchecked
    ∷ []

unfoldable pub expect_ecc_params : List ExpectParamsValuesChecker
expect_ecc_params =
    expects gen_key (among ecc_key_size) unchecked unchecked (among ecc_digest) unchecked
    ∷ expects use_key unchecked unchecked unchecked (among ecc_digest) unchecked
    ∷ []

unfoldable pub expect_sm2_params : List ExpectParamsValuesChecker
expect_sm2_params =
    expects gen_key (among sm2_key_size) unchecked unchecked (among sm2_digest) unchecked
    ∷ expects use_key (among sm2_key_size) unchecked unchecked (among sm2_digest) unchecked
    ∷ []

unfoldable pub expect_sm3_params : List ExpectParamsValuesChecker
expect_sm3_params =
    expects gen_key unchecked unchecked unchecked (among sm3_digest) unchecked
    ∷ expects gen_mac_key unchecked unchecked unchecked (among sm3_digest) unchecked
    ∷ []

unfoldable pub expect_sm4_params : List ExpectParamsValuesChecker
expect_sm4_params =
    expects gen_key (among sm4_key_size) (among sm4_padding) (among sm4_purpose) unchecked
      (among sm4_mode)
    ∷ expects use_key (among sm4_key_size) (among sm4_padding) (among sm4_purpose) unchecked
        (among sm4_mode)
    ∷ expects gen_derive_key (among sm4_key_size) unchecked unchecked (among sm3_digest) unchecked
    ∷ []

unfoldable pub expect_curve25519_params : List ExpectParamsValuesChecker
expect_curve25519_params =
    expects gen_key (among curve25519_key_size) unchecked unchecked unchecked unchecked
    ∷ expects use_key unchecked unchecked unchecked unchecked unchecked
    ∷ []

unfoldable pub expect_hmac_params : List ExpectParamsValuesChecker
expect_hmac_params =
    expects gen_key unchecked unchecked unchecked (among hmac_digest) unchecked
    ∷ expects use_key unchecked unchecked unchecked (among hmac_digest) unchecked
    ∷ expects gen_mac_key unchecked unchecked unchecked (among hmac_digest) unchecked
    ∷ []

unfoldable pub expect_dsa_params : List ExpectParamsValuesChecker
expect_dsa_params =
    expects gen_key unchecked unchecked unchecked (among dsa_digest) unchecked
    ∷ expects use_key unchecked unchecked unchecked (among dsa_digest) unchecked
    ∷ []

unfoldable pub expect_dh_params : List ExpectParamsValuesChecker
expect_dh_params =
    expects gen_key (among dh_key_size) unchecked unchecked unchecked unchecked
    ∷ expects use_key (among dh_key_size) unchecked unchecked unchecked unchecked
    ∷ []

unfoldable pub expect_ecdh_params : List ExpectParamsValuesChecker
expect_ecdh_params =
    expects gen_key (among ecdh_key_size) unchecked unchecked unchecked unchecked
    ∷ expects use_key (among ecdh_key_size) unchecked unchecked unchecked unchecked
    ∷ []
