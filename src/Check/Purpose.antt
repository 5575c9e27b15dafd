-- ===== src/Check/Purpose.antt =====
-- The purposes that a key of an algorithm may have: CheckPurposeUnique, GetInvalidPurpose,
-- CheckPurposeValid and HksCheckGenKeyPurpose of hks_base_check.c.
use Prim.Native.Nat.{bit_or}
use security_huks.Prelude.{
  ℕ, ◌+◌, Bool, Option, none, some, List, [], ◌∷◌, ◌==◌, if◌then◌else◌, bits, has_bits,
}
use security_huks.Status.{
  Status, success, invalid_purpose as invalid_purpose_code, invalid_algorithm,
}
use security_huks.Check.{◌>>◌}
use security_huks.Check.Values.{
  alg_aes, alg_dh, alg_dsa, alg_ecc, alg_ecdh, alg_ed25519, alg_hmac, alg_rsa, alg_sm2, alg_sm3,
  alg_sm4, alg_x25519, key_flag_import_key, key_purpose_agree, key_purpose_decrypt,
  key_purpose_derive, key_purpose_encrypt, key_purpose_mac, key_purpose_sign, key_purpose_unwrap,
  key_purpose_verify, key_purpose_wrap,
}

unfoldable pub invalid_purpose : List (ℕ × ℕ)
invalid_purpose =
    (
      alg_rsa,
      bits (
          key_purpose_derive ∷ key_purpose_mac ∷ key_purpose_wrap ∷ key_purpose_unwrap
          ∷ key_purpose_agree ∷ []),
    )
    ∷ (
      alg_ecc,
      bits (
          key_purpose_derive ∷ key_purpose_mac ∷ key_purpose_wrap ∷ key_purpose_encrypt
          ∷ key_purpose_decrypt ∷ []),
    )
    ∷ (alg_sm2, bits (key_purpose_derive ∷ key_purpose_mac ∷ key_purpose_wrap ∷ []))
    ∷ (
      alg_sm3,
      bits (
          key_purpose_derive ∷ key_purpose_sign ∷ key_purpose_verify ∷ key_purpose_wrap
          ∷ key_purpose_unwrap ∷ key_purpose_encrypt ∷ key_purpose_decrypt ∷ key_purpose_agree
          ∷ []),
    )
    ∷ (
      alg_sm4,
      bits (
          key_purpose_sign ∷ key_purpose_verify ∷ key_purpose_wrap ∷ key_purpose_unwrap
          ∷ key_purpose_mac ∷ key_purpose_agree ∷ []),
    )
    ∷ (
      alg_aes,
      bits (
          key_purpose_sign ∷ key_purpose_verify ∷ key_purpose_agree ∷ key_purpose_wrap
          ∷ key_purpose_unwrap ∷ []),
    )
    ∷ (
      alg_ed25519,
      bits (
          key_purpose_derive ∷ key_purpose_mac ∷ key_purpose_wrap ∷ key_purpose_unwrap
          ∷ key_purpose_encrypt ∷ key_purpose_decrypt ∷ []),
    )
    ∷ (
      alg_x25519,
      bits (
          key_purpose_derive ∷ key_purpose_mac ∷ key_purpose_encrypt ∷ key_purpose_decrypt
          ∷ key_purpose_wrap ∷ []),
    )
    ∷ (
      alg_hmac,
      bits (
          key_purpose_derive ∷ key_purpose_sign ∷ key_purpose_verify ∷ key_purpose_wrap
          ∷ key_purpose_unwrap ∷ key_purpose_encrypt ∷ key_purpose_decrypt ∷ key_purpose_agree
          ∷ []),
    )
    ∷ (
      alg_dsa,
      bits (
          key_purpose_derive ∷ key_purpose_mac ∷ key_purpose_wrap ∷ key_purpose_unwrap
          ∷ key_purpose_encrypt ∷ key_purpose_decrypt ∷ key_purpose_agree ∷ []),
    )
    ∷ (
      alg_dh,
      bits (
          key_purpose_derive ∷ key_purpose_mac ∷ key_purpose_wrap ∷ key_purpose_unwrap
          ∷ key_purpose_encrypt ∷ key_purpose_decrypt ∷ key_purpose_sign ∷ key_purpose_verify ∷ []),
    )
    ∷ (
      alg_ecdh,
      bits (
          key_purpose_derive ∷ key_purpose_mac ∷ key_purpose_wrap ∷ key_purpose_unwrap
          ∷ key_purpose_encrypt ∷ key_purpose_decrypt ∷ key_purpose_sign ∷ key_purpose_verify ∷ []),
    )
    ∷ []

unfoldable pub invalid_import_key_purpose : List (ℕ × ℕ)
invalid_import_key_purpose =
    (alg_ecc, bits (key_purpose_wrap ∷ key_purpose_unwrap ∷ []))
    ∷ (alg_x25519, bits (key_purpose_wrap ∷ key_purpose_unwrap ∷ []))
    ∷ (alg_sm2, bits (key_purpose_wrap ∷ key_purpose_unwrap ∷ []))
    ∷ []

abbrev one_if : Bool → ℕ
one_if b = if b then 1 else 0

unfoldable pub purpose_count : ℕ → ℕ
purpose_count p =
    one_if (has_bits p (bits (key_purpose_encrypt ∷ key_purpose_decrypt ∷ [])))
    + one_if (has_bits p (bits (key_purpose_sign ∷ key_purpose_verify ∷ [])))
    + one_if (has_bits p key_purpose_derive)
    + one_if (has_bits p (bits (key_purpose_wrap ∷ key_purpose_unwrap ∷ [])))
    + one_if (has_bits p key_purpose_mac)
    + one_if (has_bits p key_purpose_agree)

unfoldable pub check_purpose_unique : ℕ → Status
unfolding purpose_count
check_purpose_unique input_purpose =
    if purpose_count input_purpose == 1 then success else invalid_purpose_code

-- The second column of the first row for an algorithm.
unfoldable pub row_of : ℕ → List (ℕ × ℕ) → Option ℕ
row_of alg [] = none
row_of alg ((a, p) ∷ rows) = let rest = row_of alg rows in if alg == a then some p else rest

-- `*inputPurpose |= …` of the rows for imported keys.
unfoldable pub add_row : ℕ → Option ℕ → ℕ
add_row p none = p
add_row p (some q) = bit_or p q

-- `GetInvalidPurpose`: no purpose is found where the algorithm has no row.
unfoldable pub get_invalid_purpose : ℕ → ℕ → Option ℕ
unfolding row_of add_row invalid_purpose invalid_import_key_purpose
get_invalid_purpose alg key_flag = elim (row_of alg invalid_purpose) [
  | none ↦ none
  | some p ↦ some (
      if key_flag == key_flag_import_key
      then add_row p (row_of alg invalid_import_key_purpose)
      else p)
]

unfoldable pub check_purpose_valid : ℕ → ℕ → ℕ → Status
unfolding get_invalid_purpose
check_purpose_valid alg input_purpose key_flag = elim (get_invalid_purpose alg key_flag) [
  | none ↦ invalid_algorithm
  | some q ↦ if has_bits input_purpose q then invalid_purpose_code else success
]

unfoldable pub check_gen_key_purpose : ℕ → ℕ → ℕ → Status
unfolding check_purpose_unique check_purpose_valid
check_gen_key_purpose alg input_purpose key_flag =
    check_purpose_unique input_purpose >> check_purpose_valid alg input_purpose key_flag
