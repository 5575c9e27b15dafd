-- ===== src/Asn1/PublicKey.antt =====
-- services/huks_standard/huks_engine/main/device_cert_manager/src/dcm_attest_utils.c: the public key
-- and the claims of an attestation certificate. The public key of `struct HksPubKeyInfo` is its two
-- numbers. A writer copies what stands in its own buffer, behind room for a header, to the start of
-- the buffer; only the length of the buffer counts.
use security_huks.Prelude.{
  ℕ, ◌+◌, ◌-◌, ◌%◌, ◌||◌, List, [], ◌∷◌, ◌++◌, length, drop, ltb, ◌==◌, if◌then◌else◌, Option, none,
  some,
}
use security_huks.Status.{
  Status, invalid_argument, buffer_too_small, insufficient_memory, not_supported, is_success,
}
use security_huks.Memory.{Memory}
use security_huks.Check.{Result, ok, error, ◌>>=◌}
use security_huks.Check.Values.{alg_rsa, alg_ecc, alg_x25519, alg_sm2}
use security_huks.Asn1.{
  Asn1Blob, Out, type_int, type_bit_str, dcm_asn1_insert_value, dcm_asn1_write_final,
}

abbrev pub type_seq : ℕ
type_seq = 0x30

abbrev pub max_header_len : ℕ
max_header_len = 5

-- `struct HksPubKeyInfo` and the bytes behind it.
pub record PubKeyInfo : Type 0 where
  pub key_alg : ℕ
  pub key_size : ℕ
  pub n_or_x : List ℕ
  pub e_or_y : List ℕ

-- g_p256SpkiHeaderForEcc, g_p256SpkiHeaderForSm2, g_p384SpkiHeader, g_p521SpkiHeader.
abbrev pub p256_spki_header_for_ecc : List ℕ
p256_spki_header_for_ecc =
    0x30 ∷ 0x59 ∷ 0x30 ∷ 0x13 ∷ 0x06 ∷ 0x07 ∷ 0x2a ∷ 0x86 ∷ 0x48 ∷ 0xce ∷ 0x3d ∷ 0x02 ∷ 0x01 ∷ 0x06
    ∷ 0x08 ∷ 0x2a ∷ 0x86 ∷ 0x48 ∷ 0xce ∷ 0x3d ∷ 0x03 ∷ 0x01 ∷ 0x07 ∷ 0x03 ∷ 0x42 ∷ 0x00 ∷ 0x04 ∷ []

abbrev pub p256_spki_header_for_sm2 : List ℕ
p256_spki_header_for_sm2 =
    0x30 ∷ 0x5a ∷ 0x30 ∷ 0x14 ∷ 0x06 ∷ 0x08 ∷ 0x2a ∷ 0x81 ∷ 0x1c ∷ 0xcf ∷ 0x55 ∷ 0x01 ∷ 0x82 ∷ 0x2d
    ∷ 0x06 ∷ 0x08 ∷ 0x2a ∷ 0x81 ∷ 0x1c ∷ 0xcf ∷ 0x55 ∷ 0x01 ∷ 0x82 ∷ 0x2d ∷ 0x03 ∷ 0x42 ∷ 0x00
    ∷ 0x04 ∷ []

abbrev pub p384_spki_header : List ℕ
p384_spki_header =
    0x30 ∷ 0x76 ∷ 0x30 ∷ 0x10 ∷ 0x06 ∷ 0x07 ∷ 0x2a ∷ 0x86 ∷ 0x48 ∷ 0xce ∷ 0x3d ∷ 0x02 ∷ 0x01 ∷ 0x06
    ∷ 0x05 ∷ 0x2b ∷ 0x81 ∷ 0x04 ∷ 0x00 ∷ 0x22 ∷ 0x03 ∷ 0x62 ∷ 0x00 ∷ 0x04 ∷ []

abbrev pub p521_spki_header : List ℕ
p521_spki_header =
    0x30 ∷ 0x81 ∷ 0x9b ∷ 0x30 ∷ 0x10 ∷ 0x06 ∷ 0x07 ∷ 0x2a ∷ 0x86 ∷ 0x48 ∷ 0xce ∷ 0x3d ∷ 0x02 ∷ 0x01
    ∷ 0x06 ∷ 0x05 ∷ 0x2b ∷ 0x81 ∷ 0x04 ∷ 0x00 ∷ 0x23 ∷ 0x03 ∷ 0x81 ∷ 0x86 ∷ 0x00 ∷ 0x04 ∷ []

-- g_rsaEnTag and g_x25519Tag.
abbrev pub rsa_en_oid : List ℕ
rsa_en_oid = 0x06 ∷ 0x09 ∷ 0x2A ∷ 0x86 ∷ 0x48 ∷ 0x86 ∷ 0xF7 ∷ 0x0D ∷ 0x01 ∷ 0x01 ∷ 0x01 ∷ []

abbrev pub x25519_oid : List ℕ
x25519_oid = 0x06 ∷ 0x03 ∷ 0x2B ∷ 0x65 ∷ 0x6E ∷ []

-- A writer in a chain, as a result.
unfoldable pub insert : Memory → Asn1Blob → Out → Result Out
insert m tlv out =
    let r = dcm_asn1_insert_value m out tlv in if is_success r.0 then ok r.1 else error r.0

-- `ConstructKeySeq` into a buffer: a sequence of two numbers.
unfoldable pub construct_key_seq : Memory → List ℕ → PubKeyInfo → Result (List ℕ)
construct_key_seq m room info =
    if ltb (length room) max_header_len then error insufficient_memory else do
      buf1 ←
          insert m (record { type = type_int; bytes = info.n_or_x })
            (record { written = []; room = drop max_header_len room })
      buf2 ← insert m (record { type = type_int; bytes = info.e_or_y }) buf1
      dcm_asn1_write_final m room (record { type = type_seq; bytes = buf2.written })

-- `GetRsaPublicKey` into a buffer. `none` is a buffer of less than five bytes, for which the size of
-- what is left wraps, so that the code would write behind the buffer.
unfoldable pub get_rsa_public_key : Memory → List ℕ → PubKeyInfo → Option (Result (List ℕ))
get_rsa_public_key m room info =
    if ltb (length room) max_header_len
    then none
    else if ltb (length room - max_header_len) max_header_len
    then some (error insufficient_memory)
    else some (do
      tmp1 ←
          insert m (record { type = type_seq; bytes = rsa_en_oid })
            (record { written = []; room = drop max_header_len room })
      spki ← construct_key_seq m tmp1.room info
      tmp2 ← insert m (record { type = type_bit_str; bytes = spki }) tmp1
      dcm_asn1_write_final m room (record { type = type_seq; bytes = tmp2.written }))

-- `GetX25519PublicKey`.
unfoldable pub get_x25519_public_key : Memory → List ℕ → PubKeyInfo → Option (Result (List ℕ))
get_x25519_public_key m room info =
    if ltb (length room) max_header_len
    then none
    else if ltb (length room - max_header_len) max_header_len
    then some (error insufficient_memory)
    else some (do
      tmp1 ←
          insert m (record { type = type_seq; bytes = x25519_oid })
            (record { written = []; room = drop max_header_len room })
      tmp2 ← insert m (record { type = type_bit_str; bytes = info.n_or_x }) tmp1
      dcm_asn1_write_final m room (record { type = type_seq; bytes = tmp2.written }))

unfoldable pub spki_header : PubKeyInfo → Option (List ℕ)
spki_header info =
    if info.key_alg == alg_sm2
    then some p256_spki_header_for_sm2
    else if info.key_size == 256
    then some p256_spki_header_for_ecc
    else if info.key_size == 384
    then some p384_spki_header
    else if info.key_size == 521
    then some p521_spki_header
    else none

-- `GetEcPublicKey`: the copies fit, since the room is compared with their sum.
unfoldable pub get_ec_public_key : List ℕ → PubKeyInfo → Result (List ℕ)
unfolding spki_header
get_ec_public_key room info = elim (spki_header info) [
  | none ↦ error not_supported
  | some header ↦
      let bs = header ++ (info.n_or_x ++ info.e_or_y) in
      if ltb (length room) (length bs) then error buffer_too_small else ok bs
]

-- `GetSm2PublicKey`.
unfoldable pub get_sm2_public_key : List ℕ → PubKeyInfo → Result (List ℕ)
unfolding get_ec_public_key
get_sm2_public_key room info =
    if info.key_size == 256 then get_ec_public_key room info else error not_supported

-- `DcmGetPublicKey`.
unfoldable pub dcm_get_public_key : Memory → List ℕ → PubKeyInfo → Option (Result (List ℕ))
dcm_get_public_key m room info =
    if length room == 0
    then some (error invalid_argument)
    else if info.key_alg == alg_rsa
    then get_rsa_public_key m room info
    else if info.key_alg == alg_ecc
    then some (get_ec_public_key room info)
    else if info.key_alg == alg_x25519
    then get_x25519_public_key m room info
    else if info.key_alg == alg_sm2
    then some (get_sm2_public_key room info)
    else some (error not_supported)

-- `EncodeSecurityLevel`.
unfoldable pub encode_security_level : ℕ → List ℕ
encode_security_level level = type_int % 256 ∷ 1 ∷ level % 256 ∷ []

-- `DcmInsertClaim`: the level, the name of the claim and its value as one sequence.
unfoldable pub dcm_insert_claim : Memory → Out → List ℕ → Asn1Blob → ℕ → Status × Out
unfolding encode_security_level
dcm_insert_claim m out oid value level =
    let front = encode_security_level level ++ oid in
    if (length out.room == 0) || (length oid == 0) || (length value.bytes == 0)
    then (invalid_argument, out)
    else if ltb (length out.room) (length oid + length value.bytes + 3 + max_header_len)
    then (buffer_too_small, out)
    else elim (dcm_asn1_write_final m (drop (max_header_len + length front) out.room) value) [
      | error e ↦ (e, out)
      | ok bs ↦ dcm_asn1_insert_value m out (record { type = type_seq; bytes = front ++ bs })
    ]
