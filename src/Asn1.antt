-- ===== src/Asn1.antt =====
-- services/huks_standard/huks_engine/main/device_cert_manager/src/dcm_asn1.c: the DER encoding of
-- the parts of an attestation certificate, and its decoding. A blob is its bytes; one that is NULL
-- or empty is the empty list. A buffer that is being filled is what stands before its pointer and
-- what is left from there on. `memmove_s` fails like `memcpy_s`.
pub mod Lengths
pub mod RoundTrip
pub mod PublicKey
pub mod Sequences
pub mod RsaKey
pub mod Inserted
mod Tests
use security_huks.Prelude.{
  ℕ, zero, suc, ◌+◌, ◌-◌, ◌*◌, ◌/◌, ◌%◌, Bool, true, false, ◌&&◌, ◌||◌, not, List, [], ◌∷◌, ◌++◌,
  length, take, drop, ltb, leb, ◌==◌, if◌then◌else◌, Option, none, some,
}
use security_huks.Status.{
  Status, success, invalid_argument, buffer_too_small, insufficient_data, is_success,
}
use security_huks.Memory.{Memory}
use security_huks.Check.{Result, ok, error, ◌>>=◌}

abbrev pub type_int : ℕ
type_int = 0x02

abbrev pub type_bit_str : ℕ
type_bit_str = 0x03

abbrev pub type_oct_str : ℕ
type_oct_str = 0x04

abbrev pub type_raw : ℕ
type_raw = 0xff000001

abbrev pub asn1_max_size : ℕ
asn1_max_size = 0x10000 - 0x100

abbrev pub min_header_len : ℕ
min_header_len = 3

-- `struct HksAsn1Blob`.
pub record Asn1Blob : Type 0 where
  pub type : ℕ
  pub bytes : List ℕ

-- The buffer of a writer.
pub record Out : Type 0 where
  pub written : List ℕ
  pub room : List ℕ

-- `struct HksAsn1Obj` of a reader: the bytes of the header, and the value.
pub record Asn1Obj : Type 0 where
  pub header : List ℕ
  pub value : Asn1Blob

-- Leading zeros are no part of a value, but for strings of octets and bits. The loop runs over the
-- bytes and leaves the last one.
unfoldable pub strip_zeros : List ℕ → List ℕ
strip_zeros [] = []
strip_zeros (b ∷ []) = b ∷ []
strip_zeros (b ∷ c ∷ bs) = let rest = strip_zeros (c ∷ bs) in if b == 0 then rest else b ∷ c ∷ bs

unfoldable pub is_kept_whole : ℕ → Bool
is_kept_whole type = (type == type_oct_str) || (type == type_bit_str)

unfoldable pub value_bytes : Asn1Blob → List ℕ
unfolding strip_zeros is_kept_whole
value_bytes tlv = if is_kept_whole tlv.type then tlv.bytes else strip_zeros tlv.bytes

-- `data[0] > ASN_1_MAX_VAL_NO_EXTRA_LEN_BYTE`.
unfoldable pub is_high : List ℕ → Bool
is_high [] = false
is_high (b ∷ _) = ltb 0x7F b

-- The zero byte behind the header: of a string of bits, and of a number that would be negative.
unfoldable pub pad_bytes : ℕ → List ℕ → List ℕ
unfolding is_high
pad_bytes type value =
    if (type == type_bit_str) || ((type == type_int) && is_high value) then 0 ∷ [] else []

-- The bytes of a length.
unfoldable pub length_bytes : ℕ → List ℕ
length_bytes len =
    if ltb len 0x80
    then len % 256 ∷ []
    else if ltb len 0x100
    then 0x81 ∷ len % 256 ∷ []
    else 0x82 ∷ len / 256 % 256 ∷ len % 256 ∷ []

-- `BuildTlvHeader`.
unfoldable pub build_tlv_header : ℕ → List ℕ → List ℕ
unfolding pad_bytes length_bytes
build_tlv_header type value =
    let pad = pad_bytes type value in type % 256 ∷ (length_bytes (length value + length pad) ++ pad)

-- The pointer moves on over bytes that were written.
unfoldable pub advance : Out → List ℕ → Out
advance out bs = record { written = out.written ++ bs; room = drop (length bs) out.room }

-- `Asn1InsertValue`, without the description of what was inserted.
unfoldable pub asn1_insert_value : Memory → Out → Asn1Blob → Status × Out
unfolding value_bytes build_tlv_header advance
asn1_insert_value m out tlv =
    let value = value_bytes tlv in
    let header = build_tlv_header tlv.type value in
    if ltb (length out.room) (length header + length value)
    then (buffer_too_small, out)
    else if m.memcpy_s (length out.room - length header) (length value)
    then (success, advance out (header ++ value))
    else (buffer_too_small, out)

-- `DcmAsn1InsertValue`.
unfoldable pub dcm_asn1_insert_value : Memory → Out → Asn1Blob → Status × Out
unfolding asn1_insert_value
dcm_asn1_insert_value m out tlv =
    if (length out.room == 0) || (length tlv.bytes == 0) || ltb asn1_max_size (length tlv.bytes)
    then (invalid_argument, out)
    else if tlv.type == type_raw
    then (if m.memcpy_s (length out.room) (length tlv.bytes)
        then (success, advance out tlv.bytes)
        else (buffer_too_small, out))
    else asn1_insert_value m out tlv

-- `DcmAsn1WriteFinal` into a buffer of some bytes: what stands at its start.
unfoldable pub dcm_asn1_write_final : Memory → List ℕ → Asn1Blob → Result (List ℕ)
dcm_asn1_write_final m room tlv =
    let r = dcm_asn1_insert_value m (record { written = []; room = room }) tlv in
    if length room == 0
    then error invalid_argument
    else if is_success r.0
    then ok r.1.written
    else error r.0

-- The object with a header and what follows it, if the length does not go beyond the data.
unfoldable pub obj_of : ℕ → List ℕ → ℕ → List ℕ → Result (Asn1Obj × List ℕ)
obj_of type header len rest =
    if ltb (length rest) len
    then error insufficient_data
    else ok (
      record { header = header; value = record { type = type; bytes = take len rest } },
      drop len rest,
    )

-- `Asn1GetObj` of at least three bytes: the object, and what follows it.
unfoldable pub asn1_get_obj : List ℕ → Result (Asn1Obj × List ℕ)
unfolding obj_of
asn1_get_obj (t ∷ b ∷ c ∷ rest) =
    if ltb b 0x80
    then obj_of t (t ∷ b ∷ []) b (c ∷ rest)
    else if b == 0x81
    then obj_of t (t ∷ b ∷ c ∷ []) c rest
    else if b == 0x82
    then (elim rest [
      | [] ↦ error insufficient_data
      | d ∷ more ↦ obj_of t (t ∷ b ∷ c ∷ d ∷ []) (c * 256 + d) more
    ])
    else error invalid_argument
asn1_get_obj _ = error invalid_argument

-- `DcmAsn1ExtractTag`.
unfoldable pub dcm_asn1_extract_tag : List ℕ → ℕ → Result (Asn1Obj × List ℕ)
unfolding asn1_get_obj
dcm_asn1_extract_tag bytes expected =
    if ltb (length bytes) min_header_len
    then error invalid_argument
    else asn1_get_obj bytes >>= λ r.
        if r.0.value.type == expected then ok r else error invalid_argument
