-- ===== src/Asn1/RoundTrip.antt =====
-- What dcm_asn1.c writes is read again: `DcmAsn1ExtractTag` of what `DcmAsn1InsertValue` wrote.
use security_huks.Prelude.{
  ℕ, ◌+◌, ◌-◌, ◌%◌, ◌≤◌, ◌<◌, ◌≡◌, inl, inr, refl, ap, ◌∙◌, true, false, List, ◌∷◌, ◌++◌, length,
  length-append, ltb, ◌==◌, Bool-cases, append_assoc, arith,
}
use security_huks.Status.{success}
use security_huks.Memory.{Memory, IsSecurec}
use security_huks.Check.{ok}
use security_huks.Asn1.{
  Asn1Blob, Out, type_int, type_bit_str, type_oct_str, type_raw, asn1_max_size, strip_zeros,
  value_bytes, is_high, pad_bytes, length_bytes, build_tlv_header, advance, asn1_insert_value,
  dcm_asn1_insert_value, asn1_get_obj, dcm_asn1_extract_tag,
}
use security_huks.Asn1.Lengths.{
  asn1_get_obj-length, content, der, length_bytes-length, number, number-strip_zeros,
  pad_bytes-length, value_bytes-length,
}

-- A value is read as it stands behind its length.
pub der-content :
    (tlv : Asn1Blob)
    → tlv.type < 256
    → der tlv ≡ tlv.type ∷ (length_bytes (length (content tlv)) ++ content tlv)
unfolding der content build_tlv_header
der-content tlv byte =
    let value = value_bytes tlv in
    let pad = pad_bytes tlv.type value in
    let t : tlv.type % 256 ≡ tlv.type = omega arith in
    let n : length value + length pad ≡ length (pad ++ value) =
      omega (arith, length-append pad value) in
    rw (t, n) (ap (◌∷◌ tlv.type) (append_assoc (length_bytes (length (pad ++ value))) pad value))

pub content-length :
    (tlv : Asn1Blob)
    → 0 < length tlv.bytes
    → (0 < length (content tlv)) × (length (content tlv) ≤ length tlv.bytes + 1)
unfolding content
content-length tlv h =
    let v = value_bytes-length tlv h in
    omega (
      arith,
      v,
      pad_bytes-length tlv.type (value_bytes tlv),
      length-append (pad_bytes tlv.type (value_bytes tlv)) (value_bytes tlv),
    )

pub der-length :
    (tlv : Asn1Blob)
    → tlv.type < 256
    → 0 < length tlv.bytes
    → (2 < length (der tlv)) × (length (der tlv) ≤ length tlv.bytes + 5)
der-length tlv byte h =
    let c = content-length tlv h in
    let n = length_bytes-length (length (content tlv)) in
    omega (
      arith,
      ap length (der-content tlv byte),
      c,
      n,
      length-append (length_bytes (length (content tlv))) (content tlv),
    )

-- What was written is read again.
pub extract_tag-der :
    (tlv : Asn1Blob) (more : List ℕ)
    → tlv.type < 256
    → 0 < length tlv.bytes
    → length tlv.bytes ≤ asn1_max_size
    → dcm_asn1_extract_tag (der tlv ++ more) tlv.type
      ≡ ok (
        record {
          header = tlv.type ∷ length_bytes (length (content tlv));
          value = record { type = tlv.type; bytes = content tlv };
        },
        more,
      )
unfolding dcm_asn1_extract_tag
extract_tag-der tlv more byte h small =
    let c = content-length tlv h in
    let n = der-length tlv byte h in
    let e : ltb (length (der tlv ++ more)) 3 ≡ false =
      ground (arith, length-append (der tlv) more, n) in
    let d : der tlv ++ more
        ≡ tlv.type ∷ (length_bytes (length (content tlv)) ++ (content tlv ++ more)) =
      ap (λ (t : List ℕ). t ++ more) (der-content tlv byte)
      ∙ ap (◌∷◌ tlv.type) (append_assoc (length_bytes (length (content tlv))) (content tlv) more) in
    let g =
      ap asn1_get_obj d ∙ asn1_get_obj-length tlv.type (content tlv) more c.0 (omega (arith, c)) in
    let t : (tlv.type == tlv.type) ≡ true = ground arith in rw (e, g, t) refl

-- A value is written if it fits.
pub insert_value-der :
    (m : Memory) (out : Out) (tlv : Asn1Blob)
    → IsSecurec m
    → tlv.type < 256
    → 0 < length tlv.bytes
    → length tlv.bytes ≤ asn1_max_size
    → length (der tlv) ≤ length out.room
    → dcm_asn1_insert_value m out tlv ≡ (success, advance out (der tlv))
unfolding dcm_asn1_insert_value asn1_insert_value der
insert_value-der m out tlv sec byte h small fits =
    let value = value_bytes tlv in
    let header = build_tlv_header tlv.type value in
    let v = value_bytes-length tlv h in
    let n : length header + length value ≤ length out.room =
      omega (arith, fits, length-append header value) in
    let a : (length out.room == 0) ≡ false = ground (arith, n, v) in
    let b : (length tlv.bytes == 0) ≡ false = ground (arith, h) in
    let c : ltb asn1_max_size (length tlv.bytes) ≡ false = ground (arith, small) in
    let e : (tlv.type == type_raw) ≡ false = ground (arith, byte) in
    let g : ltb (length out.room) (length header + length value) ≡ false = ground (arith, n) in
    let f : m.memcpy_s (length out.room - length header) (length value) ≡ true =
      sec.fits _ _ v.0 (omega (arith, n)) in
    rw (a, b, c, e, g, f) refl

-- The meaning of what is read, by the type.
pub content-number :
    (bytes : List ℕ)
    → (number 0 (content (record { type = type_int; bytes = bytes })) ≡ number 0 bytes)
      × (is_high (content (record { type = type_int; bytes = bytes })) ≡ false)
unfolding content value_bytes pad_bytes number is_high
content-number bytes = elim (Bool-cases (is_high (strip_zeros bytes))) [
  | inl e ↦ rw e (number-strip_zeros bytes, refl)
  | inr e ↦ rw e (number-strip_zeros bytes, e)
]

pub content-octets :
    (bytes : List ℕ) → content (record { type = type_oct_str; bytes = bytes }) ≡ bytes
unfolding content value_bytes pad_bytes
content-octets bytes = refl

pub content-bits :
    (bytes : List ℕ) → content (record { type = type_bit_str; bytes = bytes }) ≡ 0 ∷ bytes
unfolding content value_bytes pad_bytes
content-bits bytes = refl
