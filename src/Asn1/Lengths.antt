-- ===== src/Asn1/Lengths.antt =====
-- The lengths that dcm_asn1.c writes in front of values, and that they are read again.
use security_huks.Prelude.{
  ℕ, ◌+◌, ◌*◌, ◌/◌, ◌%◌, ◌≤◌, ◌<◌, ◌≡◌, inl, inr, refl, ap, ◌∙◌, true, false, List, [], ◌∷◌, ◌++◌,
  length, length-append, take-append, drop-append, ltb, ◌==◌, Bool-cases, arith,
}
use security_huks.Check.{ok}
use security_huks.Asn1.{
  Asn1Blob, strip_zeros, value_bytes, pad_bytes, length_bytes, build_tlv_header, obj_of,
  asn1_get_obj,
}

-- The number that bytes stand for, the most significant first.
unfoldable pub number : ℕ → List ℕ → ℕ
number acc [] = acc
number acc (b ∷ bs) = number (acc * 256 + b) bs

-- What `DcmAsn1InsertValue` writes of a value, and the part behind the length.
unfoldable pub content : Asn1Blob → List ℕ
content tlv = pad_bytes tlv.type (value_bytes tlv) ++ value_bytes tlv

unfoldable pub der : Asn1Blob → List ℕ
der tlv = build_tlv_header tlv.type (value_bytes tlv) ++ value_bytes tlv

strip_zeros-length :
    (bs : List ℕ)
    → 0 < length bs
    → (0 < length (strip_zeros bs)) × (length (strip_zeros bs) ≤ length bs)
unfolding strip_zeros
strip_zeros-length [] h = absurd (omega arith)
strip_zeros-length (b ∷ []) h = omega arith
strip_zeros-length (b ∷ c ∷ bs) h = ground (arith, strip_zeros-length (c ∷ bs))

pub number-strip_zeros : (bs : List ℕ) → number 0 (strip_zeros bs) ≡ number 0 bs
unfolding strip_zeros number
number-strip_zeros [] = refl
number-strip_zeros (b ∷ []) = refl
number-strip_zeros (b ∷ c ∷ bs) = elim (Bool-cases (b == 0)) [
  | inl e ↦
      let z : b ≡ 0 = ground (arith, e) in
      rw e
        (number-strip_zeros (c ∷ bs) ∙ ap (λ k. number (k * 256 + c) bs) {x = 0} (omega (arith, z)))
  | inr e ↦ rw e refl
]

-- A value has as many bytes as the blob at most, and one at least.
pub value_bytes-length :
    (tlv : Asn1Blob)
    → 0 < length tlv.bytes
    → (0 < length (value_bytes tlv)) × (length (value_bytes tlv) ≤ length tlv.bytes)
unfolding value_bytes
value_bytes-length tlv h = ground (arith, strip_zeros-length tlv.bytes h)

pub pad_bytes-length : (type : ℕ) (value : List ℕ) → length (pad_bytes type value) ≤ 1
unfolding pad_bytes
pad_bytes-length type value = ground arith

pub length_bytes-length :
    (len : ℕ) → (0 < length (length_bytes len)) × (length (length_bytes len) ≤ 3)
unfolding length_bytes
length_bytes-length len = ground arith

-- An object whose length was just written is read with its value and what follows it.
obj_of-append :
    (type : ℕ) (header value more : List ℕ)
    → obj_of type header (length value) (value ++ more)
      ≡ ok (record { header = header; value = record { type = type; bytes = value } }, more)
unfolding obj_of
obj_of-append type header value more =
    let e : ltb (length (value ++ more)) (length value) ≡ false =
      ground (arith, length-append value more) in
    rw (e, take-append value more, drop-append value more) refl

-- The bytes of a length, in each of the three forms.
one_byte : (n : ℕ) → ltb n 0x80 ≡ true → length_bytes n ≡ n ∷ []
unfolding length_bytes
one_byte n e = let k : n % 256 ≡ n = ground (arith, e) in rw (e, k) refl

two_bytes : (n : ℕ) → ltb n 0x80 ≡ false → ltb n 0x100 ≡ true → length_bytes n ≡ 0x81 ∷ n ∷ []
unfolding length_bytes
two_bytes n e f = let k : n % 256 ≡ n = ground (arith, f) in rw (e, f, k) refl

three_bytes :
    (n : ℕ)
    → ltb n 0x80 ≡ false
    → ltb n 0x100 ≡ false
    → n < 0x10000
    → length_bytes n ≡ 0x82 ∷ n / 256 ∷ n % 256 ∷ []
unfolding length_bytes
three_bytes n e f small = let k : n / 256 % 256 ≡ n / 256 = omega arith in rw (e, f, k) refl

-- Reading a length that was written.
pub asn1_get_obj-length :
    (type : ℕ) (value more : List ℕ)
    → 0 < length value
    → length value < 0x10000
    → asn1_get_obj (type ∷ (length_bytes (length value) ++ (value ++ more)))
      ≡ ok (
        record {
          header = type ∷ length_bytes (length value);
          value = record { type = type; bytes = value };
        },
        more,
      )
unfolding asn1_get_obj
asn1_get_obj-length type [] more h small = absurd (omega arith)
asn1_get_obj-length type (v ∷ value) more h small =
    let n : ℕ = length (v ∷ value) in
    elim (Bool-cases (ltb n 0x80)) [
      | inl short ↦
          rw (one_byte n short, asn1_get_obj, short)
            (obj_of-append type (type ∷ n ∷ []) (v ∷ value) more)
      | inr long ↦ elim (Bool-cases (ltb n 0x100)) [
        | inl one ↦
            rw (two_bytes n long one, asn1_get_obj)
              (obj_of-append type (type ∷ 0x81 ∷ n ∷ []) (v ∷ value) more)
        | inr two ↦
            let k : n / 256 * 256 + n % 256 ≡ n = omega arith in
            rw (three_bytes n long two small, asn1_get_obj, k)
              (obj_of-append type (type ∷ 0x82 ∷ n / 256 ∷ n % 256 ∷ []) (v ∷ value) more)
      ]
    ]
