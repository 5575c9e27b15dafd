-- ===== src/Asn1/Inserted.antt =====
-- `DcmAsn1InsertValue` on every branch, and what `DcmAsn1ExtractTag` returns of any data.
use security_huks.Prelude.{
  subst, ℕ, ◌+◌, ◌*◌, ◌≤◌, ◌<◌, ◌≡◌, inl, inr, refl, ap, ◌∙◌, true, false, List, [], ◌∷◌, ◌++◌,
  length, length-append, length-take, take, drop, ltb, ◌==◌, if◌then◌else◌, Bool-cases, arith,
}
use security_huks.Status.{success, invalid_argument, buffer_too_small}
use security_huks.Memory.{Memory, IsSecurec}
use security_huks.Check.{Result, ok, error, ◌>>=◌}
use security_huks.Ipc.Buffer.{take-drop}
use security_huks.Asn1.{
  Asn1Blob, Out, Asn1Obj, type_int, type_bit_str, type_oct_str, type_raw, asn1_max_size,
  value_bytes, is_high, build_tlv_header, advance, asn1_insert_value, dcm_asn1_insert_value, obj_of,
  asn1_get_obj, dcm_asn1_extract_tag,
}
use security_huks.Asn1.RoundTrip.{
  der-length, extract_tag-der, insert_value-der, content-number, content-octets, content-bits,
}
use security_huks.Asn1.Lengths.{number, content, der}

-- A value that does not fit is refused.
insert_value-full :
    (m : Memory) (out : Out) (tlv : Asn1Blob)
    → tlv.type < 256
    → 0 < length tlv.bytes
    → length tlv.bytes ≤ asn1_max_size
    → 0 < length out.room
    → length out.room < length (der tlv)
    → dcm_asn1_insert_value m out tlv ≡ (buffer_too_small, out)
unfolding dcm_asn1_insert_value asn1_insert_value der
insert_value-full m out tlv byte h small room tight =
    let value = value_bytes tlv in
    let header = build_tlv_header tlv.type value in
    let a : (length out.room == 0) ≡ false = ground (arith, room) in
    let b : (length tlv.bytes == 0) ≡ false = ground (arith, h) in
    let c : ltb asn1_max_size (length tlv.bytes) ≡ false = ground (arith, small) in
    let e : (tlv.type == type_raw) ≡ false = ground (arith, byte) in
    let g : ltb (length out.room) (length header + length value) ≡ true =
      ground (arith, tight, length-append header value) in
    rw (a, b, c, e, g) refl

-- How the values of a type are read: numbers as numbers that are not negative, strings of octets as
-- they are, strings of bits behind the count of the bits that are not used.
abbrev pub Means : Asn1Blob → List ℕ → Type 0
Means tlv read =
    (tlv.type ≡ type_int → (number 0 read ≡ number 0 tlv.bytes) × (is_high read ≡ false))
    × (tlv.type ≡ type_oct_str → read ≡ tlv.bytes)
    × (tlv.type ≡ type_bit_str → read ≡ 0 ∷ tlv.bytes)

content-Means : (tlv : Asn1Blob) → Means tlv (content tlv)
content-Means tlv = (
  λ e.
      let s : tlv ≡ record { type = type_int; bytes = tlv.bytes } =
        λ i. record { type = e i; bytes = tlv.bytes } in
      let c = ap content s in
      (ap (number 0) c ∙ (content-number tlv.bytes).0, ap is_high c ∙ (content-number tlv.bytes).1),
  λ e. ap content (λ i. record { type = e i; bytes = tlv.bytes }) ∙ content-octets tlv.bytes,
  λ e. ap content (λ i. record { type = e i; bytes = tlv.bytes }) ∙ content-bits tlv.bytes,
)

-- For a value of 1 to 65280 bytes with a type of one byte there are at most five bytes more than it
-- has, of which: where the buffer has room for them, `DcmAsn1InsertValue` writes them behind what is
-- written; where it has not, it fails and changes nothing; and `DcmAsn1ExtractTag`, on them and
-- whatever follows, reads the value back (numbers without a sign, octets as they are, bits behind a
-- zero byte) and returns what follows.
pub extract_tag-insert_value :
    (m : Memory) (out : Out) (tlv : Asn1Blob)
    → IsSecurec m
    → tlv.type < 256
    → 0 < length tlv.bytes
    → length tlv.bytes ≤ asn1_max_size
    → (enc : List ℕ) × (length enc ≤ length tlv.bytes + 5)
      × (length enc ≤ length out.room
          → dcm_asn1_insert_value m out tlv ≡ (success, advance out enc))
      × (0 < length out.room
          → length out.room < length enc
          → dcm_asn1_insert_value m out tlv ≡ (buffer_too_small, out))
      × ((more : List ℕ)
          → (obj : Asn1Obj) × (dcm_asn1_extract_tag (enc ++ more) tlv.type ≡ ok (obj, more))
            × Means tlv obj.value.bytes)
extract_tag-insert_value m out tlv sec byte h small = (
  der tlv,
  (der-length tlv byte h).1,
  insert_value-der m out tlv sec byte h small,
  insert_value-full m out tlv byte h small,
  λ more. (_, extract_tag-der tlv more byte h small, content-Means tlv),
)

ltb-false : (a b : ℕ) → ltb a b ≡ false → b ≤ a
ltb-false a b h = ground arith

obj_of-inside :
    (type : ℕ) (header : List ℕ) (len : ℕ) (rest : List ℕ) (obj : Asn1Obj) (more : List ℕ)
    → obj_of type header len rest ≡ ok (obj, more)
    → (obj.header ≡ header)
      × (obj.value.type ≡ type)
      × (obj.value.bytes ++ more ≡ rest)
      × (length obj.value.bytes ≡ len)
unfolding obj_of
obj_of-inside type header len rest obj more e = elim (Bool-cases (ltb (length rest) len)) [
  | inl b ↦ absurd (ground (arith, b, e))
  | inr b ↦
      let w : (obj.header ≡ header)
          × (obj.value.type ≡ type)
          × (obj.value.bytes ≡ take len rest)
          × (more ≡ drop len rest) =
        ground (arith, b, e) in
      (
        w.0,
        w.1,
        rw (w.2, w.3) (take-drop len rest),
        rw w.2 (omega (arith, length-take len rest, ltb-false _ _ b)),
      )
]

-- What the header of a value says: its type and, in one of three forms, its length.
pub data Says : ℕ → ℕ → List ℕ → Type 0 where
  short : {type len : ℕ} → len < 0x80 → Says type len (type ∷ len ∷ [])
  one : {type len : ℕ} → Says type len (type ∷ 0x81 ∷ len ∷ [])
  two : {type high low : ℕ} → Says type (high * 256 + low) (type ∷ 0x82 ∷ high ∷ low ∷ [])

-- The header, the value of the length that it says, and what was found behind it.
abbrev Inside : List ℕ → Asn1Obj → List ℕ → Type 0
Inside bytes obj more =
    Says obj.value.type (length obj.value.bytes) obj.header
    × (obj.header ++ (obj.value.bytes ++ more) ≡ bytes)

obj_of-Inside :
    (type : ℕ) (header : List ℕ) (len : ℕ) (rest : List ℕ) (obj : Asn1Obj) (more : List ℕ)
    → Says type len header
    → obj_of type header len rest ≡ ok (obj, more)
    → Inside (header ++ rest) obj more
obj_of-Inside type header len rest obj more says e =
    let w = obj_of-inside type header len rest obj more e in rw (w.0, w.1, w.2, w.3) (says, refl)

byte_of : (b n : ℕ) → (b == n) ≡ true → n ≡ b
byte_of b n h = ground arith

asn1_get_obj-Inside :
    (bytes : List ℕ) (obj : Asn1Obj) (more : List ℕ)
    → asn1_get_obj bytes ≡ ok (obj, more)
    → Inside bytes obj more
unfolding asn1_get_obj
asn1_get_obj-Inside [] obj more e = absurd (cc)
asn1_get_obj-Inside (t ∷ []) obj more e = absurd (cc)
asn1_get_obj-Inside (t ∷ b ∷ []) obj more e = absurd (cc)
asn1_get_obj-Inside (t ∷ b ∷ c ∷ []) obj more e = elim (Bool-cases (ltb b 0x80)) [
  | inl s ↦ obj_of-Inside t (t ∷ b ∷ []) b (c ∷ []) obj more (short (ground (arith, s))) (rw s at e)
  | inr s ↦ elim (Bool-cases (b == 0x81)) [
    | inl u ↦
        obj_of-Inside t (t ∷ b ∷ c ∷ []) c [] obj more
          (subst (λ k. Says t c (t ∷ k ∷ c ∷ [])) (byte_of b 0x81 u) one) (rw (s, u) at e)
    | inr u ↦ absurd (ground (arith, s, u, e))
  ]
]
asn1_get_obj-Inside (t ∷ b ∷ c ∷ d ∷ rest) obj more e = elim (Bool-cases (ltb b 0x80)) [
  | inl s ↦
      obj_of-Inside t (t ∷ b ∷ []) b (c ∷ d ∷ rest) obj more (short (ground (arith, s))) (rw s at e)
  | inr s ↦ elim (Bool-cases (b == 0x81)) [
    | inl u ↦
        obj_of-Inside t (t ∷ b ∷ c ∷ []) c (d ∷ rest) obj more
          (subst (λ k. Says t c (t ∷ k ∷ c ∷ [])) (byte_of b 0x81 u) one) (rw (s, u) at e)
    | inr u ↦ elim (Bool-cases (b == 0x82)) [
      | inl v ↦
          obj_of-Inside t (t ∷ b ∷ c ∷ d ∷ []) (c * 256 + d) rest obj more
            (subst (λ k. Says t (c * 256 + d) (t ∷ k ∷ c ∷ d ∷ [])) (byte_of b 0x82 v) two)
            (rw (s, u, v) at e)
      | inr v ↦ absurd (ground (arith, s, u, v, e))
    ]
  ]
]

as_expected :
    (r : Result (Asn1Obj × List ℕ)) (expected : ℕ) (obj : Asn1Obj) (more : List ℕ)
    → (r >>= λ q. if q.0.value.type == expected then ok q else error invalid_argument)
      ≡ ok (obj, more)
    → (r ≡ ok (obj, more)) × (obj.value.type ≡ expected)
as_expected (ok (o, n)) expected obj more e = ground (arith, e)
as_expected (error st) expected obj more e = absurd (cc)

-- Where `DcmAsn1ExtractTag` succeeds, on any data, the type is the one that was expected, the header
-- says this type and, in one of its three forms, a length, the value has exactly this length, and the
-- header, the value and what is returned as the rest are the data, one behind the other.
pub extract_tag-inside :
    (bytes : List ℕ) (expected : ℕ) (obj : Asn1Obj) (more : List ℕ)
    → dcm_asn1_extract_tag bytes expected ≡ ok (obj, more)
    → (obj.value.type ≡ expected)
      × Says expected (length obj.value.bytes) obj.header
      × (obj.header ++ (obj.value.bytes ++ more) ≡ bytes)
unfolding dcm_asn1_extract_tag
extract_tag-inside bytes expected obj more e = elim (Bool-cases (ltb (length bytes) 3)) [
  | inl b ↦ absurd (ground (arith, b, e))
  | inr b ↦
      let w = as_expected (asn1_get_obj bytes) expected obj more (rw b at e) in
      let v = asn1_get_obj-Inside bytes obj more w.0 in
      (w.1, subst (λ t. Says t (length obj.value.bytes) obj.header) w.1 v.0, v.1)
]
