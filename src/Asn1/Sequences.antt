-- ===== src/Asn1/Sequences.antt =====
-- The values that make a public key in dcm_attest_utils.c, read one by one.
use security_huks.Prelude.{
  ℕ, ◌≤◌, ◌<◌, ◌≡◌, refl, sym, ap, ◌∙◌, false, List, [], ◌∷◌, ◌++◌, length, drop, ◌==◌, append-nil,
  arith,
}
use security_huks.Memory.{Memory, IsSecurec}
use security_huks.Check.{Result, ok, ◌>>=◌, return}
use security_huks.Asn1.{
  Asn1Blob, Out, type_int, type_bit_str, asn1_max_size, value_bytes, strip_zeros, pad_bytes,
  advance, dcm_asn1_write_final, dcm_asn1_extract_tag,
}
use security_huks.Asn1.RoundTrip.{der-length, extract_tag-der, insert_value-der, der-content}
use security_huks.Asn1.Lengths.{number, content, der}
use security_huks.Asn1.PublicKey.{type_seq, insert}

-- The bytes of a value, and what follows it.
abbrev pub extract : List ℕ → ℕ → Result (List ℕ × List ℕ)
extract bs type = dcm_asn1_extract_tag bs type >>= λ r. ok (r.0.value.bytes, r.1)

-- A SubjectPublicKeyInfo with an RSA key: the name of the algorithm, the two numbers, and whatever
-- bytes are left over.
unfoldable pub read_rsa_key : List ℕ → Result (List ℕ × ℕ × ℕ × List ℕ)
read_rsa_key bs = do
  info ← extract bs type_seq
  alg ← extract info.0 type_seq
  bit_str ← extract alg.1 type_bit_str
  key ← extract (drop 1 bit_str.0) type_seq
  n ← extract key.0 type_int
  e ← extract n.1 type_int
  return (alg.0, number 0 n.0, number 0 e.0, info.1 ++ (bit_str.1 ++ (key.1 ++ e.1)))

abbrev pub tlv : ℕ → List ℕ → Asn1Blob
tlv type bytes = record { type = type; bytes = bytes }

pub extract-der :
    (type : ℕ) (bytes more : List ℕ)
    → type < 256
    → 0 < length bytes
    → length bytes ≤ asn1_max_size
    → extract (der (tlv type bytes) ++ more) type ≡ ok (content (tlv type bytes), more)
extract-der type bytes more byte h small =
    ap (λ (r : Result _). r >>= λ r. ok (r.0.value.bytes, r.1))
      (extract_tag-der (tlv type bytes) more byte h small)

pub content-kept : (b : ℕ) (bs : List ℕ) → 0 < b → content (tlv type_seq (b ∷ bs)) ≡ b ∷ bs
unfolding content value_bytes pad_bytes strip_zeros
content-kept b [] some_b = refl
content-kept b (c ∷ cs) some_b = let e : (b == 0) ≡ false = ground (arith, some_b) in rw e refl

pub extract-der_only :
    (type : ℕ) (bytes : List ℕ)
    → type < 256
    → 0 < length bytes
    → length bytes ≤ asn1_max_size
    → extract (der (tlv type bytes)) type ≡ ok (content (tlv type bytes), [])
extract-der_only type bytes byte h small =
    ap (λ t. extract t type) (sym (append-nil (der (tlv type bytes))))
    ∙ extract-der type bytes [] byte h small

-- A sequence of values starts with a type, and is kept whole.
pub content-seq :
    (type : ℕ) (bytes more : List ℕ)
    → type < 256
    → 0 < type
    → content (tlv type_seq (der (tlv type bytes) ++ more)) ≡ der (tlv type bytes) ++ more
content-seq type bytes more byte some_type =
    let d = der-content (tlv type bytes) byte in rw d (content-kept type _ some_type)

pub insert-der :
    (m : Memory) (out : Out) (type : ℕ) (bytes : List ℕ)
    → IsSecurec m
    → type < 256
    → 0 < length bytes
    → length bytes ≤ asn1_max_size
    → length (der (tlv type bytes)) ≤ length out.room
    → insert m (tlv type bytes) out ≡ ok (advance out (der (tlv type bytes)))
unfolding insert
insert-der m out type bytes sec byte h small fits =
    rw (insert_value-der m out (tlv type bytes) sec byte h small fits) refl

pub write_final-der :
    (m : Memory) (room : List ℕ) (type : ℕ) (bytes : List ℕ)
    → IsSecurec m
    → type < 256
    → 0 < length bytes
    → length bytes ≤ asn1_max_size
    → length (der (tlv type bytes)) ≤ length room
    → dcm_asn1_write_final m room (tlv type bytes) ≡ ok (der (tlv type bytes))
unfolding dcm_asn1_write_final
write_final-der m room type bytes sec byte h small fits =
    let out : Out = record { written = []; room = room } in
    let e : (length room == 0) ≡ false = ground (arith, fits, der-length (tlv type bytes) byte h) in
    rw (e, insert_value-der m out (tlv type bytes) sec byte h small fits) (unfold advance in refl)
