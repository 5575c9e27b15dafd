-- ===== src/Asn1/RsaKey.antt =====
-- The RSA public key that dcm_attest_utils.c writes into an attestation certificate, read again.
use security_huks.Prelude.{
  ℕ, ◌+◌, ◌-◌, ◌≤◌, ◌<◌, ◌≡◌, refl, ap, ◌∙◌, true, false, List, [], ◌∷◌, ◌++◌, length,
  length-append, length-drop, drop, ltb, ◌==◌, arith, some,
}
use security_huks.Memory.{Memory, IsSecurec}
use security_huks.Check.{ok}
use security_huks.Check.Values.{alg_rsa}
use security_huks.Asn1.{Out, type_int, type_bit_str, advance}
use security_huks.Asn1.RoundTrip.{der-length, content-number, content-bits}
use security_huks.Asn1.Lengths.{number, der}
use security_huks.Asn1.PublicKey.{
  type_seq, max_header_len, PubKeyInfo, rsa_en_oid, construct_key_seq, get_rsa_public_key,
  dcm_get_public_key,
}
use security_huks.Asn1.Sequences.{
  content-kept, content-seq, extract, extract-der, extract-der_only, insert-der, read_rsa_key, tlv,
  write_final-der,
}

module _ (m : Memory) (room : List ℕ) (info : PubKeyInfo) (sec : IsSecurec m)
    (n_there : 0 < length info.n_or_x) (e_there : 0 < length info.e_or_y)
    (small : length info.n_or_x + length info.e_or_y ≤ 65000)
    (wide : length info.n_or_x + length info.e_or_y + 100 ≤ length room) where
  abbrev n : List ℕ
  n = info.n_or_x

  abbrev e : List ℕ
  e = info.e_or_y

  abbrev two : List ℕ
  two = der (tlv type_int n) ++ der (tlv type_int e)

  abbrev seq : List ℕ
  seq = der (tlv type_seq two)

  abbrev alg : List ℕ
  alg = der (tlv type_seq rsa_en_oid)

  abbrev whole : List ℕ
  whole = der (tlv type_seq (alg ++ der (tlv type_bit_str seq)))

  two-length : (0 < length two) × (length two ≤ length n + length e + 10)
  two-length = omega (
    arith,
    length-append (der (tlv type_int n)) (der (tlv type_int e)),
    der-length (tlv type_int n) (omega arith) n_there,
    der-length (tlv type_int e) (omega arith) e_there,
  )

  seq-length : (2 < length seq) × (length seq ≤ length n + length e + 15)
  seq-length = omega (arith, two-length, der-length (tlv type_seq two) (omega arith) two-length.0)

  key_seq :
      (buf : List ℕ) → length n + length e + 30 ≤ length buf → construct_key_seq m buf info ≡ ok seq
  unfolding construct_key_seq
  key_seq buf fits =
      let out : Out = record { written = []; room = drop max_header_len buf } in
      let d = length-drop max_header_len buf in
      let ln = der-length (tlv type_int n) (omega arith) n_there in
      let le = der-length (tlv type_int e) (omega arith) e_there in
      let g : ltb (length buf) max_header_len ≡ false = ground (arith, fits) in
      let first =
        insert-der m out type_int n sec (omega arith) n_there (omega arith)
          (omega (arith, ln, d)) in
      let second =
        insert-der m (advance out (der (tlv type_int n))) type_int e sec (omega arith) e_there
          (omega arith)
          (unfold advance in
            omega (arith, le, ln, d, length-drop (length (der (tlv type_int n))) out.room)) in
      let last =
        write_final-der m buf type_seq two sec (omega arith) two-length.0
          (omega (arith, two-length)) (omega (arith, seq-length, fits)) in
      rw (g, first, second) (unfold advance in last)

  alg-length : length alg ≤ 16
  alg-length = omega (arith, der-length (tlv type_seq rsa_en_oid) (omega arith) (omega arith))

  abbrev parts : List ℕ
  parts = alg ++ der (tlv type_bit_str seq)

  parts-length : (2 < length parts) × (length parts ≤ length n + length e + 36)
  parts-length = omega (
    arith,
    alg-length,
    seq-length,
    length-append alg (der (tlv type_bit_str seq)),
    der-length (tlv type_bit_str seq) (omega arith) (omega (arith, seq-length)),
  )

  rsa_key : get_rsa_public_key m room info ≡ some (ok whole)
  unfolding get_rsa_public_key
  rsa_key =
      let out : Out = record { written = []; room = drop max_header_len room } in
      let d = length-drop max_header_len room in
      let g : ltb (length room) max_header_len ≡ false = ground (arith, wide) in
      let h : ltb (length room - max_header_len) max_header_len ≡ false = ground (arith, wide) in
      let out1 = advance out alg in
      let left : length out1.room ≡ length room - max_header_len - length alg =
        unfold advance in omega (arith, d, length-drop (length alg) out.room) in
      let first =
        insert-der m out type_seq rsa_en_oid sec (omega arith) (omega arith) (omega arith)
          (omega (arith, alg-length, d)) in
      let spki = key_seq out1.room (omega (arith, left, alg-length)) in
      let bits = der-length (tlv type_bit_str seq) (omega arith) (omega (arith, seq-length)) in
      let second =
        insert-der m out1 type_bit_str seq sec (omega arith) (omega (arith, seq-length))
          (omega (arith, seq-length)) (omega (arith, bits, seq-length, left, alg-length)) in
      let last =
        write_final-der m room type_seq parts sec (omega arith) (omega (arith, parts-length))
          (omega (arith, parts-length))
          (omega (
            arith,
            parts-length,
            der-length (tlv type_seq parts) (omega arith) (omega (arith, parts-length)),
          )) in
      rw (g, h, first, spki, second) (unfold advance in ap some last)

  read-whole : read_rsa_key whole ≡ ok (rsa_en_oid, number 0 n, number 0 e, [])
  unfolding read_rsa_key
  read-whole =
      let r1 : extract whole type_seq ≡ ok (parts, []) =
        extract-der_only type_seq parts (omega arith) (omega (arith, parts-length))
          (omega (arith, parts-length))
        ∙ ap (λ t. ok (t, []))
            (content-seq type_seq rsa_en_oid (der (tlv type_bit_str seq)) (omega arith)
              (omega arith)) in
      let r2 : extract parts type_seq ≡ ok (rsa_en_oid, der (tlv type_bit_str seq)) =
        extract-der type_seq rsa_en_oid (der (tlv type_bit_str seq)) (omega arith) (omega arith)
          (omega arith)
        ∙ ap (λ t. ok (t, der (tlv type_bit_str seq))) (content-kept 6 _ (omega arith)) in
      let r3 : extract (der (tlv type_bit_str seq)) type_bit_str ≡ ok (0 ∷ seq, []) =
        extract-der_only type_bit_str seq (omega arith) (omega (arith, seq-length))
          (omega (arith, seq-length))
        ∙ ap (λ t. ok (t, [])) (content-bits seq) in
      let r4 : extract seq type_seq ≡ ok (two, []) =
        extract-der_only type_seq two (omega arith) two-length.0 (omega (arith, two-length))
        ∙ ap (λ t. ok (t, []))
            (content-seq type_int n (der (tlv type_int e)) (omega arith) (omega arith)) in
      let r5 = extract-der type_int n (der (tlv type_int e)) (omega arith) n_there (omega arith) in
      let r6 = extract-der_only type_int e (omega arith) e_there (omega arith) in
      rw (r1, r2, r3, r4, r5, r6) (rw ((content-number n).0, (content-number e).0) refl)

-- For an RSA key whose two numbers are there and have 65000 bytes at most, and a buffer with 100 bytes
-- more than these, `DcmGetPublicKey` succeeds, and what it writes is, read by its types and lengths,
-- the name of the algorithm and the two numbers, with nothing left over at any level.
pub dcm_get_public_key-read :
    (m : Memory) (room : List ℕ) (info : PubKeyInfo)
    → IsSecurec m
    → info.key_alg ≡ alg_rsa
    → 0 < length info.n_or_x
    → 0 < length info.e_or_y
    → length info.n_or_x + length info.e_or_y ≤ 65000
    → length info.n_or_x + length info.e_or_y + 100 ≤ length room
    → (key : List ℕ) × (dcm_get_public_key m room info ≡ some (ok key))
      × (read_rsa_key key ≡ ok (rsa_en_oid, number 0 info.n_or_x, number 0 info.e_or_y, []))
unfolding dcm_get_public_key
dcm_get_public_key-read m room info sec rsa n_there e_there small wide =
    let e : (length room == 0) ≡ false = ground (arith, wide) in
    let k : (info.key_alg == alg_rsa) ≡ true = ground (arith, rsa) in
    (
      whole m room info sec n_there e_there small wide,
      rw (e, k) (rsa_key m room info sec n_there e_there small wide),
      read-whole m room info sec n_there e_there small wide,
    )
