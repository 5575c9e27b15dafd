-- ===== src/Asn1/Tests.antt =====
-- Values at which the theorems on the DER encoding are applied.
use security_huks.Prelude.{
  ℕ, ◌≤◌, ◌<◌, ◌≡◌, refl, List, [], ◌∷◌, ◌++◌, length, replicate, some, arith,
}
use security_huks.Status.{success, buffer_too_small}
use security_huks.Memory.{ample, IsSecurec}
use security_huks.Check.{ok}
use security_huks.Check.Values.{alg_rsa}
use security_huks.Asn1.{
  Asn1Blob, Out, Asn1Obj, type_int, dcm_asn1_insert_value, dcm_asn1_extract_tag, advance,
}
use security_huks.Asn1.Lengths.{number}
use security_huks.Asn1.PublicKey.{PubKeyInfo, rsa_en_oid, dcm_get_public_key}
use security_huks.Asn1.RsaKey.{dcm_get_public_key-read}
use security_huks.Asn1.Sequences.{read_rsa_key}
use security_huks.Asn1.Inserted.{Means, Says, extract_tag-insert_value, extract_tag-inside}

securec : IsSecurec ample
securec = record {
  fits = λ room count some_byte h. ground arith;
  refuses = λ room count h. ground arith;
}

abbrev big : Asn1Blob
big = record { type = type_int; bytes = 0 ∷ 200 ∷ 1 ∷ [] }

abbrev buffer : Out
buffer = record { written = 9 ∷ []; room = replicate 8 0 }

-- A leading zero goes, and comes back since the number would be negative without it.
written :
    dcm_asn1_insert_value ample buffer big
    ≡ (success, record { written = 9 ∷ 2 ∷ 3 ∷ 0 ∷ 200 ∷ 1 ∷ []; room = replicate 3 0 })
unfolding dcm_asn1_insert_value
written = refl

extract_tag-insert_value_example :
    (enc : List ℕ) × (length enc ≤ 8)
    × (length enc ≤ 8 → dcm_asn1_insert_value ample buffer big ≡ (success, advance buffer enc))
    × (0 < 8 → 8 < length enc → dcm_asn1_insert_value ample buffer big ≡ (buffer_too_small, buffer))
    × ((more : List ℕ)
        → (obj : Asn1Obj) × (dcm_asn1_extract_tag (enc ++ more) type_int ≡ ok (obj, more))
          × Means big obj.value.bytes)
extract_tag-insert_value_example =
    extract_tag-insert_value ample buffer big securec (omega arith) (omega arith) (omega arith)

abbrev object : Asn1Obj
object = record { header = 2 ∷ 2 ∷ []; value = record { type = 2; bytes = 5 ∷ 6 ∷ [] } }

extract_tag-inside_example :
    (object.value.type ≡ 2)
    × Says 2 (length object.value.bytes) object.header
    × (object.header ++ (object.value.bytes ++ 7 ∷ []) ≡ 2 ∷ 2 ∷ 5 ∷ 6 ∷ 7 ∷ [])
extract_tag-inside_example =
    extract_tag-inside (2 ∷ 2 ∷ 5 ∷ 6 ∷ 7 ∷ []) 2 object (7 ∷ [])
      (unfold dcm_asn1_extract_tag in refl)

abbrev rsa : PubKeyInfo
rsa = record { key_alg = alg_rsa; key_size = 16; n_or_x = 200 ∷ 7 ∷ []; e_or_y = 1 ∷ 0 ∷ 1 ∷ [] }

dcm_get_public_key-read_example :
    (key : List ℕ) × (dcm_get_public_key ample (replicate 120 0) rsa ≡ some (ok key))
    × (read_rsa_key key ≡ ok (rsa_en_oid, number 0 (200 ∷ 7 ∷ []), number 0 (1 ∷ 0 ∷ 1 ∷ []), []))
dcm_get_public_key-read_example =
    dcm_get_public_key-read ample (replicate 120 0) rsa securec refl (omega arith) (omega arith)
      (omega arith) (omega arith)
