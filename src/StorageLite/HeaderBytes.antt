-- ===== src/StorageLite/HeaderBytes.antt =====
-- The header of the image in hks_storage_lite.c as bytes, read again.
use security_huks.Prelude.{
  ℕ, ◌+◌, ◌*◌, ◌/◌, ◌%◌, ◌^◌, ◌<◌, ◌≡◌, subst, List, ◌++◌, length, length-append, take, take-append,
  drop, drop-append, append_assoc, arith,
}
use security_huks.Ipc.{le_bytes, le_u32}
use security_huks.StorageLite.{Header, le_u16, header_bytes, header_of}
use security_huks.StorageLite.Held.{IsShaped}

-- The bytes of a header, read as a header again.
module _ (h : Header) (p : IsShaped h) (mac : length h.hmac ≡ 64) (count : h.key_count < 2 ^ 16)
    (total : h.total_len < 2 ^ 32) (rest : List ℕ) where
  salt_bytes : take 16 ((h.salt ++ h.hmac) ++ rest) ≡ h.salt
  salt_bytes = rw (append_assoc h.salt h.hmac rest) (
      subst (λ n. take n (h.salt ++ (h.hmac ++ rest)) ≡ h.salt) p.salt
        (take-append h.salt (h.hmac ++ rest)))

  hmac_bytes : take 64 (drop 16 ((h.salt ++ h.hmac) ++ rest)) ≡ h.hmac
  hmac_bytes =
      let behind : drop 16 ((h.salt ++ h.hmac) ++ rest) ≡ h.hmac ++ rest =
        rw (append_assoc h.salt h.hmac rest) (
          subst (λ n. drop n (h.salt ++ (h.hmac ++ rest)) ≡ h.hmac ++ rest) p.salt
            (drop-append h.salt (h.hmac ++ rest))) in
      rw behind (subst (λ n. take n (h.hmac ++ rest) ≡ h.hmac) mac (take-append h.hmac rest))

  pub header_of-header_bytes : header_of (header_bytes h ++ rest) ≡ h
  unfolding header_of header_bytes le_u16 le_bytes le_u32
  header_of-header_bytes =
      let v : h.version % 256 + 256 * (h.version / 256 % 256) ≡ h.version =
        omega (arith, p.version) in
      let c : h.key_count % 256 + 256 * (h.key_count / 256 % 256) ≡ h.key_count = omega arith in
      let t : h.total_len % 256
            + 256 * (h.total_len / 256 % 256)
            + 65536 * (h.total_len / 65536 % 256)
            + 16777216 * (h.total_len / 16777216 % 256)
          ≡ h.total_len =
        omega arith in
      let a : h.sealing_alg % 256
            + 256 * (h.sealing_alg / 256 % 256)
            + 65536 * (h.sealing_alg / 65536 % 256)
            + 16777216 * (h.sealing_alg / 16777216 % 256)
          ≡ h.sealing_alg =
        omega (arith, p.alg) in
      λ i. record {
        version = v i;
        key_count = c i;
        total_len = t i;
        sealing_alg = a i;
        salt = salt_bytes i;
        hmac = hmac_bytes i;
      }

  pub length-header_bytes : length (header_bytes h) ≡ 92
  unfolding header_bytes le_bytes
  length-header_bytes = omega (arith, length-append h.salt h.hmac, p.salt)

  -- What is behind the header.
  pub drop-header_bytes : drop 92 (header_bytes h ++ rest) ≡ rest
  drop-header_bytes =
      subst (λ n. drop n (header_bytes h ++ rest) ≡ rest) length-header_bytes
        (drop-append (header_bytes h) rest)

  pub take-header_bytes : take 92 (header_bytes h ++ rest) ≡ header_bytes h
  take-header_bytes =
      subst (λ n. take n (header_bytes h ++ rest) ≡ header_bytes h) length-header_bytes
        (take-append (header_bytes h) rest)
