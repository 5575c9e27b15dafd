-- ===== src/Check/Values/Modes.antt =====
-- The block modes, paddings and digests of
-- interfaces/inner_api/huks_standard/main/include/hks_type_enum.h, by their names without HKS.
use Prim.Native.Nat.{ℕ}

abbrev pub digest_none : ℕ
digest_none = 0

abbrev pub digest_md5 : ℕ
digest_md5 = 1

abbrev pub digest_sm3 : ℕ
digest_sm3 = 2

abbrev pub digest_sha1 : ℕ
digest_sha1 = 10

abbrev pub digest_sha224 : ℕ
digest_sha224 = 11

abbrev pub digest_sha256 : ℕ
digest_sha256 = 12

abbrev pub digest_sha384 : ℕ
digest_sha384 = 13

abbrev pub digest_sha512 : ℕ
digest_sha512 = 14

abbrev pub padding_none : ℕ
padding_none = 0

abbrev pub padding_oaep : ℕ
padding_oaep = 1

abbrev pub padding_pss : ℕ
padding_pss = 2

abbrev pub padding_pkcs1_v1_5 : ℕ
padding_pkcs1_v1_5 = 3

abbrev pub padding_pkcs7 : ℕ
padding_pkcs7 = 5

abbrev pub padding_iso_iec_9796_2 : ℕ
padding_iso_iec_9796_2 = 6

abbrev pub mode_ecb : ℕ
mode_ecb = 1

abbrev pub mode_cbc : ℕ
mode_cbc = 2

abbrev pub mode_ctr : ℕ
mode_ctr = 3

abbrev pub mode_ofb : ℕ
mode_ofb = 4

abbrev pub mode_cfb : ℕ
mode_cfb = 5

abbrev pub mode_ccm : ℕ
mode_ccm = 31

abbrev pub mode_gcm : ℕ
mode_gcm = 32
