-- ===== src/StorageLite.antt =====
-- services/huks_standard/huks_service/main/hks_storage/src/hks_storage_lite.c, the key store of
-- the builds with _STORAGE_LITE_: all keys stand in one file, and the image of this file in memory
-- is the buffer `g_storageImageBuffer`. The buffer is the header struct and the bytes behind it.
-- A header that is on file has `total_len` of at least its own size, as loading checks; the copy
-- of an image to a larger buffer relies on it.
pub mod Files
pub mod Load
pub mod Keys
pub mod Operate
pub mod KeyInfos
pub mod Described
pub mod Members
pub mod Listed
pub mod Destroy
pub mod Destroyed
pub mod Records
pub mod Find
pub mod Cut
pub mod Splice
pub mod Abstract
pub mod Held
pub mod Midst
pub mod Stored
pub mod Kept
pub mod Replaced
pub mod HeaderBytes
pub mod Reload
mod Tests
use security_huks.Prelude.{
  ℕ, ◌+◌, ◌-◌, ◌*◌, ◌/◌, ◌%◌, ◌^◌, Bool, true, false, ◌&&◌, ◌||◌, not, List, [], ◌∷◌, ◌++◌, length,
  take, drop, ltb, ◌==◌, if◌then◌else◌, Option,
}
use security_huks.Memory.{Memory}
use security_huks.ParamSet.{ParamSet}
use security_huks.Check.{Result}
use security_huks.Ipc.{le_bytes, le_u32}

-- `struct HksStoreHeaderInfo`.
pub record Header : Type 0 where
  pub version : ℕ
  pub key_count : ℕ
  pub total_len : ℕ
  pub sealing_alg : ℕ
  pub salt : List ℕ
  pub hmac : List ℕ

-- `g_storageImageBuffer`: the header, and the bytes from its end to the end of the buffer.
pub record Image : Type 0 where
  pub head : Header
  pub body : List ℕ

-- The image, if there is one, and the files of HKS_KEY_STORE_PATH by their full names.
pub record Store : Type 0 where
  pub image : Option Image
  pub files : List ℕ → Option (List ℕ)

-- What a call finds around it: memory; HKS_KEY_STORE_PATH; which files the system opens, reads,
-- writes and removes; HuksAccessCalcHeaderMac, and what HuksAccessGenerateRandom gives.
pub record Device : Type 0 where
  pub memory : Memory
  pub path : List ℕ
  pub can_open : List ℕ → Bool
  pub can_read : List ℕ → Bool
  pub can_write : List ℕ → Bool
  pub can_remove : List ℕ → Bool
  pub calc_mac : ParamSet → List ℕ → List ℕ → Result (List ℕ)
  pub random : ℕ → Result (List ℕ)

-- `sizeof(struct HksStoreHeaderInfo)`, `sizeof(struct HksStoreKeyInfo)`.
abbrev pub store_header_size : ℕ
store_header_size = 92

abbrev pub key_info_size : ℕ
key_info_size = 40

abbrev pub max_storage_size : ℕ
max_storage_size = 5120

abbrev pub max_buf_size : ℕ
max_buf_size = 65536

abbrev pub buf_size_addend : ℕ
buf_size_addend = 1024

abbrev pub max_key_alias_len : ℕ
max_key_alias_len = 64

abbrev pub max_key_auth_id_len : ℕ
max_key_auth_id_len = 64

-- HKS_MAX_KEY_MATERIAL_LEN: HksPubKeyInfo, three numbers of 4096 bits, and a tag.
abbrev pub max_key_material_len : ℕ
max_key_material_len = 20 + 512 * 3 + 16

-- The size of the buffer.
abbrev pub image_size : Image → ℕ
image_size img = store_header_size + length img.body

-- The first byte, the uint16_t and the bytes of an uint16_t.
unfoldable pub head_byte : List ℕ → ℕ
head_byte [] = 0
head_byte (b ∷ _) = b

unfoldable pub le_u16 : List ℕ → ℕ
le_u16 (a ∷ b ∷ _) = a + 256 * b
le_u16 _ = 0

unfoldable pub le_bytes_16 : ℕ → List ℕ
le_bytes_16 n = n % 256 ∷ n / 256 % 256 ∷ []

-- The header in memory: what its HMAC is taken of, and the HMAC.
unfoldable pub sealed_bytes : Header → List ℕ
unfolding le_bytes_16
sealed_bytes h =
    le_bytes_16 h.version
    ++ (le_bytes_16 h.key_count ++ (le_bytes h.total_len ++ (le_bytes h.sealing_alg ++ h.salt)))

unfoldable pub header_bytes : Header → List ℕ
unfolding sealed_bytes
header_bytes h = sealed_bytes h ++ h.hmac

unfoldable pub header_of : List ℕ → Header
unfolding le_u16
header_of bs = record {
  version = le_u16 bs;
  key_count = le_u16 (drop 2 bs);
  total_len = le_u32 (drop 4 bs);
  sealing_alg = le_u32 (drop 8 bs);
  salt = take 16 (drop 12 bs);
  hmac = take 64 (drop 28 bs);
}

-- The members of `struct HksStoreKeyInfo` at the head of some bytes, and the alias behind it.
unfoldable pub key_info_len : List ℕ → ℕ
unfolding le_u16
key_info_len info = le_u16 info

unfoldable pub key_size : List ℕ → ℕ
unfolding le_u16
key_size info = le_u16 (drop 2 info)

unfoldable pub alias_size : List ℕ → ℕ
unfolding head_byte
alias_size info = head_byte (drop 38 info)

unfoldable pub auth_id_size : List ℕ → ℕ
unfolding head_byte
auth_id_size info = head_byte (drop 39 info)

unfoldable pub alias_of : List ℕ → List ℕ
unfolding alias_size
alias_of info = take (alias_size info) (drop key_info_size info)

-- `HksIsKeyInfoLenInvalid` of hks_storage_adapter.c.
unfoldable pub is_key_info_len_invalid : List ℕ → Bool
unfolding key_info_len key_size alias_size auth_id_size
is_key_info_len_invalid info =
    ltb max_key_alias_len (alias_size info)
    || (alias_size info == 0)
    || ltb max_key_material_len (key_size info)
    || (key_size info == 0)
    || ltb max_key_auth_id_len (auth_id_size info)
    || not
        (key_info_len info == key_info_size + alias_size info + auth_id_size info + key_size info)
