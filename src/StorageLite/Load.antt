-- ===== src/StorageLite/Load.antt =====
-- The header of the image in hks_storage_lite.c: its HMAC, a fresh one, and the file that is loaded
-- or written with it.
use security_huks.Prelude.{
  ℕ, ◌||◌, Option, none, some, List, [], ◌∷◌, length, replicate, drop, ltb, ◌==◌, if◌then◌else◌,
}
use security_huks.Status.{
  Status, success, invalid_argument, malloc_fail, insufficient_memory, invalid_key_file,
  read_file_fail, is_success,
}
use security_huks.Memory.{Memory, hks_malloc}
use security_huks.ParamSet.{ParamSet, Param, null, init_param_set, add_params}
use security_huks.ParamSet.Build.{build_param_set, same_bytes}
use security_huks.ParamSet.Tags.{tag_digest}
use security_huks.Check.{Result, ok, error, ◌>>=◌, return}
use security_huks.Check.Values.{digest_sha512}
use security_huks.StorageLite.{
  Header, Image, Store, Device, store_header_size, max_storage_size, max_buf_size, sealed_bytes,
  header_bytes, header_of,
}
use security_huks.StorageLite.Files.{hks_file_read, hks_file_write, hks_file_size}

-- HKS_KEY_STORE_FILE_NAME, "hks_keystore".
abbrev pub key_store_file_name : List ℕ
key_store_file_name = 104 ∷ 107 ∷ 115 ∷ 95 ∷ 107 ∷ 101 ∷ 121 ∷ 115 ∷ 116 ∷ 111 ∷ 114 ∷ 101 ∷ []

abbrev pub digest_param : Param
digest_param = record {
  tag = tag_digest;
  scalar = digest_sha512;
  blob = record { size = 0; ptr = null };
}

-- The set that HksBuildParamSet leaves, if it succeeds.
unfoldable pub built_set : Status × Option ParamSet → Result ParamSet
built_set (st, none) = error st
built_set (st, some s) = if is_success st then ok s else error st

-- `ConstructCalcMacParamSet`.
unfoldable pub construct_calc_mac_param_set : Memory → Result ParamSet
unfolding built_set
construct_calc_mac_param_set m = do
  s ← built_set (init_param_set m)
  let r = add_params s (digest_param ∷ [])
  if is_success r.0 then built_set (build_param_set m (some r.1)) else error r.0

-- `CalcHeaderMac` of some bytes.
unfoldable pub calc_header_mac : Device → List ℕ → List ℕ → Result (List ℕ)
unfolding construct_calc_mac_param_set
calc_header_mac d salt bs =
    if length bs == 0
    then error invalid_argument
    else if hks_malloc d.memory (length bs)
    then (if d.memory.memcpy_s (length bs) (length bs)
        then construct_calc_mac_param_set d.memory >>= (λ ps. d.calc_mac ps salt bs)
        else error insufficient_memory)
    else error malloc_fail

-- `RefreshKeyInfoHeaderHmac`.
unfoldable pub refresh_hmac : Device → Header → Result Header
unfolding calc_header_mac
refresh_hmac d h =
    if hks_malloc d.memory store_header_size
    then (do mac ← calc_header_mac d h.salt (sealed_bytes h); return (record h { hmac = mac }))
    else error malloc_fail

-- A header of no keys: HKS_STORAGE_VERSION, HKS_STORAGE_RESERVED_SEALING_ALG, and a salt.
unfoldable pub fresh_header : List ℕ → List ℕ → Header
fresh_header salt hmac = record {
  version = 1;
  key_count = 0;
  total_len = store_header_size;
  sealing_alg = 0xFEDCBA98;
  salt = salt;
  hmac = hmac;
}

-- `InitImageBuffer`.
unfoldable pub init_image_buffer : Device → Result Header
unfolding calc_header_mac fresh_header
init_image_buffer d = do
  salt ← d.random 16
  mac ← calc_header_mac d salt (sealed_bytes (fresh_header salt []))
  return (fresh_header salt mac)

-- `CheckKeyInfoHeaderValid`.
unfoldable pub check_key_info_header_valid : Device → Header → Result (Unit {0})
unfolding calc_header_mac
check_key_info_header_valid d h = do
  mac ← calc_header_mac d h.salt (sealed_bytes h)
  if same_bytes mac h.hmac then return tt else error invalid_key_file

-- `ApplyImageBuffer` where there is no buffer yet.
unfoldable pub apply_image_buffer : Device → ℕ → Status
apply_image_buffer d size =
    if (size == 0) || ltb max_buf_size size
    then invalid_argument
    else if hks_malloc d.memory size
    then success
    else malloc_fail

-- The read in `FreshImageBuffer`, of which every failure is one.
unfoldable pub read_image : Result (List ℕ) → Result Image
read_image (error e) = error read_file_fail
read_image (ok bs) = ok (record { head = header_of bs; body = drop store_header_size bs })

-- `FreshImageBuffer`: the whole image, where the header that was read is longer than itself.
unfoldable pub fresh_image_buffer : Device → Store → Header → Result Image
unfolding read_image
fresh_image_buffer d s h =
    let total = h.total_len in
    if ltb total store_header_size || ltb max_storage_size total
    then error invalid_key_file
    else if total == store_header_size
    then ok (record { head = h; body = [] })
    else if ltb (hks_file_size d s key_store_file_name) total
    then error invalid_key_file
    else if hks_malloc d.memory total
    then read_image (hks_file_read d s key_store_file_name total)
    else error malloc_fail

-- `LoadFileToBuffer`, from the header that was read, or the lack of one.
unfoldable pub load_read : Device → Store → Result (List ℕ) → Result Image
unfolding check_key_info_header_valid fresh_image_buffer init_image_buffer
load_read d s (error e) = do h ← init_image_buffer d; return (record { head = h; body = [] })
load_read d s (ok bs) = do
  checked ← check_key_info_header_valid d (header_of bs)
  fresh_image_buffer d s (header_of bs)

-- The image after a call that frees it on failure.
unfoldable pub loaded : Store → Result Image → Status × Store
loaded s (error e) = (e, record s { image = none })
loaded s (ok img) = (success, record s { image = some img })

-- `HksLoadFileToBuffer`.
unfoldable pub hks_load_file_to_buffer : Device → Store → Status × Store
unfolding apply_image_buffer load_read loaded
hks_load_file_to_buffer d s = elim s.image [
  | some img ↦ (success, s)
  | none ↦
      let st = apply_image_buffer d store_header_size in
      if is_success st
      then loaded s (load_read d s (hks_file_read d s key_store_file_name store_header_size))
      else (st, s)
]

-- `CleanStorageKeyInfo`, with the bytes of the buffer behind the header, which are cleared.
unfoldable pub clean_storage_key_info : Device → Store → ℕ → Status × Store
unfolding init_image_buffer
clean_storage_key_info d s room = elim (init_image_buffer d) [
  | error e ↦ (e, record s { image = none })
  | ok h ↦
      let img : Image = record { head = h; body = replicate room 0 } in
      let r = hks_file_write d s key_store_file_name (header_bytes h) in
      (r.0, record r.1 { image = if is_success r.0 then some img else none })
]

-- `HksFileBufferRefresh`.
unfoldable pub hks_file_buffer_refresh : Device → Store → Status × Store
unfolding apply_image_buffer clean_storage_key_info
hks_file_buffer_refresh d s = elim s.image [
  | some img ↦ clean_storage_key_info d s (length img.body)
  | none ↦
      let st = apply_image_buffer d store_header_size in
      if is_success st then clean_storage_key_info d s 0 else (st, s)
]
