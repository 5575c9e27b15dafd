-- ===== src/StorageLite/Operate.antt =====
-- The operations of hks_storage_lite.c on keys: HksStoreKeyBlob, HksStoreDeleteKeyBlob,
-- HksStoreGetKeyBlob and their like, and the files of root key material.
use security_huks.Prelude.{
  ℕ, ◌+◌, ◌-◌, Bool, true, false, Option, none, some, List, ◌++◌, length, take, if◌then◌else◌,
  sub32,
}
use security_huks.Status.{
  Status, success, malloc_fail, insufficient_memory, invalid_key_file, not_exist, read_file_fail,
  is_success,
}
use security_huks.Memory.{Memory, hks_malloc}
use security_huks.Check.{Result, ok, error, ◌>>=◌}
use security_huks.StorageLite.{
  Header, Image, Store, Device, store_header_size, key_info_len, header_bytes,
}
use security_huks.StorageLite.Files.{hks_file_read, hks_file_write, hks_is_file_exist}
use security_huks.StorageLite.Load.{key_store_file_name, refresh_hmac}
use security_huks.StorageLite.Keys.{
  bytes_at, get_key_offset, counted_up, counted_down, delete_key, get_len_after_add_key,
  append_new_key,
}

-- The first bytes of the buffer, as many as `totalLen` says.
unfoldable pub image_bytes : Image → List ℕ
image_bytes img = header_bytes img.head ++ take (img.head.total_len - store_header_size) img.body

-- The copy of the header to a struct of its own, with an HMAC of its own.
unfoldable pub new_header : Device → Header → Result Header
new_header d h =
    if d.memory.memcpy_s store_header_size store_header_size
    then refresh_hmac d h
    else error insufficient_memory

-- The header goes back to the image.
unfoldable pub replace_header : Memory → Header → Image → Status × Image
replace_header m h img =
    if m.memcpy_s store_header_size store_header_size
    then (success, record img { head = h })
    else (insufficient_memory, img)

-- The next step on an image, after a step that may have failed.
abbrev pub and_then : Status × Image → (Image → Status × Image) → Status × Image
and_then r k = if is_success r.0 then k r.1 else r

-- The header that `StoreKeyBlob` computes before it touches the image; `old` is the offset of a key
-- with the same alias.
unfoldable pub header_after_store : Device → Image → Option ℕ → List ℕ → Result Header
unfolding new_header counted_up
header_after_store d img none key_blob = do
  total ← get_len_after_add_key key_blob img.head.total_len
  new_header d (record (counted_up img.head) { total_len = total })
header_after_store d img (some off) key_blob = do
  total ←
      get_len_after_add_key key_blob (sub32 img.head.total_len (key_info_len (bytes_at img off)))
  new_header d (record img.head { total_len = total })

unfoldable pub delete_old : Memory → Image → Option ℕ → Status × Image
delete_old m img none = (success, img)
delete_old m img (some off) = delete_key m img off

-- `StoreKeyBlob`.
unfoldable pub store_in_image : Device → Image → Option ℕ → List ℕ → Status × Image
unfolding header_after_store delete_old replace_header
store_in_image d img old key_blob = elim (header_after_store d img old key_blob) [
  | error e ↦ (e, img)
  | ok h ↦
      and_then (and_then (delete_old d.memory img old) (λ i. append_new_key d.memory i key_blob))
        (replace_header d.memory h)
]

-- The image goes to the file, where the last step succeeded.
unfoldable pub save : Device → Store → Status × Image → Status × Store
unfolding image_bytes
save d s r =
    let s' = record s { image = some r.1 } in
    if is_success r.0 then hks_file_write d s' key_store_file_name (image_bytes r.1) else (r.0, s')

-- A search that fails because the alias is not there is no failure here.
unfoldable pub old_offset : Result ℕ → Result (Option ℕ)
old_offset (ok off) = ok (some off)
old_offset (error not_exist) = ok none
old_offset (error e) = error e

unfoldable pub store_key :
    Device → Store → Option Image → Result (Option ℕ) → List ℕ → Status × Store
unfolding store_in_image save
store_key d s none old key_blob = (invalid_key_file, s)
store_key d s (some img) (error e) key_blob = (e, s)
store_key d s (some img) (ok old) key_blob = save d s (store_in_image d img old key_blob)

-- `GetFileName` allocates a text of the name.
unfoldable pub store_root_material : Device → Store → List ℕ → List ℕ → Status × Store
store_root_material d s name bs =
    if hks_malloc d.memory (length name + 1) then hks_file_write d s name bs else (malloc_fail, s)

-- `HksStoreKeyBlob`; the flag tells HKS_STORAGE_TYPE_ROOT_KEY from the other types.
unfoldable pub hks_store_key_blob : Device → Store → List ℕ → Bool → List ℕ → Status × Store
unfolding store_root_material store_key get_key_offset old_offset
hks_store_key_blob d s alias true key_blob = store_root_material d s alias key_blob
hks_store_key_blob d s alias false key_blob =
    store_key d s s.image (old_offset (get_key_offset s.image alias)) key_blob

-- The image without the key at an offset.
unfoldable pub delete_in_image : Device → Image → ℕ → Status × Image
unfolding new_header replace_header
delete_in_image d img off =
    elim (new_header d (counted_down img.head (key_info_len (bytes_at img off)))) [
      | error e ↦ (e, img)
      | ok h ↦ and_then (delete_key d.memory img off) (replace_header d.memory h)
    ]

unfoldable pub delete_if_found : Device → Store → Option Image → Result ℕ → Status × Store
unfolding delete_in_image save
delete_if_found d s img (error e) = (e, s)
delete_if_found d s none (ok off) = (invalid_key_file, s)
delete_if_found d s (some img) (ok off) = save d s (delete_in_image d img off)

-- `HksStoreDeleteKeyBlob`.
unfoldable pub hks_store_delete_key_blob : Device → Store → List ℕ → Status × Store
unfolding delete_if_found
hks_store_delete_key_blob d s alias = delete_if_found d s s.image (get_key_offset s.image alias)

-- A copy of the key at an offset.
unfoldable pub copy_key : Memory → List ℕ → Result (List ℕ)
copy_key m info =
    let len = key_info_len info in
    if hks_malloc m len
    then (if m.memcpy_s len len then ok (take len info) else error insufficient_memory)
    else error malloc_fail

unfoldable pub get_found : Memory → Option Image → Result ℕ → Result (List ℕ)
unfolding copy_key
get_found m img (error e) = error e
get_found m none (ok off) = error invalid_key_file
get_found m (some img) (ok off) = copy_key m (bytes_at img off)

-- `GetRootMaterial` into a buffer of a size.
unfoldable pub get_root_material : Device → Store → List ℕ → ℕ → Result (List ℕ)
get_root_material d s name size =
    if hks_malloc d.memory (length name + 1)
    then (elim (hks_file_read d s name size) [ error e ↦ error read_file_fail | ok bs ↦ ok bs ])
    else error malloc_fail

-- `HksStoreGetKeyBlob`; `size` is that of the buffer for root key material.
unfoldable pub hks_store_get_key_blob : Device → Store → List ℕ → Bool → ℕ → Result (List ℕ)
unfolding get_found get_root_material
hks_store_get_key_blob d s alias true size = get_root_material d s alias size
hks_store_get_key_blob d s alias false size =
    get_found d.memory s.image (get_key_offset s.image alias)

unfoldable pub size_at : Option Image → ℕ → Result ℕ
size_at none off = error invalid_key_file
size_at (some img) off = ok (key_info_len (bytes_at img off))

-- `HksStoreGetKeyBlobSize`.
unfoldable pub hks_store_get_key_blob_size : Store → List ℕ → Result ℕ
unfolding size_at
hks_store_get_key_blob_size s alias = get_key_offset s.image alias >>= size_at s.image

-- `IsRootMaterialExist`.
unfoldable pub is_root_material_exist : Device → Store → List ℕ → Status
is_root_material_exist d s name =
    if hks_malloc d.memory (length name + 1)
    then (if is_success (hks_is_file_exist d s name) then success else not_exist)
    else malloc_fail

-- `HksStoreIsKeyBlobExist`.
unfoldable pub hks_store_is_key_blob_exist : Device → Store → List ℕ → Bool → Status
unfolding is_root_material_exist
hks_store_is_key_blob_exist d s alias true = is_root_material_exist d s alias
hks_store_is_key_blob_exist d s alias false = elim (get_key_offset s.image alias) [
  | error e ↦ e
  | ok off ↦ success
]

-- `HksGetKeyCountByProcessName`.
unfoldable pub hks_get_key_count : Store → Result ℕ
hks_get_key_count s = elim s.image [
  | none ↦ error invalid_key_file
  | some img ↦ ok img.head.key_count
]

-- `HksStoreGetToatalSize`.
unfoldable pub hks_store_get_total_size : Store → Result ℕ
hks_store_get_total_size s = elim s.image [
  | none ↦ error invalid_key_file
  | some img ↦ ok img.head.total_len
]
