-- ===== src/StorageLite/Keys.antt =====
-- The keys in the image of hks_storage_lite.c: the search for an alias, and the copies that take a
-- key out of the image and put one behind the others.
use security_huks.Prelude.{
  ℕ, zero, suc, ◌+◌, ◌-◌, ◌%◌, ◌^◌, ◌&&◌, ◌||◌, Option, none, some, List, ◌++◌, length, take, drop,
  replicate, ltb, leb, ◌==◌, if◌then◌else◌, add32, sub32,
}
use security_huks.Status.{
  Status, success, malloc_fail, insufficient_memory, invalid_key_file, not_exist, storage_failure,
}
use security_huks.Memory.{Memory, hks_malloc}
use security_huks.ParamSet.{is_addition_overflow}
use security_huks.ParamSet.Build.{same_bytes}
use security_huks.Check.{Result, ok, error}
use security_huks.Ipc.{put}
use security_huks.StorageLite.{
  Header, Image, store_header_size, key_info_size, max_storage_size, buf_size_addend, image_size,
  key_info_len, alias_size, is_key_info_len_invalid,
}

-- The bytes of the image from an offset behind the header on.
unfoldable pub bytes_at : Image → ℕ → List ℕ
bytes_at img off = drop (off - store_header_size) img.body

-- The loop of `GetKeyOffsetByKeyAlias` with some rounds left.
unfoldable pub find_key : List ℕ → Image → ℕ → ℕ → ℕ → Result ℕ
unfolding bytes_at
find_key alias img total zero off = error not_exist
find_key alias img total (suc n) off =
    let info = bytes_at img off in
    let rest = find_key alias img total n (add32 off (key_info_len info)) in
    if ltb total off || ltb (total - off) key_info_size
    then error invalid_key_file
    else if is_key_info_len_invalid info || ltb (total - off) (key_info_len info)
    then error invalid_key_file
    else if (alias_size info == length alias)
        && same_bytes alias (take (length alias) (drop key_info_size info))
    then ok off
    else rest

-- `GetKeyOffsetByKeyAlias`.
unfoldable pub get_key_offset : Option Image → List ℕ → Result ℕ
unfolding find_key
get_key_offset none alias = error invalid_key_file
get_key_offset (some img) alias =
    if img.head.key_count == 0
    then error not_exist
    else if ltb (image_size img) img.head.total_len
    then error invalid_key_file
    else find_key alias img img.head.total_len img.head.key_count store_header_size

-- The counters of the header after a key came or went; `keyCount` is a uint16_t.
unfoldable pub counted_up : Header → Header
counted_up h = record h { key_count = (h.key_count + 1) % 2 ^ 16 }

unfoldable pub counted_down : Header → ℕ → Header
counted_down h len = record h {
  key_count = (h.key_count + 2 ^ 16 - 1) % 2 ^ 16;
  total_len = sub32 h.total_len len;
}

-- The copies of `DeleteKey` where another key follows: `kept` are the bytes of those behind.
unfoldable pub close_gap : Image → ℕ → ℕ → List ℕ → List ℕ
close_gap img off len kept =
    put (img.head.total_len - len - store_header_size) (replicate len 0)
      (put (off - store_header_size) kept img.body)

-- `DeleteKey`.
unfoldable pub delete_key : Memory → Image → ℕ → Status × Image
unfolding bytes_at close_gap counted_down
delete_key m img off =
    let len = key_info_len (bytes_at img off) in
    let next = add32 off len in
    let total = img.head.total_len in
    let cleared = record img { body = put (off - store_header_size) (replicate len 0) img.body } in
    let kept = take (total - next) (bytes_at cleared next) in
    if ltb total next
    then (invalid_key_file, img)
    else if ltb next total
    then (if m.memcpy_s (total - off) (total - next)
        then (
          success,
          record { head = counted_down img.head len; body = close_gap cleared off len kept },
        )
        else (insufficient_memory, cleared))
    else (success, record { head = counted_down img.head len; body = cleared.body })

-- `AdjustImageBuffer`: a larger buffer.
unfoldable pub adjust_image_buffer : Memory → Image → ℕ → List ℕ → Status × Image
unfolding counted_up
adjust_image_buffer m img total_added key_blob =
    let total = img.head.total_len in
    let more = if ltb buf_size_addend (length key_blob) then length key_blob else buf_size_addend in
    let room = add32 (image_size img) more in
    let body =
      take (total - store_header_size) img.body
      ++ (key_blob ++ replicate (room - total - length key_blob) 0) in
    if hks_malloc m room
    then (if m.memcpy_s room total && m.memcpy_s (sub32 room total) (length key_blob)
        then (
          success,
          record { head = record (counted_up img.head) { total_len = total_added }; body = body },
        )
        else (insufficient_memory, img))
    else (malloc_fail, img)

-- `GetLenAfterAddKey`; `AppendNewKey` makes the same two checks.
unfoldable pub get_len_after_add_key : List ℕ → ℕ → Result ℕ
unfolding is_addition_overflow
get_len_after_add_key key_blob total =
    if is_addition_overflow total (length key_blob)
    then error insufficient_memory
    else if ltb max_storage_size (add32 total (length key_blob))
    then error storage_failure
    else ok (add32 total (length key_blob))

-- `AppendNewKey` once the length is known.
unfoldable pub append_to : Memory → Image → List ℕ → ℕ → Status × Image
unfolding counted_up adjust_image_buffer
append_to m img key_blob total_added =
    let total = img.head.total_len in
    if leb total_added (image_size img)
    then (if m.memcpy_s (image_size img - total) (length key_blob)
        then (
          success,
          record {
            head = record (counted_up img.head) { total_len = total_added };
            body = put (total - store_header_size) key_blob img.body;
          },
        )
        else (insufficient_memory, img))
    else adjust_image_buffer m img total_added key_blob

-- `AppendNewKey`.
unfoldable pub append_new_key : Memory → Image → List ℕ → Status × Image
unfolding append_to get_len_after_add_key
append_new_key m img key_blob = elim (get_len_after_add_key key_blob img.head.total_len) [
  | error e ↦ (e, img)
  | ok total_added ↦ append_to m img key_blob total_added
]
