-- ===== src/Ipc/Client.antt =====
-- frameworks/huks_standard/main/os_dependency/ipc/src/hks_client_ipc_serialization.c: the calls
-- by which a client packs its arguments. A blob is its bytes; a parameter set is its bytes too,
-- as many as its size field says.
use security_huks.Prelude.{
  ℕ, ◌+◌, ◌%◌, ◌-◌, ◌*◌, ◌/◌, ◌^◌, ◌||◌, Option, none, some, List, length, ltb, if◌then◌else◌,
  add32,
}
use security_huks.Status.{Status, success, buffer_too_small, insufficient_memory, invalid_argument}
use security_huks.Memory.{Memory}
use security_huks.Ipc.{Cursor, Writer, ◌>>◌, put, align_size, le_bytes}

abbrev pub size_size : ℕ
size_size = 4

unfoldable pub copy_uint32_to_buffer : ℕ → Writer
copy_uint32_to_buffer value c =
    if ltb (length c.bytes) c.offset || ltb (length c.bytes - c.offset) size_size
    then (buffer_too_small, c)
    else (
      success,
      record { bytes = put c.offset (le_bytes value) c.bytes; offset = add32 c.offset size_size },
    )

-- The second copy is not checked: where `memcpy_s` refuses it the bytes stay as they were.
unfoldable pub put_blob : Memory → ℕ → List ℕ → List ℕ → List ℕ
put_blob m off blob old =
    if m.memcpy_s (length old - off) (length blob) then put off blob old else old

unfoldable pub copy_blob_to_buffer : Memory → List ℕ → Writer
copy_blob_to_buffer m blob c =
    let start = add32 c.offset size_size in
    if ltb (length c.bytes) c.offset
      || ltb (length c.bytes - c.offset) (size_size + align_size (length blob))
    then (buffer_too_small, c)
    else (
      success,
      record {
        bytes = put_blob m start blob (put c.offset (le_bytes (length blob)) c.bytes);
        offset = add32 start (align_size (length blob));
      },
    )

unfoldable pub copy_param_set_to_buffer : Memory → List ℕ → Writer
copy_param_set_to_buffer m set_ c =
    if ltb (length c.bytes) c.offset || ltb (length c.bytes - c.offset) (align_size (length set_))
    then (buffer_too_small, c)
    else if m.memcpy_s (length c.bytes - c.offset) (length set_)
    then (
      success,
      record {
        bytes = put c.offset set_ c.bytes;
        offset = add32 c.offset (align_size (length set_));
      },
    )
    else (insufficient_memory, c)

-- An empty offset on a buffer.
abbrev pub from_start : List ℕ → Cursor
from_start bytes = record { bytes = bytes; offset = 0 }

module _ (m : Memory) where
  unfoldable pub generate_key_pack : List ℕ → List ℕ → List ℕ → ℕ → Status × Cursor
  generate_key_pack dest key_alias param_set_in key_out_size =
      (copy_blob_to_buffer m key_alias
          >> copy_param_set_to_buffer m param_set_in
          >> copy_uint32_to_buffer key_out_size)
        (from_start dest)

  unfoldable pub import_key_pack : List ℕ → List ℕ → List ℕ → List ℕ → Status × Cursor
  import_key_pack dest key_alias param_set key =
      (copy_blob_to_buffer m key_alias
          >> copy_param_set_to_buffer m param_set
          >> copy_blob_to_buffer m key)
        (from_start dest)

  unfoldable pub import_wrapped_key_pack :
      List ℕ → List ℕ → List ℕ → List ℕ → List ℕ → Status × Cursor
  import_wrapped_key_pack dest key_alias wrapping_key_alias param_set wrapped_key_data =
      (copy_blob_to_buffer m key_alias
          >> copy_blob_to_buffer m wrapping_key_alias
          >> copy_param_set_to_buffer m param_set
          >> copy_blob_to_buffer m wrapped_key_data)
        (from_start dest)

  -- `HksDeleteKeyPack` and `HksKeyExistPack` have one body.
  unfoldable pub delete_key_pack : List ℕ → List ℕ → List ℕ → Status × Cursor
  delete_key_pack key_alias param_set dest =
      (copy_blob_to_buffer m key_alias >> copy_param_set_to_buffer m param_set) (from_start dest)

  unfoldable pub key_exist_pack : List ℕ → List ℕ → List ℕ → Status × Cursor
  key_exist_pack key_alias param_set dest =
      (copy_blob_to_buffer m key_alias >> copy_param_set_to_buffer m param_set) (from_start dest)

  unfoldable pub export_public_key_pack : List ℕ → List ℕ → ℕ → List ℕ → Status × Cursor
  export_public_key_pack key_alias param_set key_size dest =
      (copy_blob_to_buffer m key_alias
          >> copy_uint32_to_buffer key_size
          >> copy_param_set_to_buffer m param_set)
        (from_start dest)

  unfoldable pub get_key_param_set_pack : List ℕ → List ℕ → ℕ → List ℕ → Status × Cursor
  get_key_param_set_pack key_alias param_set key_out_size dest =
      (copy_blob_to_buffer m key_alias
          >> copy_uint32_to_buffer key_out_size
          >> copy_param_set_to_buffer m param_set)
        (from_start dest)

  unfoldable pub once_param_pack : List ℕ → List ℕ → Writer
  once_param_pack key param_set = copy_blob_to_buffer m key >> copy_param_set_to_buffer m param_set

  -- An argument that may be NULL.
  unfoldable pub copy_blob_if_set : Option (List ℕ) → Writer
  copy_blob_if_set none c = (success, c)
  copy_blob_if_set (some blob) c = copy_blob_to_buffer m blob c

  unfoldable pub copy_uint32_if_set : Option ℕ → Writer
  copy_uint32_if_set none c = (success, c)
  copy_uint32_if_set (some n) c = copy_uint32_to_buffer n c

  unfoldable pub once_data_pack : List ℕ → Option (List ℕ) → Option ℕ → Writer
  unfolding copy_blob_if_set copy_uint32_if_set
  once_data_pack input_data rsv_data output_size =
      copy_blob_to_buffer m input_data
      >> copy_blob_if_set rsv_data
      >> copy_uint32_if_set output_size

  unfoldable pub agree_key_pack : List ℕ → List ℕ → List ℕ → List ℕ → ℕ → Status × Cursor
  agree_key_pack dest param_set private_key peer_public_key agreed_key_size =
      (copy_param_set_to_buffer m param_set
          >> copy_blob_to_buffer m private_key
          >> copy_blob_to_buffer m peer_public_key
          >> copy_uint32_to_buffer agreed_key_size)
        (from_start dest)

  unfoldable pub derive_key_pack : List ℕ → List ℕ → List ℕ → ℕ → Status × Cursor
  derive_key_pack dest param_set kdf_key derived_key_size =
      (copy_param_set_to_buffer m param_set
          >> copy_blob_to_buffer m kdf_key
          >> copy_uint32_to_buffer derived_key_size)
        (from_start dest)

  unfoldable pub certificate_chain_pack : List ℕ → List ℕ → List ℕ → ℕ → Status × Cursor
  certificate_chain_pack dest key_alias param_set cert_chain_size =
      (copy_blob_to_buffer m key_alias
          >> copy_param_set_to_buffer m param_set
          >> copy_uint32_to_buffer cert_chain_size)
        (from_start dest)

  unfoldable pub list_aliases_pack : List ℕ → List ℕ → Status × Cursor
  list_aliases_pack param_set dest = copy_param_set_to_buffer m param_set (from_start dest)

-- `CheckAndCalculateSize`: the bytes of base64 for `in_size` bytes, and of what stands round it, in
-- uint32_t throughout.
unfoldable pub check_and_calculate_size : ℕ → ℕ → Status × ℕ
check_and_calculate_size in_size extra_size =
    let groups = add32 in_size 2 / 3 in
    let text = (groups * 4) % 2 ^ 32 in
    if ltb (2 ^ 32 - 1 - 2) in_size
    then (invalid_argument, 0)
    else if ltb ((2 ^ 32 - 1) / 4) groups
    then (invalid_argument, 0)
    else if ltb (2 ^ 32 - 1 - extra_size) text
    then (invalid_argument, 0)
    else (success, add32 text extra_size)
