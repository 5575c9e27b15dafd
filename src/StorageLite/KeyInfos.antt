-- ===== src/StorageLite/KeyInfos.antt =====
-- The list of keys of hks_storage_lite.c, with the parameter set that hks_storage_adapter.c makes of
-- the struct at the head of a key.
use security_huks.Prelude.{
  ℕ, zero, suc, ◌-◌, ◌||◌, Option, none, some, List, [], ◌∷◌, length, take, drop, ltb, ◌==◌,
  if◌then◌else◌, add32,
}
use security_huks.Status.{
  Status, success, buffer_too_small, insufficient_memory, invalid_key_file, invalid_key_info,
  is_success,
}
use security_huks.Memory.{Memory}
use security_huks.ParamSet.{null, outside, Param, ParamSet, init_param_set, add_params}
use security_huks.ParamSet.Tags.{
  tag_algorithm, tag_purpose, tag_key_size, tag_digest, tag_padding, tag_block_mode, tag_key,
  tag_key_auth_id, tag_key_role, tag_key_flag, tag_key_domain,
}
use security_huks.ParamSet.Build.{build_param_set, moved}
use security_huks.Check.{Result, ok, error, ◌>>=◌}
use security_huks.Ipc.{le_u32}
use security_huks.StorageLite.{
  Image, Store, store_header_size, key_info_size, image_size, head_byte, le_u16, key_info_len,
  alias_size, auth_id_size, alias_of, is_key_info_len_invalid,
}
use security_huks.StorageLite.Load.{built_set}
use security_huks.StorageLite.Keys.{bytes_at}

abbrev uint_param : ℕ → ℕ → Param
uint_param tag value = record { tag = tag; scalar = value; blob = record { size = 0; ptr = null } }

abbrev pub bytes_param : ℕ → List ℕ → Param
bytes_param tag bs = record {
  tag = tag;
  scalar = 0;
  blob = record { size = length bs; ptr = outside bs };
}

-- The members of `struct HksStoreKeyInfo` that `AddStorageFixedParams` adds.
unfoldable pub storage_fixed_params : List ℕ → List Param
unfolding head_byte le_u16
storage_fixed_params info =
    uint_param tag_key_flag (head_byte (drop 20 info))
    ∷ uint_param tag_algorithm (head_byte (drop 21 info))
    ∷ uint_param tag_purpose (le_u32 (drop 28 info))
    ∷ uint_param tag_key_size (le_u16 (drop 26 info))
    ∷ uint_param tag_digest (head_byte (drop 23 info))
    ∷ uint_param tag_padding (head_byte (drop 24 info))
    ∷ uint_param tag_block_mode (head_byte (drop 22 info))
    ∷ uint_param tag_key_role (le_u32 (drop 32 info))
    ∷ uint_param tag_key_domain (le_u16 (drop 36 info))
    ∷ []

-- The identity behind the alias.
unfoldable pub auth_id_of : List ℕ → List ℕ
auth_id_of info = take (auth_id_size info) (drop (alias_size info) (drop key_info_size info))

-- `HksAddParams` in a chain.
unfoldable pub add : ParamSet → List Param → Result ParamSet
add s ps = let r = add_params s ps in if is_success r.0 then ok r.1 else error r.0

-- `AddStorageParams`.
unfoldable pub add_auth_id : List ℕ → ParamSet → Result ParamSet
unfolding add auth_id_of
add_auth_id info s =
    if auth_id_size info == 0
    then ok s
    else add s (bytes_param tag_key_auth_id (auth_id_of info) ∷ [])

unfoldable pub add_key : Option (List ℕ) → ParamSet → Result ParamSet
unfolding add
add_key none s = ok s
add_key (some key) s = add s (bytes_param tag_key key ∷ [])

unfoldable pub add_storage_params : Option (List ℕ) → List ℕ → ParamSet → Result ParamSet
unfolding add add_auth_id add_key storage_fixed_params
add_storage_params key info s =
    if ltb (length info) key_info_size || is_key_info_len_invalid info
    then error invalid_key_info
    else add s (storage_fixed_params info) >>= add_auth_id info >>= add_key key

-- `TranslateKeyInfoBlobToParamSet`; `key` may be NULL.
unfoldable pub translate_key_info : Memory → Option (List ℕ) → List ℕ → Result ParamSet
unfolding add_storage_params
translate_key_info m key info = do
  empty ← built_set (init_param_set m)
  s ← add_storage_params key info empty
  built_set (build_param_set m (some s))

-- `struct HksKeyInfo`: a buffer for the alias, and one for a set, whose size field is its size.
pub record KeyInfo : Type 0 where
  pub alias : List ℕ
  pub param_set : ParamSet

-- The copy of the set to a buffer. Its blobs still point into the first set, which is then freed.
unfoldable pub give_set : Memory → KeyInfo → Result ParamSet → Status × KeyInfo
unfolding moved
give_set m k (error e) = (e, k)
give_set m k (ok s) =
    if ltb k.param_set.set_size s.set_size
    then (buffer_too_small, k)
    else if m.memcpy_s k.param_set.set_size s.set_size
    then (success, record k { param_set = moved s })
    else (insufficient_memory, k)

-- `GetKeyInfoList`.
unfoldable pub get_key_info : Memory → KeyInfo → List ℕ → Status × KeyInfo
unfolding give_set
get_key_info m k info =
    if ltb (length k.alias) (alias_size info)
    then (buffer_too_small, k)
    else if m.memcpy_s (length k.alias) (alias_size info)
    then give_set m (record k { alias = alias_of info }) (translate_key_info m none info)
    else (insufficient_memory, k)

-- `GetAndCheckKeyCount`.
unfoldable pub get_and_check_key_count : Option Image → ℕ → Result ℕ
get_and_check_key_count none count = error invalid_key_file
get_and_check_key_count (some img) count =
    if img.head.key_count == 0
    then ok 0
    else if ltb (image_size img) img.head.total_len
    then error invalid_key_file
    else if ltb count img.head.key_count
    then error buffer_too_small
    else ok img.head.key_count

-- A list of entries behind one that a round has filled, if it has.
abbrev pub with_entry :
    Status × KeyInfo → List KeyInfo → Status × List KeyInfo → Status × List KeyInfo
with_entry (st, k) ks rest = if is_success st then (rest.0, k ∷ rest.1) else (st, k ∷ ks)

-- The loop of `HksStoreGetKeyInfoList` with some rounds left. There are as many entries as rounds.
unfoldable pub fill_list : Memory → Image → ℕ → ℕ → List KeyInfo → Status × List KeyInfo
unfolding bytes_at
fill_list m img zero off ks = (success, ks)
fill_list m img (suc n) off [] = (buffer_too_small, [])
fill_list m img (suc n) off (k ∷ ks) =
    let total = img.head.total_len in
    let info = bytes_at img off in
    let len = key_info_len info in
    let rest = fill_list m img n (add32 off len) ks in
    if ltb total off || ltb (total - off) key_info_size
    then (invalid_key_file, k ∷ ks)
    else if is_key_info_len_invalid info || ltb (total - off) len
    then (invalid_key_file, k ∷ ks)
    else with_entry (get_key_info m k (take len info)) ks rest

unfoldable pub fill_from :
    Memory → Option Image → Result ℕ → List KeyInfo → Status × List KeyInfo × ℕ
unfolding fill_list
fill_from m none count ks = (invalid_key_file, ks, length ks)
fill_from m (some img) (error e) ks = (e, ks, length ks)
fill_from m (some img) (ok count) ks =
    let r = fill_list m img count store_header_size ks in
    (r.0, r.1, if is_success r.0 then count else length ks)

-- `HksStoreGetKeyInfoList` into an array: the result, the array, and the number of entries.
unfoldable pub hks_store_get_key_info_list :
    Memory → Store → List KeyInfo → Status × List KeyInfo × ℕ
unfolding fill_from get_and_check_key_count
hks_store_get_key_info_list m s ks =
    fill_from m s.image (get_and_check_key_count s.image (length ks)) ks
