-- ===== src/StorageLite/Tests.antt =====
-- A store with one key, at which the theorems on the lite storage are applied.
use security_huks.Prelude.{
  ℕ, ◌≡◌, refl, true, false, none, some, List, [], ◌∷◌, ◌||◌, ◌++◌, length, map, replicate,
  if◌then◌else◌, arith,
}
use security_huks.Status.{success, storage_failure, not_exist}
use security_huks.Memory.{ample, hks_malloc, IsSecurec}
use security_huks.ParamSet.{
  init_param_set, add_params, check_before_add_params, add_loop, add_one, check_param_set,
  get_tag_type,
}
use security_huks.ParamSet.Build.{
  same_bytes, build_param_set, build_params, fresh_params, fresh_loop, fresh_round, fresh_param_set,
}
use security_huks.Check.{ok, error}
use security_huks.Ipc.{le_bytes}
use security_huks.StorageLite.{
  Header, Image, Store, Device, alias_of, sealed_bytes, is_key_info_len_invalid, le_bytes_16,
}
use security_huks.StorageLite.Files.{get_full_file_name}
use security_huks.StorageLite.Load.{
  digest_param, calc_header_mac, key_store_file_name, hks_load_file_to_buffer,
  construct_calc_mac_param_set,
}
use security_huks.StorageLite.Operate.{
  hks_store_key_blob, hks_store_get_key_blob, hks_store_delete_key_blob,
}
use security_huks.StorageLite.Records.{IsRecord, flat}
use security_huks.StorageLite.Find.{key_under, without}
use security_huks.StorageLite.Held.{IsShaped, IsGood}
use security_huks.StorageLite.Kept.{Keeps, Saved, IsOpen, store_key_blob-Keeps}
use security_huks.StorageLite.Replaced.{
  get_key_blob-store_key_blob, store_key_blob-full, get_key_blob-delete_key_blob,
}
use security_huks.StorageLite.Reload.{get_key_blob-load_file}
use security_huks.StorageLite.KeyInfos.{KeyInfo, hks_store_get_key_info_list}
use security_huks.StorageLite.Members.{Members, IsFit, encoded}
use security_huks.StorageLite.Listed.{IsRoomy, Lists, get_key_info_list-Lists}
use security_huks.StorageLite.Destroy.{info1_file_name, info2_file_name, hks_store_destroy}
use security_huks.StorageLite.Destroyed.{hks_store_destroy_lem}

abbrev device : Device
device = record {
  memory = ample;
  path = 47 ∷ 100 ∷ [];
  can_open = λ _. true;
  can_read = λ _. true;
  can_write = λ _. true;
  can_remove = λ _. true;
  calc_mac = λ _ _ _. ok (replicate 64 7);
  random = λ _. ok (replicate 16 1);
}

abbrev full : List ℕ
full = 47 ∷ 100 ∷ 47 ∷ key_store_file_name

ample-IsSecurec : IsSecurec ample
ample-IsSecurec = record {
  fits = λ room count some_byte h. ground arith;
  refuses = λ room count h. ground arith;
}

-- The set that goes with the HMAC.
made :
    construct_calc_mac_param_set ample
    ≡ ok (record { set_size = 32; params = digest_param ∷ []; payload = [] })
unfolding construct_calc_mac_param_set init_param_set add_params build_param_set hks_malloc
    check_before_add_params add_loop add_one check_param_set build_params get_tag_type fresh_params
    fresh_loop fresh_round fresh_param_set
made = refl

device-mac :
    (h : Header)
    → IsShaped h
    → (t : List ℕ) × (calc_header_mac device h.salt (sealed_bytes h) ≡ ok t) × (length t ≡ 64)
unfolding calc_header_mac
device-mac h p =
    let n : length (sealed_bytes h) ≡ 28 = unfold sealed_bytes le_bytes in omega (arith, p.salt) in
    let m : hks_malloc ample 28 ≡ true = unfold hks_malloc in refl in
    (replicate 64 7, rw (n, m, made) refl, refl)

device-IsGood : IsGood device
device-IsGood = record { securec = ample-IsSecurec; memory = λ n low high. refl; mac = device-mac }

device-IsOpen : IsOpen device full
unfolding get_full_file_name hks_malloc
device-IsOpen = record { name = refl; opens = refl; reads = refl; writes = refl }

-- A key of some bytes under an alias of one letter.
abbrev key : ℕ → ℕ → List ℕ
key letter b = 42 ∷ 0 ∷ 1 ∷ 0 ∷ (replicate 34 0 ++ (1 ∷ 0 ∷ letter ∷ b ∷ []))

key-IsRecord : (letter b : ℕ) → IsRecord (key letter b)
unfolding is_key_info_len_invalid
key-IsRecord letter b = record { valid = refl; whole = refl }

abbrev image : Image
image = record {
  head = record {
    version = 1;
    key_count = 1;
    total_len = 134;
    sealing_alg = 0xFEDCBA98;
    salt = replicate 16 1;
    hmac = replicate 64 7;
  };
  body = key 97 5;
}

abbrev store : Store
store = record { image = some image; files = λ _. none }

store-Keeps : Keeps store (key 97 5 ∷ [])
unfolding flat key_under
store-Keeps = record {
  img = image;
  there = refl;
  held = record {
    records = (key-IsRecord 97 5, tt);
    distinct = (refl, tt);
    counted = refl;
    total = refl;
    bounded = omega arith;
    spare = [];
    laid = refl;
  };
  shaped = record { version = omega arith; alg = omega arith; salt = refl };
}

get_key_blob-store_key_blob_example :
    (s' : Store) × (hks_store_key_blob device store (alias_of (key 98 6)) false (key 98 6)
      ≡ (success, s'))
    × Saved device s' full
    × ((alias : List ℕ) (size : ℕ)
        → hks_store_get_key_blob device s' alias false size ≡ (
            if same_bytes alias (alias_of (key 98 6))
            then ok (key 98 6)
            else hks_store_get_key_blob device store alias false size))
get_key_blob-store_key_blob_example =
    get_key_blob-store_key_blob device store full (key 97 5 ∷ []) (key 98 6) device-IsGood
      device-IsOpen store-Keeps (key-IsRecord 98 6)
      (unfold flat without alias_of same_bytes in omega arith)

store_key_blob-full_example :
    hks_store_key_blob device store (alias_of (replicate 5000 0)) false (replicate 5000 0)
    ≡ (storage_failure, store)
store_key_blob-full_example =
    store_key_blob-full device store (key 97 5 ∷ []) (replicate 5000 0) store-Keeps
      (unfold flat without alias_of same_bytes in omega arith) (omega arith)

get_key_blob-delete_key_blob_example :
    ((r : List ℕ)
      → key_under (97 ∷ []) (key 97 5 ∷ []) ≡ some r
      → (s' : Store) × (hks_store_delete_key_blob device store (97 ∷ []) ≡ (success, s'))
        × Saved device s' full
        × ((alias : List ℕ) (size : ℕ)
            → hks_store_get_key_blob device s' alias false size ≡ (
                if same_bytes alias (97 ∷ [])
                then error not_exist
                else hks_store_get_key_blob device store alias false size)))
    × (key_under (97 ∷ []) (key 97 5 ∷ []) ≡ none
        → hks_store_delete_key_blob device store (97 ∷ []) ≡ (not_exist, store))
get_key_blob-delete_key_blob_example =
    get_key_blob-delete_key_blob device store full (key 97 5 ∷ []) (97 ∷ []) device-IsGood
      device-IsOpen store-Keeps

-- The store after a key was put into it.
abbrev stored :
    (s' : Store) × (hks_store_key_blob device store (alias_of (key 98 6)) false (key 98 6)
      ≡ (success, s'))
    × Keeps s' (without (alias_of (key 98 6)) (key 97 5 ∷ []) ++ key 98 6 ∷ [])
    × Saved device s' full
stored =
    store_key_blob-Keeps device store full (key 97 5 ∷ []) (key 98 6) device-IsGood device-IsOpen
      store-Keeps (key-IsRecord 98 6) (unfold flat without alias_of same_bytes in omega arith)

get_key_blob-load_file_example :
    (s' : Store) × (hks_load_file_to_buffer device (record stored.0 { image = none })
      ≡ (success, s'))
    × ((alias : List ℕ) (size : ℕ)
        → hks_store_get_key_blob device s' alias false size
          ≡ hks_store_get_key_blob device stored.0 alias false size)
get_key_blob-load_file_example =
    get_key_blob-load_file device stored.0 full
      (without (alias_of (key 98 6)) (key 97 5 ∷ []) ++ key 98 6 ∷ []) device-IsGood device-IsOpen
      stored.2 stored.3

-- An entry of an array with room for a key.
abbrev entry : KeyInfo
entry = record {
  alias = replicate 64 0;
  param_set = record { set_size = 320; params = []; payload = [] };
}

entry-IsRoomy : IsRoomy entry
entry-IsRoomy = record { alias = omega arith; set = omega arith }

-- A key with an identity of two bytes, and a store that keeps it.
abbrev known : Members
known = record {
  random = replicate 16 9;
  flag = 1;
  key_alg = 20;
  key_mode = 2;
  digest = 12;
  padding = 3;
  rsv = 0;
  key_len = 256;
  purpose = 65539;
  role = 4;
  domain = 513;
  alias = 97 ∷ [];
  auth_id = 7 ∷ 8 ∷ [];
  key = 5 ∷ [];
}

known-IsFit : IsFit known
known-IsFit = record {
  random = refl;
  key_len = omega arith;
  purpose = omega arith;
  role = omega arith;
  domain = omega arith;
}

abbrev known_store : Store
known_store = record {
  image =
      some
        (record { head = record image.head { total_len = 136 }; body = encoded known ++ (0 ∷ []) });
  files = λ _. none;
}

known-Keeps : Keeps known_store (map encoded (known ∷ []))
unfolding flat key_under encoded is_key_info_len_invalid le_bytes le_bytes_16
known-Keeps = record {
  img = record { head = record image.head { total_len = 136 }; body = encoded known ++ (0 ∷ []) };
  there = refl;
  held = record {
    records = (record { valid = refl; whole = refl }, tt);
    distinct = (refl, tt);
    counted = refl;
    total = refl;
    bounded = omega arith;
    spare = 0 ∷ [];
    laid = refl;
  };
  shaped = record { version = omega arith; alg = omega arith; salt = refl };
}

get_key_info_list-Lists_example :
    (ks : List KeyInfo) × (hks_store_get_key_info_list ample known_store (entry ∷ entry ∷ [])
      ≡ (success, ks, 1))
    × Lists (known ∷ []) (entry ∷ entry ∷ []) ks
get_key_info_list-Lists_example =
    get_key_info_list-Lists ample known_store (known ∷ []) (entry ∷ entry ∷ []) ample-IsSecurec
      device-IsGood.memory (known-IsFit, tt) known-Keeps (entry-IsRoomy, (entry-IsRoomy, tt))
      (omega arith)

-- The store with every file there.
abbrev full_store : Store
full_store = record store { files = λ _. some (5 ∷ 6 ∷ []) }

abbrev info1 : List ℕ
info1 = 47 ∷ 100 ∷ 47 ∷ info1_file_name

abbrev info2 : List ℕ
info2 = 47 ∷ 100 ∷ 47 ∷ info2_file_name

hks_store_destroy_lem_example :
    let r = hks_store_destroy device true full_store in
    (r.0 ≡ success)
    × (r.1.image ≡ full_store.image)
    × ((f : List ℕ)
        → r.1.files f ≡ (
            if same_bytes f full || same_bytes f info1 || same_bytes f info2
            then none
            else full_store.files f))
hks_store_destroy_lem_example =
    hks_store_destroy_lem device true full_store full info1 info2 device-IsOpen.name
      (unfold get_full_file_name hks_malloc in refl) (unfold get_full_file_name hks_malloc in refl)
      refl refl refl
