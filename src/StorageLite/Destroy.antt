-- ===== src/StorageLite/Destroy.antt =====
-- HksStoreDestroy of hks_storage_lite.c. The flag is whether the build has HKS_ENABLE_CLEAN_FILE,
-- with which a file is written over before it is removed.
use security_huks.Prelude.{ℕ, Bool, ◌||◌, List, [], ◌∷◌, replicate, ltb, ◌==◌, if◌then◌else◌}
use security_huks.Status.{Status, success, malloc_fail, file_size_fail, is_success}
use security_huks.Memory.{hks_malloc}
use security_huks.Check.{Result, ok, error}
use security_huks.StorageLite.{Store, Device}
use security_huks.StorageLite.Files.{hks_file_write, hks_file_size, hks_file_remove}
use security_huks.StorageLite.Load.{key_store_file_name}

abbrev pub max_file_size : ℕ
max_file_size = 10240

-- "info1.data" and "info2.data".
abbrev pub info1_file_name : List ℕ
info1_file_name = 105 ∷ 110 ∷ 102 ∷ 111 ∷ 49 ∷ 46 ∷ 100 ∷ 97 ∷ 116 ∷ 97 ∷ []

abbrev pub info2_file_name : List ℕ
info2_file_name = 105 ∷ 110 ∷ 102 ∷ 111 ∷ 50 ∷ 46 ∷ 100 ∷ 97 ∷ 116 ∷ 97 ∷ []

-- The next step on the files, after a step that may have failed.
abbrev pub and_then : Status × Store → (Store → Status × Store) → Status × Store
and_then r k = if is_success r.0 then k r.1 else r

-- The last write of `CleanFile`.
unfoldable pub write_random : Device → List ℕ → Result (List ℕ) → Store → Status × Store
write_random d name (error e) s = (e, s)
write_random d name (ok bs) s = hks_file_write d s name bs

-- `CleanFile`: zeros, ones and random bytes over the file.
unfoldable pub clean_file : Device → Store → List ℕ → Status × Store
unfolding write_random
clean_file d s name =
    let size = hks_file_size d s name in
    if (size == 0) || ltb max_file_size size
    then (file_size_fail, s)
    else if hks_malloc d.memory size
    then and_then
        (and_then (hks_file_write d s name (replicate size 0))
          (λ s'. hks_file_write d s' name (replicate size 1)))
        (write_random d name (d.random size))
    else (malloc_fail, s)

-- `RemoveFile`, of which every failure is only logged.
unfoldable pub remove_file : Device → Bool → Store → List ℕ → Store
unfolding clean_file
remove_file d clean s name =
    let s' = if clean then (clean_file d s name).1 else s in (hks_file_remove d s' name).1

-- `HksStoreDestroy`.
unfoldable pub hks_store_destroy : Device → Bool → Store → Status × Store
unfolding remove_file
hks_store_destroy d clean s =
    let s1 = remove_file d clean s key_store_file_name in
    let s2 = remove_file d clean s1 info1_file_name in
    (success, remove_file d clean s2 info2_file_name)
