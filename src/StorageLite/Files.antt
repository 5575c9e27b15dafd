-- ===== src/StorageLite/Files.antt =====
-- utils/file_operator/hks_file_operator_lite.c of the builds with _STORAGE_LITE_: reading, writing
-- and removing a file. Every call uses the directory HKS_KEY_STORE_PATH. That the system reads and
-- writes all bytes that it is asked for, or fails, is the business of the system.
use security_huks.Prelude.{
  ℕ, Bool, true, false, Option, none, some, List, [], ◌∷◌, ◌++◌, length, take, ltb, leb, ◌==◌,
  if◌then◌else◌,
}
use security_huks.Status.{
  Status, success, invalid_argument, malloc_fail, internal_error, open_file_fail, read_file_fail,
  write_file_fail, remove_file_fail, not_exist,
}
use security_huks.Memory.{hks_malloc}
use security_huks.ParamSet.Build.{same_bytes}
use security_huks.Check.{Result, ok, error, ◌>>=◌}
use security_huks.StorageLite.{Store, Device}

abbrev pub max_file_name_len : ℕ
max_file_name_len = 512

-- `path[strlen(path) - 1] != '/'`.
unfoldable pub needs_slash : List ℕ → Bool
needs_slash [] = true
needs_slash (c ∷ []) = if c == 47 then false else true
needs_slash (c ∷ d ∷ cs) = needs_slash (d ∷ cs)

-- `GetFullFileName`: a text fits if its end fits too.
unfoldable pub get_full_file_name : Device → List ℕ → Result (List ℕ)
unfolding needs_slash
get_full_file_name d name =
    let full = d.path ++ ((if needs_slash d.path then 47 ∷ [] else []) ++ name) in
    if hks_malloc d.memory max_file_name_len
    then (if leb max_file_name_len (length full) then error internal_error else ok full)
    else error malloc_fail

-- `FileRead` from the start of a file into a buffer of a size.
unfoldable pub file_read : Device → Store → List ℕ → ℕ → Result (List ℕ)
file_read d s full size = elim (s.files full) [
  | none ↦ error invalid_argument
  | some bs ↦
      if ltb (length bs) size
      then error invalid_argument
      else if d.can_open full
      then (if d.can_read full then ok (take size bs) else error read_file_fail)
      else error open_file_fail
]

-- `HksFileRead`.
unfoldable pub hks_file_read : Device → Store → List ℕ → ℕ → Result (List ℕ)
unfolding get_full_file_name file_read
hks_file_read d s name size =
    if size == 0
    then error invalid_argument
    else get_full_file_name d name >>= λ full. file_read d s full size

-- The files after one is given its bytes.
unfoldable pub with_file : Store → List ℕ → Option (List ℕ) → Store
with_file s full bs = record s { files = λ n. if same_bytes n full then bs else s.files n }

-- `FileWrite`, which truncates the file.
unfoldable pub file_write : Device → Store → List ℕ → List ℕ → Status × Store
unfolding with_file
file_write d s full bs =
    if d.can_open full
    then (if d.can_write full
        then (success, with_file s full (some bs))
        else (write_file_fail, with_file s full (some [])))
    else (open_file_fail, s)

-- `HksFileWrite`.
unfoldable pub hks_file_write : Device → Store → List ℕ → List ℕ → Status × Store
unfolding get_full_file_name file_write
hks_file_write d s name bs =
    if length bs == 0
    then (invalid_argument, s)
    else elim (get_full_file_name d name) [ error e ↦ (e, s) | ok full ↦ file_write d s full bs ]

-- `HksFileSize`, 0 on every failure.
unfoldable pub hks_file_size : Device → Store → List ℕ → ℕ
unfolding get_full_file_name
hks_file_size d s name = elim (get_full_file_name d name) [
  | error e ↦ 0
  | ok full ↦ elim (s.files full) [ none ↦ 0 | some bs ↦ length bs ]
]

-- `HksIsFileExist`.
unfoldable pub hks_is_file_exist : Device → Store → List ℕ → Status
unfolding get_full_file_name
hks_is_file_exist d s name = elim (get_full_file_name d name) [
  | error e ↦ e
  | ok full ↦ elim (s.files full) [ none ↦ not_exist | some bs ↦ success ]
]

-- `HksFileRemove`.
unfoldable pub hks_file_remove : Device → Store → List ℕ → Status × Store
unfolding get_full_file_name with_file
hks_file_remove d s name = elim (get_full_file_name d name) [
  | error e ↦ (e, s)
  | ok full ↦ elim (s.files full) [
    | none ↦ (remove_file_fail, s)
    | some bs ↦
        if d.can_remove full then (success, with_file s full none) else (remove_file_fail, s)
  ]
]
