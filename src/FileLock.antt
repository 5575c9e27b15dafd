-- ===== src/FileLock.antt =====
-- services/huks_standard/huks_service/main/hks_storage/src/hks_storage_file_lock.c: one lock for
-- each path of a key file, counted by its users. The linked list from `g_lockListFirst` to
-- `g_lockListLast` is a list; a node is known by its address. `HksMutex`, `HksLock` and `malloc`
-- are outside: a call is told whether each of their steps succeeds.
pub mod Counts
pub mod Release
mod Tests
use security_huks.Prelude.{
  ℕ, ◌+◌, ◌%◌, ◌^◌, Bool, true, false, ◌&&◌, Option, none, some, List, [], ◌∷◌, ◌++◌, length, ltb,
  ◌==◌, if◌then◌else◌, add32, sub32,
}
use security_huks.Memory.{Memory, hks_malloc}
use security_huks.ParamSet.Build.{same_bytes}

-- `struct HksStorageFileLock`, without its `next`.
pub record FileLock : Type 0 where
  pub addr : ℕ
  pub path : List ℕ
  pub ref : ℕ

-- What a call finds around it: whether `g_lockListLock` was created, whether it can be locked,
-- whether memory is found and `HksLockCreate` gives a lock.
pub record World : Type 0 where
  pub has_mutex : Bool
  pub can_lock : Bool
  pub memory : Memory
  pub can_create : Bool

-- `sizeof(HksStorageFileLock)` of a 64-bit build.
abbrev pub file_lock_size : ℕ
file_lock_size = 32

-- `FindFileLock`; `strcmp` compares the characters up to the end of both texts.
unfoldable pub find_file_lock : List ℕ → List FileLock → Option ℕ
find_file_lock path [] = none
find_file_lock path (l ∷ ls) =
    let rest = find_file_lock path ls in if same_bytes path l.path then some l.addr else rest

-- `AddRef` at an address.
unfoldable pub add_ref : ℕ → List FileLock → List FileLock
add_ref addr [] = []
add_ref addr (l ∷ ls) =
    let rest = add_ref addr ls in
    if l.addr == addr then record l { ref = add32 l.ref 1 } ∷ ls else l ∷ rest

-- `AllocFileLock` at the address that `HksMalloc` returns.
unfoldable pub alloc_file_lock : World → ℕ → List ℕ → Option FileLock
alloc_file_lock w addr path =
    if hks_malloc w.memory file_lock_size && (hks_malloc w.memory (length path + 1) && w.can_create)
    then some (record { addr = addr; path = path; ref = 1 })
    else none

-- `AppendFileLock`.
unfoldable pub append_file_lock : FileLock → List FileLock → List FileLock
append_file_lock l [] = l ∷ []
append_file_lock l (x ∷ ls) = x ∷ append_file_lock l ls

unfoldable pub append_if_made : Option FileLock → List FileLock → Option ℕ × List FileLock
unfolding append_file_lock
append_if_made none ls = (none, ls)
append_if_made (some l) ls = (some l.addr, append_file_lock l ls)

-- The body of `HksStorageFileLockCreate` under the mutex.
unfoldable pub create_found :
    World → ℕ → List ℕ → Option ℕ → List FileLock → Option ℕ × List FileLock
unfolding append_if_made
create_found w addr path none ls = append_if_made (alloc_file_lock w addr path) ls
create_found w addr path (some a) ls = (some a, add_ref a ls)

-- `HksStorageFileLockCreate`; `addr` is where `HksMalloc` would put a new lock.
unfoldable pub create : World → ℕ → Option (List ℕ) → List FileLock → Option ℕ × List FileLock
create w addr none ls = (none, ls)
create w addr (some path) ls =
    let r = create_found w addr path (find_file_lock path ls) ls in
    if w.has_mutex && w.can_lock then r else (none, ls)

-- `IsLockInList`.
unfoldable pub is_lock_in_list : ℕ → List FileLock → Bool
is_lock_in_list addr [] = false
is_lock_in_list addr (l ∷ ls) =
    let rest = is_lock_in_list addr ls in if l.addr == addr then true else rest

-- `Release`: the count goes down, and at 0 the node is unlinked and freed.
unfoldable pub release_ref : ℕ → List FileLock → List FileLock
release_ref addr [] = []
release_ref addr (l ∷ ls) =
    let rest = release_ref addr ls in
    if l.addr == addr
    then (if sub32 l.ref 1 == 0 then ls else record l { ref = sub32 l.ref 1 } ∷ ls)
    else l ∷ rest

-- `HksStorageFileLockRelease`.
unfoldable pub release : World → Option ℕ → List FileLock → List FileLock
release w none ls = ls
release w (some addr) ls =
    let r : List FileLock = if is_lock_in_list addr ls then release_ref addr ls else ls in
    if w.has_mutex && w.can_lock then r else ls
