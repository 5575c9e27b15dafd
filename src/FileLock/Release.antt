-- ===== src/FileLock/Release.antt =====
-- What `HksStorageFileLockRelease` of hks_storage_file_lock.c undoes.
use security_huks.Prelude.{
  ℕ, ◌+◌, ◌≡◌, refl, ap, ◌∙◌, inl, inr, true, false, ◌&&◌, Option, none, some, List, [], ◌∷◌, arith,
  ◌==◌, if◌then◌else◌, Bool-cases, Option-cases,
}
use security_huks.ParamSet.Build.{same_bytes}
use security_huks.FileLock.{
  FileLock, World, find_file_lock, add_ref, alloc_file_lock, append_file_lock, append_if_made,
  create_found, create, is_lock_in_list, release_ref, release,
}
use security_huks.FileLock.Counts.{uses, IsWell, found_in, eq_of_same_bytes}

listed-add_ref :
    (a b : ℕ) (ls : List FileLock) → is_lock_in_list b (add_ref a ls) ≡ is_lock_in_list b ls
unfolding is_lock_in_list add_ref
listed-add_ref a b [] = refl
listed-add_ref a b (l ∷ ls) = ground (arith, listed-add_ref a b ls)

-- The counter that went up comes down.
release_ref-add_ref :
    (a : ℕ) (ls : List FileLock)
    → IsWell ls
    → is_lock_in_list a ls ≡ true
    → release_ref a (add_ref a ls) ≡ ls
unfolding release_ref add_ref is_lock_in_list
release_ref-add_ref a [] v h = refl
release_ref-add_ref a (l ∷ ls) v h = ground (arith, release_ref-add_ref a ls v.3)

listed-append :
    (l : FileLock) (ls : List FileLock) → is_lock_in_list l.addr (append_file_lock l ls) ≡ true
unfolding is_lock_in_list append_file_lock
listed-append l [] = ground arith
listed-append l (x ∷ ls) = ground (arith, listed-append l ls)

-- A node with one user goes when that user does.
release_ref-append :
    (l : FileLock) (ls : List FileLock)
    → l.ref ≡ 1
    → is_lock_in_list l.addr ls ≡ false
    → release_ref l.addr (append_file_lock l ls) ≡ ls
unfolding release_ref append_file_lock is_lock_in_list
release_ref-append l [] one fresh = ground arith
release_ref-append l (x ∷ ls) one fresh = ground (arith, release_ref-append l ls)

-- `HksStorageFileLockRelease` of what `HksStorageFileLockCreate` returned brings the list back to
-- what it was: a lock with other users keeps them, and a new one is unlinked again.
pub release-create :
    (w : World) (addr : ℕ) (path : List ℕ) (ls : List FileLock) (a : ℕ)
    → IsWell ls
    → is_lock_in_list addr ls ≡ false
    → (create w addr (some path) ls).0 ≡ some a
    → release w (some a) (create w addr (some path) ls).1 ≡ ls
unfolding create create_found append_if_made alloc_file_lock release
release-create w addr path ls a v fresh h = elim (Option-cases (find_file_lock path ls)) [
  | inl e ↦ ground (
    arith,
    e,
    fresh,
    listed-append (record { addr = addr; path = path; ref = 1 }) ls,
    release_ref-append (record { addr = addr; path = path; ref = 1 }) ls refl fresh,
  )
  | inr (b, e) ↦ ground (
    arith,
    e,
    found_in path ls b e,
    listed-add_ref b b ls,
    release_ref-add_ref b ls v (found_in path ls b e),
  )
]

-- The path of the lock at an address.
unfoldable pub path_at : ℕ → List FileLock → List ℕ
path_at a [] = []
path_at a (l ∷ ls) = let rest = path_at a ls in if l.addr == a then l.path else rest

uses-none : (path : List ℕ) (ls : List FileLock) → find_file_lock path ls ≡ none → uses path ls ≡ 0
unfolding find_file_lock uses
uses-none path [] h = refl
uses-none path (l ∷ ls) h = ground (arith, uses-none path ls)

unfound :
    (q path : List ℕ) (ls : List FileLock)
    → same_bytes q path ≡ true
    → find_file_lock path ls ≡ none
    → find_file_lock q ls ≡ none
unfound q path ls e h = ap (λ t. find_file_lock t ls) (eq_of_same_bytes q path e) ∙ h

unfound_at :
    (q : List ℕ) (a : ℕ) (ls : List FileLock)
    → find_file_lock q ls ≡ none
    → is_lock_in_list a ls ≡ true
    → same_bytes q (path_at a ls) ≡ false
unfolding find_file_lock is_lock_in_list path_at
unfound_at q a [] h i = absurd (cc)
unfound_at q a (l ∷ ls) h i = ground (arith, unfound_at q a ls)

uses-release_ref :
    (q : List ℕ) (a : ℕ) (ls : List FileLock)
    → IsWell ls
    → is_lock_in_list a ls ≡ true
    → uses q ls ≡ uses q (release_ref a ls) + (if same_bytes q (path_at a ls) then 1 else 0)
unfolding uses release_ref is_lock_in_list path_at
uses-release_ref q a [] v h = absurd (cc)
uses-release_ref q a (l ∷ ls) v h = elim (Bool-cases (l.addr == a)) [
  | inl e ↦ ground (arith, unfound q l.path ls, uses-none q ls)
  | inr e ↦ elim (Bool-cases (same_bytes q l.path)) [
    | inl f ↦ ground (arith, e, f, other f)
    | inr f ↦ ground (arith, e, f, uses-release_ref q a ls v.3)
  ]
]
  where
    other :
        same_bytes q l.path ≡ true
        → is_lock_in_list a ls ≡ true
        → same_bytes q (path_at a ls) ≡ false
    other f i = unfound_at q a ls (unfound q l.path ls f (v.2)) i

-- `HksStorageFileLockRelease` of a listed lock, under the mutex, takes one user from its path and
-- none from another; without the mutex it changes nothing.
uses-release :
    (w : World) (q : List ℕ) (a : ℕ) (ls : List FileLock)
    → IsWell ls
    → is_lock_in_list a ls ≡ true
    → uses q ls
      ≡ uses q (release w (some a) ls)
        + (if w.has_mutex && w.can_lock && same_bytes q (path_at a ls) then 1 else 0)
unfolding release
uses-release w q a ls v i = ground (arith, uses-release_ref q a ls v i)

unlisted-release_ref :
    (a b : ℕ) (ls : List FileLock)
    → is_lock_in_list b ls ≡ false
    → is_lock_in_list b (release_ref a ls) ≡ false
unfolding is_lock_in_list release_ref
unlisted-release_ref a b [] h = refl
unlisted-release_ref a b (l ∷ ls) h = ground (arith, unlisted-release_ref a b ls)

unfound-release_ref :
    (a : ℕ) (q : List ℕ) (ls : List FileLock)
    → find_file_lock q ls ≡ none
    → find_file_lock q (release_ref a ls) ≡ none
unfolding find_file_lock release_ref
unfound-release_ref a q [] h = refl
unfound-release_ref a q (l ∷ ls) h = ground (arith, unfound-release_ref a q ls)

release_ref-IsWell : (a : ℕ) (ls : List FileLock) → IsWell ls → IsWell (release_ref a ls)
unfolding release_ref
release_ref-IsWell a [] v = tt
release_ref-IsWell a (l ∷ ls) v = ground (
  arith,
  release_ref-IsWell a ls v.3,
  unlisted-release_ref a l.addr ls,
  unfound-release_ref a l.path ls,
)

-- Locks stay distinct and in use when one is released.
pub release-IsWell :
    (w : World) (a : Option ℕ) (ls : List FileLock) → IsWell ls → IsWell (release w a ls)
unfolding release
release-IsWell w none ls v = v
release-IsWell w (some a) ls v = ground (arith, release_ref-IsWell a ls v)
