-- ===== src/FileLock/Counts.antt =====
-- hks_storage_file_lock.c keeps one lock for each path with the number of its users.
use security_huks.Prelude.{
  ℕ, ◌+◌, ◌^◌, ◌<◌, ◌≡◌, refl, sym, ap, ◌∙◌, inl, inr, true, false, none, some, List, [], ◌∷◌,
  arith, if◌then◌else◌, Bool-cases, Option-cases,
}
use security_huks.ParamSet.Build.{same_bytes}
use security_huks.FileLock.{
  FileLock, World, find_file_lock, add_ref, alloc_file_lock, append_file_lock, append_if_made,
  create_found, create, is_lock_in_list,
}

pub same_bytes_refl : (bs : List ℕ) → same_bytes bs bs ≡ true
unfolding same_bytes
same_bytes_refl [] = refl
same_bytes_refl (b ∷ bs) = ground (arith, same_bytes_refl bs)

pub eq_of_same_bytes : (as' bs : List ℕ) → same_bytes as' bs ≡ true → as' ≡ bs
unfolding same_bytes
eq_of_same_bytes [] [] h = refl
eq_of_same_bytes [] (b ∷ bs) h = absurd (cc)
eq_of_same_bytes (a ∷ as') [] h = absurd (cc)
eq_of_same_bytes (a ∷ as') (b ∷ bs) h = ground (arith, eq_of_same_bytes as' bs)

-- How many users the path has.
unfoldable pub uses : List ℕ → List FileLock → ℕ
uses path [] = 0
uses path (l ∷ ls) = let rest = uses path ls in if same_bytes path l.path then l.ref else rest

-- Every lock has users, fewer than an uint32_t can count, and no two share a path or an address.
abbrev pub IsWell : List FileLock → Type 0
IsWell [] = Unit
IsWell (l ∷ ls) =
    ((0 < l.ref) × (l.ref + 1 < 2 ^ 32))
    × (is_lock_in_list l.addr ls ≡ false)
    × (find_file_lock l.path ls ≡ none)
    × IsWell ls

pub found_in :
    (path : List ℕ) (ls : List FileLock) (a : ℕ)
    → find_file_lock path ls ≡ some a
    → is_lock_in_list a ls ≡ true
unfolding find_file_lock is_lock_in_list
found_in path [] a h = absurd (cc)
found_in path (l ∷ ls) a h = ground (arith, found_in path ls a)

uses-none : (path : List ℕ) (ls : List FileLock) → find_file_lock path ls ≡ none → uses path ls ≡ 0
unfolding find_file_lock uses
uses-none path [] h = refl
uses-none path (l ∷ ls) h = ground (arith, uses-none path ls)

-- The two paths are told apart by every text that is one of them.
pub apart :
    (q path k : List ℕ)
    → same_bytes q k ≡ true
    → same_bytes path k ≡ false
    → same_bytes q path ≡ false
apart q path k h n = elim (Bool-cases (same_bytes q path)) [
  | inl e ↦
      let x : q ≡ k = eq_of_same_bytes q k h in
      let y : q ≡ path = eq_of_same_bytes q path e in
      let z : path ≡ k = sym y ∙ x in
      let n' : same_bytes k k ≡ false = ap (λ t. same_bytes t k) (sym z) ∙ n in
      absurd (ground (arith, same_bytes_refl k, n'))
  | inr e ↦ e
]

pub same_bytes-swap :
    (q path k : List ℕ) → same_bytes path k ≡ true → same_bytes q k ≡ same_bytes q path
same_bytes-swap q path k h = ap (same_bytes q) (sym (eq_of_same_bytes path k h))

uses-add_ref :
    (q path : List ℕ) (ls : List FileLock) (a : ℕ)
    → IsWell ls
    → find_file_lock path ls ≡ some a
    → uses q (add_ref a ls) ≡ uses q ls + (if same_bytes q path then 1 else 0)
unfolding uses add_ref find_file_lock is_lock_in_list
uses-add_ref q path [] a v h = absurd (cc)
uses-add_ref q path (l ∷ ls) a v h = elim (Bool-cases (same_bytes path l.path)) [
  | inl e ↦ ground (arith, same_bytes-swap q path l.path e)
  | inr e ↦ ground (arith, uses-add_ref q path ls a v.3, found_in path ls a, apart q path l.path)
]

uses-append :
    (q : List ℕ) (ls : List FileLock) (l : FileLock)
    → find_file_lock l.path ls ≡ none
    → uses q (append_file_lock l ls) ≡ uses q ls + (if same_bytes q l.path then l.ref else 0)
unfolding uses append_file_lock find_file_lock
uses-append q [] l h = ground arith
uses-append q (x ∷ ls) l h = ground (arith, uses-append q ls l, apart q l.path x.path)

-- `HksStorageFileLockCreate` that returns a lock adds one user to its path, and none to another.
uses-create :
    (w : World) (addr : ℕ) (path q : List ℕ) (ls : List FileLock) (a : ℕ)
    → IsWell ls
    → (create w addr (some path) ls).0 ≡ some a
    → uses q (create w addr (some path) ls).1 ≡ uses q ls + (if same_bytes q path then 1 else 0)
unfolding create create_found append_if_made alloc_file_lock
uses-create w addr path q ls a v h = elim (Option-cases (find_file_lock path ls)) [
  | inl e ↦ ground (arith, e, uses-append q ls (record { addr = addr; path = path; ref = 1 }))
  | inr (b, e) ↦ ground (arith, e, uses-add_ref q path ls b v)
]
