-- ===== src/FileLock/Tests.antt =====
-- Concrete lists of locks.
use security_huks.Prelude.{ℕ, ◌≡◌, refl, true, some, List, [], ◌∷◌, arith}
use security_huks.Memory.{ample}
use security_huks.ParamSet.Build.{same_bytes}
use security_huks.FileLock.{
  FileLock, World, create, create_found, release, is_lock_in_list, find_file_lock,
}
use security_huks.FileLock.Counts.{IsWell}
use security_huks.FileLock.Release.{release-create, release-IsWell}

abbrev world : World
world = record { has_mutex = true; can_lock = true; memory = ample; can_create = true }

abbrev key_path : List ℕ
key_path = 47 ∷ 107 ∷ []

abbrev locks : List FileLock
locks =
    record { addr = 64; path = 47 ∷ []; ref = 1 }
    ∷ record { addr = 96; path = key_path; ref = 2 }
    ∷ []

locks-IsWell : IsWell locks
unfolding is_lock_in_list find_file_lock same_bytes
locks-IsWell = ((omega arith), refl, refl, ((omega arith), refl, refl, tt))

create_again : (create world 128 (some key_path) locks).0 ≡ some 96
unfolding create create_found find_file_lock same_bytes
create_again = refl

release-create_example : release world (some 96) (create world 128 (some key_path) locks).1 ≡ locks
unfolding is_lock_in_list
release-create_example = release-create world 128 key_path locks 96 locks-IsWell refl create_again

release-IsWell_example : IsWell (release world (some 64) locks)
release-IsWell_example = release-IsWell world (some 64) locks locks-IsWell
