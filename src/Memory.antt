-- ===== src/Memory.antt =====
-- frameworks/huks_standard/main/os_dependency/posix/hks_mem.c, and what the code relies on of the
-- C library: `malloc` may give memory or not, and `memcpy_s` of securec copies or refuses.
use security_huks.Prelude.{ℕ, ◌≤◌, ◌<◌, ◌≡◌, Bool, true, false, ◌||◌, not, ltb, ◌==◌, if◌then◌else◌}

abbrev pub max_malloc_size : ℕ
max_malloc_size = 0x800000

-- The environment of one call: whether `malloc` finds memory for a block of a size, and whether
-- `memcpy_s` succeeds, as a function of the room at the destination and the number of bytes.
pub record Memory : Type 0 where
  pub malloc : ℕ → Bool
  pub memcpy_s : ℕ → ℕ → Bool

-- What securec documents: a copy of at least one byte that fits succeeds, and one that does not
-- fit fails. Its limit of 2 GB for the room is left out.
pub record IsSecurec (m : Memory) : Type 0 where
  pub fits : (room count : ℕ) → 0 < count → count ≤ room → m.memcpy_s room count ≡ true
  pub refuses : (room count : ℕ) → room < count → m.memcpy_s room count ≡ false

-- Whether `HksMalloc` returns a block.
unfoldable pub hks_malloc : Memory → ℕ → Bool
hks_malloc m size = if (size == 0) || ltb max_malloc_size size then false else m.malloc size

-- An environment with memory to spare.
abbrev pub ample : Memory
ample = record { malloc = λ _. true; memcpy_s = λ room count. not (ltb room count) }
