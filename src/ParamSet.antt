-- ===== src/ParamSet.antt =====
-- frameworks/huks_standard/main/common/src/hks_param.c: parameter sets, the argument format of
-- every HUKS call. A set is one block of memory: a header of two uint32_t, `paramsCnt` entries of
-- `sizeof(struct HksParam)` bytes (the sizes are those of a 64-bit build), then the bytes of its
-- blobs. The list `params` is the array of `paramsCnt` entries, `payload` the bytes after it.
pub mod Tags
pub mod Build
pub mod Size
pub mod Layout
pub mod Copy
pub mod Lookup
mod Tests
use security_huks.Prelude.{
  ℕ, ◌+◌, ◌-◌, ◌*◌, ◌/◌, ◌%◌, ◌^◌, Bool, true, false, not, ◌&&◌, ◌||◌, Option, none, some, List, [],
  ◌∷◌, ◌++◌, length, take, drop, ltb, ◌==◌, if◌then◌else◌, add32, sub32, elem,
}
use security_huks.Status.{Status, success, null_pointer, invalid_argument, malloc_fail}
use security_huks.Status.{insufficient_memory, param_not_exist, is_success}
use security_huks.Memory.{Memory, hks_malloc}
use Tags.{valid_tags}

-- Where a blob points: nowhere, into memory outside the set (the bytes found there), to an offset from
-- the start of its own set, or into a block that has been freed.
pub data Ptr : Type 0 where
  null : Ptr
  outside : List ℕ → Ptr
  inside : ℕ → Ptr
  freed : Ptr

pub record Blob : Type 0 where
  pub size : ℕ
  pub ptr : Ptr

-- The union of `struct HksParam` as the scalar and the blob that may stand in it. Every access
-- goes by the type in the tag.
pub record Param : Type 0 where
  pub tag : ℕ
  pub scalar : ℕ
  pub blob : Blob

pub record ParamSet : Type 0 where
  pub set_size : ℕ
  pub params : List Param
  pub payload : List ℕ

abbrev pub header_size : ℕ
header_size = 8

abbrev pub param_size : ℕ
param_size = 24

abbrev pub param_set_max_size : ℕ
param_set_max_size = 4 * 1024 * 1024

abbrev pub default_param_set_size : ℕ
default_param_set_size = 1024

abbrev pub default_param_cnt : ℕ
default_param_cnt = (default_param_set_size - header_size) / param_size

abbrev pub tag_type_int : ℕ
tag_type_int = 1 * 2 ^ 28

abbrev pub tag_type_uint : ℕ
tag_type_uint = 2 * 2 ^ 28

abbrev pub tag_type_ulong : ℕ
tag_type_ulong = 3 * 2 ^ 28

abbrev pub tag_type_bool : ℕ
tag_type_bool = 4 * 2 ^ 28

abbrev pub tag_type_bytes : ℕ
tag_type_bytes = 5 * 2 ^ 28

-- `tag & HKS_TAG_TYPE_MASK`: the four upper bits.
unfoldable pub get_tag_type : ℕ → ℕ
get_tag_type tag = (tag / 2 ^ 28) % 16 * 2 ^ 28

unfoldable pub is_bytes : Param → Bool
is_bytes p = get_tag_type p.tag == tag_type_bytes

-- `UINT32_MAX - a < b`.
unfoldable pub is_addition_overflow : ℕ → ℕ → Bool
is_addition_overflow a b = ltb (2 ^ 32 - 1 - a) b

unfoldable pub is_null : Ptr → Bool
is_null null = true
is_null (outside bs) = false
is_null (inside off) = false
is_null freed = false

unfoldable pub check_blob : Blob → Status
unfolding is_null
check_blob b = if is_null b.ptr || (b.size == 0) then invalid_argument else success

-- The offset of the first blob: `sizeof(struct HksParamSet) + sizeof(struct HksParam) * cnt`.
unfoldable pub fixed_size : ℕ → ℕ
fixed_size cnt = (header_size + param_size * cnt) % 2 ^ 32

-- The `n` bytes from a pointer on. What stands in a freed block is not known, and no bytes here.
unfoldable pub read : ParamSet → Ptr → ℕ → List ℕ
read s null n = []
read s (outside bs) n = take n bs
read s (inside off) n = take n (drop (off - fixed_size (length s.params)) s.payload)
read s freed n = []

unfoldable pub is_valid_tag : ℕ → Bool
unfolding valid_tags elem
is_valid_tag tag = elem tag valid_tags

-- The inner loop over `j` from `i + 1`.
unfoldable pub has_tag : ℕ → List Param → Bool
has_tag tag [] = false
has_tag tag (p ∷ ps) = (tag == p.tag) || has_tag tag ps

unfoldable pub check_tags : List Param → Status
check_tags [] = success
check_tags (p ∷ ps) =
    let rest = check_tags ps in
    if not (is_valid_tag p.tag)
    then invalid_argument
    else if has_tag p.tag ps
    then invalid_argument
    else rest

unfoldable pub check_param_set_tag : Option ParamSet → Status
unfolding check_tags
check_param_set_tag none = null_pointer
check_param_set_tag (some s) = check_tags s.params

unfoldable pub check_param_set : Option ParamSet → ℕ → Status
check_param_set none size = null_pointer
check_param_set (some s) size =
    if ltb size header_size
      || ltb param_set_max_size size
      || not (s.set_size == size)
      || ltb ((size - header_size) / param_size) (length s.params)
    then invalid_argument
    else success

-- `HksInitParamSet` at a pointer that is not NULL.
unfoldable pub init_param_set : Memory → Status × Option ParamSet
init_param_set m =
    if hks_malloc m default_param_set_size
    then (success, some (record { set_size = header_size; params = []; payload = [] }))
    else (malloc_fail, none)

-- The loop of `CheckBeforeAddParams`.
unfoldable pub all_blobs_set : List Param → Bool
unfolding is_bytes is_null
all_blobs_set [] = true
all_blobs_set (p ∷ ps) =
    let rest = all_blobs_set ps in if is_bytes p && is_null p.blob.ptr then false else rest

-- `params` with `paramCnt` entries.
unfoldable pub check_before_add_params : Option ParamSet → Option (List Param) → Status
unfolding all_blobs_set
check_before_add_params none ps = invalid_argument
check_before_add_params (some s) none = invalid_argument
check_before_add_params (some s) (some ps) =
    if ltb param_set_max_size s.set_size
      || ltb default_param_cnt (length ps)
      || ltb (default_param_cnt - length ps) (length s.params)
    then invalid_argument
    else if all_blobs_set ps
    then success
    else invalid_argument

pub data Added : Type 0 where
  stopped : ParamSet → Added
  added : ParamSet → Added

-- One round of the loop of `HksAddParams`.
unfoldable pub add_one : ParamSet → Param → Added
unfolding is_bytes is_addition_overflow
add_one s p =
    let grown = add32 s.set_size param_size in
    if is_bytes p
    then if is_addition_overflow grown p.blob.size
      then stopped (record s { set_size = sub32 grown param_size })
      else added (record s { set_size = add32 grown p.blob.size; params = s.params ++ (p ∷ []) })
    else added (record s { set_size = grown; params = s.params ++ (p ∷ []) })

unfoldable pub add_loop : ParamSet → List Param → Status × ParamSet
add_loop s [] = (success, s)
add_loop s (p ∷ ps) = elim (add_one s p) [
  | stopped s' ↦ (invalid_argument, s')
  | added s' ↦ add_loop s' ps
]

unfoldable pub add_params : ParamSet → List Param → Status × ParamSet
add_params s ps =
    if is_success (check_before_add_params (some s) (some ps))
    then add_loop s ps
    else (check_before_add_params (some s) (some ps), s)

-- The search of `HksGetParam`; `*param` is set once the tag is met.
unfoldable pub lookup : ℕ → List Param → Status × Option Param
lookup tag [] = (param_not_exist, none)
lookup tag (p ∷ ps) =
    let rest = lookup tag ps in
    if tag == p.tag
    then if (get_tag_type tag == tag_type_bytes) && not (is_success (check_blob p.blob))
      then (invalid_argument, some p)
      else (success, some p)
    else rest

unfoldable pub get_param : Option ParamSet → ℕ → Status × Option Param
get_param none tag = (invalid_argument, none)
get_param (some s) tag =
    if is_success (check_param_set (some s) s.set_size)
    then lookup tag s.params
    else (invalid_argument, none)
