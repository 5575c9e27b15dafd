-- ===== src/ParamSet/Build.antt =====
-- frameworks/huks_standard/main/common/src/hks_param.c, the second half: `HksFreshParamSet`, which
-- sets the blob pointers of a set (and copies the blobs in), `HksBuildParamSet`, `HksGetParamSet`,
-- `HksCheckParamMatch`, `HksCheckIsTagAlreadyExist` and `HksDeleteTagsFromParamSet`.
use security_huks.Prelude.{
  ℕ, ◌+◌, ◌-◌, ◌%◌, ◌^◌, Bool, true, false, not, ◌&&◌, ◌||◌, Option, none, some, List, [], ◌∷◌,
  ◌++◌, map, length, ltb, ◌==◌, if◌then◌else◌, elem,
}
use security_huks.Status.{Status, success, null_pointer, invalid_argument, malloc_fail, is_success}
use security_huks.Status.{insufficient_memory}
use security_huks.Memory.{Memory, hks_malloc}
use security_huks.ParamSet.{
  Ptr, outside, inside, freed, Param, ParamSet, is_bytes, is_null, is_addition_overflow, fixed_size,
  read, check_param_set, init_param_set, add_params, get_tag_type, has_tag, default_param_set_size,
  tag_type_int, tag_type_uint, tag_type_ulong, tag_type_bool, tag_type_bytes,
}

-- One round of the loop of `FreshParamSet`: it stops with an error, or goes on with the entry as
-- the round leaves it, the next offset, and the bytes that it copies.
pub data Round : Type 0 where
  stop : Status → Round
  go : Param → ℕ → List ℕ → Round

unfoldable pub place : Param → ℕ → Param
place p off = record p { blob = record { size = p.blob.size; ptr = inside off } }

-- A blob that is copied is read as the set was before the loop, which is so for blobs outside it.
unfoldable pub fresh_round : Memory → Bool → ParamSet → Param → ℕ → Round
unfolding is_bytes is_addition_overflow place
fresh_round m copy s p off =
    if ltb s.set_size off
    then stop invalid_argument
    else if is_bytes p
    then if is_addition_overflow off p.blob.size
      then stop invalid_argument
      else if copy && (is_null p.blob.ptr || not (m.memcpy_s (s.set_size - off) p.blob.size))
      then stop insufficient_memory
      else go (place p off) (off + p.blob.size) (if copy then read s p.blob.ptr p.blob.size else [])
    else go p off []

-- How the loop ends: the result code, the entries, the bytes copied and the offset reached.
pub record Fresh : Type 0 where
  pub status : Status
  pub params : List Param
  pub copied : List ℕ
  pub offset : ℕ

unfoldable pub fresh_loop : Memory → Bool → ParamSet → List Param → ℕ → Fresh
fresh_loop m copy s [] off = record { status = success; params = []; copied = []; offset = off }
fresh_loop m copy s (p ∷ ps) off = elim (fresh_round m copy s p off) [
  | stop st ↦ record { status = st; params = p ∷ ps; copied = []; offset = off }
  | go p' off' bs ↦
      let r = fresh_loop m copy s ps off' in
      record {
        status = r.status;
        params = p' ∷ r.params;
        copied = bs ++ r.copied;
        offset = r.offset;
      }
]

-- `FreshParamSet`, with the set as the call leaves it.
unfoldable pub fresh_params : Memory → ParamSet → Bool → Status × ParamSet
fresh_params m s copy =
    let r = fresh_loop m copy s s.params (fixed_size (length s.params)) in
    (
      if is_success r.status
          then (if s.set_size == r.offset then success else invalid_argument)
          else r.status,
      record s { params = r.params; payload = if copy then r.copied else s.payload },
    )

unfoldable pub fresh_param_set : Memory → ParamSet → Bool → Status × ParamSet
fresh_param_set m s copy =
    let st = check_param_set (some s) s.set_size in
    if is_success st then fresh_params m s copy else (st, s)

-- An entry after its set was copied to another block and the first one was freed: the pointer of a
-- blob inside the set still points into the first block.
unfoldable pub dangle_at : Ptr → Ptr
dangle_at (inside off) = freed
dangle_at p = p

unfoldable pub dangle : Param → Param
unfolding dangle_at
dangle p =
    if is_bytes p
    then record p { blob = record { size = p.blob.size; ptr = dangle_at p.blob.ptr } }
    else p

unfoldable pub moved : ParamSet → ParamSet
unfolding dangle
moved s = record s { params = map dangle s.params }

-- `BuildParamSet`. A set beyond the default size moves to a block of its own size first, by a copy of
-- its header and its entries, and its first block is freed before the blobs are copied.
unfoldable pub build_params : Memory → ParamSet → Status × ParamSet
unfolding fixed_size moved
build_params m s =
    if ltb default_param_set_size s.set_size
    then if hks_malloc m s.set_size
      then if m.memcpy_s s.set_size (fixed_size (length s.params))
        then fresh_param_set m (moved s) true
        else (insufficient_memory, s)
      else (malloc_fail, s)
    else fresh_param_set m s true

unfoldable pub build_param_set : Memory → Option ParamSet → Status × Option ParamSet
build_param_set m none = (null_pointer, none)
build_param_set m (some s) =
    let st = check_param_set (some s) s.set_size in
    if is_success st then ((build_params m s).0, some (build_params m s).1) else (st, some s)

-- `HksGetParamSet`: a copy of the block, with its blob pointers set anew.
unfoldable pub get_param_set : Memory → Option ParamSet → ℕ → Status × Option ParamSet
get_param_set m none size = (check_param_set none size, none)
get_param_set m (some s) size =
    let st = check_param_set (some s) size in
    let r = fresh_params m s false in
    if is_success st
    then if hks_malloc m s.set_size
      then (if is_success r.0 then (success, some r.1) else (r.0, none))
      else (malloc_fail, none)
    else (st, none)

-- `HksMemCmp` of two runs of bytes of one length.
unfoldable pub same_bytes : List ℕ → List ℕ → Bool
same_bytes [] [] = true
same_bytes (a ∷ as') (b ∷ bs) = (a == b) && same_bytes as' bs
same_bytes _ _ = false

-- `HksCheckParamMatch` of an entry of one set with an entry of another. The scalar members of the
-- union are its lower bytes: 4 for int32_t and uint32_t, 1 for bool.
unfoldable pub check_param_match : ParamSet → Option Param → ParamSet → Option Param → Status
check_param_match s none t q = null_pointer
check_param_match s (some p) t none = null_pointer
check_param_match s (some p) t (some q) =
    let kind = get_tag_type p.tag in
    let answer : Bool → Status = λ same. if same then success else invalid_argument in
    if not (p.tag == q.tag)
    then invalid_argument
    else if (kind == tag_type_int) || (kind == tag_type_uint)
    then answer (p.scalar % 2 ^ 32 == q.scalar % 2 ^ 32)
    else if kind == tag_type_ulong
    then answer (p.scalar == q.scalar)
    else if kind == tag_type_bool
    then answer (p.scalar % 2 ^ 8 == q.scalar % 2 ^ 8)
    else if kind == tag_type_bytes
    then if not (p.blob.size == q.blob.size) || is_null p.blob.ptr || is_null q.blob.ptr
      then invalid_argument
      else answer (same_bytes (read s p.blob.ptr p.blob.size) (read t q.blob.ptr p.blob.size))
    else invalid_argument

-- Whether a tag of `params` stands in the set: the two loops of `HksCheckIsTagAlreadyExist`.
unfoldable pub any_tag_in : List Param → List Param → Bool
unfolding has_tag
any_tag_in params [] = false
any_tag_in params (t ∷ ts) = has_tag t.tag params || any_tag_in params ts

unfoldable pub check_is_tag_already_exist : Option (List Param) → Option ParamSet → Status
unfolding any_tag_in
check_is_tag_already_exist none s = null_pointer
check_is_tag_already_exist (some ps) none = null_pointer
check_is_tag_already_exist (some ps) (some s) =
    let st = check_param_set (some s) s.set_size in
    if is_success st then (if any_tag_in ps s.params then invalid_argument else success) else st

-- An entry of a set as another set sees it: its blob is outside that one.
unfoldable pub lend : ParamSet → Param → Param
unfolding is_null
lend s p = if is_null p.blob.ptr then p else record p {
  blob = record { size = p.blob.size; ptr = outside (read s p.blob.ptr p.blob.size) };
}

-- The loop of `HksDeleteTagsFromParamSet` over the entries of the set.
unfoldable pub copy_others : List ℕ → ParamSet → List Param → ParamSet → Status × ParamSet
unfolding elem
copy_others tags s [] out = (success, out)
copy_others tags s (p ∷ ps) out =
    let r = add_params out (lend s p ∷ []) in
    elim (elem p.tag tags) [
      | true ↦ copy_others tags s ps out
      | false ↦ elim (is_success r.0) [ true ↦ copy_others tags s ps r.1 | false ↦ r ]
    ]

unfoldable pub finish_delete : Memory → Status × ParamSet → Status × Option ParamSet
finish_delete m (st, out) =
    let built = build_param_set m (some out) in
    if is_success st then (if is_success built.0 then built else (built.0, none)) else (st, none)

-- `HksDeleteTagsFromParamSet`: the source set after its pointers are set anew, and the new set.
unfoldable pub delete_tags : Memory → Option (List ℕ) → Option ParamSet → Status × Option ParamSet
delete_tags m none s = (null_pointer, none)
delete_tags m (some tags) none = (null_pointer, none)
delete_tags m (some tags) (some s) =
    let r = fresh_param_set m s false in
    if is_success r.0
    then elim (init_param_set m).1 [
      | none ↦ (malloc_fail, none)
      | some out ↦ finish_delete m (copy_others tags r.1 r.1.params out)
    ]
    else (r.0, none)
