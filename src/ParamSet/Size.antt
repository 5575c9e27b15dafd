-- ===== src/ParamSet/Size.antt =====
-- The size field of a parameter set: what `HksCheckParamSet` ensures and `HksAddParams` keeps.
use security_huks.Prelude.{
  ℕ, suc, ◌+◌, ◌*◌, ◌^◌, ◌≤◌, ◌<◌, ◌≡◌, sym, ap, ◌∙◌, ◌⊎◌, true, false, some, List, [], ◌∷◌, ◌++◌,
  length, length-append, append-nil, append_assoc, arith, if◌then◌else◌,
}
use security_huks.Status.{success, invalid_argument}
use security_huks.ParamSet.{
  Param, ParamSet, is_bytes, header_size, param_size, param_set_max_size, default_param_cnt,
  check_param_set, check_before_add_params, all_blobs_set, added, add_one, add_loop, add_params,
}

-- The bytes that an entry takes behind the entries.
unfoldable pub blob_size : Param → ℕ
blob_size p = if is_bytes p then p.blob.size else 0

unfoldable pub blob_total : List Param → ℕ
blob_total [] = 0
blob_total (p ∷ ps) = blob_size p + blob_total ps

-- The size field covers the header, the entries and the blobs, and they fit an uint32_t.
pub record IsSized (s : ParamSet) : Type 0 where
  pub covers : s.set_size ≡ header_size + param_size * length s.params + blob_total s.params
  pub fits : s.set_size < 2 ^ 32

pub blob_total-append : (ps qs : List Param) → blob_total (ps ++ qs) ≡ blob_total ps + blob_total qs
unfolding blob_total
blob_total-append [] qs = omega arith
blob_total-append (p ∷ ps) qs = omega (arith, blob_total-append ps qs)

-- `HksCheckParamSet` accepts a set exactly when the size is the one in its header, at least the
-- header and at most 4 MB, and the header with all the entries that it announces lies within it.
pub check_param_set_iff :
    (s : ParamSet) (size : ℕ)
    → let ok = check_param_set (some s) size in
      (ok ≡ success
        → (s.set_size ≡ size)
          × (size ≤ param_set_max_size)
          × (header_size + param_size * length s.params ≤ size))
      × ((s.set_size ≡ size)
          → size ≤ param_set_max_size
          → header_size + param_size * length s.params ≤ size
          → ok ≡ success)
unfolding check_param_set
check_param_set_iff s size = (λ h. ground arith, λ h k l. ground arith)

abbrev appended : ParamSet → Param → ParamSet
appended s p = record s {
  set_size = s.set_size + param_size + blob_size p;
  params = s.params ++ (p ∷ []);
}

add_one_lem :
    (s : ParamSet) (p : Param)
    → s.set_size + param_size + blob_size p < 2 ^ 32
    → add_one s p ≡ added (appended s p)
unfolding add_one blob_size
add_one_lem s p h = ground arith

-- What the set is after the entries `ps`.
unfoldable pub extended : ParamSet → List Param → ParamSet
extended s ps = record s {
  set_size = s.set_size + param_size * length ps + blob_total ps;
  params = s.params ++ ps;
}

pub extended-nil : (s : ParamSet) → s ≡ extended s []
unfolding extended blob_total
extended-nil s = λ i. record s { set_size = size i; params = entries i }
  where
    size : s.set_size ≡ s.set_size + param_size * 0 + 0
    size = omega arith

    entries : s.params ≡ s.params ++ []
    entries = sym (append-nil s.params)

add_one-extended :
    (s : ParamSet) (p : Param) (ps : List Param) → extended (appended s p) ps ≡ extended s (p ∷ ps)
unfolding extended blob_total
add_one-extended s p ps = λ i. record s { set_size = size i; params = entries i }
  where
    size :
        s.set_size + param_size + blob_size p + param_size * length ps + blob_total ps
        ≡ s.set_size + param_size * suc (length ps) + (blob_size p + blob_total ps)
    size = omega arith

    entries : (s.params ++ (p ∷ [])) ++ ps ≡ s.params ++ (p ∷ ps)
    entries = append_assoc s.params (p ∷ []) ps

add_loop_lem :
    (s : ParamSet) (ps : List Param)
    → s.set_size + param_size * length ps + blob_total ps < 2 ^ 32
    → add_loop s ps ≡ (success, extended s ps)
unfolding add_loop blob_total
add_loop_lem s [] h = ap (λ t. (success, t)) (extended-nil s)
add_loop_lem s (p ∷ ps) h =
    rw (add_one_lem s p (omega arith), add_loop)
      (add_loop_lem (appended s p) ps (omega arith)
        ∙ ap (λ t. (success, t)) (add_one-extended s p ps))

-- `HksAddParams` of at most as many entries as the set has room for, whose blobs are all set,
-- appends them in order and adds to the size field what they will take, if that fits an uint32_t.
pub add_params_lem :
    (s : ParamSet) (ps : List Param)
    → s.set_size ≤ param_set_max_size
    → length s.params + length ps ≤ default_param_cnt
    → all_blobs_set ps ≡ true
    → s.set_size + param_size * length ps + blob_total ps < 2 ^ 32
    → add_params s ps ≡ (success, extended s ps)
unfolding add_params check_before_add_params
add_params_lem s ps small room set_ fits = ground (arith, add_loop_lem s ps fits)

-- A set that is too large, a request beyond the room for 42 entries or an entry whose blob is not
-- set is refused, and the set stays as it was.
pub add_params_refused :
    (s : ParamSet) (ps : List Param)
    → (param_set_max_size < s.set_size)
      ⊎ ((default_param_cnt < length s.params + length ps) ⊎ (all_blobs_set ps ≡ false))
    → add_params s ps ≡ (invalid_argument, s)
unfolding add_params check_before_add_params
add_params_refused s ps h = ground arith

-- The size field of what `HksAddParams` leaves still covers the entries.
pub extended-IsSized :
    (s : ParamSet) (ps : List Param)
    → s.set_size + param_size * length ps + blob_total ps < 2 ^ 32
    → IsSized s
    → IsSized (extended s ps)
unfolding extended
extended-IsSized s ps h v = omega (arith, blob_total-append s.params ps, length-append s.params ps)
