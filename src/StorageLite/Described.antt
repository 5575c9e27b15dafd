-- ===== src/StorageLite/Described.antt =====
-- The parameter set that hks_storage_adapter.c makes of a key in the image of hks_storage_lite.c.
use security_huks.Prelude.{
  ℕ, ◌+◌, ◌^◌, ◌≤◌, ◌<◌, ◌≡◌, inl, inr, refl, sym, ap, ◌∙◌, Bool, true, false, none, some, List, [],
  ◌∷◌, length, length-drop, length-take, drop, ◌-◌, ltb, ◌==◌, if◌then◌else◌, All, All-append,
  Bool-cases, arith,
}
use security_huks.Status.{success}
use security_huks.Memory.{Memory, IsSecurec}
use security_huks.ParamSet.{
  Param, ParamSet, is_bytes, is_null, get_tag_type, header_size, param_set_max_size,
  default_param_set_size, default_param_cnt, read, init_param_set, all_blobs_set,
}
use security_huks.ParamSet.Tags.{tag_key_auth_id}
use security_huks.ParamSet.Size.{
  blob_size, blob_total, IsSized, extended, extended-nil, extended-IsSized, add_params_lem,
}
use security_huks.ParamSet.Layout.{blob_total-shapes, length-shapes}
use security_huks.ParamSet.Copy.{is_outside, IsBacked, Built, build_param_set-Built}
use security_huks.Check.{ok}
use security_huks.StorageLite.{key_info_size, alias_size, auth_id_size, is_key_info_len_invalid}
use security_huks.StorageLite.Load.{built_set}
use security_huks.StorageLite.Records.{IsRecord, valid_len}
use security_huks.StorageLite.Splice.{HasMemory, hks_malloc-HasMemory}
use security_huks.StorageLite.KeyInfos.{
  bytes_param, storage_fixed_params, auth_id_of, add, add_auth_id, add_key, add_storage_params,
  translate_key_info,
}

abbrev pub empty_set : ParamSet
empty_set = record { set_size = header_size; params = []; payload = [] }

-- The identity of a key as an entry, if the key has one.
unfoldable pub auth_params : List ℕ → List Param
auth_params r = if auth_id_size r == 0 then [] else bytes_param tag_key_auth_id (auth_id_of r) ∷ []

-- The entries that say what a key is.
abbrev pub with_fixed : List ℕ → ParamSet
with_fixed r = extended empty_set (storage_fixed_params r)

abbrev pub described : List ℕ → ParamSet
described r = extended (with_fixed r) (auth_params r)

auth_id-length :
    (r : List ℕ) → IsRecord r → (length (auth_id_of r) ≡ auth_id_size r) × (auth_id_size r ≤ 64)
unfolding auth_id_of is_key_info_len_invalid
auth_id-length r h =
    let a : length (drop (alias_size r) (drop key_info_size r))
        ≡ length r - key_info_size - alias_size r =
      omega
        (arith, length-drop (alias_size r) (drop key_info_size r), length-drop key_info_size r) in
    let t = length-take (auth_id_size r) (drop (alias_size r) (drop key_info_size r)) in
    let v = h.valid in
    let w = h.whole in
    let few : auth_id_size r ≤ 64 = ground arith in
    let there : key_info_size + alias_size r + auth_id_size r ≤ length r = ground arith in
    (omega arith, few)

fixed-size :
    (r : List ℕ) → (blob_total (storage_fixed_params r) ≡ 0) × (length (storage_fixed_params r) ≡ 9)
unfolding blob_total blob_size is_bytes get_tag_type storage_fixed_params
fixed-size r = (refl, refl)

fixed-set : (r : List ℕ) → all_blobs_set (storage_fixed_params r) ≡ true
unfolding all_blobs_set is_bytes get_tag_type storage_fixed_params
fixed-set r = refl

-- Whether no entry has a blob.
unfoldable no_blobs : List Param → Bool
no_blobs [] = true
no_blobs (p ∷ ps) = let rest = no_blobs ps in if is_bytes p then false else rest

no_blobs-IsBacked : (s : ParamSet) (ps : List Param) → no_blobs ps ≡ true → All (IsBacked s) ps
unfolding no_blobs
no_blobs-IsBacked s [] h = tt
no_blobs-IsBacked s (p ∷ ps) h = elim (Bool-cases (is_bytes p)) [
  | inl e ↦ absurd (ground (arith, e))
  | inr e ↦ ((λ b. absurd (cc)), no_blobs-IsBacked s ps (ground (arith, e)))
]

fixed-IsBacked : (r : List ℕ) (s : ParamSet) → All (IsBacked s) (storage_fixed_params r)
fixed-IsBacked r s =
    no_blobs-IsBacked s (storage_fixed_params r)
      (unfold no_blobs is_bytes get_tag_type storage_fixed_params in refl)

-- An identity of some bytes as an entry.
auth-size :
    (bs : List ℕ)
    → (blob_total (bytes_param tag_key_auth_id bs ∷ []) ≡ length bs)
      × (all_blobs_set (bytes_param tag_key_auth_id bs ∷ []) ≡ true)
unfolding blob_total blob_size all_blobs_set is_bytes is_null get_tag_type
auth-size bs = (omega arith, refl)

auth-IsBacked :
    (bs : List ℕ) (s : ParamSet)
    → 0 < length bs
    → All (IsBacked s) (bytes_param tag_key_auth_id bs ∷ [])
unfolding is_bytes is_outside get_tag_type read
auth-IsBacked bs s some_byte =
    ((λ _. (refl, some_byte, omega (arith, length-take (length bs) bs))), tt)

with_fixed-size : (r : List ℕ) → (with_fixed r).set_size ≡ 224
unfolding extended
with_fixed-size r = omega (arith, fixed-size r)

-- How large the set is, and that its entries are backed.
described-size :
    (r : List ℕ)
    → IsRecord r
    → ((described r).set_size ≤ 312)
      × (all_blobs_set (auth_params r) ≡ true)
      × (length (auth_params r) ≤ 1)
      × (All (IsBacked (described r)) (auth_params r))
unfolding extended auth_params blob_total all_blobs_set
described-size r h = elim (Bool-cases (auth_id_size r == 0)) [
  | inl e ↦ rw e (omega (arith, with_fixed-size r), refl, omega arith, tt)
  | inr e ↦
      let n = auth_id-length r h in
      let some_byte : 0 < length (auth_id_of r) = ground (arith, n, e) in
      let z = auth-size (auth_id_of r) in
      rw e (
        omega (arith, with_fixed-size r, z.0, n),
        z.1,
        omega arith,
        auth-IsBacked (auth_id_of r) _ some_byte,
      )
]

described-IsSized : (r : List ℕ) → IsRecord r → IsSized (described r)
described-IsSized r h =
    let z = described-size r h in
    let start : IsSized empty_set = record {
      covers = unfold blob_total in refl;
      fits = omega arith;
    } in
    let first =
      extended-IsSized empty_set (storage_fixed_params r) (omega (arith, fixed-size r)) start in
    extended-IsSized (with_fixed r) (auth_params r) (unfold extended in omega (arith, z)) first

described-IsBacked : (r : List ℕ) → IsRecord r → All (IsBacked (described r)) (described r).params
unfolding extended
described-IsBacked r h =
    All-append (IsBacked (described r)) (storage_fixed_params r) (auth_params r)
      (fixed-IsBacked r (described r)) (described-size r h).3

add_lem :
    (s : ParamSet) (ps : List Param)
    → s.set_size ≤ param_set_max_size
    → length s.params + length ps ≤ default_param_cnt
    → all_blobs_set ps ≡ true
    → (extended s ps).set_size < 2 ^ 32
    → add s ps ≡ ok (extended s ps)
unfolding add extended
add_lem s ps small room set_ fits =
    rw (add_params_lem s ps small room set_ fits) (unfold extended in refl)

add_auth_id-described : (r : List ℕ) → IsRecord r → add_auth_id r (with_fixed r) ≡ ok (described r)
unfolding add_auth_id
add_auth_id-described r h =
    let z = described-size r h in
    let n : length (with_fixed r).params ≡ 9 = unfold extended in omega (arith, fixed-size r) in
    let small = with_fixed-size r in
    let a =
      add_lem (with_fixed r) (auth_params r) (omega arith) (omega (arith, z)) z.1
        (omega (arith, z)) in
    elim (Bool-cases (auth_id_size r == 0)) [
      | inl e ↦
          let none_there : auth_params r ≡ [] = unfold auth_params in rw e refl in
          rw e (ap ok (extended-nil (with_fixed r) ∙ ap (extended (with_fixed r)) (sym none_there)))
      | inr e ↦
          let there : auth_params r ≡ bytes_param tag_key_auth_id (auth_id_of r) ∷ [] =
            unfold auth_params in rw e refl in
          rw (e, sym there) a
    ]

add_storage_params-described :
    (r : List ℕ) → IsRecord r → add_storage_params none r empty_set ≡ ok (described r)
unfolding add_storage_params add_key
add_storage_params-described r h =
    let long : ltb (length r) key_info_size ≡ false =
      ground (arith, valid_len r h.valid, h.whole) in
    let z = fixed-size r in
    let a =
      add_lem empty_set (storage_fixed_params r) (omega arith) (omega (arith, z)) (fixed-set r)
        (omega (arith, with_fixed-size r)) in
    rw (long, h.valid, a, add_auth_id-described r h) refl

-- Where there is memory, TranslateKeyInfoBlobToParamSet of a key makes a small set that holds what
-- the struct says and the identity.
pub translate_key_info-Built :
    (m : Memory) (r : List ℕ)
    → IsSecurec m
    → HasMemory m
    → IsRecord r
    → (t : ParamSet) × (translate_key_info m none r ≡ ok t)
      × Built (described r) t
      × (t.set_size ≤ 312)
unfolding translate_key_info built_set
translate_key_info-Built m r sec mem h =
    let z = described-size r h in
    let sized = described-IsSized r h in
    let block = hks_malloc-HasMemory m default_param_set_size mem (omega arith) (omega arith) in
    let empty : init_param_set m ≡ (success, some empty_set) =
      unfold init_param_set in rw block refl in
    let own =
      hks_malloc-HasMemory m (described r).set_size mem (omega (arith, sized.covers))
        (omega (arith, z)) in
    let (t, e, b) =
      build_param_set-Built m (described r) sec sized (omega (arith, z)) own
        (described-IsBacked r h) in
    let same = blob_total-shapes t.params (described r).params b.same in
    let count = length-shapes t.params (described r).params b.same in
    (
      t,
      rw (empty, add_storage_params-described r h, e) refl,
      b,
      omega (arith, b.laid.whole, sized.covers, z),
    )
