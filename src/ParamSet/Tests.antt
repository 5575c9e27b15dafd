-- ===== src/ParamSet/Tests.antt =====
-- Concrete sets: runs of the model, and each theorem at an input that meets its hypotheses.
use security_huks.Prelude.{
  ℕ, Option, List, ◌+◌, ◌*◌, ◌^◌, ◌≡◌, refl, ◌↔◌, true, some, [], ◌∷◌, arith, All,
}
use security_huks.Status.{success}
use security_huks.Memory.{ample, IsSecurec, hks_malloc}
use security_huks.ParamSet.{
  Param, ParamSet, null, outside, inside, is_bytes, is_null, read, check_param_set, get_tag_type,
  get_param, check_param_set_tag, is_valid_tag, add_params, all_blobs_set, fixed_size,
}
use security_huks.ParamSet.Tags.{tag_algorithm}
use security_huks.ParamSet.Build.{
  fresh_param_set, fresh_params, fresh_loop, fresh_round, build_param_set, build_params,
}
use security_huks.ParamSet.Size.{IsSized, blob_size, blob_total, extended, add_params_lem}
use security_huks.ParamSet.Layout.{IsLaid, shapes, fresh_param_set-IsLaid}
use security_huks.ParamSet.Copy.{is_outside, IsBacked, Built, build_param_set-Built}
use security_huks.ParamSet.Lookup.{
  HasDistinctTags, Under, answer, shown, get_param-Built, check_param_set_tag_iff,
}

-- HKS_TAG_ASSOCIATED_DATA, a tag of bytes.
abbrev tag_aad : ℕ
tag_aad = 5 * 2 ^ 28 + 8

abbrev aad : Param
aad = record { tag = tag_aad; scalar = 0; blob = record { size = 2; ptr = outside (7 ∷ 9 ∷ []) } }

abbrev algorithm : Param
algorithm = record { tag = tag_algorithm; scalar = 20; blob = record { size = 0; ptr = null } }

-- A set that was filled and not yet built.
abbrev filled : ParamSet
filled = record { set_size = 58; params = algorithm ∷ aad ∷ []; payload = [] }

abbrev built : ParamSet
built = record {
  set_size = 58;
  params = algorithm ∷ record aad { blob = record { size = 2; ptr = inside 56 } } ∷ [];
  payload = 7 ∷ 9 ∷ [];
}

ample-IsSecurec : IsSecurec ample
ample-IsSecurec = record {
  fits = λ room count p h. ground arith;
  refuses = λ room count h. ground arith;
}

build-filled : build_param_set ample (some filled) ≡ (success, some built)
unfolding build_param_set build_params fresh_param_set fresh_params fresh_round check_param_set
    hks_malloc get_tag_type read fixed_size fresh_loop is_null
build-filled = refl

filled-IsSized : IsSized filled
unfolding blob_total blob_size is_bytes get_tag_type
filled-IsSized = omega arith

filled-IsBacked : All (IsBacked filled) filled.params
unfolding is_bytes get_tag_type is_outside read
filled-IsBacked = ((λ b. absurd (ground arith)), ((λ b. (refl, omega arith, refl)), tt))

add_params_lem_example :
    add_params (record { set_size = 8; params = []; payload = [] }) (algorithm ∷ aad ∷ []) ≡ (
      success,
      extended (record { set_size = 8; params = []; payload = [] }) (algorithm ∷ aad ∷ []),
    )
unfolding all_blobs_set get_tag_type blob_total blob_size
add_params_lem_example =
    add_params_lem (record { set_size = 8; params = []; payload = [] }) (algorithm ∷ aad ∷ [])
      (omega arith) (omega arith) refl (omega arith)

fresh_param_set-IsLaid_example :
    IsLaid (fresh_param_set ample filled true).1
    × (shapes (fresh_param_set ample filled true).1.params ≡ shapes filled.params)
unfolding fresh_param_set fresh_params fresh_round check_param_set get_tag_type read fixed_size
    fresh_loop is_null
fresh_param_set-IsLaid_example = fresh_param_set-IsLaid ample filled true refl

build_param_set-Built_example :
    (t : ParamSet) × (build_param_set ample (some filled) ≡ (success, some t)) × Built filled t
unfolding hks_malloc
build_param_set-Built_example =
    build_param_set-Built ample filled ample-IsSecurec filled-IsSized (omega arith) refl
      filled-IsBacked

filled-checked : check_param_set (some filled) 58 ≡ success
unfolding check_param_set
filled-checked = refl

get_param-Built_example :
    let t = build_param_set-Built_example.0 in
    (found : Option (ℕ × List ℕ)) × Under filled tag_aad filled.params found
    × (shown t (get_param (some t) tag_aad) ≡ answer tag_aad found)
get_param-Built_example =
    get_param-Built filled build_param_set-Built_example.0 tag_aad filled-checked filled-IsBacked
      build_param_set-Built_example.2

check_param_set_tag_iff_example :
    (check_param_set_tag (some filled) ≡ success)
    ↔ (All (λ p. is_valid_tag p.tag ≡ true) filled.params × HasDistinctTags filled.params)
check_param_set_tag_iff_example = check_param_set_tag_iff filled
