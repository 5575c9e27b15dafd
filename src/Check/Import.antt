-- ===== src/Check/Import.antt =====
-- The checks of requests to import a key: HksCoreCheckImportKeyParams,
-- CheckAndGetWrappedKeyUnwrapAlgSuite and HksCoreCheckImportWrappedKeyParams of
-- hks_check_paramset.c. A key is its bytes. What OpenSSL says of a key is a parameter.
use security_huks.Prelude.{
  ℕ, ◌≡◌, ◌<◌, ◌≤◌, true, Option, none, some, List, [], ◌∷◌, length, ◌==◌, if◌then◌else◌, elem,
  arith,
}
use security_huks.Status.{Status, success, invalid_argument, check_get_alg_fail, invalid_algorithm}
use security_huks.ParamSet.{Param, ParamSet, get_param}
use security_huks.ParamSet.Tags.{tag_import_key_type, tag_unwrap_algorithm_suite}
use security_huks.Check.{
  ParamsValues, ◌>>◌, Result, ok, ◌>>=◌, return, demand, code_of, uint32_param, check_value,
}
use security_huks.Check.Values.{
  alg_3des, alg_aes, alg_cmac, alg_des, alg_dh, alg_hmac, alg_rsa, alg_sm3, alg_sm4,
  import_wrapped_key_total_blobs, key_flag_import_key, key_type_private_key, key_type_public_key,
}
use security_huks.Check.Algorithms.{import_key_alg, unwrap_suite}
use security_huks.Check.Padding.{check_import_mutable_params}
use security_huks.Check.KeyMaterial.{
  check_import_key, check_import_key_size, check_import_symmetric_key_size,
}
use security_huks.Check.Request.{find_value, check_and_get_algorithm, core_check_gen_key_params}
use security_huks.Wrapped.{Framed, check_wrapped_data_format_validity}
use security_huks.Wrapped.Parse.{check_wrapped_data_format_validity_iff}

-- HksOpensslCheckDhKey and HksOpensslCheckRsaKey.
pub record OpenSsl : Type 0 where
  pub check_dh_key : List ℕ → ℕ → Status
  pub check_rsa_key : List ℕ → Status

-- OpenSSL is asked of a key with a public part.
unfoldable pub check_by_openssl : OpenSsl → ℕ → ℕ → List ℕ → Status
check_by_openssl x alg key_type key =
    if key_type == key_type_private_key
    then success
    else if alg == alg_dh
    then x.check_dh_key key key_type
    else if alg == alg_rsa
    then x.check_rsa_key key
    else success

unfoldable pub check_public_key : ℕ → ParamsValues → List ℕ → Status
unfolding check_import_key_size check_import_mutable_params
check_public_key alg v key = check_import_key_size alg v key >> check_import_mutable_params alg v

-- What follows the search for the type of the key.
unfoldable pub check_key_of_type :
    OpenSsl → ℕ → ParamsValues → List ℕ → Status × Option Param → Status
unfolding check_by_openssl check_public_key check_import_key
check_key_of_type x alg v key (success, some p) =
    if uint32_param p == key_type_public_key
    then check_by_openssl x alg (uint32_param p) key >> check_public_key alg v key
    else check_import_key alg (uint32_param p) v key >> check_by_openssl x alg (uint32_param p) key
check_key_of_type x alg v key (_, _) = check_public_key alg v key

unfoldable pub core_check_import_key_params : OpenSsl → List ℕ → ParamSet → Status
unfolding elem core_check_gen_key_params check_and_get_algorithm import_key_alg
    check_import_symmetric_key_size check_key_of_type
core_check_import_key_params x key s = code_of do
  v ← core_check_gen_key_params s key_flag_import_key
  alg ← check_and_get_algorithm s import_key_alg
  demand (
      if elem alg (alg_aes ∷ alg_des ∷ alg_3des ∷ alg_sm3 ∷ alg_sm4 ∷ alg_hmac ∷ alg_cmac ∷ [])
      then check_import_symmetric_key_size v key
      else check_key_of_type x alg v key (get_param (some s) tag_import_key_type))

unfoldable pub check_and_get_wrapped_key_unwrap_alg_suite : ParamSet → Result ℕ
unfolding find_value unwrap_suite
check_and_get_wrapped_key_unwrap_alg_suite s =
    find_value s tag_unwrap_algorithm_suite unwrap_suite check_get_alg_fail invalid_algorithm

-- The suite with which a wrapped key is opened, or the code.
unfoldable pub core_check_import_wrapped_key_params : List ℕ → List ℕ → ParamSet → Result ℕ
unfolding check_and_get_wrapped_key_unwrap_alg_suite check_wrapped_data_format_validity
    core_check_gen_key_params check_and_get_algorithm import_key_alg
core_check_import_wrapped_key_params key wrapped s = do
  _ ← demand (if length key == 0 then invalid_argument else success)
  suite ← check_and_get_wrapped_key_unwrap_alg_suite s
  _ ← demand (check_wrapped_data_format_validity wrapped import_wrapped_key_total_blobs none)
  v ← core_check_gen_key_params s key_flag_import_key
  alg ← check_and_get_algorithm s import_key_alg
  return suite

chain_ok :
    {A B : Type 0} (c : Status) (r : Result ℕ) (d : Status) (x : Result A) (y : Result B) (n : ℕ)
    → (demand c >>= λ u. (r >>= λ m. (demand d >>= λ w. (x >>= λ v. (y >>= λ a. return m))))) ≡ ok n
    → (c ≡ success) × (r ≡ ok n) × (d ≡ success)
chain_ok c r d x y n h = ground arith

nonempty :
    (key : List ℕ)
    → (if length key == 0 then invalid_argument else success) ≡ success
    → 0 < length key
nonempty key h = ground arith

suite_ok :
    (s : ParamSet) (n : ℕ)
    → check_and_get_wrapped_key_unwrap_alg_suite s ≡ ok n
    → elem n unwrap_suite ≡ true
unfolding check_and_get_wrapped_key_unwrap_alg_suite find_value check_value
suite_ok s n h = ground arith

-- Where `HksCoreCheckImportWrappedKeyParams` accepts a request, the wrapping key is not empty, the
-- wrapped data are at most ten parts, each not empty and behind its length, and the suite that it gives
-- is one of those that a key is unwrapped with.
pub core_check_import_wrapped_key_params_lem :
    (key wrapped : List ℕ) (s : ParamSet) (suite : ℕ)
    → core_check_import_wrapped_key_params key wrapped s ≡ ok suite
    → (0 < length key)
      × ((ps : List (List ℕ)) × Framed wrapped ps × (length ps ≤ 10))
      × (elem suite unwrap_suite ≡ true)
unfolding core_check_import_wrapped_key_params
core_check_import_wrapped_key_params_lem key wrapped s suite h =
    let w =
      chain_ok (if length key == 0 then invalid_argument else success)
        (check_and_get_wrapped_key_unwrap_alg_suite s)
        (check_wrapped_data_format_validity wrapped 10 none)
        (core_check_gen_key_params s key_flag_import_key) (check_and_get_algorithm s import_key_alg)
        suite h in
    (
      nonempty key w.0,
      ((check_wrapped_data_format_validity_iff wrapped 10).0 w.2).3,
      suite_ok s suite w.1,
    )
