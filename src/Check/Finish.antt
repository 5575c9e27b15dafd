-- ===== src/Check/Finish.antt =====
-- The checks of requests to agree or derive a key and to compute a mac:
-- HksCoreCheckAgreeKeyParams, CheckPbkdf2DeriveKeyParams, HksCoreCheckDeriveKeyParams,
-- CheckMacPurpose, CheckMacOutput, HksCoreCheckMacParams, CheckIsSymmetricAlgorithm and
-- HksCoreCheckAgreeDeriveFinishParams of hks_check_paramset.c.
use security_huks.Prelude.{
  ℕ, ◌+◌, ◌*◌, ◌/◌, ◌%◌, ◌^◌, Bool, not, ◌&&◌, ◌||◌, none, some, List, length, ◌==◌, ltb,
  if◌then◌else◌, elem,
}
use security_huks.Status.{
  Status, success, check_get_iteration_fail, check_get_purpose_fail, check_get_salt_fail,
  invalid_argument, invalid_digest, invalid_iteration, invalid_key_size, invalid_purpose,
  invalid_salt, buffer_too_small, is_success,
}
use security_huks.ParamSet.{Param, ParamSet, get_param, check_blob}
use security_huks.ParamSet.Tags.{tag_algorithm, tag_iteration, tag_key_size, tag_purpose, tag_salt}
use security_huks.Ipc.Service.{Abi}
use security_huks.Check.{◌>>◌, Result, ok, error, ◌>>=◌, demand, code_of, uint32_param}
use security_huks.Check.Values.{
  alg_dh, alg_ecc, alg_ecdh, alg_ed25519, alg_pbkdf2, bits_per_byte, curve25519_key_size_256,
  default_pbkdf2_iteration, default_pbkdf2_salt_size, key_purpose_derive, key_purpose_mac,
  max_pbkdf2_iteration,
}
use security_huks.Check.Algorithms.{
  agree_alg, agree_alg_local, derive_alg, derive_alg_local, digest_local, mac_digest_local,
  symmetric_algorithm,
}
use security_huks.Check.Cipher.{get_digest_len}
use security_huks.Check.Material.{found_or, find_param}
use security_huks.Check.Signature.{get_key_size}
use security_huks.Check.KeyMaterial.{field, key_bytes}
use security_huks.Check.Request.{check_and_get_algorithm, check_and_get_digest}

-- The length of the private key of a local request; the peer's public key lends its size.
unfoldable pub local_agree_key_size : ℕ → List ℕ → ℕ → Result ℕ
local_agree_key_size alg private_key peer_size =
    let full = key_bytes curve25519_key_size_256 in
    if (alg == alg_ed25519) && (not (length private_key == full) || not (peer_size == full))
    then error invalid_key_size
    else if (alg == alg_dh) || (alg == alg_ecc) || (alg == alg_ecdh)
    then (if ltb (length private_key) 8 then error invalid_argument else ok (field private_key 1))
    else if alg == alg_ed25519
    then ok ((length private_key * bits_per_byte) % 2 ^ 32)
    else ok 0

unfoldable pub core_check_agree_key_params : Abi → ParamSet → List ℕ → ℕ → ℕ → Bool → Status
unfolding check_and_get_algorithm agree_alg agree_alg_local local_agree_key_size get_key_size
core_check_agree_key_params abi s private_key peer_size agreed_size is_local_check = code_of do
  alg ← check_and_get_algorithm s (if is_local_check then agree_alg_local else agree_alg)
  key_size ←
      if is_local_check
      then local_agree_key_size alg private_key peer_size
      else get_key_size abi alg private_key
  demand (
      if ltb agreed_size (key_size / bits_per_byte + key_size % bits_per_byte)
      then buffer_too_small
      else success)

unfoldable pub check_iteration : ℕ → Status
check_iteration n =
    if ltb n default_pbkdf2_iteration || ltb max_pbkdf2_iteration n
    then invalid_iteration
    else success

unfoldable pub check_salt : Param → Status
check_salt p =
    if not (is_success (check_blob p.blob)) || ltb p.blob.size default_pbkdf2_salt_size
    then invalid_salt
    else success

unfoldable pub check_pbkdf2_derive_key_params : ParamSet → Status
unfolding find_param check_iteration check_salt
check_pbkdf2_derive_key_params s = code_of do
  p ← find_param s tag_iteration check_get_iteration_fail
  _ ← demand (check_iteration (uint32_param p))
  q ← find_param s tag_salt check_get_salt_fail
  demand (check_salt q)

unfoldable pub check_sole_purpose : ParamSet → ℕ → Status
unfolding find_param
check_sole_purpose s purpose = code_of do
  p ← find_param s tag_purpose check_get_purpose_fail
  demand (if uint32_param p == purpose then success else invalid_purpose)

unfoldable pub core_check_derive_key_params : ParamSet → Bool → Status
unfolding check_and_get_algorithm derive_alg derive_alg_local check_sole_purpose
    check_and_get_digest digest_local check_pbkdf2_derive_key_params
core_check_derive_key_params s is_local_check = code_of do
  alg ← check_and_get_algorithm s (if is_local_check then derive_alg_local else derive_alg)
  _ ← demand (check_sole_purpose s key_purpose_derive)
  _ ← check_and_get_digest s digest_local
  demand (if alg == alg_pbkdf2 then check_pbkdf2_derive_key_params s else success)

unfoldable pub digest_len_or : ℕ → Result ℕ
unfolding get_digest_len
digest_len_or digest = elim (get_digest_len digest) [ none ↦ error invalid_digest | some n ↦ ok n ]

-- The key and the buffer of the mac lend their sizes.
unfoldable pub check_mac_output : ℕ → ParamSet → ℕ → Bool → Status
unfolding check_and_get_digest digest_local mac_digest_local digest_len_or
check_mac_output key_size s mac_size is_local_check = code_of do
  digest ← check_and_get_digest s (if is_local_check then digest_local else mac_digest_local)
  digest_len ← digest_len_or digest
  demand (
      if ltb mac_size digest_len
      then buffer_too_small
      else if is_local_check && ltb key_size digest_len
      then invalid_key_size
      else success)

unfoldable pub core_check_mac_params : ℕ → ParamSet → ℕ → Bool → Status
unfolding check_sole_purpose check_mac_output
core_check_mac_params key_size s mac_size is_local_check =
    check_sole_purpose s key_purpose_mac >> check_mac_output key_size s mac_size is_local_check

unfoldable pub check_is_symmetric_algorithm : ℕ → Bool
unfolding elem symmetric_algorithm
check_is_symmetric_algorithm alg = elem alg symmetric_algorithm

-- Here a failed search keeps its own code.
unfoldable pub core_check_agree_derive_finish_params : ℕ → ParamSet → Status
unfolding found_or check_is_symmetric_algorithm
core_check_agree_derive_finish_params key_size s = code_of do
  let r = get_param (some s) tag_key_size
  n ← found_or r r.0
  _ ← demand (if key_bytes (uint32_param n) == key_size then success else invalid_argument)
  let q = get_param (some s) tag_algorithm
  alg ← found_or q q.0
  demand (if check_is_symmetric_algorithm (uint32_param alg) then success else invalid_argument)
