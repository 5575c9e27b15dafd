-- ===== src/Check/Sound.antt =====
-- `HksCoreCheckCipherParams` of hks_check_paramset.c for AES, as a whole.
use security_huks.Prelude.{
  ℕ, ◌^◌, ◌≤◌, ◌<◌, ◌≡◌, refl, sym, ◌∙◌, ◌⊎◌, inl, inr, ◌≢◌, ℕ_discrete, true, List, elem, has_bits,
  arith,
}
use security_huks.Status.{success, check_get_iv_fail, check_get_nonce_fail}
use security_huks.ParamSet.{Param, ParamSet}
use security_huks.ParamSet.Tags.{
  tag_algorithm, tag_purpose, tag_padding, tag_block_mode, tag_iv, tag_nonce,
}
use security_huks.Ipc.Service.{Abi}
use security_huks.Check.{use_key, ParamsValues, ok, uint32_param, check_value}
use security_huks.Check.Values.{alg_aes, mode_cbc, mode_ccm, mode_gcm}
use security_huks.Check.Algorithms.{cipher_alg}
use security_huks.Check.Inputs.{get_input_params_by_alg}
use security_huks.Check.Cipher.{check_cipher_data}
use security_huks.Check.Material.{
  found_or, find_param, check_iv, check_nonce, check_block_cipher_iv_material,
  check_cipher_ae_aad_material, check_cipher_ae_nonce_material, check_cipher_ae_material,
  check_cipher_material_params,
}
use security_huks.Check.Request.{
  find_value, check_and_get_algorithm, check_cipher_params_by_alg, core_check_cipher_params,
}
use security_huks.Check.Room.{aes_output, is_held, needed_output, check_cipher_data_iff}
use security_huks.Check.Chain.{then_success, Has, value_or_zero}
use security_huks.Check.Passed.{check_steps, find_and, inputs, material_of, purpose_bit, purpose_of}

iv_size : (p : Param) → check_iv p ≡ success → p.blob.size ≡ 16
unfolding check_iv
iv_size p h = ground arith

iv_check :
    (v : ParamsValues) (s : ParamSet)
    → v.mode.value ≡ mode_cbc
    → check_cipher_material_params alg_aes v s ≡ success
    → check_block_cipher_iv_material s ≡ success
unfolding check_cipher_material_params
iv_check v s m h = rw m at h

iv_of :
    (cmd : ℕ) (s : ParamSet) (v : ParamsValues)
    → check_cipher_params_by_alg cmd alg_aes s v ≡ success
    → v.mode.value ≡ mode_cbc
    → Has s tag_iv (λ p. p.blob.size ≡ 16)
unfolding find_param check_block_cipher_iv_material
iv_of cmd s v h m = found (
    find_and s tag_iv check_get_iv_fail check_iv refl
      (iv_check v s m (material_of cmd alg_aes s v h)))
  where
    found : Has s tag_iv (λ p. check_iv p ≡ success) → Has s tag_iv (λ p. p.blob.size ≡ 16)
    found (p, e, k) = (p, e, iv_size p k)

nonce_size :
    (mode : ℕ) (p : Param)
    → (mode ≡ mode_gcm) ⊎ (mode ≡ mode_ccm)
    → check_nonce mode p ≡ success
    → 7 ≤ p.blob.size
unfolding check_nonce
nonce_size mode p m h = ground arith

sealed_material :
    (v : ParamsValues) (s : ParamSet)
    → (v.mode.value ≡ mode_gcm) ⊎ (v.mode.value ≡ mode_ccm)
    → check_cipher_material_params alg_aes v s ≡ check_cipher_ae_material v.mode.value s
unfolding check_cipher_material_params
sealed_material v s (inl m) = rw m refl
sealed_material v s (inr m) = rw m refl

nonce_check :
    (mode : ℕ) (s : ParamSet)
    → check_cipher_ae_material mode s ≡ success
    → check_cipher_ae_nonce_material mode s ≡ success
unfolding check_cipher_ae_material
nonce_check mode s h =
    (then_success (check_cipher_ae_aad_material mode s) (check_cipher_ae_nonce_material mode s) h).1

nonce_of :
    (cmd : ℕ) (s : ParamSet) (v : ParamsValues)
    → check_cipher_params_by_alg cmd alg_aes s v ≡ success
    → (v.mode.value ≡ mode_gcm) ⊎ (v.mode.value ≡ mode_ccm)
    → Has s tag_nonce (λ p. 7 ≤ p.blob.size)
unfolding find_param check_cipher_ae_nonce_material
nonce_of cmd s v h m = found (
    find_and s tag_nonce check_get_nonce_fail (check_nonce v.mode.value) refl
      (nonce_check v.mode.value s (sym (sealed_material v s m) ∙ material_of cmd alg_aes s v h)))
  where
    found :
        Has s tag_nonce (λ p. check_nonce v.mode.value p ≡ success)
        → Has s tag_nonce (λ p. 7 ≤ p.blob.size)
    found (p, e, k) = (p, e, nonce_size v.mode.value p m k)

-- The algorithm, when it has passed the list of those that encrypt.
algorithm_ok :
    (s : ParamSet)
    → Has s tag_algorithm (λ p. uint32_param p ≡ alg_aes)
    → check_and_get_algorithm s cipher_alg ≡ ok alg_aes
unfolding check_and_get_algorithm find_value find_param found_or check_value elem cipher_alg
algorithm_ok s (p, e, k) = rw (e, k) refl

-- What the set of a request has for a mode: an initial vector of 16 bytes for CBC, and a nonce of
-- at least 7 bytes for GCM and CCM.
abbrev pub HasMaterial : ParamSet → ℕ → Type 0
HasMaterial s mode =
    ((mode ≢ mode_cbc) ⊎ Has s tag_iv (λ p. p.blob.size ≡ 16))
    × (((mode ≢ mode_gcm) × (mode ≢ mode_ccm)) ⊎ Has s tag_nonce (λ p. 7 ≤ p.blob.size))

material_there :
    (cmd : ℕ) (s : ParamSet) (v : ParamsValues)
    → check_cipher_params_by_alg cmd alg_aes s v ≡ success
    → HasMaterial s v.mode.value
material_there cmd s v h = (
  elim (ℕ_discrete v.mode.value mode_cbc) [ yes m ↦ inr (iv_of cmd s v h m) | no m ↦ inl m ],
  elim (ℕ_discrete v.mode.value mode_gcm) [
    | yes m ↦ inr (nonce_of cmd s v h (inl m))
    | no k ↦ elim (ℕ_discrete v.mode.value mode_ccm) [
      | yes m ↦ inr (nonce_of cmd s v h (inr m))
      | no m ↦ inl (k, m)
    ]
  ],
)

-- What `core_check_cipher_params` guarantees of an AES request.
abbrev pub AesRequest : ℕ → ParamSet → ℕ → ℕ → Type 0
AesRequest cmd s n size =
    let mode = value_or_zero s tag_block_mode in
    Has s tag_purpose (λ p. has_bits (uint32_param p) (purpose_of cmd) ≡ true)
    × (is_held (aes_output cmd mode (value_or_zero s tag_padding) n) size ≡ true)
    × HasMaterial s mode

request_of :
    (cmd : ℕ) (s : ParamSet) (n size : ℕ) (v : ParamsValues)
    → size < 2 ^ 32
    → get_input_params_by_alg alg_aes use_key s ≡ ok v
    → check_cipher_params_by_alg cmd alg_aes s v ≡ success
    → check_cipher_data cmd alg_aes v n size ≡ success
    → AesRequest cmd s n size
unfolding needed_output
request_of cmd s n size v small e checked held =
    let i = inputs s v e in
    let bit = purpose_bit cmd alg_aes s v checked in
    rw (sym i.1, sym i.2)
      (
        (i.0.0, i.0.1, rw i.0.2 bit),
        (check_cipher_data_iff cmd alg_aes v n size small).0 held,
        material_there cmd s v checked,
      )

-- Where the set of a request names AES and `HksCoreCheckCipherParams` accepts it with an output buffer
-- whose size is a uint32_t, the set has the purpose of the command; the buffer holds the output that
-- the mode and padding of the set need; a request in the mode CBC has an initial vector of 16 bytes;
-- and one in the modes GCM and CCM a nonce of at least 7 bytes.
pub core_check_cipher_params_lem :
    (abi : Abi) (cmd : ℕ) (key : List ℕ) (s : ParamSet) (n size : ℕ)
    → size < 2 ^ 32
    → Has s tag_algorithm (λ p. uint32_param p ≡ alg_aes)
    → core_check_cipher_params abi cmd key s n size ≡ success
    → AesRequest cmd s n size
core_check_cipher_params_lem abi cmd key s n size small alg h =
    let w = check_steps abi cmd key s n size (algorithm_ok s alg) h in
    request_of cmd s n size w.0 small w.1 w.2 w.3
