-- ===== src/Check/Passed.antt =====
-- The steps of `HksCoreCheckCipherParams` of hks_check_paramset.c, one by one, for AES.
use security_huks.Prelude.{
  ℕ, ◌≡◌, refl, ap, inl, inr, true, false, Option, none, some, List, ◌==◌, if◌then◌else◌, has_bits,
  arith,
}
use security_huks.Status.{
  Status, success, is_success, is_success_lem, check_get_purpose_fail, check_get_padding_fail,
  check_get_mode_fail, invalid_padding, invalid_argument,
}
use security_huks.ParamSet.{Param, ParamSet, get_param}
use security_huks.ParamSet.Tags.{tag_purpose, tag_padding, tag_block_mode}
use security_huks.Ipc.Service.{Abi}
use security_huks.Check.{
  asks, asked, use_key, Params, ParamsValues, ◌>>◌, ◌or_code◌, ok, error, ◌>>=◌, demand, code_of,
  uint32_param,
}
use security_huks.Check.Values.{
  alg_aes, cmd_id_decrypt, cmd_id_encrypt, key_purpose_decrypt, key_purpose_encrypt,
}
use security_huks.Check.Algorithms.{cipher_alg}
use security_huks.Check.Asked.{aes_param_set}
use security_huks.Check.Inputs.{
  get_input_params_by_alg, init_input_params_by_alg, param_set_of, init_input_params, get_required,
  take_value,
}
use security_huks.Check.Padding.{
  check_cipher_mutable_params, check_cipher_padding, check_purpose_bit,
}
use security_huks.Check.Cipher.{check_cipher_data}
use security_huks.Check.Material.{find_param, check_cipher_material_params}
use security_huks.Check.Fixed.{check_fixed_params}
use security_huks.Check.Request.{
  check_and_get_algorithm, check_cipher_params_by_alg, take_key_size, core_check_cipher_params,
}
use security_huks.Check.Chain.{
  two_checks, then_success, Fails-get_input_params, Fails-find_param, Result-cases, Has,
  value_or_zero, find_param_ok, get_input_params_ok, get_optional_ok,
}

-- What the table asks of a request to use an AES key.
abbrev aes_asked : ParamsValues
aes_asked = (asks use_key false true true false true).param_values

-- `core_check_cipher_params` with an algorithm that it has read: the two checks of the values.
pub check_steps :
    (abi : Abi) (cmd : ℕ) (key : List ℕ) (s : ParamSet) (n size : ℕ)
    → check_and_get_algorithm s cipher_alg ≡ ok alg_aes
    → core_check_cipher_params abi cmd key s n size ≡ success
    → (v : ParamsValues) × (get_input_params_by_alg alg_aes use_key s ≡ ok v)
      × (check_cipher_params_by_alg cmd alg_aes s v ≡ success)
      × (check_cipher_data cmd alg_aes v n size ≡ success)
unfolding core_check_cipher_params take_key_size get_input_params_by_alg init_input_params_by_alg
    param_set_of init_input_params aes_param_set
check_steps abi cmd key s n size a h =
    two_checks (get_input_params_by_alg alg_aes use_key s)
      (λ v. check_cipher_params_by_alg cmd alg_aes s v)
      (λ v. check_cipher_data cmd alg_aes v n size) (Fails-get_input_params s aes_asked) (rw a at h)

required_ok :
    (s : ParamSet) (tag : ℕ) (e : Status) (q : Params)
    → get_required s tag e (asked true) ≡ ok q
    → Has s tag (λ x. uint32_param x ≡ q.value)
unfolding get_required take_value
required_ok s tag e q h = taken (get_param (some s) tag) h
  where
    taken :
        (r : Status × Option Param)
        → (if is_success r.0 then take_value (asked true) r.1 e else error e) ≡ ok q
        → (x : Param) × (r ≡ (success, some x)) × (uint32_param x ≡ q.value)
    taken (st, none) g = absurd (ground arith)
    taken (st, some x) g =
        (x, ap (λ k. (k, some x)) (is_success_lem st (ground arith)), ground arith)

pub inputs :
    (s : ParamSet) (v : ParamsValues)
    → get_input_params_by_alg alg_aes use_key s ≡ ok v
    → Has s tag_purpose (λ p. uint32_param p ≡ v.purpose.value)
      × (v.padding.value ≡ value_or_zero s tag_padding)
      × (v.mode.value ≡ value_or_zero s tag_block_mode)
unfolding get_input_params_by_alg init_input_params_by_alg param_set_of init_input_params
    aes_param_set
inputs s v h =
    let w = get_input_params_ok s aes_asked v h in
    (
      required_ok s tag_purpose check_get_purpose_fail v.purpose w.0,
      get_optional_ok s tag_padding check_get_padding_fail (asked true) v.padding refl refl w.1,
      get_optional_ok s tag_block_mode check_get_mode_fail (asked true) v.mode refl refl w.2,
    )

abbrev pub purpose_of : ℕ → ℕ
purpose_of cmd = if cmd == cmd_id_encrypt then key_purpose_encrypt else key_purpose_decrypt

mutable_of :
    (cmd alg : ℕ) (s : ParamSet) (v : ParamsValues)
    → check_cipher_params_by_alg cmd alg s v ≡ success
    → check_cipher_mutable_params cmd alg v ≡ success
unfolding check_cipher_params_by_alg
mutable_of cmd alg s v h =
    let mutable = check_cipher_mutable_params cmd alg v in
    let material = check_cipher_material_params alg v s in
    (then_success mutable material
      (then_success (check_fixed_params alg use_key v) (mutable >> material) h).1).0

pub material_of :
    (cmd alg : ℕ) (s : ParamSet) (v : ParamsValues)
    → check_cipher_params_by_alg cmd alg s v ≡ success
    → check_cipher_material_params alg v s ≡ success
unfolding check_cipher_params_by_alg
material_of cmd alg s v h =
    let mutable = check_cipher_mutable_params cmd alg v in
    let material = check_cipher_material_params alg v s in
    (then_success mutable material
      (then_success (check_fixed_params alg use_key v) (mutable >> material) h).1).1

abbrev cmd_check : ℕ → ParamsValues → Status
cmd_check cmd v =
    if cmd == cmd_id_encrypt
    then check_purpose_bit v key_purpose_encrypt
    else if cmd == cmd_id_decrypt
    then check_purpose_bit v key_purpose_decrypt
    else invalid_argument

bit_of :
    (cmd : ℕ) (v : ParamsValues)
    → cmd_check cmd v ≡ success
    → has_bits v.purpose.value (purpose_of cmd) ≡ true
unfolding check_purpose_bit
bit_of cmd v h = ground arith

pub purpose_bit :
    (cmd alg : ℕ) (s : ParamSet) (v : ParamsValues)
    → check_cipher_params_by_alg cmd alg s v ≡ success
    → has_bits v.purpose.value (purpose_of cmd) ≡ true
unfolding check_cipher_mutable_params
purpose_bit cmd alg s v h =
    bit_of cmd v
      (then_success (cmd_check cmd v) (check_cipher_padding alg v or_code invalid_padding)
        (mutable_of cmd alg s v h)).0

pub find_and :
    (s : ParamSet) (tag : ℕ) (e : Status) (check : Param → Status)
    → is_success e ≡ false
    → code_of (find_param s tag e >>= λ p. demand (check p)) ≡ success
    → Has s tag (λ p. check p ≡ success)
find_and s tag e check f h = elim (Result-cases (find_param s tag e) (Fails-find_param s tag e f)) [
  | inl (p, g) ↦ (p, find_param_ok s tag e p g, ground (arith, g))
  | inr (st, g, k) ↦ absurd (ground (arith, g))
]
