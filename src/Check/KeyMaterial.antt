-- ===== src/Check/KeyMaterial.antt =====
-- The keys that a request imports: CheckRsaKeyLen, CheckEccKeyLen, CheckDsaKeyLen,
-- CheckCurve25519KeyLen, CheckDHKeyLen, CheckKeyLen, CheckMutableParams, CheckImportKey,
-- CheckImportSymmetricKeySize and CheckImportKeySize of hks_check_paramset.c. A key is its bytes; the
-- structs of hks_type.h that stand at its start are words of four bytes, the lowest first.
use security_huks.Prelude.{
  ℕ, ◌+◌, ◌-◌, ◌*◌, ◌/◌, ◌%◌, ◌^◌, Bool, false, not, ◌&&◌, ◌||◌, List, [], ◌∷◌, length, drop, ◌==◌,
  ltb, if◌then◌else◌, elem,
}
use security_huks.Status.{Status, success, invalid_key_info, invalid_purpose, invalid_algorithm}
use security_huks.Ipc.{le_u32}
use security_huks.Check.{ParamsValues, ◌>>◌}
use security_huks.Check.Values.{
  alg_dh, alg_dsa, alg_ecc, alg_ed25519, alg_rsa, alg_sm2, alg_x25519, bits_per_byte,
  curve25519_key_size_256, dh_key_size_4096, ecc_key_size_521, key_purpose_agree,
  key_purpose_decrypt, key_purpose_sign, key_purpose_unwrap, key_type_key_pair, max_key_size,
  rsa_key_size_4096,
}

-- The field `i` of the struct at the start of a key: 0 is `keyAlg`, 1 is `keySize`.
abbrev pub field : List ℕ → ℕ → ℕ
field key i = le_u32 (drop (4 * i) key)

abbrev pub sum : List ℕ → ℕ
sum [] = 0
sum (n ∷ ns) = n + sum ns

-- Whether one of some sizes passes a bound.
abbrev pub is_any_above : ℕ → List ℕ → Bool
is_any_above bound [] = false
is_any_above bound (n ∷ ns) = ltb bound n || is_any_above bound ns

abbrev pub is_any_zero : List ℕ → Bool
is_any_zero [] = false
is_any_zero (n ∷ ns) = (n == 0) || is_any_zero ns

-- The bytes that a key must have: those of its struct and of the parts behind it, in uint32_t.
unfoldable pub material_size : ℕ → List ℕ → ℕ
material_size struct_size parts = (struct_size + sum parts) % 2 ^ 32

-- What the five checks have in common: the struct is there, is for this algorithm and this length,
-- no size is out of bounds, and the key has the bytes of all parts.
unfoldable pub check_material : ℕ → ParamsValues → List ℕ → ℕ → List ℕ → Bool → Status
unfolding material_size
check_material alg v key struct_size parts is_out_of_bounds =
    if ltb (length key) struct_size
    then invalid_key_info
    else if not (field key 0 == alg) || not (field key 1 == v.key_len.value)
    then invalid_key_info
    else if is_out_of_bounds
    then invalid_key_info
    else if ltb (length key) (material_size struct_size parts)
    then invalid_key_info
    else success

-- The sizes of `n`, `d` and `e`.
unfoldable pub rsa_parts : List ℕ → List ℕ
rsa_parts key = field key 2 ∷ field key 4 ∷ field key 3 ∷ []

unfoldable pub check_rsa_key_len : ℕ → ParamsValues → List ℕ → Status
unfolding rsa_parts check_material
check_rsa_key_len alg v key =
    let parts = rsa_parts key in
    check_material alg v key 20 parts (is_any_above rsa_key_size_4096 parts || is_any_zero parts)

-- The sizes of `x`, `y` and `z`.
unfoldable pub ecc_parts : List ℕ → List ℕ
ecc_parts key = field key 2 ∷ field key 3 ∷ field key 4 ∷ []

unfoldable pub check_ecc_key_len : ℕ → ℕ → ParamsValues → List ℕ → Status
unfolding ecc_parts check_material
check_ecc_key_len alg key_type v key =
    let parts = ecc_parts key in
    check_material alg v key 20 parts (
      is_any_above ecc_key_size_521 parts
      || (field key 4 == 0)
      || ((key_type == key_type_key_pair) && is_any_zero (field key 2 ∷ field key 3 ∷ [])))

-- The sizes of `x`, `y`, `p`, `q` and `g`.
unfoldable pub dsa_parts : List ℕ → List ℕ
dsa_parts key = field key 2 ∷ field key 3 ∷ field key 4 ∷ field key 5 ∷ field key 6 ∷ []

unfoldable pub check_dsa_key_len : ℕ → ℕ → ParamsValues → List ℕ → Status
unfolding dsa_parts check_material
check_dsa_key_len alg key_type v key =
    let parts = dsa_parts key in
    check_material alg v key 28 parts (
      is_any_above max_key_size parts
      || is_any_zero (field key 2 ∷ field key 4 ∷ field key 5 ∷ field key 6 ∷ [])
      || ((key_type == key_type_key_pair) && (field key 3 == 0)))

-- The sizes of the public and the private key.
unfoldable pub pair_parts : List ℕ → List ℕ
pair_parts key = field key 2 ∷ field key 3 ∷ []

unfoldable pub is_pair_out_of_bounds : ℕ → ℕ → List ℕ → Bool
unfolding pair_parts
is_pair_out_of_bounds bound key_type key =
    is_any_above bound (pair_parts key)
    || (field key 3 == 0)
    || ((key_type == key_type_key_pair) && (field key 2 == 0))

unfoldable pub check_curve25519_key_len : ℕ → ℕ → ParamsValues → List ℕ → Status
unfolding pair_parts is_pair_out_of_bounds check_material
check_curve25519_key_len alg key_type v key =
    check_material alg v key 20 (pair_parts key)
      (is_pair_out_of_bounds curve25519_key_size_256 key_type key)

unfoldable pub check_dh_key_len : ℕ → ℕ → ParamsValues → List ℕ → Status
unfolding pair_parts is_pair_out_of_bounds check_material
check_dh_key_len alg key_type v key =
    check_material alg v key 20 (pair_parts key)
      (is_pair_out_of_bounds dh_key_size_4096 key_type key)

unfoldable pub check_key_len : ℕ → ℕ → ParamsValues → List ℕ → Status
unfolding check_rsa_key_len check_ecc_key_len check_dsa_key_len check_curve25519_key_len
    check_dh_key_len
check_key_len alg key_type v key =
    if alg == alg_rsa
    then check_rsa_key_len alg v key
    else if (alg == alg_ecc) || (alg == alg_sm2)
    then check_ecc_key_len alg key_type v key
    else if alg == alg_dsa
    then check_dsa_key_len alg key_type v key
    else if (alg == alg_x25519) || (alg == alg_ed25519)
    then check_curve25519_key_len alg key_type v key
    else if alg == alg_dh
    then check_dh_key_len alg key_type v key
    else invalid_algorithm

-- A private key that comes alone has one purpose of a few.
unfoldable pub check_mutable_params : ℕ → ℕ → ParamsValues → Status
unfolding elem
check_mutable_params alg key_type v =
    let allowed = λ (ps : List ℕ). if elem v.purpose.value ps then success else invalid_purpose in
    if key_type == key_type_key_pair
    then success
    else if alg == alg_rsa
    then allowed (key_purpose_sign ∷ key_purpose_decrypt ∷ [])
    else if alg == alg_ecc
    then allowed (key_purpose_sign ∷ key_purpose_agree ∷ key_purpose_unwrap ∷ [])
    else if elem alg (alg_sm2 ∷ alg_dsa ∷ alg_ed25519 ∷ [])
    then allowed (key_purpose_sign ∷ [])
    else if (alg == alg_x25519) || (alg == alg_dh)
    then success
    else invalid_algorithm

unfoldable pub check_import_key : ℕ → ℕ → ParamsValues → List ℕ → Status
unfolding check_key_len check_mutable_params
check_import_key alg key_type v key =
    check_key_len alg key_type v key >> check_mutable_params alg key_type v

-- `HKS_KEY_BYTES`.
abbrev pub key_bytes : ℕ → ℕ
key_bytes key_size = ((key_size + bits_per_byte - 1) % 2 ^ 32) / bits_per_byte

unfoldable pub check_import_symmetric_key_size : ParamsValues → List ℕ → Status
check_import_symmetric_key_size v key =
    if length key == key_bytes v.key_len.value then success else invalid_key_info

unfoldable pub check_import_key_size : ℕ → ParamsValues → List ℕ → Status
unfolding elem
check_import_key_size alg v key =
    if elem alg (alg_ed25519 ∷ alg_x25519 ∷ alg_rsa ∷ alg_ecc ∷ alg_sm2 ∷ alg_dh ∷ [])
    then (if ltb (length key) 20 || not (field key 0 == alg) || not (field key 1 == v.key_len.value)
        then invalid_key_info
        else success)
    else if alg == alg_dsa
    then success
    else invalid_algorithm
