-- ===== src/Check/Parts.antt =====
-- The bytes of a key that `CheckImportKey` of hks_check_paramset.c accepts.
use security_huks.Prelude.{
  ℕ, ◌+◌, ◌^◌, ◌≤◌, ◌<◌, ◌≡◌, Bool, false, ◌&&◌, ◌||◌, List, [], ◌∷◌, length, ◌==◌, if◌then◌else◌,
  arith,
}
use security_huks.Status.{success}
use security_huks.Check.{ParamsValues}
use security_huks.Check.Values.{
  alg_dsa, alg_ecc, alg_rsa, alg_sm2, curve25519_key_size_256, dh_key_size_4096, ecc_key_size_521,
  key_type_key_pair, max_key_size, rsa_key_size_4096,
}
use security_huks.Check.Chain.{then_success}
use security_huks.Check.KeyMaterial.{
  field, sum, is_any_above, is_any_zero, material_size, check_material, rsa_parts,
  check_rsa_key_len, ecc_parts, check_ecc_key_len, dsa_parts, check_dsa_key_len, pair_parts,
  is_pair_out_of_bounds, check_curve25519_key_len, check_dh_key_len, check_key_len,
  check_mutable_params, check_import_key,
}

-- The bytes of the struct and of the parts behind it, for an algorithm.
unfoldable pub struct_size : ℕ → ℕ
struct_size alg = if alg == alg_dsa then 28 else 20

unfoldable pub parts : ℕ → List ℕ → List ℕ
unfolding rsa_parts ecc_parts dsa_parts pair_parts
parts alg key =
    if alg == alg_rsa
    then rsa_parts key
    else if (alg == alg_ecc) || (alg == alg_sm2)
    then ecc_parts key
    else if alg == alg_dsa
    then dsa_parts key
    else pair_parts key

-- A key that starts with the struct of its algorithm and length, and has the bytes of all parts.
abbrev pub HoldsParts : ℕ → ℕ → List ℕ → List ℕ → ℕ → Type 0
HoldsParts alg key_len key ps size =
    (field key 0 ≡ alg) × (field key 1 ≡ key_len) × (size + sum ps ≤ length key)

material_lem :
    (alg : ℕ) (v : ParamsValues) (key : List ℕ) (size : ℕ) (ps : List ℕ) (b : Bool)
    → (b ≡ false → size + sum ps < 2 ^ 32)
    → check_material alg v key size ps b ≡ success
    → HoldsParts alg v.key_len.value key ps size
unfolding check_material material_size
material_lem alg v key size ps b small h = ground (arith, small)

rsa_small :
    (a b c : ℕ)
    → (is_any_above rsa_key_size_4096 (a ∷ b ∷ c ∷ []) || is_any_zero (a ∷ b ∷ c ∷ [])) ≡ false
    → 20 + sum (a ∷ b ∷ c ∷ []) < 2 ^ 32
rsa_small a b c h = ground arith

ecc_small :
    (a b c : ℕ) (y z : Bool)
    → (is_any_above ecc_key_size_521 (a ∷ b ∷ c ∷ []) || y || z) ≡ false
    → 20 + sum (a ∷ b ∷ c ∷ []) < 2 ^ 32
ecc_small a b c y z h = ground arith

dsa_small :
    (a b c d e : ℕ) (y z : Bool)
    → (is_any_above max_key_size (a ∷ b ∷ c ∷ d ∷ e ∷ []) || y || z) ≡ false
    → 28 + sum (a ∷ b ∷ c ∷ d ∷ e ∷ []) < 2 ^ 32
dsa_small a b c d e y z h = ground arith

pair_small :
    (bound a b : ℕ) (y z : Bool)
    → bound ≤ 4096
    → (is_any_above bound (a ∷ b ∷ []) || y || z) ≡ false
    → 20 + sum (a ∷ b ∷ []) < 2 ^ 32
pair_small bound a b y z l h = ground arith

check_rsa_key_len_lem :
    (alg : ℕ) (v : ParamsValues) (key : List ℕ)
    → check_rsa_key_len alg v key ≡ success
    → HoldsParts alg v.key_len.value key (rsa_parts key) 20
unfolding check_rsa_key_len rsa_parts
check_rsa_key_len_lem alg v key h =
    material_lem alg v key 20 (rsa_parts key) _
      (rsa_small (field key 2) (field key 4) (field key 3)) h

check_ecc_key_len_lem :
    (alg t : ℕ) (v : ParamsValues) (key : List ℕ)
    → check_ecc_key_len alg t v key ≡ success
    → HoldsParts alg v.key_len.value key (ecc_parts key) 20
unfolding check_ecc_key_len ecc_parts
check_ecc_key_len_lem alg t v key h =
    material_lem alg v key 20 (ecc_parts key) _
      (ecc_small (field key 2) (field key 3) (field key 4) (field key 4 == 0)
        ((t == key_type_key_pair) && is_any_zero (field key 2 ∷ field key 3 ∷ [])))
      h

check_dsa_key_len_lem :
    (alg t : ℕ) (v : ParamsValues) (key : List ℕ)
    → check_dsa_key_len alg t v key ≡ success
    → HoldsParts alg v.key_len.value key (dsa_parts key) 28
unfolding check_dsa_key_len dsa_parts
check_dsa_key_len_lem alg t v key h =
    material_lem alg v key 28 (dsa_parts key) _
      (dsa_small (field key 2) (field key 3) (field key 4) (field key 5) (field key 6)
        (is_any_zero (field key 2 ∷ field key 4 ∷ field key 5 ∷ field key 6 ∷ []))
        ((t == key_type_key_pair) && (field key 3 == 0)))
      h

check_curve25519_key_len_lem :
    (alg t : ℕ) (v : ParamsValues) (key : List ℕ)
    → check_curve25519_key_len alg t v key ≡ success
    → HoldsParts alg v.key_len.value key (pair_parts key) 20
unfolding check_curve25519_key_len pair_parts is_pair_out_of_bounds
check_curve25519_key_len_lem alg t v key h =
    material_lem alg v key 20 (pair_parts key) _
      (pair_small curve25519_key_size_256 (field key 2) (field key 3) (field key 3 == 0)
        ((t == key_type_key_pair) && (field key 2 == 0)) (omega arith))
      h

check_dh_key_len_lem :
    (alg t : ℕ) (v : ParamsValues) (key : List ℕ)
    → check_dh_key_len alg t v key ≡ success
    → HoldsParts alg v.key_len.value key (pair_parts key) 20
unfolding check_dh_key_len pair_parts is_pair_out_of_bounds
check_dh_key_len_lem alg t v key h =
    material_lem alg v key 20 (pair_parts key) _
      (pair_small dh_key_size_4096 (field key 2) (field key 3) (field key 3 == 0)
        ((t == key_type_key_pair) && (field key 2 == 0)) (omega arith))
      h

check_key_len_lem :
    (alg key_type : ℕ) (v : ParamsValues) (key : List ℕ)
    → check_key_len alg key_type v key ≡ success
    → HoldsParts alg v.key_len.value key (parts alg key) (struct_size alg)
unfolding check_key_len parts struct_size
check_key_len_lem alg key_type v key h = ground (
  arith,
  check_rsa_key_len_lem alg v key,
  check_ecc_key_len_lem alg key_type v key,
  check_dsa_key_len_lem alg key_type v key,
  check_curve25519_key_len_lem alg key_type v key,
  check_dh_key_len_lem alg key_type v key,
)

-- A key that `CheckImportKey` accepts starts with the struct of its algorithm and of the length that the
-- request names, and has at least the bytes of this struct and of all the parts whose sizes stand in it;
-- the uint32_t sum in the code does not wrap.
pub check_import_key_lem :
    (alg key_type : ℕ) (v : ParamsValues) (key : List ℕ)
    → check_import_key alg key_type v key ≡ success
    → HoldsParts alg v.key_len.value key (parts alg key) (struct_size alg)
unfolding check_import_key
check_import_key_lem alg key_type v key h =
    check_key_len_lem alg key_type v key
      ((then_success (check_key_len alg key_type v key) (check_mutable_params alg key_type v) h).0)
