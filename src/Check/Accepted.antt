-- ===== src/Check/Accepted.antt =====
-- The purposes that hks_base_check.c accepts for a key of each algorithm, as lists, and
-- `HksCheckGenKeyPurpose` against them.
use security_huks.Prelude.{
  ℕ, ◌<◌, ◌≡◌, refl, ◌↔◌, inl, inr, Bool, true, false, ◌||◌, List, [], ◌∷◌, ◌++◌, ◌==◌, ==_iff,
  if◌then◌else◌, Bool-cases, elem, All, arith, subst, sym, ◌≢◌, same, all_below, all_below_lem,
}
use security_huks.Status.{success, is_success, success_iff}
use security_huks.Check.Values.{
  alg_aes, alg_dh, alg_dsa, alg_ecc, alg_ecdh, alg_ed25519, alg_hmac, alg_rsa, alg_sm2, alg_sm3,
  alg_sm4, alg_x25519, key_flag_import_key,
}
use security_huks.Check.Purpose.{
  check_gen_key_purpose, check_purpose_unique, check_purpose_valid, purpose_count,
  get_invalid_purpose, row_of, add_row, invalid_purpose, invalid_import_key_purpose,
}

-- To encrypt and decrypt; to sign and verify; to unwrap; and one purpose each.
abbrev pub ciphering_purposes : List ℕ
ciphering_purposes = 1 ∷ 2 ∷ 3 ∷ []

abbrev pub signing_purposes : List ℕ
signing_purposes = 4 ∷ 8 ∷ 12 ∷ []

abbrev pub deriving_purposes : List ℕ
deriving_purposes = 16 ∷ []

abbrev pub unwrapping_purposes : List ℕ
unwrapping_purposes = 64 ∷ []

abbrev pub wrapping_purposes : List ℕ
wrapping_purposes = 32 ∷ 64 ∷ 96 ∷ []

abbrev pub computing_macs_purposes : List ℕ
computing_macs_purposes = 128 ∷ []

abbrev pub agreeing_purposes : List ℕ
agreeing_purposes = 256 ∷ []

-- The purposes that a new key (`false`) or an imported one (`true`) may have.
unfoldable pub accepted : ℕ → Bool → List ℕ
accepted alg is_imported =
    if alg == alg_rsa
    then ciphering_purposes ++ signing_purposes
    else if alg == alg_aes
    then ciphering_purposes ++ deriving_purposes ++ computing_macs_purposes
    else if alg == alg_sm4
    then ciphering_purposes ++ deriving_purposes
    else if alg == alg_ecc
    then signing_purposes ++ agreeing_purposes ++ (if is_imported then [] else unwrapping_purposes)
    else if alg == alg_sm2
    then ciphering_purposes
      ++ signing_purposes
      ++ agreeing_purposes
      ++ (if is_imported then [] else unwrapping_purposes)
    else if alg == alg_x25519
    then signing_purposes ++ agreeing_purposes ++ (if is_imported then [] else unwrapping_purposes)
    else if alg == alg_ed25519
    then signing_purposes ++ agreeing_purposes
    else if (alg == alg_sm3) || (alg == alg_hmac)
    then computing_macs_purposes
    else if alg == alg_dsa
    then signing_purposes
    else if (alg == alg_dh) || (alg == alg_ecdh)
    then agreeing_purposes
    else []

abbrev flag_of : Bool → ℕ
flag_of is_imported = if is_imported then key_flag_import_key else 0

abbrev agrees : ℕ → Bool → ℕ → Bool
agrees alg i p =
    same (is_success (check_gen_key_purpose alg p (flag_of i))) (elem p (accepted alg i))

abbrev algorithms : List ℕ
algorithms =
    alg_rsa ∷ alg_ecc ∷ alg_sm2 ∷ alg_sm3 ∷ alg_sm4 ∷ alg_aes ∷ alg_ed25519 ∷ alg_x25519 ∷ alg_hmac
    ∷ alg_dsa ∷ alg_dh ∷ alg_ecdh ∷ []

abbrev Agrees : ℕ → Type 0
Agrees alg = (all_below 512 (agrees alg true) ≡ true) × (all_below 512 (agrees alg false) ≡ true)

tables : All Agrees algorithms
unfolding all_below check_gen_key_purpose check_purpose_unique check_purpose_valid purpose_count
    get_invalid_purpose row_of add_row invalid_purpose invalid_import_key_purpose accepted elem
tables = (
  (refl, refl),
  (
    (refl, refl),
    (
      (refl, refl),
      (
        (refl, refl),
        (
          (refl, refl),
          (
            (refl, refl),
            (
              (refl, refl),
              ((refl, refl), ((refl, refl), ((refl, refl), ((refl, refl), ((refl, refl), tt))))),
            ),
          ),
        ),
      ),
    ),
  ),
)

-- The result depends on the flag only by whether it is that of an imported key.
check_gen_key_purpose-flag :
    (alg p flag : ℕ)
    → check_gen_key_purpose alg p flag
      ≡ check_gen_key_purpose alg p (flag_of (flag == key_flag_import_key))
unfolding check_gen_key_purpose check_purpose_valid get_invalid_purpose
check_gen_key_purpose-flag alg p flag = ground arith

unknown_algorithm :
    (alg p flag : ℕ)
    → elem alg algorithms ≡ false
    → (check_gen_key_purpose alg p flag ≢ success)
      × (accepted alg (flag == key_flag_import_key) ≡ [])
unfolding check_gen_key_purpose check_purpose_valid get_invalid_purpose row_of invalid_purpose
    accepted elem
unknown_algorithm alg p flag h = (ground arith, ground arith)

known_algorithm : (algs : List ℕ) (alg : ℕ) → All Agrees algs → elem alg algs ≡ true → Agrees alg
unfolding elem
known_algorithm [] alg a h = absurd (ground arith)
known_algorithm (x ∷ xs) alg a h = elim (Bool-cases (alg == x)) [
  | inl e ↦ subst Agrees (sym ((==_iff alg x).0 e)) a.0
  | inr e ↦ known_algorithm xs alg a.1 (ground arith)
]

-- For each algorithm, each purpose of the nine purpose bits and each flag, `HksCheckGenKeyPurpose`
-- succeeds exactly where the list `accepted` has the purpose; an algorithm without a list has none.
pub check_gen_key_purpose_iff :
    (alg p flag : ℕ)
    → p < 512
    → (check_gen_key_purpose alg p flag ≡ success)
      ↔ (elem p (accepted alg (flag == key_flag_import_key)) ≡ true)
unfolding elem
check_gen_key_purpose_iff alg p flag h = elim (Bool-cases (elem alg algorithms)) [
  | inr e ↦ ground (arith, unknown_algorithm alg p flag e)
  | inl e ↦ rw (check_gen_key_purpose-flag alg p flag) (by_table (flag == key_flag_import_key) e)
]
  where
    by_table :
        (i : Bool)
        → elem alg algorithms ≡ true
        → (check_gen_key_purpose alg p (flag_of i) ≡ success) ↔ (elem p (accepted alg i) ≡ true)
    by_table true e =
        success_iff (check_gen_key_purpose alg p 1) (elem p (accepted alg true))
          (all_below_lem 512 (agrees alg true) p (known_algorithm algorithms alg tables e).0 h)
    by_table false e =
        success_iff (check_gen_key_purpose alg p 0) (elem p (accepted alg false))
          (all_below_lem 512 (agrees alg false) p (known_algorithm algorithms alg tables e).1 h)
