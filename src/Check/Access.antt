-- ===== src/Check/Access.antt =====
-- The access types that hks_base_check.c accepts for each way to authenticate a user, as a list,
-- and `HksCheckUserAuthParams` against it.
use security_huks.Prelude.{
  ℕ, ◌<◌, ◌≡◌, refl, ◌↔◌, ◌⊎◌, Bool, true, ◌&&◌, none, some, List, [], ◌∷◌, ◌==◌, if◌then◌else◌,
  elem, arith, same, all_below, all_below_lem,
}
use security_huks.Status.{success, is_success, success_iff}
use security_huks.Check.{check_value}
use security_huks.Check.Lists.{
  support_user_auth_types, user_auth_challenge_type, valid_biometric_auth_access_type,
  valid_pin_auth_access_type,
}
use security_huks.Check.UserAuth.{
  check_user_auth_params, check_auth_access_type, valid_auth_access_type,
  has_valid_auth_access_type, expect_auth_access_params,
}

-- By the bits 1 (fingerprint), 2 (face) and 4 (PIN): 1 is `CLEAR_PASSWORD`, 2 `NEW_BIO_ENROLL`, 4
-- `ALWAYS_VALID`.
unfoldable pub accepted_access : ℕ → List ℕ
accepted_access user_auth_type =
    if user_auth_type == 4
    then 1 ∷ 4 ∷ []
    else if elem user_auth_type (1 ∷ 2 ∷ 3 ∷ [])
    then 1 ∷ 2 ∷ 4 ∷ []
    else if elem user_auth_type (5 ∷ 6 ∷ 7 ∷ [])
    then 1 ∷ 2 ∷ 3 ∷ 4 ∷ []
    else []

pin_cases :
    (a : ℕ)
    → (has_valid_auth_access_type valid_pin_auth_access_type a ≡ none)
      ⊎ ((has_valid_auth_access_type valid_pin_auth_access_type a ≡ some 1)
          ⊎ (has_valid_auth_access_type valid_pin_auth_access_type a ≡ some 4))
unfolding has_valid_auth_access_type valid_pin_auth_access_type
pin_cases a = ground arith

biometric_cases :
    (a : ℕ)
    → (has_valid_auth_access_type valid_biometric_auth_access_type a ≡ none)
      ⊎ ((has_valid_auth_access_type valid_biometric_auth_access_type a ≡ some 2)
          ⊎ ((has_valid_auth_access_type valid_biometric_auth_access_type a ≡ some 1)
              ⊎ (has_valid_auth_access_type valid_biometric_auth_access_type a ≡ some 4)))
unfolding has_valid_auth_access_type valid_biometric_auth_access_type
biometric_cases a = ground arith

-- What the loop over the table gathers stays within the three lowest bits.
valid_below_8 : (t a : ℕ) → valid_auth_access_type expect_auth_access_params t a < 8
unfolding valid_auth_access_type expect_auth_access_params
valid_below_8 t a = ground (arith, pin_cases a, biometric_cases a)

abbrev agrees : ℕ → ℕ → Bool
agrees t a = same (is_success (check_auth_access_type t a)) (elem a (accepted_access t))

table : all_below 8 (λ t. all_below 8 (agrees t)) ≡ true
unfolding all_below check_auth_access_type valid_auth_access_type has_valid_auth_access_type
    expect_auth_access_params valid_pin_auth_access_type valid_biometric_auth_access_type
    accepted_access elem
table = refl

elem-accepted_access_lt : (t a : ℕ) → elem a (accepted_access t) ≡ true → a < 8
unfolding accepted_access elem
elem-accepted_access_lt t a h = ground arith

check_auth_access_type_lt : (t a : ℕ) → check_auth_access_type t a ≡ success → a < 8
unfolding check_auth_access_type
check_auth_access_type_lt t a h = ground (arith, valid_below_8 t a)

check_auth_access_type_iff :
    (t a : ℕ) → t < 8 → (check_auth_access_type t a ≡ success) ↔ (elem a (accepted_access t) ≡ true)
check_auth_access_type_iff t a h = (
  λ e. (agree (check_auth_access_type_lt t a e)).0 e,
  λ e. (agree (elem-accepted_access_lt t a e)).1 e,
)
  where
    agree : a < 8 → (check_auth_access_type t a ≡ success) ↔ (elem a (accepted_access t) ≡ true)
    agree b =
        success_iff (check_auth_access_type t a) (elem a (accepted_access t))
          (all_below_lem 8 (agrees t) a (all_below_lem 8 (λ n. all_below 8 (agrees n)) t table h) b)

type_lt_8 : (t : ℕ) → elem t support_user_auth_types ≡ true → t < 8
unfolding elem support_user_auth_types
type_lt_8 t h = ground arith

elem-accepted_access_type :
    (t a : ℕ) → elem a (accepted_access t) ≡ true → elem t support_user_auth_types ≡ true
unfolding accepted_access elem support_user_auth_types
elem-accepted_access_type t a h = ground arith

challenge_iff : (c : ℕ) → elem c user_auth_challenge_type ≡ elem c (0 ∷ 1 ∷ 2 ∷ [])
unfolding user_auth_challenge_type
challenge_iff c = refl

-- `HksCheckUserAuthParams` accepts exactly the challenge types 0, 1 and 2 with the access types of
-- the list for the way to authenticate, whatever the three values are.
check_user_auth_params_iff :
    (t access challenge : ℕ)
    → (check_user_auth_params t access challenge ≡ success)
      ↔ ((elem challenge (0 ∷ 1 ∷ 2 ∷ []) && elem access (accepted_access t)) ≡ true)
unfolding check_user_auth_params check_value
check_user_auth_params_iff t access challenge = ground (
  arith,
  challenge_iff challenge,
  check_auth_access_type_iff t access,
  type_lt_8 t,
  elem-accepted_access_type t access,
)
