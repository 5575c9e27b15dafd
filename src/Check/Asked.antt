-- ===== src/Check/Asked.antt =====
-- Which parameters hks_base_check.c takes from a set, for each algorithm and purpose of the check
-- (struct ParamsValuesChecker): the key size, padding, purpose, digest and mode.
use mathlib.Core.Bool.{true, false}
use mathlib.Core.List.{List, [], ◌∷◌}
use security_huks.Check.{ParamsValuesChecker, asks, gen_key, use_key, gen_mac_key, gen_derive_key}

unfoldable pub rsa_param_set : List ParamsValuesChecker
rsa_param_set = asks gen_key true true true true false ∷ asks use_key true true true true false ∷ []

unfoldable pub aes_param_set : List ParamsValuesChecker
aes_param_set =
    asks gen_key true true true false true
    ∷ asks use_key false true true false true
    ∷ asks gen_mac_key true false false true false
    ∷ asks gen_derive_key true false false true false
    ∷ []

unfoldable pub ecc_param_set : List ParamsValuesChecker
ecc_param_set =
    asks gen_key true false true true false ∷ asks use_key false false true true false ∷ []

unfoldable pub sm2_param_set : List ParamsValuesChecker
sm2_param_set =
    asks gen_key true false true true false ∷ asks use_key true false true true false ∷ []

unfoldable pub sm3_param_set : List ParamsValuesChecker
sm3_param_set =
    asks gen_key true false true true false ∷ asks gen_mac_key true false true true false ∷ []

unfoldable pub sm4_param_set : List ParamsValuesChecker
sm4_param_set =
    asks gen_key true true true false true
    ∷ asks use_key true true true false true
    ∷ asks gen_derive_key true false false true false
    ∷ []

unfoldable pub curve25519_param_set : List ParamsValuesChecker
curve25519_param_set =
    asks gen_key true false true false false ∷ asks use_key false false true false false ∷ []

unfoldable pub hmac_param_set : List ParamsValuesChecker
hmac_param_set =
    asks gen_key true false true true false
    ∷ asks use_key false false true true false
    ∷ asks gen_mac_key true false true true false
    ∷ []

unfoldable pub dsa_param_set : List ParamsValuesChecker
dsa_param_set =
    asks gen_key true false true true false ∷ asks use_key false false true true false ∷ []

unfoldable pub dh_param_set : List ParamsValuesChecker
dh_param_set =
    asks gen_key true false true false false ∷ asks use_key true false true false false ∷ []

unfoldable pub ecdh_param_set : List ParamsValuesChecker
ecdh_param_set =
    asks gen_key true false true false false ∷ asks use_key true false true false false ∷ []
