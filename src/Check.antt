-- ===== src/Check.antt =====
-- The checks of parameters, frameworks/huks_standard/main/common/src/hks_base_check.c and
-- hks_check_paramset.c: the tables that say for each algorithm which parameters a request must have
-- and with what values (hks_base_check.h), and how checks follow one another.
pub mod Values
pub mod Lists
pub mod Asked
pub mod Expected
pub mod Algorithms
pub mod Purpose
pub mod Inputs
pub mod Fixed
pub mod Padding
pub mod Cipher
pub mod Material
pub mod Signature
pub mod UserAuth
pub mod KeyMaterial
pub mod Request
pub mod Finish
pub mod Accepted
pub mod Access
pub mod Chain
pub mod Passed
pub mod Room
pub mod Sound
pub mod Import
pub mod Parts
mod Tests
use security_huks.Prelude.{
  ℕ, ◌%◌, ◌^◌, Bool, true, false, ◌||◌, List, [], ◌∷◌, ◌==◌, if◌then◌else◌, elem,
}
use security_huks.Status.{Status, success, invalid_argument, is_success}
use security_huks.ParamSet.{Param}

pub data CheckKeyType : Type 0 where
  gen_key use_key gen_mac_key gen_derive_key : CheckKeyType

abbrev pub is_same_type : CheckKeyType → CheckKeyType → Bool
is_same_type gen_key gen_key = true
is_same_type use_key use_key = true
is_same_type gen_mac_key gen_mac_key = true
is_same_type gen_derive_key gen_derive_key = true
is_same_type _ _ = false

pub record Params : Type 0 where
  pub need_check : Bool
  pub value : ℕ
  pub is_absent : Bool

pub record ParamsValues : Type 0 where
  pub key_len : Params
  pub padding : Params
  pub purpose : Params
  pub digest : Params
  pub mode : Params

pub record ParamsValuesChecker : Type 0 where
  pub check_type : CheckKeyType
  pub param_values : ParamsValues

pub record ExpectParams : Type 0 where
  pub need_check : Bool
  pub values : List ℕ

pub record ExpectParamsValues : Type 0 where
  pub key_len : ExpectParams
  pub padding : ExpectParams
  pub purpose : ExpectParams
  pub digest : ExpectParams
  pub mode : ExpectParams

pub record ExpectParamsValuesChecker : Type 0 where
  pub check_type : CheckKeyType
  pub param_values : ExpectParamsValues

-- The rows of the tables.
abbrev pub asked : Bool → Params
asked b = record { need_check = b; value = 0; is_absent = false }

abbrev pub asks : CheckKeyType → Bool → Bool → Bool → Bool → Bool → ParamsValuesChecker
asks t a b c d e = record {
  check_type = t;
  param_values = record {
    key_len = asked a;
    padding = asked b;
    purpose = asked c;
    digest = asked d;
    mode = asked e;
  };
}

abbrev pub among : List ℕ → ExpectParams
among xs = record { need_check = true; values = xs }

abbrev pub unchecked : ExpectParams
unchecked = record { need_check = false; values = [] }

abbrev pub expects :
    CheckKeyType
    → ExpectParams
    → ExpectParams
    → ExpectParams
    → ExpectParams
    → ExpectParams
    → ExpectParamsValuesChecker
expects t a b c d e = record {
  check_type = t;
  param_values = record { key_len = a; padding = b; purpose = c; digest = d; mode = e };
}

-- A check that ends with a result code, and what follows where it succeeds
-- (`HKS_IF_NOT_SUCC_RETURN(ret, ret)`).
infixr 5 ◌>>◌
abbrev pub ◌>>◌ : Status → Status → Status
a >> b = if is_success a then b else a

-- The code that replaces a failure.
infix 6 ◌or_code◌
abbrev pub ◌or_code◌ : Status → Status → Status
a or_code e = if is_success a then success else e

-- A value, or the code with which the search for it ended.
pub data Result (A : Type 0) : Type 0 where
  ok : A → Result A
  error : Status → Result A

infixl 5 ◌>>=◌
abbrev pub ◌>>=◌ : {A B : Type 0} → Result A → (A → Result B) → Result B
◌>>=◌ r f = elim r [ ok a ↦ f a | error e ↦ error e ]

abbrev pub return : {A : Type 0} → A → Result A
return a = ok a

-- A check inside such a chain.
abbrev pub demand : Status → Result Unit
demand st = if is_success st then ok tt else error st

-- The code of a chain.
abbrev pub code_of : {A : Type 0} → Result A → Status
code_of (ok a) = success
code_of (error e) = e

-- `param->uint32Param`.
abbrev pub uint32_param : Param → ℕ
uint32_param p = p.scalar % 2 ^ 32

-- `HksCheckValue`.
unfoldable pub check_value : ℕ → List ℕ → Status
unfolding elem
check_value input_value expect_values =
    if elem input_value expect_values then success else invalid_argument
