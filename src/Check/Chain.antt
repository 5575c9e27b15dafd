-- ===== src/Check/Chain.antt =====
-- What a chain of checks that succeeds has passed.
use security_huks.Prelude.{
  Bool-cases, ◌⊎◌, inl, inr, ℕ, ◌≡◌, refl, true, false, Option, some, arith,
}
use security_huks.Status.{
  Status, success, check_get_key_size_fail, check_get_digest_fail, check_get_purpose_fail,
  check_get_padding_fail, check_get_mode_fail, is_success,
}
use security_huks.ParamSet.{Param, ParamSet, get_param}
use security_huks.ParamSet.Tags.{tag_key_size, tag_digest, tag_purpose, tag_padding, tag_block_mode}
use security_huks.Check.{
  Params, ParamsValues, ◌>>◌, ◌or_code◌, Result, ok, error, ◌>>=◌, demand, code_of, uint32_param,
}
use security_huks.Check.Inputs.{
  get_input_params, get_required, get_optional_params, take_value, take_optional,
}
use security_huks.Check.Material.{found_or, find_param}

-- An error has a code other than success.
abbrev pub Fails : {A : Type 0} → Result A → Type 0
Fails (ok a) = Unit
Fails (error e) = is_success e ≡ false

pub Fails-bind :
    {A B : Type 0} (r : Result A) (f : A → Result B)
    → Fails r
    → ((a : A) → Fails (f a))
    → Fails (r >>= f)
Fails-bind (ok a) f h g = g a
Fails-bind (error e) f h g = h

pub Fails-demand : (st : Status) → Fails (demand st)
Fails-demand st = elim (Bool-cases (is_success st)) [ inl e ↦ rw e tt | inr e ↦ rw e e ]

-- The value of a chain, or the code of its failure.
pub Result-cases :
    {A : Type 0} (r : Result A)
    → Fails r
    → ((a : A) × (r ≡ ok a)) ⊎ ((e : Status) × (r ≡ error e) × (is_success e ≡ false))
Result-cases (ok a) f = inl (a, refl)
Result-cases (error e) f = inr (e, refl, f)

pub bind_ok :
    {A B : Type 0} (r : Result A) (f : A → Result B) (b : B)
    → (r >>= f) ≡ ok b
    → (a : A) × (r ≡ ok a) × (f a ≡ ok b)
bind_ok (ok a) f b e = (a, refl, e)
bind_ok (error st) f b e = absurd (cc)

pub demand_success : (st : Status) → code_of (demand st) ≡ success → st ≡ success
demand_success st h = ground arith

pub then_success : (a b : Status) → (a >> b) ≡ success → (a ≡ success) × (b ≡ success)
then_success a b h = ground arith

pub or_code_success : (a e : Status) → is_success e ≡ false → (a or_code e) ≡ success → a ≡ success
or_code_success a e f h = ground arith

-- The value that a set has for a tag, 0 where it has none.
unfoldable pub found_value : Status × Option Param → ℕ
found_value (success, some p) = uint32_param p
found_value (_, _) = 0

unfoldable pub value_or_zero : ParamSet → ℕ → ℕ
unfolding found_value
value_or_zero s tag = found_value (get_param (some s) tag)

-- A parameter of a set that meets a condition.
abbrev pub Has : ParamSet → ℕ → (Param → Type 0) → Type 0
Has s tag P = (p : Param) × (get_param (some s) tag ≡ (success, some p)) × P p

found_or_ok :
    (r : Status × Option Param) (e : Status) (p : Param)
    → found_or r e ≡ ok p
    → r ≡ (success, some p)
unfolding found_or
found_or_ok r e p h = ground arith

pub find_param_ok :
    (s : ParamSet) (tag : ℕ) (e : Status) (p : Param)
    → find_param s tag e ≡ ok p
    → get_param (some s) tag ≡ (success, some p)
unfolding find_param
find_param_ok s tag e p h = found_or_ok (get_param (some s) tag) e p h

pub Fails-find_param :
    (s : ParamSet) (tag : ℕ) (e : Status) → is_success e ≡ false → Fails (find_param s tag e)
unfolding find_param found_or
Fails-find_param s tag e f = ground arith

pub get_optional_ok :
    (s : ParamSet) (tag : ℕ) (e : Status) (p q : Params)
    → p.need_check ≡ true
    → p.value ≡ 0
    → get_optional_params s tag e p ≡ ok q
    → q.value ≡ value_or_zero s tag
unfolding get_optional_params take_optional take_value value_or_zero found_value
get_optional_ok s tag e p q n z h = ground arith

-- The parameters of a request that the tables ask for.
pub get_input_params_ok :
    (s : ParamSet) (v w : ParamsValues)
    → get_input_params s v ≡ ok w
    → (get_required s tag_purpose check_get_purpose_fail v.purpose ≡ ok w.purpose)
      × (get_optional_params s tag_padding check_get_padding_fail v.padding ≡ ok w.padding)
      × (get_optional_params s tag_block_mode check_get_mode_fail v.mode ≡ ok w.mode)
unfolding get_input_params
get_input_params_ok s v w h = ground arith

Fails-get_required :
    (s : ParamSet) (tag : ℕ) (e : Status) (p : Params)
    → is_success e ≡ false
    → Fails (get_required s tag e p)
unfolding get_required take_value
Fails-get_required s tag e p f = ground arith

Fails-get_optional :
    (s : ParamSet) (tag : ℕ) (e : Status) (p : Params)
    → is_success e ≡ false
    → Fails (get_optional_params s tag e p)
unfolding get_optional_params take_optional take_value
Fails-get_optional s tag e p f = ground arith

pub Fails-get_input_params : (s : ParamSet) (v : ParamsValues) → Fails (get_input_params s v)
unfolding get_input_params
Fails-get_input_params s v = ground (
  arith,
  Fails-get_required s tag_key_size check_get_key_size_fail v.key_len refl,
  Fails-get_required s tag_purpose check_get_purpose_fail v.purpose refl,
  Fails-get_optional s tag_padding check_get_padding_fail v.padding refl,
  Fails-get_optional s tag_digest check_get_digest_fail v.digest refl,
  Fails-get_optional s tag_block_mode check_get_mode_fail v.mode refl,
)

-- A chain that reads a value and makes two checks of it.
pub two_checks :
    {A : Type 0} (r : Result A) (f g : A → Status)
    → Fails r
    → code_of (r >>= λ a. (demand (f a) >>= λ u. demand (g a))) ≡ success
    → (a : A) × (r ≡ ok a) × (f a ≡ success) × (g a ≡ success)
two_checks (ok a) f g k h = (a, refl, ground arith, ground arith)
two_checks (error e) f g k h = absurd (ground arith)
