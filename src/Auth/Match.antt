-- ===== src/Auth/Match.antt =====
-- The match of a request with a key, for the policies of hks_auth.c.
use Prim.Native.Nat.{bit_and}
use security_huks.Prelude.{
  ℕ, ◌≡◌, ◌≢◌, refl, ap, ◌∙◌, subst, ◌⊎◌, inl, inr, Option, none, some, Bool-cases, List, [], ◌∷◌,
  ◌==◌, if◌then◌else◌, All, arith,
}
use security_huks.Status.{
  Status, success, param_not_exist, check_get_alg_fail, check_get_purpose_fail,
}
use security_huks.ParamSet.{Param, ParamSet, lookup, get_param, get_tag_type, tag_type_uint}
use security_huks.ParamSet.Tags.{tag_algorithm, tag_purpose}
use security_huks.ParamSet.Build.{check_param_match}
use security_huks.Check.{ParamsValues, Result, ok, error, ◌>>=◌, demand, code_of, uint32_param}
use security_huks.Check.Chain.{Fails, Has, Fails-find_param, Fails-get_input_params, then_success}
use security_huks.Check.Inputs.{get_input_params}
use security_huks.Check.Material.{find_param}
use security_huks.Auth.{
  auth_policy_list, check_purpose, check_request, check_policy_tag, check_policy_tags, auth_asked,
  auth_policy, auth_by, policy_of, three_stage_auth,
}

-- The request has what the key has for a tag: its own purposes among those of the key, and the same
-- value for any other tag.
abbrev pub Matches : ℕ → Param → Param → Type 0
Matches tag p q =
    if tag == tag_purpose
    then ((uint32_param q ≢ 0) × (bit_and (uint32_param q) (uint32_param p) ≡ uint32_param q))
    else (uint32_param q ≡ uint32_param p)

-- A tag that the key has, the request has as well, and they match.
abbrev pub IsAllowed : ParamSet → ParamSet → ℕ → Type 0
IsAllowed k r tag =
    ((get_param (some k) tag).0 ≡ param_not_exist) ⊎ Has k tag (λ p. Has r tag (Matches tag p))

match_uint :
    (k r : ParamSet) (p q : Param)
    → get_tag_type p.tag ≡ tag_type_uint
    → check_param_match k (some p) r (some q) ≡ success
    → uint32_param q ≡ uint32_param p
unfolding check_param_match
match_uint k r p q u e = ground arith

lookup-tag :
    (tag : ℕ) (ps : List Param) (p : Param) → lookup tag ps ≡ (success, some p) → p.tag ≡ tag
unfolding lookup
lookup-tag tag [] p e = absurd (cc)
lookup-tag tag (x ∷ ps) p e = ground (arith, lookup-tag tag ps p)

get_param-tag :
    (s : ParamSet) (tag : ℕ) (p : Param) → get_param (some s) tag ≡ (success, some p) → p.tag ≡ tag
unfolding get_param
get_param-tag s tag p e = ground (arith, lookup-tag tag s.params p)

purpose_lem :
    (p q : Param)
    → check_purpose p q ≡ success
    → (uint32_param q ≢ 0) × (bit_and (uint32_param q) (uint32_param p) ≡ uint32_param q)
unfolding check_purpose
purpose_lem p q e = ground arith

matches_lem :
    (k r : ParamSet) (tag : ℕ) (p q : Param)
    → get_tag_type tag ≡ tag_type_uint
    → p.tag ≡ tag
    → (if tag == tag_purpose then check_purpose p q else check_param_match k (some p) r (some q))
      ≡ success
    → Matches tag p q
matches_lem k r tag p q u same_tag e = elim (Bool-cases (tag == tag_purpose)) [
  | inl b ↦ rw b (purpose_lem p q (rw b at e))
  | inr b ↦ rw b (match_uint k r p q (ap get_tag_type same_tag ∙ u) (rw b at e))
]

request_lem :
    (k r : ParamSet) (tag : ℕ) (p : Option Param) (f : Status × Option Param)
    → get_tag_type tag ≡ tag_type_uint
    → get_param (some k) tag ≡ (success, p)
    → get_param (some r) tag ≡ f
    → check_request k r tag p f ≡ success
    → Has k tag (λ a. Has r tag (Matches tag a))
unfolding check_request
request_lem k r tag none (success, some q) u e g h = absurd (cc)
request_lem k r tag (some a) (success, some q) u e g h =
    (a, e, (q, g, matches_lem k r tag a q u (get_param-tag k tag a e) h))
request_lem k r tag p (success, none) u e g h = absurd (cc)
request_lem k r tag p (st, q) u e g h = absurd (cc)

tag_lem :
    (k r : ParamSet) (alg purpose : ℕ) (v : ParamsValues) (tag : ℕ) (f : Status × Option Param)
    → get_tag_type tag ≡ tag_type_uint
    → get_param (some k) tag ≡ f
    → check_policy_tag k r alg purpose v tag f ≡ success
    → IsAllowed k r tag
unfolding check_policy_tag
tag_lem k r alg purpose v tag (param_not_exist, p) u e h = inl (ap (λ x. x.0) e)
tag_lem k r alg purpose v tag (success, p) u e h =
    inr (request_lem k r tag p (get_param (some r) tag) u e refl h)
tag_lem k r alg purpose v tag (st, p) u e h = absurd (cc)

abbrev IsUint : ℕ → Type 0
IsUint tag = get_tag_type tag ≡ tag_type_uint

tags_lem :
    (k r : ParamSet) (alg purpose : ℕ) (v : ParamsValues) (tags : List ℕ)
    → All IsUint tags
    → check_policy_tags k r alg purpose v tags ≡ success
    → All (IsAllowed k r) tags
unfolding check_policy_tags
tags_lem k r alg purpose v [] u h = tt
tags_lem k r alg purpose v (tag ∷ tags) u h =
    let w =
      then_success (check_policy_tag k r alg purpose v tag (get_param (some k) tag))
        (check_policy_tags k r alg purpose v tags) h in
    (
      tag_lem k r alg purpose v tag (get_param (some k) tag) u.0 refl w.0,
      tags_lem k r alg purpose v tags u.1 w.1,
    )

three_checks :
    {A B C : Type 0} (x : Result A) (y : Result B) (z : Result C) (f : A → B → C → Status)
    → Fails x
    → Fails y
    → Fails z
    → code_of (x >>= λ a. (y >>= λ b. (z >>= λ c. demand (f a b c)))) ≡ success
    → (a : A) × (b : B) × (c : C) × (f a b c ≡ success)
three_checks (ok a) (ok b) (ok c) f fx fy fz h = (a, b, c, ground arith)
three_checks (ok a) (ok b) (error e) f fx fy fz h = absurd (ground arith)
three_checks (ok a) (error e) z f fx fy fz h = absurd (ground arith)
three_checks (error e) y z f fx fy fz h = absurd (ground arith)

policy_lem :
    (tags : List ℕ) (k r : ParamSet)
    → All IsUint tags
    → auth_policy tags k r ≡ success
    → All (IsAllowed k r) tags
unfolding auth_policy
policy_lem tags k r u h =
    let w =
      three_checks (find_param k tag_algorithm check_get_alg_fail)
        (find_param k tag_purpose check_get_purpose_fail) (get_input_params r auth_asked)
        (λ alg purpose v. check_policy_tags k r (uint32_param alg) (uint32_param purpose) v tags)
        (Fails-find_param k tag_algorithm check_get_alg_fail refl)
        (Fails-find_param k tag_purpose check_get_purpose_fail refl)
        (Fails-get_input_params r auth_asked) h in
    tags_lem k r (uint32_param w.0) (uint32_param w.1) w.2 tags u w.3

rows-IsUint : All (λ row. All IsUint row.1) auth_policy_list
unfolding auth_policy_list get_tag_type
rows-IsUint = (
  (refl, (refl, (refl, (refl, tt)))),
  (
    (refl, (refl, (refl, (refl, tt)))),
    (
      (refl, (refl, (refl, (refl, tt)))),
      (
        (refl, (refl, (refl, tt))),
        (
          (refl, tt),
          (
            (refl, (refl, tt)),
            (
              (refl, (refl, (refl, tt))),
              ((refl, (refl, tt)), ((refl, tt), ((refl, (refl, tt)), tt))),
            ),
          ),
        ),
      ),
    ),
  ),
)

policy-IsUint :
    (auth_id : ℕ) (rows : List (ℕ × List ℕ)) (tags : List ℕ)
    → All (λ row. All IsUint row.1) rows
    → policy_of auth_id rows ≡ some tags
    → All IsUint tags
unfolding policy_of
policy-IsUint auth_id [] tags u e = absurd (cc)
policy-IsUint auth_id ((a, ts) ∷ rows) tags u e = elim (Bool-cases (auth_id == a)) [
  | inl b ↦ let same_tags : some ts ≡ some tags = rw b at e in subst (All IsUint) (cc) u.0
  | inr b ↦ policy-IsUint auth_id rows tags u.1 (rw b at e)
]

-- Where `HksThreeStageAuth` succeeds, each tag of the policy for `auth_id` is one that the key does not
-- name, or one that the request has as well: with the key's value, or, for the purpose, with purposes
-- that are all among the key's.
pub three_stage_auth-IsAllowed :
    (auth_id : ℕ) (k r : ParamSet) (tags : List ℕ)
    → policy_of auth_id auth_policy_list ≡ some tags
    → three_stage_auth auth_id k r ≡ success
    → All (IsAllowed k r) tags
unfolding three_stage_auth
three_stage_auth-IsAllowed auth_id k r tags e h =
    policy_lem tags k r (policy-IsUint auth_id auth_policy_list tags rows-IsUint e)
      (subst (λ o. auth_by o k r ≡ success) e h)
