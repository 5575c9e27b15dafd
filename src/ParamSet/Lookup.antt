-- ===== src/ParamSet/Lookup.antt =====
-- What the searches of hks_param.c find: `HksGetParam`, `HksCheckParamSetTag`,
-- `HksCheckIsTagAlreadyExist`.
use security_huks.Prelude.{
  ℕ, ◌+◌, ◌*◌, ◌<◌, ◌≡◌, refl, sym, ap, ◌∙◌, ◌≢◌, ◌↔◌, Bool, true, false, Option, none, some, List,
  [], ◌∷◌, map, length, arith, if◌then◌else◌, ◌==◌, All, inl, inr, Bool-cases,
}
use security_huks.Status.{Status, success, param_not_exist}
use security_huks.ParamSet.{
  Param, ParamSet, inside, is_bytes, is_null, header_size, param_size, check_param_set, lookup,
  get_param, check_blob, has_tag, check_tags, check_param_set_tag, is_valid_tag,
}
use security_huks.ParamSet.Build.{any_tag_in, check_is_tag_already_exist}
use security_huks.ParamSet.Size.{blob_size, check_param_set_iff}
use security_huks.ParamSet.Layout.{Laid, shape, shapes, view, is_bytes-shape}
use security_huks.ParamSet.Copy.{IsBacked, outside_there, Built}

-- No two entries have one tag.
abbrev pub HasDistinctTags : List Param → Type 0
HasDistinctTags [] = Unit
HasDistinctTags (p ∷ ps) = All (λ q. p.tag ≢ q.tag) ps × HasDistinctTags ps

has_tag-false : (tag : ℕ) (ps : List Param) → (has_tag tag ps ≡ false) ↔ All (λ q. tag ≢ q.tag) ps
unfolding has_tag
has_tag-false tag [] = (λ h. tt, λ h. refl)
has_tag-false tag (p ∷ ps) =
    let ih = has_tag-false tag ps in
    (λ h. ((λ e. ground arith), ih.0 (ground arith)), λ h. ground (arith, ih.1 h.1, h.0))

-- `HksCheckParamSetTag` accepts a set exactly when every tag is one of `g_validTags` and no tag
-- stands in it twice.
pub check_param_set_tag_iff :
    (s : ParamSet)
    → (check_param_set_tag (some s) ≡ success)
      ↔ (All (λ p. is_valid_tag p.tag ≡ true) s.params × HasDistinctTags s.params)
unfolding check_param_set_tag
check_param_set_tag_iff s = loop s.params
  where
    head :
        (p : Param) (ps : List Param)
        → check_tags (p ∷ ps) ≡ success
        → (is_valid_tag p.tag ≡ true) × (has_tag p.tag ps ≡ false) × (check_tags ps ≡ success)
    head p ps h = ground arith

    both :
        (p : Param) (ps : List Param)
        → is_valid_tag p.tag ≡ true
        → has_tag p.tag ps ≡ false
        → check_tags ps ≡ success
        → check_tags (p ∷ ps) ≡ success
    both p ps v d h = ground arith

    loop :
        (ps : List Param)
        → (check_tags ps ≡ success) ↔ (All (λ p. is_valid_tag p.tag ≡ true) ps × HasDistinctTags ps)
    loop [] = (λ h. (tt, tt), λ h. refl)
    loop (p ∷ ps) = (
      λ h.
          let (v, d, r) = head p ps h in
          let (vs, ds) = (loop ps).0 r in ((v, vs), ((has_tag-false p.tag ps).0 d, ds)),
      λ h. both p ps h.0.0 ((has_tag-false p.tag ps).1 h.1.0) ((loop ps).1 (h.0.1, h.1.1)),
    )

any_tag_in-false :
    (ps ts : List Param) → (any_tag_in ps ts ≡ false) ↔ All (λ t. All (λ p. t.tag ≢ p.tag) ps) ts
unfolding any_tag_in
any_tag_in-false ps [] = (λ h. tt, λ h. refl)
any_tag_in-false ps (t ∷ ts) =
    let ih = any_tag_in-false ps ts in
    let hd = has_tag-false t.tag ps in
    (λ h. (hd.0 (ground arith), ih.0 (ground arith)), λ h. ground (arith, hd.1 h.0, ih.1 h.1))

-- `HksCheckIsTagAlreadyExist` on a well-formed set answers success exactly when no tag of
-- `params` is in the set.
check_is_tag_already_exist_iff :
    (ps : List Param) (s : ParamSet)
    → check_param_set (some s) s.set_size ≡ success
    → (check_is_tag_already_exist (some ps) (some s) ≡ success)
      ↔ All (λ t. All (λ p. t.tag ≢ p.tag) ps) s.params
unfolding check_is_tag_already_exist
check_is_tag_already_exist_iff ps s ok =
    let d = any_tag_in-false ps s.params in
    (λ h. d.0 (ground arith), λ h. ground (arith, ok, d.1 h))

-- The answer of a search as the caller reads it: the code, and the tag, scalar and bytes found.
unfoldable pub shown : ParamSet → Status × Option Param → Status × Option (ℕ × ℕ × List ℕ)
shown s (st, none) = (st, none)
shown s (st, some p) = (st, some (p.tag, p.scalar, view s p))

-- An entry whose blob is there answers its tag.
lookup-cons :
    (tag : ℕ) (p : Param) (ps : List Param)
    → (is_bytes p ≡ true → (is_null p.blob.ptr ≡ false) × (0 < p.blob.size))
    → lookup tag (p ∷ ps) ≡ (if tag == p.tag then (success, some p) else lookup tag ps)
unfolding lookup check_blob is_bytes
lookup-cons tag p ps there = ground (arith, there)

shown-found :
    (s t : ParamSet) (p q : Param)
    → shape q ≡ shape p
    → view t q ≡ view s p
    → shown t (success, some q) ≡ shown s (success, some p)
unfolding shown
shown-found s t p q same kept = cc

shown_if :
    (s t : ParamSet) (b c : Bool) (p q : Param) (x y : Status × Option Param)
    → c ≡ b
    → shown t (success, some q) ≡ shown s (success, some p)
    → shown t y ≡ shown s x
    → shown t (if c then (success, some q) else y) ≡ shown s (if b then (success, some p) else x)
shown_if s t true c p q x y e found rest = rw e found
shown_if s t false c p q x y e found rest = rw e rest

inside_there :
    (off : ℕ) (q : Param)
    → (is_bytes q ≡ true → q.blob.ptr ≡ inside off)
    → is_bytes q ≡ true
    → is_null q.blob.ptr ≡ false
unfolding is_null
inside_there off q h b = ground (arith, h b)

shown-lookup :
    (s t : ParamSet) (tag off : ℕ) (ps qs : List Param)
    → shapes qs ≡ shapes ps
    → map (view t) qs ≡ map (view s) ps
    → All (IsBacked s) ps
    → Laid off qs
    → shown t (lookup tag qs) ≡ shown s (lookup tag ps)
unfolding shown lookup
shown-lookup s t tag off [] [] same kept backed laid = refl
shown-lookup s t tag off [] (q ∷ qs) same kept backed laid = absurd (cc)
shown-lookup s t tag off (p ∷ ps) [] same kept backed laid = absurd (cc)
shown-lookup s t tag off (p ∷ ps) (q ∷ qs) same kept backed laid =
    let here : shape q ≡ shape p = cc in
    let seen : view t q ≡ view s p = cc in
    let rest = shown-lookup s t tag (off + blob_size q) ps qs (cc) (cc) backed.1 laid.1 in
    rw
      (
        lookup-cons tag p ps (λ b. (outside_there p.blob.ptr (backed.0 b).0, (backed.0 b).1)),
        lookup-cons tag q qs there,
      )
      (shown_if s t (tag == p.tag) (tag == q.tag) p q (lookup tag ps) (lookup tag qs)
        (ap (λ k. tag == k) (tag_same here)) (shown-found s t p q here seen) rest)
  where
    tag_same : shape q ≡ shape p → q.tag ≡ p.tag
    tag_same e = cc

    there : is_bytes q ≡ true → (is_null q.blob.ptr ≡ false) × (0 < q.blob.size)
    there b =
        let here : shape q ≡ shape p = cc in
        (
          inside_there off q laid.0 b,
          omega (arith, (backed.0 (is_bytes-shape p q (sym here) ∙ b)).1, ap (λ x. x.2) here),
        )

-- What stands under a tag in a list of entries, in the order of the list: the scalar and the bytes of
-- the first entry with the tag, or nothing.
pub data Under (s : ParamSet) (tag : ℕ) : List Param → Option (ℕ × List ℕ) → Type 0 where
  nothing : Under s tag [] none
  first :
      {p : Param}
      → {ps : List Param} → p.tag ≡ tag
      → Under s tag (p ∷ ps) (some (p.scalar, view s p))
  later :
      {p : Param}
      → {ps : List Param} → {found : Option (ℕ × List ℕ)} → p.tag ≢ tag
      → Under s tag ps found
      → Under s tag (p ∷ ps) found

-- The answer that goes with it.
abbrev pub answer : ℕ → Option (ℕ × List ℕ) → Status × Option (ℕ × ℕ × List ℕ)
answer tag none = (param_not_exist, none)
answer tag (some (x, bs)) = (success, some (tag, x, bs))

lookup-Under :
    (s : ParamSet) (tag : ℕ) (ps : List Param)
    → All (IsBacked s) ps
    → (found : Option (ℕ × List ℕ)) × Under s tag ps found
      × (shown s (lookup tag ps) ≡ answer tag found)
lookup-Under s tag [] backed = (none, nothing, unfold shown lookup in refl)
lookup-Under s tag (p ∷ ps) backed =
    let step =
      lookup-cons tag p ps (λ b. (outside_there p.blob.ptr (backed.0 b).0, (backed.0 b).1)) in
    elim (Bool-cases (tag == p.tag)) [
      | inl e ↦
          let same : p.tag ≡ tag = ground (arith, e) in
          let here : shown s (success, some p) ≡ answer tag (some (p.scalar, view s p)) =
            unfold shown in ap (λ t. (success, some (t, p.scalar, view s p))) same in
          let chosen : lookup tag (p ∷ ps) ≡ (success, some p) = step ∙ rw e refl in
          (some (p.scalar, view s p), first same, ap (shown s) chosen ∙ here)
      | inr e ↦
          let (found, under, shows) = lookup-Under s tag ps backed.1 in
          let chosen : lookup tag (p ∷ ps) ≡ lookup tag ps = step ∙ rw e refl in
          let other : p.tag ≢ tag = λ h. ground (arith, e, h) in
          (found, later other under, ap (shown s) chosen ∙ shows)
    ]

-- `HksGetParam` on a set that has been built of some entries answers for every tag with the scalar and
-- the bytes of the first entry of that tag, as they were given, or with HKS_ERROR_PARAM_NOT_EXIST
-- where there is none.
pub get_param-Built :
    (s t : ParamSet) (tag : ℕ)
    → check_param_set (some s) s.set_size ≡ success
    → All (IsBacked s) s.params
    → Built s t
    → (found : Option (ℕ × List ℕ)) × Under s tag s.params found
      × (shown t (get_param (some t) tag) ≡ answer tag found)
unfolding get_param
get_param-Built s t tag ok backed b =
    let l = b.laid in
    let ok' : check_param_set (some t) t.set_size ≡ success =
      (check_param_set_iff t t.set_size).1 refl l.small (omega arith) in
    let (found, under, shows) = lookup-Under s tag s.params backed in
    (
      found,
      under,
      rw ok' (
          shown-lookup s t tag (header_size + param_size * length t.params) s.params t.params b.same
            b.kept backed l.laid
          ∙ shows),
    )
