-- ===== src/Wrapped/Parse.antt =====
-- `HksCheckWrappedDataFormatValidity` against the relation `Framed`.
use security_huks.Prelude.{
  ℕ, zero, suc, ◌+◌, ◌-◌, ◌≤◌, ◌<◌, ◌≡◌, ◌↔◌, refl, sym, ap, ◌∙◌, subst, Bool, false, ◌||◌, Option,
  none, some, List, [], ◌∷◌, ◌++◌, length, length-append, length-take, length-drop, take, drop,
  drop-append, ltb, ◌==◌, if◌then◌else◌, arith,
}
use security_huks.Status.{Status, success, invalid_argument, invalid_wrapped_format}
use security_huks.Ipc.{le_u32}
use security_huks.Check.Values.{wrapped_format_max_size}
use security_huks.Wrapped.{
  next_part, check_parts, check_wrapped_data_format_validity, is_wrong_length, Framed, no_part,
  part,
}

-- The length at the head of some bytes is that of what follows only by its first four bytes.
pub le_u32-append : (head rest : List ℕ) → length head ≡ 4 → le_u32 (head ++ rest) ≡ le_u32 head
unfolding le_u32
le_u32-append [] rest e = absurd (omega (arith, e))
le_u32-append (a ∷ []) rest e = absurd (omega (arith, e))
le_u32-append (a ∷ b ∷ []) rest e = absurd (omega (arith, e))
le_u32-append (a ∷ b ∷ c ∷ []) rest e = absurd (omega (arith, e))
le_u32-append (a ∷ b ∷ c ∷ d ∷ t) rest e = refl

take-drop : (n : ℕ) (xs : List ℕ) → take n xs ++ drop n xs ≡ xs
take-drop zero xs = refl
take-drop (suc n) [] = refl
take-drop (suc n) (x ∷ xs) = ap (◌∷◌ x) (take-drop n xs)

next_part-framed :
    (index : ℕ) (head p rest : List ℕ)
    → length head ≡ 4
    → le_u32 head ≡ length p
    → 0 < length p
    → next_part none index (head ++ (p ++ rest)) ≡ some rest
unfolding next_part is_wrong_length
next_part-framed index head p rest four size there =
    let tail = p ++ rest in
    let d : drop 4 (head ++ tail) ≡ tail =
      subst (λ k. drop k (head ++ tail) ≡ tail) four (drop-append head tail) in
    let n : le_u32 (head ++ tail) ≡ length p = le_u32-append head tail four ∙ size in
    let all : length (head ++ tail) ≡ 4 + (length p + length rest) =
      omega (arith, four, length-append head tail, length-append p rest) in
    rw (n, all, d, drop-append p rest) (ground (arith, there))

found_if :
    (bytes rest : List ℕ)
    → next_part none 0 bytes ≡ some rest
    → (4 ≤ length bytes)
      × (0 < le_u32 bytes)
      × (le_u32 bytes ≤ length bytes - 4)
      × (rest ≡ drop (le_u32 bytes) (drop 4 bytes))
unfolding next_part is_wrong_length
found_if bytes rest e = ground arith

-- What `next_part` has found: a head of four bytes and a part.
next_part-found :
    (bytes rest : List ℕ)
    → next_part none 0 bytes ≡ some rest
    → (le_u32 (take 4 bytes) ≡ length (take (le_u32 bytes) (drop 4 bytes)))
      × (length (take 4 bytes) ≡ 4)
      × (0 < length (take (le_u32 bytes) (drop 4 bytes)))
      × (rest ≡ drop (le_u32 bytes) (drop 4 bytes))
next_part-found bytes rest e =
    let h = found_if bytes rest e in
    let four : length (take 4 bytes) ≡ 4 = omega (arith, length-take 4 bytes, h.0) in
    let n : le_u32 bytes ≡ le_u32 (take 4 bytes) =
      ap le_u32 (sym (take-drop 4 bytes)) ∙ le_u32-append (take 4 bytes) (drop 4 bytes) four in
    let size : length (take (le_u32 bytes) (drop 4 bytes)) ≡ le_u32 bytes =
      omega (arith, length-take (le_u32 bytes) (drop 4 bytes), length-drop 4 bytes, h.2) in
    (omega (arith, n, size), four, omega (arith, size, h.1), h.3)

-- Without lengths the index plays no part.
next_part-index : (i : ℕ) (bytes : List ℕ) → next_part none i bytes ≡ next_part none 0 bytes
unfolding next_part is_wrong_length
next_part-index i bytes = refl

abbrev AtMost : ℕ → List ℕ → Type 0
AtMost n bytes = (ps : List (List ℕ)) × Framed bytes ps × (length ps ≤ n)

-- The bytes of a part that was found, and those behind it, are framed where the latter are.
found-AtMost :
    (n : ℕ) (bytes rest : List ℕ)
    → next_part none 0 bytes ≡ some rest
    → AtMost n rest
    → AtMost (suc n) bytes
found-AtMost n bytes rest e (ps, f, few) =
    let w = next_part-found bytes rest e in
    let p = take (le_u32 bytes) (drop 4 bytes) in
    let whole : take 4 bytes ++ (p ++ rest) ≡ bytes =
      rw w.3 (rw (take-drop (le_u32 bytes) (drop 4 bytes)) (take-drop 4 bytes)) in
    (
      p ∷ ps,
      subst (λ b. Framed b (p ∷ ps)) whole (part (take 4 bytes) p w.1 w.0 w.2 f),
      omega (arith, few),
    )

-- The loop after a round.
abbrev after : ℕ → ℕ → Option (List ℕ) → Status
after n i none = invalid_wrapped_format
after n i (some rest) = check_parts none n (i + 1) rest

after_elim :
    (n i : ℕ) (r : Option (List ℕ))
    → (elim r as (λ _. Status) [
      | none ↦ invalid_wrapped_format
      | some rest ↦ check_parts none n (i + 1) rest
    ])
      ≡ after n i r
after_elim n i none = refl
after_elim n i (some rest) = refl

check_parts-after :
    (n i b : ℕ) (bytes : List ℕ)
    → check_parts none (suc n) i (b ∷ bytes) ≡ after n i (next_part none 0 (b ∷ bytes))
unfolding check_parts
check_parts-after n i b bytes = after_elim n i (next_part none i (b ∷ bytes))

check_parts-AtMost :
    (n i : ℕ) (bytes : List ℕ) → check_parts none n i bytes ≡ success → AtMost n bytes
unfolding check_parts
check_parts-AtMost zero i [] e = ([], no_part, omega arith)
check_parts-AtMost zero i (b ∷ bytes) e = absurd (cc)
check_parts-AtMost (suc n) i [] e = ([], no_part, omega arith)
check_parts-AtMost (suc n) i (b ∷ bytes) e =
    found_round (next_part none 0 (b ∷ bytes)) refl (sym (check_parts-after n i b bytes) ∙ e)
      (λ rest k. check_parts-AtMost n (i + 1) rest k)
  where
    found_round :
        (r : Option (List ℕ))
        → next_part none 0 (b ∷ bytes) ≡ r
        → after n i r ≡ success
        → ((rest : List ℕ) → check_parts none n (i + 1) rest ≡ success → AtMost n rest)
        → AtMost (suc n) (b ∷ bytes)
    found_round none h k shorter = absurd (cc)
    found_round (some rest) h k shorter = found-AtMost n (b ∷ bytes) rest h (shorter rest k)

check_parts-part :
    (n i : ℕ) (bytes rest : List ℕ)
    → 0 < length bytes
    → next_part none 0 bytes ≡ some rest
    → check_parts none n (i + 1) rest ≡ success
    → check_parts none (suc n) i bytes ≡ success
check_parts-part n i [] rest there e h = absurd (omega (arith, there))
check_parts-part n i (b ∷ bytes) rest there e h =
    check_parts-after n i b bytes ∙ (ap (after n i) e ∙ h)

check_parts-nil : (n i : ℕ) → check_parts none n i [] ≡ success
unfolding check_parts
check_parts-nil zero i = refl
check_parts-nil (suc n) i = refl

Framed-check_parts :
    (n i : ℕ) {bytes : List ℕ} {ps : List (List ℕ)}
    → Framed bytes ps
    → length ps ≤ n
    → check_parts none n i bytes ≡ success
Framed-check_parts n i no_part few = check_parts-nil n i
Framed-check_parts zero i (part head p {rest} four size there f) few = absurd (omega (arith, few))
Framed-check_parts (suc n) i (part head p {rest} four size there f) few =
    check_parts-part n i (head ++ (p ++ rest)) rest
      (omega (arith, four, length-append head (p ++ rest)))
      (next_part-framed 0 head p rest four size there)
      (Framed-check_parts n (i + 1) f (omega (arith, few)))

abbrev is_bad_size : List ℕ → ℕ → Bool
is_bad_size bytes total =
    (length bytes == 0) || ltb wrapped_format_max_size (length bytes) || (total == 0)

is_bad_size_iff :
    (bytes : List ℕ) (total : ℕ)
    → (is_bad_size bytes total ≡ false)
      ↔ ((0 < length bytes) × (length bytes ≤ wrapped_format_max_size) × (0 < total))
is_bad_size_iff bytes total = ground arith

guard_iff :
    (b : Bool) (st : Status)
    → ((if b then invalid_argument else st) ≡ success) ↔ ((b ≡ false) × (st ≡ success))
guard_iff b st = ground arith

-- Without lengths to compare, `HksCheckWrappedDataFormatValidity` accepts exactly the data of 1 to 1 MB
-- bytes that are, one behind the other, at most `total` parts that are not empty, each behind its length
-- in four bytes, where `total` is not 0.
pub check_wrapped_data_format_validity_iff :
    (bytes : List ℕ) (total : ℕ)
    → (check_wrapped_data_format_validity bytes total none ≡ success) ↔ (
        (0 < length bytes)
        × (length bytes ≤ wrapped_format_max_size)
        × (0 < total)
        × ((ps : List (List ℕ)) × Framed bytes ps × (length ps ≤ total)))
unfolding check_wrapped_data_format_validity
check_wrapped_data_format_validity_iff bytes total =
    let guard = guard_iff (is_bad_size bytes total) (check_parts none total 0 bytes) in
    let sizes = is_bad_size_iff bytes total in
    (
      λ e.
          let h = guard.0 e in
          let s = sizes.0 h.0 in (s.0, s.1, s.2, check_parts-AtMost total 0 bytes h.1),
      λ h. guard.1 (sizes.1 (h.0, h.1, h.2), Framed-check_parts total 0 h.3.1 h.3.2),
    )
