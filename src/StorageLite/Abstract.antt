-- ===== src/StorageLite/Abstract.antt =====
-- Lists of keys as the abstract store that hks_storage_lite.c keeps: what is found by an alias after
-- a key was taken out, and after one was put behind the others.
use security_huks.Prelude.{
  ℕ, ◌≡◌, inl, inr, refl, ap, true, false, none, some, List, [], ◌∷◌, ◌++◌, if◌then◌else◌,
  Bool-cases, All, arith,
}
use security_huks.ParamSet.Build.{same_bytes}
use security_huks.FileLock.Counts.{same_bytes_refl, eq_of_same_bytes}
use security_huks.StorageLite.{alias_of}
use security_huks.StorageLite.Find.{named, key_under, without, Distinct}

same_bytes-sym : (a b : List ℕ) → same_bytes a b ≡ same_bytes b a
unfolding same_bytes
same_bytes-sym [] [] = refl
same_bytes-sym [] (y ∷ ys) = refl
same_bytes-sym (x ∷ xs) [] = refl
same_bytes-sym (x ∷ xs) (y ∷ ys) = ground (arith, same_bytes-sym xs ys)

-- Two texts that are the same are the same for every test.
same_bytes-left : (a b c : List ℕ) → same_bytes a b ≡ true → same_bytes a c ≡ same_bytes b c
same_bytes-left a b c h = ap (λ t. same_bytes t c) (eq_of_same_bytes a b h)

same_bytes-right : (a b c : List ℕ) → same_bytes b c ≡ true → same_bytes a b ≡ same_bytes a c
same_bytes-right a b c h = ap (same_bytes a) (eq_of_same_bytes b c h)

key_under-same :
    (a b : List ℕ) (rs : List (List ℕ)) → same_bytes a b ≡ true → key_under a rs ≡ key_under b rs
key_under-same a b rs h = ap (λ t. key_under t rs) (eq_of_same_bytes a b h)

pub key_under-without :
    (a b : List ℕ) (rs : List (List ℕ))
    → Distinct rs
    → key_under a (without b rs) ≡ (if same_bytes a b then none else key_under a rs)
unfolding key_under without
key_under-without a b [] d = ground arith
key_under-without a b (r ∷ rs) d = ground (
  arith,
  key_under-without a b rs,
  same_bytes-right a b (alias_of r),
  key_under-same a (alias_of r) rs,
  same_bytes-left a b (alias_of r),
)

pub All-without {κ} :
    (P : List ℕ → Type κ) (b : List ℕ) (rs : List (List ℕ)) → All P rs → All P (without b rs)
unfolding without
All-without P b [] h = tt
All-without P b (r ∷ rs) h = elim (Bool-cases (named b r)) [
  | inl e ↦ rw e h.1
  | inr e ↦ rw e (h.0, All-without P b rs h.1)
]

pub Distinct-without : (b : List ℕ) (rs : List (List ℕ)) → Distinct rs → Distinct (without b rs)
unfolding without
Distinct-without b [] d = tt
Distinct-without b (r ∷ rs) d = elim (Bool-cases (named b r)) [
  | inl e ↦ rw e d.1
  | inr e ↦
      rw e (ground (arith, key_under-without (alias_of r) b rs d.1, d.0), Distinct-without b rs d.1)
]

key_under-snoc :
    (a r : List ℕ) (xs : List (List ℕ))
    → key_under (alias_of r) xs ≡ none
    → key_under a (xs ++ r ∷ []) ≡ (if named a r then some r else key_under a xs)
unfolding key_under
key_under-snoc a r [] h = refl
key_under-snoc a r (x ∷ xs) h =
    ground (arith, key_under-snoc a r xs, same_bytes-left a (alias_of r) (alias_of x))

Distinct-snoc :
    (r : List ℕ) (xs : List (List ℕ))
    → Distinct xs
    → key_under (alias_of r) xs ≡ none
    → Distinct (xs ++ r ∷ [])
unfolding key_under
Distinct-snoc r [] d h = (refl, tt)
Distinct-snoc r (x ∷ xs) d h =
    let f : (named (alias_of r) x ≡ false) × (key_under (alias_of r) xs ≡ none) =
      ground (arith, h) in
    (
      ground (
        arith,
        key_under-snoc (alias_of x) r xs f.1,
        same_bytes-sym (alias_of x) (alias_of r),
        d.0,
        f.0,
      ),
      Distinct-snoc r xs d.1 f.1,
    )

-- The store after a key with an alias took the place of the one that had it.
pub key_under-replaced :
    (a r : List ℕ) (rs : List (List ℕ))
    → Distinct rs
    → key_under a (without (alias_of r) rs ++ r ∷ [])
      ≡ (if named a r then some r else key_under a rs)
key_under-replaced a r rs d =
    let gone : key_under (alias_of r) (without (alias_of r) rs) ≡ none =
      rw (key_under-without (alias_of r) (alias_of r) rs d, same_bytes_refl (alias_of r)) refl in
    ground (
      arith,
      key_under-snoc a r (without (alias_of r) rs) gone,
      key_under-without a (alias_of r) rs d,
    )

pub Distinct-replaced :
    (r : List ℕ) (rs : List (List ℕ)) → Distinct rs → Distinct (without (alias_of r) rs ++ r ∷ [])
Distinct-replaced r rs d =
    let gone : key_under (alias_of r) (without (alias_of r) rs) ≡ none =
      rw (key_under-without (alias_of r) (alias_of r) rs d, same_bytes_refl (alias_of r)) refl in
    Distinct-snoc r (without (alias_of r) rs) (Distinct-without (alias_of r) rs d) gone
