-- ===== src/StorageLite/Records.antt =====
-- What a key in the image of hks_storage_lite.c is, and that its members are read from its own bytes,
-- whatever stands behind it.
use security_huks.Prelude.{
  ℕ, zero, suc, ◌+◌, ◌≤◌, ◌≡◌, refl, sym, ap, ◌∙◌, true, false, List, [], ◌∷◌, ◌++◌, length,
  length-drop, take, drop, append_assoc, arith,
}
use security_huks.ParamSet.Build.{same_bytes}
use security_huks.StorageLite.{
  key_info_size, head_byte, le_u16, key_info_len, key_size, alias_size, auth_id_size,
  is_key_info_len_invalid,
}

pub drop-append_le : (n : ℕ) (xs ys : List ℕ) → n ≤ length xs → drop n (xs ++ ys) ≡ drop n xs ++ ys
drop-append_le zero xs ys h = refl
drop-append_le (suc n) [] ys h = absurd (omega arith)
drop-append_le (suc n) (x ∷ xs) ys h = drop-append_le n xs ys (omega arith)

pub take-append_le : (n : ℕ) (xs ys : List ℕ) → n ≤ length xs → take n (xs ++ ys) ≡ take n xs
take-append_le zero xs ys h = refl
take-append_le (suc n) [] ys h = absurd (omega arith)
take-append_le (suc n) (x ∷ xs) ys h = ap (◌∷◌ x) (take-append_le n xs ys (omega arith))

le_u16-append : (xs ys : List ℕ) → 2 ≤ length xs → le_u16 (xs ++ ys) ≡ le_u16 xs
unfolding le_u16
le_u16-append [] ys h = absurd (omega arith)
le_u16-append (a ∷ []) ys h = absurd (omega arith)
le_u16-append (a ∷ b ∷ xs) ys h = refl

head_byte-append : (xs ys : List ℕ) → 1 ≤ length xs → head_byte (xs ++ ys) ≡ head_byte xs
unfolding head_byte
head_byte-append [] ys h = absurd (omega arith)
head_byte-append (a ∷ xs) ys h = refl

pub same_bytes-length : (a b : List ℕ) → same_bytes a b ≡ true → length a ≡ length b
unfolding same_bytes
same_bytes-length [] [] h = refl
same_bytes-length [] (y ∷ ys) h = cc
same_bytes-length (x ∷ xs) [] h = cc
same_bytes-length (x ∷ xs) (y ∷ ys) h = ground (arith, same_bytes-length xs ys)

-- A key of the image: the struct, the alias, the identity and the key, of the lengths that stand in it.
pub record IsRecord (r : List ℕ) : Type 0 where
  pub valid : is_key_info_len_invalid r ≡ false
  pub whole : length r ≡ key_info_len r

-- What a valid length says.
pub valid_len :
    (r : List ℕ)
    → is_key_info_len_invalid r ≡ false
    → (1 ≤ alias_size r)
      × (alias_size r ≤ 64)
      × (key_info_size + alias_size r ≤ key_info_len r)
      × (key_info_len r ≤ 1740)
unfolding is_key_info_len_invalid
valid_len r v = ground arith

module _ (r rest : List ℕ) (long : key_info_size ≤ length r) where
  pub key_info_len-append : key_info_len (r ++ rest) ≡ key_info_len r
  unfolding key_info_len
  key_info_len-append = le_u16-append r rest (omega arith)

  key_size-append : key_size (r ++ rest) ≡ key_size r
  unfolding key_size
  key_size-append =
      rw (drop-append_le 2 r rest (omega arith))
        (le_u16-append (drop 2 r) rest (omega (arith, length-drop 2 r)))

  pub alias_size-append : alias_size (r ++ rest) ≡ alias_size r
  unfolding alias_size
  alias_size-append =
      rw (drop-append_le 38 r rest (omega arith))
        (head_byte-append (drop 38 r) rest (omega (arith, length-drop 38 r)))

  auth_id_size-append : auth_id_size (r ++ rest) ≡ auth_id_size r
  unfolding auth_id_size
  auth_id_size-append =
      rw (drop-append_le 39 r rest (omega arith))
        (head_byte-append (drop 39 r) rest (omega (arith, length-drop 39 r)))

  pub invalid-append : is_key_info_len_invalid (r ++ rest) ≡ is_key_info_len_invalid r
  unfolding is_key_info_len_invalid
  invalid-append = rw (key_info_len-append, key_size-append, alias_size-append, auth_id_size-append)

-- Keys one behind the other.
unfoldable pub flat : List (List ℕ) → List ℕ
flat [] = []
flat (r ∷ rs) = r ++ flat rs

pub flat-append : (xs ys : List (List ℕ)) → flat (xs ++ ys) ≡ flat xs ++ flat ys
unfolding flat
flat-append [] ys = refl
flat-append (x ∷ xs) ys = ap (◌++◌ x) (flat-append xs ys) ∙ sym (append_assoc x (flat xs) (flat ys))
