-- ===== src/StorageLite/Find.antt =====
-- `GetKeyOffsetByKeyAlias` of hks_storage_lite.c on an image that holds a list of keys.
use security_huks.Prelude.{
  ℕ, suc, ◌+◌, ◌-◌, ◌≤◌, ◌≡◌, ◌⊎◌, inl, inr, refl, sym, ap, ◌∙◌, Bool, true, false, ◌&&◌, Option,
  none, some, List, [], ◌∷◌, ◌++◌, length, length-append, length-drop, length-take, take, drop,
  drop-append, ltb, ◌==◌, if◌then◌else◌, Bool-cases, All, append_assoc, add32, arith,
}
use security_huks.Status.{not_exist}
use security_huks.ParamSet.Build.{same_bytes}
use security_huks.Ipc.Buffer.{drop-drop}
use security_huks.Check.{Result, ok, error}
use security_huks.StorageLite.{
  Image, store_header_size, key_info_size, max_storage_size, image_size, key_info_len, alias_size,
  alias_of, is_key_info_len_invalid,
}
use security_huks.StorageLite.Keys.{bytes_at, find_key, get_key_offset}
use security_huks.StorageLite.Records.{
  IsRecord, valid_len, flat, drop-append_le, take-append_le, same_bytes-length, key_info_len-append,
  alias_size-append, invalid-append,
}

-- Whether a key has an alias.
abbrev pub named : List ℕ → List ℕ → Bool
named alias r = same_bytes alias (alias_of r)

-- The key with an alias.
unfoldable pub key_under : List ℕ → List (List ℕ) → Option (List ℕ)
key_under alias [] = none
key_under alias (r ∷ rs) = let rest = key_under alias rs in if named alias r then some r else rest

-- The keys without the one that has an alias.
unfoldable pub without : List ℕ → List (List ℕ) → List (List ℕ)
without alias [] = []
without alias (r ∷ rs) = let rest = without alias rs in if named alias r then rs else r ∷ rest

-- An image that holds these keys, in this order, with no alias twice: the counters of the header are
-- theirs, and they stand behind the header, before the bytes that are spare.
abbrev pub Distinct : List (List ℕ) → Type 0
Distinct [] = Unit
Distinct (r ∷ rs) = (key_under (alias_of r) rs ≡ none) × Distinct rs

pub record Holds (img : Image) (rs : List (List ℕ)) : Type 0 where
  pub records : All IsRecord rs
  pub distinct : Distinct rs
  pub counted : img.head.key_count ≡ length rs
  pub total : img.head.total_len ≡ store_header_size + length (flat rs)
  pub bounded : img.head.total_len ≤ max_storage_size
  pub spare : List ℕ
  pub laid : img.body ≡ flat rs ++ spare

pub long_record : (r : List ℕ) → IsRecord r → (key_info_size ≤ length r) × (length r ≤ 1740)
long_record r h = omega (arith, valid_len r h.valid, h.whole)

-- The comparison in the loop is that of the whole alias.
same_alias :
    (alias r rest : List ℕ)
    → IsRecord r
    → ((alias_size (r ++ rest) == length alias)
        && same_bytes alias (take (length alias) (drop key_info_size (r ++ rest))))
      ≡ named alias r
unfolding alias_of
same_alias alias r rest h =
    let long = long_record r h in
    let v = valid_len r h.valid in
    let d = drop-append_le key_info_size r rest long.0 in
    let n = length-drop key_info_size r in
    rw (alias_size-append r rest long.0) (elim (Bool-cases (alias_size r == length alias)) [
      | inl e ↦
          let same : alias_size r ≡ length alias = ground (arith, e) in
          let fits : length alias ≤ length (drop key_info_size r) = omega (arith, h.whole) in
          rw (e, d, take-append_le (length alias) (drop key_info_size r) rest fits, same) refl
      | inr e ↦ rw e (
          sym (elim (Bool-cases (named alias r)) [
            | inl t ↦
                let l = same_bytes-length alias (alias_of r) t in
                let n' = length-take (alias_size r) (drop key_info_size r) in
                let k : alias_size r ≡ length alias = omega (arith, h.whole) in
                absurd (ground (arith, k))
            | inr f ↦ f
          ]))
    ])

-- Where the search ends, for keys from an offset on.
unfoldable pub offset_of : List ℕ → ℕ → List (List ℕ) → Result ℕ
offset_of alias off [] = error not_exist
offset_of alias off (r ∷ rs) =
    let rest = offset_of alias (off + length r) rs in if named alias r then ok off else rest

-- One round at a key.
find_key-round :
    (alias r rest : List ℕ) (img : Image) (total n off : ℕ)
    → IsRecord r
    → bytes_at img off ≡ r ++ rest
    → off + length r ≤ total
    → total ≤ max_storage_size
    → find_key alias img total (suc n) off
      ≡ (if named alias r then ok off else find_key alias img total n (off + length r))
unfolding find_key
find_key-round alias r rest img total n off h at fits small =
    let long = long_record r h in
    let len : key_info_len (bytes_at img off) ≡ length r =
      rw at (key_info_len-append r rest long.0 ∙ sym h.whole) in
    let valid : is_key_info_len_invalid (bytes_at img off) ≡ false =
      rw at (invalid-append r rest long.0 ∙ h.valid) in
    let same = same_alias alias r rest h in
    let next : add32 off (length r) ≡ off + length r = omega arith in
    let g : ltb total off ≡ false = ground (arith, long.0) in
    let k : ltb (total - off) key_info_size ≡ false = ground (arith, long.0) in
    let l : ltb (total - off) (length r) ≡ false = ground (arith, long.0) in
    rw (len, valid, at, same, next, g, k, l) refl

pub bytes_at_add :
    (img : Image) (off k : ℕ)
    → store_header_size ≤ off
    → bytes_at img (off + k) ≡ drop k (bytes_at img off)
unfolding bytes_at
bytes_at_add img off k low =
    ap (λ m. drop m img.body) (omega arith) ∙ sym (drop-drop (off - store_header_size) k img.body)

find_key-offset_of :
    (alias : List ℕ) (img : Image) (total off : ℕ) (rs : List (List ℕ)) (spare : List ℕ)
    → All IsRecord rs
    → store_header_size ≤ off
    → total ≡ off + length (flat rs)
    → total ≤ max_storage_size
    → bytes_at img off ≡ flat rs ++ spare
    → find_key alias img total (length rs) off ≡ offset_of alias off rs
unfolding offset_of flat
find_key-offset_of alias img total off [] spare h low t small at = unfold find_key in refl
find_key-offset_of alias img total off (r ∷ rs) spare h low t small at =
    let there : bytes_at img off ≡ r ++ (flat rs ++ spare) = at ∙ append_assoc r (flat rs) spare in
    let behind : bytes_at img (off + length r) ≡ flat rs ++ spare =
      bytes_at_add img off (length r) low
      ∙ ap (drop (length r)) there
      ∙ drop-append r (flat rs ++ spare) in
    let n = length-append r (flat rs) in
    find_key-round alias r (flat rs ++ spare) img total (length rs) off h.0 there (omega arith)
      small
    ∙ ap (λ (k : Result ℕ). if named alias r then ok off else k)
        (find_key-offset_of alias img total (off + length r) rs spare h.1 (omega arith)
          (omega arith) small behind)

none_named :
    (alias : List ℕ) (rs : List (List ℕ))
    → (length rs == 0) ≡ true
    → offset_of alias store_header_size rs ≡ error not_exist
unfolding offset_of
none_named alias [] e = refl
none_named alias (r ∷ rs) e = absurd (ground arith)

-- What a search in an image that holds some keys finds.
pub get_key_offset-Holds :
    (alias : List ℕ) (img : Image) (rs : List (List ℕ))
    → Holds img rs
    → get_key_offset (some img) alias ≡ offset_of alias store_header_size rs
unfolding get_key_offset
get_key_offset-Holds alias img rs h =
    let all : bytes_at img store_header_size ≡ flat rs ++ h.spare = unfold bytes_at in h.laid in
    let size : length img.body ≡ length (flat rs) + length h.spare =
      ap length h.laid ∙ length-append (flat rs) h.spare in
    let fits : ltb (image_size img) img.head.total_len ≡ false = ground (arith, size, h.total) in
    let found =
      find_key-offset_of alias img img.head.total_len store_header_size rs h.spare h.records
        (omega arith) h.total h.bounded all in
    rw (fits, h.counted)
      (elim (Bool-cases (length rs == 0)) [
        | inl e ↦ rw e (sym (none_named alias rs e))
        | inr e ↦ rw e found
      ])

-- The keys before and behind the one with an alias.
pub record Parted (alias : List ℕ) (rs : List (List ℕ)) (off : ℕ) : Type 0 where
  pub before : List (List ℕ)
  pub key : List ℕ
  pub behind : List (List ℕ)
  pub whole : rs ≡ before ++ (key ∷ behind)
  pub at : off ≡ length (flat before)
  pub found : key_under alias rs ≡ some key
  pub rest : without alias rs ≡ before ++ behind

pub offset_of_cases :
    (alias : List ℕ) (off : ℕ) (rs : List (List ℕ))
    → ((k : ℕ) × (offset_of alias off rs ≡ ok (off + k)) × Parted alias rs k)
      ⊎ ((offset_of alias off rs ≡ error not_exist)
          × (key_under alias rs ≡ none)
          × (without alias rs ≡ rs))
unfolding offset_of key_under without flat
offset_of_cases alias off [] = inr (refl, refl, refl)
offset_of_cases alias off (r ∷ rs) = elim (Bool-cases (named alias r)) [
  | inl e ↦ inl (
    0,
    rw e (ap ok (omega arith)),
    record {
      before = [];
      key = r;
      behind = rs;
      whole = refl;
      at = refl;
      found = rw e refl;
      rest = rw e refl;
    },
  )
  | inr e ↦ elim (offset_of_cases alias (off + length r) rs) [
    | inl (k, f, p) ↦ inl (
      length r + k,
      rw e (f ∙ ap ok (omega arith)),
      record {
        before = r ∷ p.before;
        key = p.key;
        behind = p.behind;
        whole = ap (◌∷◌ r) p.whole;
        at = omega (arith, p.at, length-append r (flat p.before));
        found = rw e p.found;
        rest = rw e (ap (◌∷◌ r) p.rest);
      },
    )
    | inr (f, l, w) ↦ inr (rw e f, rw e l, rw e (ap (◌∷◌ r) w))
  ]
]
