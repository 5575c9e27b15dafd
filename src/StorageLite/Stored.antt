-- ===== src/StorageLite/Stored.antt =====
-- `StoreKeyBlob` and the deletion of a key in hks_storage_lite.c, on an image that holds keys.
use security_huks.Prelude.{
  ℕ, ◌+◌, ◌^◌, ◌≤◌, ◌<◌, ◌≡◌, refl, sym, ap, ◌∙◌, subst, Option, none, some, List, [], ◌∷◌, ◌++◌,
  length, sub32, arith,
}
use security_huks.Status.{success, storage_failure}
use security_huks.Check.{ok}
use security_huks.StorageLite.{
  Header, Image, Device, store_header_size, max_storage_size, key_info_len, alias_of,
}
use security_huks.StorageLite.Keys.{bytes_at, counted_up, counted_down, delete_key, append_new_key}
use security_huks.StorageLite.Operate.{
  new_header, replace_header, and_then, header_after_store, delete_old, store_in_image,
  delete_in_image,
}
use security_huks.StorageLite.Records.{IsRecord, flat}
use security_huks.StorageLite.Find.{without, Holds, Parted}
use security_huks.StorageLite.Abstract.{All-without, Distinct-without, Distinct-replaced}
use security_huks.StorageLite.Held.{
  IsGood, IsShaped, IsSealed, new_header-IsGood, replace_header-IsGood, get_len-fits, get_len-full,
  length-le-flat, append_and_replace,
}
use security_huks.StorageLite.Midst.{delete_key-Holds, key_len_there, off, sizes}

store_in_image-steps :
    (d : Device) (img i : Image) (old : Option ℕ) (K : List ℕ) (h : Header)
    → header_after_store d img old K ≡ ok h
    → delete_old d.memory img old ≡ (success, i)
    → store_in_image d img old K
      ≡ and_then (append_new_key d.memory i K) (replace_header d.memory h)
unfolding store_in_image
store_in_image-steps d img i old K h e f = rw (e, f, store_in_image) refl

new_key_header :
    (d : Device) (img : Image) (K : List ℕ)
    → IsGood d
    → IsShaped img.head
    → img.head.total_len + length K ≤ max_storage_size
    → (t : List ℕ) × (header_after_store d img none K
        ≡ ok (record (counted_up img.head) { total_len = img.head.total_len + length K; hmac = t }))
      × IsSealed d
          (record (counted_up img.head) { total_len = img.head.total_len + length K; hmac = t })
unfolding header_after_store counted_up
new_key_header d img K good p fits =
    let l = get_len-fits K img.head.total_len fits in
    let h = record (counted_up img.head) { total_len = img.head.total_len + length K } in
    let q : IsShaped h = record { version = p.version; alg = p.alg; salt = p.salt } in
    let (t, e, f) = new_header-IsGood d good h q in (t, rw (l, header_after_store) e, f)

old_key_header :
    (d : Device) (img : Image) (off left : ℕ) (K : List ℕ)
    → IsGood d
    → IsShaped img.head
    → left ≡ sub32 img.head.total_len (key_info_len (bytes_at img off))
    → left + length K ≤ max_storage_size
    → (t : List ℕ) × (header_after_store d img (some off) K
        ≡ ok (record img.head { total_len = left + length K; hmac = t }))
      × IsSealed d (record img.head { total_len = left + length K; hmac = t })
unfolding header_after_store
old_key_header d img off left K good p e fits =
    let l = get_len-fits K left fits in
    let h = record img.head { total_len = left + length K } in
    let q : IsShaped h = record { version = p.version; alg = p.alg; salt = p.salt } in
    let (t, f, g) = new_header-IsGood d good h q in (t, rw (sym e, l, header_after_store) f, g)

-- Where a key goes, and the keys that are left for it.
pub data Place (alias : List ℕ) (rs : List (List ℕ)) : Option ℕ → Type 0 where
  vacant : without alias rs ≡ rs → Place alias rs none
  taken : (k : ℕ) → Parted alias rs k → Place alias rs (some (store_header_size + k))

-- `StoreKeyBlob` of a key for which there is room.
pub store_in_image-Holds :
    (d : Device) (img : Image) (rs : List (List ℕ)) (old : Option ℕ) (K : List ℕ)
    → IsGood d
    → Holds img rs
    → IsShaped img.head
    → IsRecord K
    → store_header_size + length (flat (without (alias_of K) rs)) + length K ≤ max_storage_size
    → Place (alias_of K) rs old
    → (img' : Image) × (store_in_image d img old K ≡ (success, img'))
      × Holds img' (without (alias_of K) rs ++ K ∷ [])
      × IsSealed d img'.head
store_in_image-Holds d img rs none K good held shaped rec fits (vacant v) =
    let rs' = without (alias_of K) rs in
    let n : flat rs' ≡ flat rs = ap flat v in
    let there : img.head.total_len ≡ store_header_size + length (flat rs') =
      held.total ∙ ap (λ (t : List ℕ). store_header_size + length t) (sym n) in
    let (t, e, q) = new_key_header d img K good shaped (omega (arith, there)) in
    let few = length-le-flat rs held.records in
    let (img', f, g, w) =
      append_and_replace d good img
        (record (counted_up img.head) { total_len = img.head.total_len + length K; hmac = t }) K rs'
        (held.spare, held.laid ∙ ap (λ (t : List ℕ). t ++ held.spare) (sym n)) there
        (omega (arith, there)) rec (All-without IsRecord (alias_of K) rs held.records)
        (Distinct-replaced K rs held.distinct)
        (unfold counted_up in
          omega (arith, held.counted, few, held.total, held.bounded, ap length v))
        refl in
    (
      img',
      store_in_image-steps d img img none K _ e (unfold delete_old in refl) ∙ f,
      g,
      subst (IsSealed d) (sym w) q,
    )
store_in_image-Holds d img rs (some _) K good held shaped rec fits (taken k p) =
    let rs' = without (alias_of K) rs in
    let z = sizes img rs held (alias_of K) k p in
    let left = store_header_size + length (flat rs') in
    let len = key_len_there img rs held (alias_of K) k p in
    let few = length-le-flat rs held.records in
    let rest : left
        ≡ sub32 img.head.total_len (key_info_len (bytes_at img (store_header_size + k))) =
      rw len (omega (arith, held.total, held.bounded, z)) in
    let (t, e, q) = old_key_header d img (store_header_size + k) left K good shaped rest fits in
    let (i, f, head, s) = delete_key-Holds img rs held (alias_of K) k p d good in
    let there : i.head.total_len ≡ left =
      ap (λ h. h.total_len) head
      ∙ (unfold counted_down in omega (arith, held.total, held.bounded, z)) in
    let (img', g, h, w) =
      append_and_replace d good i (record img.head { total_len = left + length K; hmac = t }) K rs'
        s there (omega (arith, there, fits)) rec (All-without IsRecord (alias_of K) rs held.records)
        (Distinct-replaced K rs held.distinct) (omega (arith, held.counted, z))
        (omega (arith, there)) in
    (
      img',
      store_in_image-steps d img i (some (store_header_size + k)) K _ e (unfold delete_old in f)
          ∙ g,
      h,
      subst (IsSealed d) (sym w) q,
    )

-- A key for which there is no room changes nothing.
pub store_in_image-full :
    (d : Device) (img : Image) (rs : List (List ℕ)) (old : Option ℕ) (K : List ℕ)
    → Holds img rs
    → Place (alias_of K) rs old
    → max_storage_size < store_header_size + length (flat (without (alias_of K) rs)) + length K
    → length K < 2 ^ 31
    → store_in_image d img old K ≡ (storage_failure, img)
unfolding store_in_image header_after_store
store_in_image-full d img rs none K held (vacant w) full small =
    let n : length (flat (without (alias_of K) rs)) ≡ length (flat rs) =
      ap (λ t. length (flat t)) w in
    let l =
      get_len-full K img.head.total_len (omega (arith, held.total, n))
        (omega (arith, held.bounded)) in
    rw (l, header_after_store, store_in_image) refl
store_in_image-full d img rs (some _) K held (taken k p) full small =
    let z = sizes img rs held (alias_of K) k p in
    let len = key_len_there img rs held (alias_of K) k p in
    let left = store_header_size + length (flat (without (alias_of K) rs)) in
    let rest : sub32 img.head.total_len (key_info_len (bytes_at img (store_header_size + k)))
        ≡ left =
      rw len (omega (arith, held.total, held.bounded, z)) in
    let l = get_len-full K left full (omega (arith, held.total, held.bounded, z)) in
    rw (rest, l, header_after_store, store_in_image) refl

delete_in_image-steps :
    (d : Device) (img i : Image) (off : ℕ) (h : Header)
    → new_header d (counted_down img.head (key_info_len (bytes_at img off))) ≡ ok h
    → delete_key d.memory img off ≡ (success, i)
    → delete_in_image d img off ≡ replace_header d.memory h i
unfolding delete_in_image
delete_in_image-steps d img i off h e f = rw (e, f, delete_in_image) refl

-- The deletion of a key leaves the others.
pub delete_in_image-Holds :
    (d : Device) (img : Image) (rs : List (List ℕ)) (alias : List ℕ) (k : ℕ)
    → IsGood d
    → Holds img rs
    → IsShaped img.head
    → Parted alias rs k
    → (img' : Image) × (delete_in_image d img (store_header_size + k) ≡ (success, img'))
      × Holds img' (without alias rs)
      × IsSealed d img'.head
delete_in_image-Holds d img rs alias k good held shaped p =
    let z = sizes img rs held alias k p in
    let few = length-le-flat rs held.records in
    let len = key_len_there img rs held alias k p in
    let h0 = counted_down img.head (key_info_len (bytes_at img (store_header_size + k))) in
    let shaped' : IsShaped h0 =
      unfold counted_down in
      record { version = shaped.version; alg = shaped.alg; salt = shaped.salt } in
    let (t, e, q) = new_header-IsGood d good h0 shaped' in
    let (i, f, _, (spare, body)) = delete_key-Holds img rs held alias k p d good in
    let h = record h0 { hmac = t } in
    let total : h.total_len ≡ store_header_size + length (flat (without alias rs)) =
      unfold counted_down in rw len (omega (arith, held.total, held.bounded, z)) in
    (
      record i { head = h },
      delete_in_image-steps d img i (store_header_size + k) h e f
          ∙ replace_header-IsGood d good h i,
      record {
        records = All-without IsRecord alias rs held.records;
        distinct = Distinct-without alias rs held.distinct;
        counted =
            unfold counted_down in omega (arith, held.counted, few, held.total, held.bounded, z);
        total = total;
        bounded = omega (arith, total, held.total, held.bounded, z);
        spare = spare;
        laid = body;
      },
      q,
    )
