-- ===== src/StorageLite/Kept.antt =====
-- The operations of hks_storage_lite.c on a store that keeps a list of keys: the image refines the
-- list, and a key is found by its alias.
use security_huks.Prelude.{
  ℕ, ◌+◌, ◌≤◌, ◌<◌, ◌≡◌, inl, inr, refl, ap, ◌∙◌, true, false, Option, none, some, List, [], ◌∷◌,
  ◌++◌, length, take, take-append, ◌==◌, arith,
}
use security_huks.Status.{success, not_exist}
use security_huks.FileLock.Counts.{same_bytes_refl}
use security_huks.Check.{Result, ok, error}
use security_huks.StorageLite.{
  Image, Store, Device, store_header_size, max_storage_size, alias_of, header_bytes, sealed_bytes,
}
use security_huks.StorageLite.Files.{get_full_file_name, with_file, file_write, hks_file_write}
use security_huks.StorageLite.Load.{key_store_file_name}
use security_huks.StorageLite.Keys.{bytes_at, get_key_offset}
use security_huks.StorageLite.Operate.{
  image_bytes, save, old_offset, store_key, store_in_image, hks_store_key_blob, copy_key, get_found,
  hks_store_get_key_blob,
}
use security_huks.StorageLite.Records.{IsRecord, valid_len, flat}
use security_huks.StorageLite.Find.{
  key_under, without, Holds, Parted, offset_of_cases, get_key_offset-Holds,
}
use security_huks.StorageLite.Splice.{hks_malloc-HasMemory}
use security_huks.StorageLite.Held.{IsGood, IsShaped, IsSealed}
use security_huks.StorageLite.Stored.{Place, vacant, taken, store_in_image-Holds}
use security_huks.StorageLite.Midst.{key_there, key-IsRecord, key_len_there}

-- A store whose image holds some keys.
pub record Keeps (s : Store) (rs : List (List ℕ)) : Type 0 where
  pub img : Image
  pub there : s.image ≡ some img
  pub held : Holds img rs
  pub shaped : IsShaped img.head

-- The file of the keys, under its full name, has what the image has, and its header is sealed.
pub record Saved (d : Device) (s : Store) (full : List ℕ) : Type 0 where
  pub img : Image
  pub there : s.image ≡ some img
  pub on_file : s.files full ≡ some (image_bytes img)
  pub sealed : IsSealed d img.head

-- The file of the keys has a full name, and the system opens, reads and writes it.
pub record IsOpen (d : Device) (full : List ℕ) : Type 0 where
  pub name : get_full_file_name d key_store_file_name ≡ ok full
  pub opens : d.can_open full ≡ true
  pub reads : d.can_read full ≡ true
  pub writes : d.can_write full ≡ true

-- What is found under an alias.
abbrev pub answer : Option (List ℕ) → Result (List ℕ)
answer none = error not_exist
answer (some r) = ok r

copy_key-Parted :
    (d : Device) (img : Image) (rs : List (List ℕ)) (alias : List ℕ) (k : ℕ)
    → IsGood d
    → (held : Holds img rs) → (p : Parted alias rs k)
    → copy_key d.memory (bytes_at img (store_header_size + k)) ≡ ok p.key
unfolding copy_key
copy_key-Parted d img rs alias k good held p =
    let r = key-IsRecord img rs held alias k p in
    let v = valid_len p.key r.valid in
    let len = key_len_there img rs held alias k p in
    let g =
      hks_malloc-HasMemory d.memory (length p.key) good.memory (omega (arith, r.whole, v))
        (omega (arith, r.whole, v)) in
    let f =
      good.securec.fits (length p.key) (length p.key) (omega (arith, r.whole, v)) (omega arith) in
    rw (len, g, f, copy_key)
      (ap (λ t. ok (take (length p.key) t)) (key_there img rs held alias k p)
        ∙ ap ok (take-append p.key (flat p.behind ++ held.spare)))

-- HksStoreGetKeyBlob finds what the list has under the alias.
pub get_key_blob-Keeps :
    (d : Device) (s : Store) (rs : List (List ℕ)) (alias : List ℕ) (size : ℕ)
    → IsGood d
    → Keeps s rs
    → hks_store_get_key_blob d s alias false size ≡ answer (key_under alias rs)
unfolding hks_store_get_key_blob get_found
get_key_blob-Keeps d s rs alias size good k =
    let e = get_key_offset-Holds alias k.img rs k.held in
    elim (offset_of_cases alias store_header_size rs) [
      | inl (off, f, p) ↦
          rw (k.there, e, f, p.found) (copy_key-Parted d k.img rs alias off good k.held p)
      | inr (f, l, w) ↦ rw (k.there, e, f, l) refl
    ]

-- What is written stands on the file.
hks_file_write-IsOpen :
    (d : Device) (s : Store) (full bs : List ℕ)
    → IsOpen d full
    → 0 < length bs
    → hks_file_write d s key_store_file_name bs ≡ (success, with_file s full (some bs))
unfolding hks_file_write file_write
hks_file_write-IsOpen d s full bs o some_byte =
    let e : (length bs == 0) ≡ false = ground arith in
    rw (e, o.name, o.opens, o.writes, hks_file_write) refl

pub save-success :
    (d : Device) (s : Store) (full : List ℕ) (img : Image)
    → IsOpen d full
    → IsSealed d img.head
    → (s' : Store) × (save d s (success, img) ≡ (success, s'))
      × (s'.image ≡ some img)
      × Saved d s' full
unfolding save with_file
save-success d s full img o q =
    let s1 = record s { image = some img } in
    (
      with_file s1 full (some (image_bytes img)),
      hks_file_write-IsOpen d s1 full (image_bytes img) o
          (unfold image_bytes header_bytes sealed_bytes in omega arith),
      refl,
      record { img = img; there = refl; on_file = rw (same_bytes_refl full) refl; sealed = q },
    )

-- Where the search for a key ends says where it goes.
pub located :
    (img : Image) (rs : List (List ℕ)) (alias : List ℕ)
    → Holds img rs
    → (old : Option ℕ) × (old_offset (get_key_offset (some img) alias) ≡ ok old)
      × Place alias rs old
unfolding old_offset
located img rs alias h =
    let e = get_key_offset-Holds alias img rs h in
    elim (offset_of_cases alias store_header_size rs) [
      | inl (k, f, p) ↦ (some (store_header_size + k), rw (e, f) refl, taken k p)
      | inr (f, l, w) ↦ (none, rw (e, f) refl, vacant w)
    ]

-- HksStoreKeyBlob is `StoreKeyBlob` at the place of the key, and the file.
pub store-steps :
    (d : Device) (s : Store) (img : Image) (alias K : List ℕ) (old : Option ℕ)
    → s.image ≡ some img
    → old_offset (get_key_offset (some img) alias) ≡ ok old
    → hks_store_key_blob d s alias false K ≡ save d s (store_in_image d img old K)
unfolding hks_store_key_blob
store-steps d s img alias K old e f = rw (e, f, store_key) refl

pub store_key_blob-Keeps :
    (d : Device) (s : Store) (full : List ℕ) (rs : List (List ℕ)) (K : List ℕ)
    → IsGood d
    → IsOpen d full
    → Keeps s rs
    → IsRecord K
    → store_header_size + length (flat (without (alias_of K) rs)) + length K ≤ max_storage_size
    → (s' : Store) × (hks_store_key_blob d s (alias_of K) false K ≡ (success, s'))
      × Keeps s' (without (alias_of K) rs ++ K ∷ [])
      × Saved d s' full
store_key_blob-Keeps d s full rs K good o k rec fits =
    let (old, e, place) = located k.img rs (alias_of K) k.held in
    let (img', f, h, q) =
      store_in_image-Holds d k.img rs old K good k.held k.shaped rec fits place in
    let (s', g, there, saved) = save-success d s full img' o q in
    (
      s',
      store-steps d s k.img (alias_of K) K old k.there e ∙ ap (save d s) f ∙ g,
      record { img = img'; there = there; held = h; shaped = q.shape },
      saved,
    )
