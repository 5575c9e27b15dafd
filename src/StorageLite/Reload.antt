-- ===== src/StorageLite/Reload.antt =====
-- `HksLoadFileToBuffer` of hks_storage_lite.c on the file that a change of the store left.
use security_huks.Prelude.{
  ℕ, ◌-◌, ◌^◌, ◌≤◌, ◌<◌, ◌≡◌, refl, sym, ap, ◌∙◌, subst, false, none, some, List, [], ◌++◌, length,
  length-append, take, take-append, take-length, drop, ltb, ◌==◌, Bool-cases, inl, inr, append-nil,
  arith,
}
use mathlib.Core.Option.{some-injective}
use security_huks.Status.{success}
use security_huks.FileLock.Counts.{same_bytes_refl}
use security_huks.Check.{ok}
use security_huks.StorageLite.{
  Image, Store, Device, store_header_size, max_storage_size, header_bytes, header_of,
}
use security_huks.StorageLite.Files.{hks_file_read, file_read, hks_file_size}
use security_huks.StorageLite.Load.{
  key_store_file_name, check_key_info_header_valid, apply_image_buffer, read_image,
  fresh_image_buffer, load_read, hks_load_file_to_buffer,
}
use security_huks.StorageLite.Operate.{image_bytes, hks_store_get_key_blob}
use security_huks.StorageLite.Records.{flat}
use security_huks.StorageLite.Find.{Holds}
use security_huks.StorageLite.Splice.{hks_malloc-HasMemory}
use security_huks.StorageLite.Cut.{nil_of}
use security_huks.StorageLite.Held.{IsGood, IsSealed, length-le-flat}
use security_huks.StorageLite.Kept.{Keeps, Saved, IsOpen, get_key_blob-Keeps}
use security_huks.StorageLite.HeaderBytes.{
  drop-header_bytes, header_of-header_bytes, length-header_bytes, take-header_bytes,
}

-- A read of no more bytes than the file has.
file_read-IsOpen :
    (d : Device) (s : Store) (full bs : List ℕ) (size : ℕ)
    → IsOpen d full
    → s.files full ≡ some bs
    → 0 < size
    → size ≤ length bs
    → hks_file_read d s key_store_file_name size ≡ ok (take size bs)
unfolding hks_file_read file_read
file_read-IsOpen d s full bs size o f some_byte fits =
    let e : (size == 0) ≡ false = ground arith in
    let g : ltb (length bs) size ≡ false = ground arith in
    let there : file_read d s full size ≡ ok (take size bs) =
      rw (f, g, o.opens, o.reads, file_read) refl in
    rw (e, o.name) there

file_size-IsOpen :
    (d : Device) (s : Store) (full bs : List ℕ)
    → IsOpen d full
    → s.files full ≡ some bs
    → hks_file_size d s key_store_file_name ≡ length bs
unfolding hks_file_size
file_size-IsOpen d s full bs o f = rw (o.name, f, hks_file_size) refl

-- The whole image, where the header of the file is that of an image with some keys.
module _ (d : Device) (left : Store) (full : List ℕ) (rs : List (List ℕ)) (good : IsGood d)
    (o : IsOpen d full) (img : Image) (held : Holds img rs) (sealed : IsSealed d img.head)
    (on_file : left.files full ≡ some (image_bytes img)) where
  -- The store of a service that has just started.
  abbrev s : Store
  s = record left { image = none }

  abbrev kept : Image
  kept = record { head = img.head; body = flat rs }

  front : take (img.head.total_len - store_header_size) img.body ≡ flat rs
  front =
      let n : img.head.total_len - store_header_size ≡ length (flat rs) =
        omega (arith, held.total) in
      rw (n, held.laid) (take-append (flat rs) held.spare)

  file_bytes : image_bytes img ≡ header_bytes img.head ++ flat rs
  unfolding image_bytes
  file_bytes = ap (◌++◌ (header_bytes img.head)) front

  on_file' : s.files full ≡ some (header_bytes img.head ++ flat rs)
  on_file' = on_file ∙ ap some file_bytes

  few : img.head.key_count < 2 ^ 16
  few = omega (arith, held.counted, length-le-flat rs held.records, held.total, held.bounded)

  again : (rest : List ℕ) → header_of (header_bytes img.head ++ rest) ≡ img.head
  again = header_of-header_bytes img.head sealed.shape sealed.size few (omega (arith, held.bounded))

  size : length (header_bytes img.head ++ flat rs) ≡ img.head.total_len
  size = omega (
    arith,
    length-append (header_bytes img.head) (flat rs),
    held.total,
    length-header_bytes img.head sealed.shape sealed.size few (omega (arith, held.bounded)) [],
  )

  whole_read : read_image (hks_file_read d s key_store_file_name img.head.total_len) ≡ ok kept
  unfolding read_image
  whole_read =
      let bs : List ℕ = header_bytes img.head ++ flat rs in
      let all : take img.head.total_len bs ≡ bs =
        subst (λ n. take n bs ≡ bs) size (take-length bs) in
      let e : hks_file_read d s key_store_file_name img.head.total_len ≡ ok bs =
        file_read-IsOpen d s full bs img.head.total_len o on_file' (omega (arith, held.total))
          (omega (arith, size))
        ∙ ap ok all in
      let b : drop store_header_size bs ≡ flat rs =
        drop-header_bytes img.head sealed.shape sealed.size few (omega (arith, held.bounded))
          (flat rs) in
      ap read_image e
      ∙ ap (λ h. ok (record { head = h; body = drop store_header_size bs })) (again (flat rs))
      ∙ ap (λ (t : List ℕ). ok (record { head = img.head; body = t })) b

  fresh : fresh_image_buffer d s img.head ≡ ok kept
  unfolding fresh_image_buffer
  fresh =
      let t = held.total in
      let b = held.bounded in
      let g : ltb img.head.total_len store_header_size ≡ false = ground (arith, t) in
      let l : ltb max_storage_size img.head.total_len ≡ false = ground (arith, b) in
      elim (Bool-cases (img.head.total_len == store_header_size)) [
        | inl e ↦
            let n : length (flat rs) ≡ 0 = ground (arith, e, t) in
            rw (g, l, e)
              (ap (λ (b : List ℕ). ok (record { head = img.head; body = b }))
                (sym (nil_of (flat rs) n)))
        | inr e ↦
            let f : hks_file_size d s key_store_file_name ≡ img.head.total_len =
              file_size-IsOpen d s full (header_bytes img.head ++ flat rs) o on_file' ∙ size in
            let k : ltb img.head.total_len img.head.total_len ≡ false = ground arith in
            let m =
              hks_malloc-HasMemory d.memory img.head.total_len good.memory (omega (arith, t))
                (omega (arith, b)) in
            rw (g, l, e, f, k, m) whole_read
      ]

  read_head : hks_file_read d s key_store_file_name store_header_size ≡ ok (header_bytes img.head)
  read_head =
      file_read-IsOpen d s full (header_bytes img.head ++ flat rs) store_header_size o on_file'
        (omega arith) (omega (arith, size, held.total))
      ∙ ap ok (
          take-header_bytes img.head sealed.shape sealed.size few (omega (arith, held.bounded))
            (flat rs))

  load-kept : load_read d s (ok (header_bytes img.head)) ≡ ok kept
  unfolding load_read check_key_info_header_valid
  load-kept =
      let h : header_of (header_bytes img.head) ≡ img.head =
        ap header_of (sym (append-nil (header_bytes img.head))) ∙ again [] in
      rw (h, sealed.mac, same_bytes_refl img.head.hmac) fresh

  load_file-kept : hks_load_file_to_buffer d s ≡ (success, record s { image = some kept })
  unfolding hks_load_file_to_buffer apply_image_buffer
  load_file-kept =
      let g =
        hks_malloc-HasMemory d.memory store_header_size good.memory (omega arith) (omega arith) in
      rw (g, read_head, load-kept) refl

  pub Keeps-kept : Keeps (record s { image = some kept }) rs
  Keeps-kept = record {
    img = kept;
    there = refl;
    held = record {
      records = held.records;
      distinct = held.distinct;
      counted = held.counted;
      total = held.total;
      bounded = held.bounded;
      spare = [];
      laid = sym (append-nil (flat rs));
    };
    shaped = sealed.shape;
  }

-- After a change of a store that keeps keys, where its file has the bytes of the image, a service
-- that starts with no image succeeds to load the file, and then finds under every alias the key that
-- was found before.
pub get_key_blob-load_file :
    (d : Device) (s : Store) (full : List ℕ) (rs : List (List ℕ))
    → IsGood d
    → IsOpen d full
    → Keeps s rs
    → Saved d s full
    → (s' : Store) × (hks_load_file_to_buffer d (record s { image = none }) ≡ (success, s'))
      × ((alias : List ℕ) (size : ℕ)
          → hks_store_get_key_blob d s' alias false size
            ≡ hks_store_get_key_blob d s alias false size)
get_key_blob-load_file d s full rs good o k saved =
    let same : k.img ≡ saved.img = some-injective k.img saved.img (sym k.there ∙ saved.there) in
    let sealed : IsSealed d k.img.head = subst (λ i. IsSealed d i.head) (sym same) saved.sealed in
    let file : s.files full ≡ some (image_bytes k.img) =
      saved.on_file ∙ ap (λ i. some (image_bytes i)) (sym same) in
    let k' = Keeps-kept d s full rs good o k.img k.held sealed file in
    (
      record s { image = some (kept d s full rs good o k.img k.held sealed file) },
      load_file-kept d s full rs good o k.img k.held sealed file,
      λ alias size.
          get_key_blob-Keeps d _ rs alias size good k'
          ∙ sym (get_key_blob-Keeps d s rs alias size good k),
    )
