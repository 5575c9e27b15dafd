-- ===== src/StorageLite/Replaced.antt =====
-- Two operations of hks_storage_lite.c one after the other: what is found after a key was stored or
-- deleted.
use security_huks.Prelude.{
  ℕ, ◌+◌, ◌≤◌, ◌<◌, ◌^◌, ◌≡◌, refl, sym, ap, ◌∙◌, Bool, true, false, inl, inr, Option, none, some,
  List, [], ◌∷◌, ◌++◌, length, if◌then◌else◌,
}
use security_huks.Status.{success, storage_failure, not_exist}
use security_huks.ParamSet.Build.{same_bytes}
use security_huks.Check.{Result, ok, error}
use security_huks.StorageLite.{Image, Store, Device, store_header_size, max_storage_size, alias_of}
use security_huks.StorageLite.Keys.{get_key_offset}
use security_huks.StorageLite.Operate.{
  save, delete_in_image, delete_if_found, hks_store_key_blob, hks_store_delete_key_blob,
  hks_store_get_key_blob,
}
use security_huks.StorageLite.Records.{IsRecord, flat}
use security_huks.StorageLite.Find.{key_under, without, offset_of_cases, get_key_offset-Holds}
use security_huks.StorageLite.Abstract.{key_under-replaced, key_under-without}
use security_huks.StorageLite.Held.{IsGood}
use security_huks.StorageLite.Stored.{store_in_image-full, delete_in_image-Holds}
use security_huks.StorageLite.Kept.{
  Keeps, Saved, IsOpen, answer, get_key_blob-Keeps, located, store-steps, save-success,
  store_key_blob-Keeps,
}

answer_if :
    (b : Bool) (x y : Option (List ℕ))
    → answer (if b then x else y) ≡ (if b then answer x else answer y)
answer_if true x y = refl
answer_if false x y = refl

-- Where an image holds keys, no two with one alias, `HksStoreKeyBlob` of a key that fits in the 5120
-- bytes of the store, once a key with its alias is gone, succeeds: the file then has the bytes of the
-- image, and `HksStoreGetKeyBlob` finds the new key under its alias, and under every other alias what
-- it found before. Memory, the HMAC and the file do what they are asked for.
pub get_key_blob-store_key_blob :
    (d : Device) (s : Store) (full : List ℕ) (rs : List (List ℕ)) (K : List ℕ)
    → IsGood d
    → IsOpen d full
    → Keeps s rs
    → IsRecord K
    → store_header_size + length (flat (without (alias_of K) rs)) + length K ≤ max_storage_size
    → (s' : Store) × (hks_store_key_blob d s (alias_of K) false K ≡ (success, s'))
      × Saved d s' full
      × ((alias : List ℕ) (size : ℕ)
          → hks_store_get_key_blob d s' alias false size ≡ (
              if same_bytes alias (alias_of K)
              then ok K
              else hks_store_get_key_blob d s alias false size))
get_key_blob-store_key_blob d s full rs K good o k rec fits =
    let (s', e, k', saved) = store_key_blob-Keeps d s full rs K good o k rec fits in
    (
      s',
      e,
      saved,
      λ alias size.
          get_key_blob-Keeps d s' (without (alias_of K) rs ++ K ∷ []) alias size good k'
          ∙ ap answer (key_under-replaced alias K rs k.held.distinct)
          ∙ answer_if (same_bytes alias (alias_of K)) (some K) (key_under alias rs)
          ∙ ap (λ (r : Result (List ℕ)). if same_bytes alias (alias_of K) then ok K else r)
              (sym (get_key_blob-Keeps d s rs alias size good k)),
    )

-- Where an image holds keys, `HksStoreKeyBlob` of a key that does not fit in the 5120 bytes of the
-- store, even when a key with its alias is gone, fails with HKS_ERROR_STORAGE_FAILURE and changes
-- neither the image nor a file.
pub store_key_blob-full :
    (d : Device) (s : Store) (rs : List (List ℕ)) (K : List ℕ)
    → Keeps s rs
    → max_storage_size < store_header_size + length (flat (without (alias_of K) rs)) + length K
    → length K < 2 ^ 31
    → hks_store_key_blob d s (alias_of K) false K ≡ (storage_failure, s)
store_key_blob-full d s rs K k full small =
    let (old, e, place) = located k.img rs (alias_of K) k.held in
    let f = store_in_image-full d k.img rs old K k.held place full small in
    store-steps d s k.img (alias_of K) K old k.there e
    ∙ ap (save d s) f
    ∙ (unfold save in ap (λ i. (storage_failure, record s { image = i })) (sym k.there))

delete-steps :
    (d : Device) (s : Store) (img : Image) (alias : List ℕ) (off : ℕ)
    → s.image ≡ some img
    → get_key_offset (some img) alias ≡ ok off
    → hks_store_delete_key_blob d s alias ≡ save d s (delete_in_image d img off)
unfolding hks_store_delete_key_blob delete_if_found
delete-steps d s img alias off e f =
    ap (λ i. delete_if_found d s i (get_key_offset i alias)) e
    ∙ ap (delete_if_found d s (some img)) f

delete-missing :
    (d : Device) (s : Store) (img : Image) (alias : List ℕ)
    → s.image ≡ some img
    → get_key_offset (some img) alias ≡ error not_exist
    → hks_store_delete_key_blob d s alias ≡ (not_exist, s)
unfolding hks_store_delete_key_blob delete_if_found
delete-missing d s img alias e f =
    ap (λ i. delete_if_found d s i (get_key_offset i alias)) e
    ∙ ap (delete_if_found d s (some img)) f

-- Where an image holds keys, `HksStoreDeleteKeyBlob` of an alias that a key has succeeds: the file then
-- has the bytes of the image, and `HksStoreGetKeyBlob` finds nothing under the alias, and under every
-- other alias what it found before. Of another alias it answers HKS_ERROR_NOT_EXIST and changes
-- nothing. Memory, the HMAC and the file do what they are asked for.
pub get_key_blob-delete_key_blob :
    (d : Device) (s : Store) (full : List ℕ) (rs : List (List ℕ)) (gone : List ℕ)
    → IsGood d
    → IsOpen d full
    → Keeps s rs
    → ((r : List ℕ)
        → key_under gone rs ≡ some r
        → (s' : Store) × (hks_store_delete_key_blob d s gone ≡ (success, s'))
          × Saved d s' full
          × ((alias : List ℕ) (size : ℕ)
              → hks_store_get_key_blob d s' alias false size ≡ (
                  if same_bytes alias gone
                  then error not_exist
                  else hks_store_get_key_blob d s alias false size)))
      × (key_under gone rs ≡ none → hks_store_delete_key_blob d s gone ≡ (not_exist, s))
get_key_blob-delete_key_blob d s full rs gone good o k = (
  λ r found. elim (offset_of_cases gone store_header_size rs) [
    | inl (off, f, p) ↦
        let e = get_key_offset-Holds gone k.img rs k.held ∙ f in
        let (img', g, h, q) = delete_in_image-Holds d k.img rs gone off good k.held k.shaped p in
        let (s', w, there, saved) = save-success d s full img' o q in
        let k' : Keeps s' (without gone rs) = record {
          img = img';
          there = there;
          held = h;
          shaped = q.shape;
        } in
        (
          s',
          delete-steps d s k.img gone (store_header_size + off) k.there e ∙ ap (save d s) g ∙ w,
          saved,
          λ alias size.
              get_key_blob-Keeps d s' (without gone rs) alias size good k'
              ∙ ap answer (key_under-without alias gone rs k.held.distinct)
              ∙ answer_if (same_bytes alias gone) none (key_under alias rs)
              ∙ ap (λ (a : Result (List ℕ)). if same_bytes alias gone then error not_exist else a)
                  (sym (get_key_blob-Keeps d s rs alias size good k)),
        )
    | inr (f, l, w) ↦ absurd (cc)
  ],
  λ missing. elim (offset_of_cases gone store_header_size rs) [
    | inl (off, f, p) ↦ absurd (cc (p.found))
    | inr (f, l, w) ↦
        delete-missing d s k.img gone k.there (get_key_offset-Holds gone k.img rs k.held ∙ f)
  ],
)
