-- ===== src/StorageLite/Destroyed.antt =====
-- What HksStoreDestroy of hks_storage_lite.c leaves of the files.
use security_huks.Prelude.{
  ℕ, ◌≡◌, inl, inr, refl, ap, ◌∙◌, Bool, true, false, ◌||◌, Option, none, some, List, [], length,
  replicate, ltb, ◌==◌, if◌then◌else◌, Bool-cases,
}
use security_huks.Status.{Status, success, is_success}
use security_huks.Memory.{hks_malloc}
use security_huks.ParamSet.Build.{same_bytes}
use security_huks.FileLock.Counts.{eq_of_same_bytes}
use security_huks.Check.{Result, ok, error}
use security_huks.StorageLite.{Store, Device}
use security_huks.StorageLite.Files.{
  get_full_file_name, with_file, file_write, hks_file_write, hks_file_size, hks_file_remove,
}
use security_huks.StorageLite.Load.{key_store_file_name}
use security_huks.StorageLite.Destroy.{
  max_file_size, info1_file_name, info2_file_name, and_then, write_random, clean_file, remove_file,
  hks_store_destroy,
}

-- A step that touches one file at most.
record Touches (full : List ℕ) (s s' : Store) : Type 0 where
  image : s'.image ≡ s.image
  others : (f : List ℕ) → same_bytes f full ≡ false → s'.files f ≡ s.files f

untouched : (full : List ℕ) (s : Store) → Touches full s s
untouched full s = record { image = refl; others = λ f h. refl }

Touches-trans :
    (full : List ℕ) (a b c : Store) → Touches full a b → Touches full b c → Touches full a c
Touches-trans full a b c p q = record {
  image = q.image ∙ p.image;
  others = λ f h. q.others f h ∙ p.others f h;
}

with_file-Touches :
    (full : List ℕ) (s : Store) (bs : Option (List ℕ)) → Touches full s (with_file s full bs)
unfolding with_file
with_file-Touches full s bs = record { image = refl; others = λ f h. rw h refl }

hks_file_write-Touches :
    (d : Device) (s : Store) (name full bs : List ℕ)
    → get_full_file_name d name ≡ ok full
    → Touches full s (hks_file_write d s name bs).1
unfolding hks_file_write file_write
hks_file_write-Touches d s name full bs e =
    let put = with_file-Touches full s in
    elim (Bool-cases (length bs == 0)) [
      | inl z ↦ rw z (untouched full s)
      | inr z ↦
          rw (z, e)
            (elim (Bool-cases (d.can_open full)) [
              | inr o ↦ rw o (untouched full s)
              | inl o ↦ rw o (elim (Bool-cases (d.can_write full)) [
                | inl w ↦ rw w (put (some bs))
                | inr w ↦ rw w (put (some []))
              ])
            ])
    ]

-- A step that may have failed, and one behind it.
and_then-Touches :
    (full : List ℕ) (s : Store) (r : Status × Store) (k : Store → Status × Store)
    → Touches full s r.1
    → ((t : Store) → Touches full t (k t).1)
    → Touches full s (and_then r k).1
and_then-Touches full s r k h g = elim (Bool-cases (is_success r.0)) [
  | inl e ↦ rw e (Touches-trans full s r.1 (k r.1).1 h (g r.1))
  | inr e ↦ rw e h
]

write_random-Touches :
    (d : Device) (name full : List ℕ) (bs : Result (List ℕ)) (s : Store)
    → get_full_file_name d name ≡ ok full
    → Touches full s (write_random d name bs s).1
unfolding write_random
write_random-Touches d name full (error e) s h = untouched full s
write_random-Touches d name full (ok bs) s h = hks_file_write-Touches d s name full bs h

clean_file-Touches :
    (d : Device) (s : Store) (name full : List ℕ)
    → get_full_file_name d name ≡ ok full
    → Touches full s (clean_file d s name).1
unfolding clean_file
clean_file-Touches d s name full h =
    let size = hks_file_size d s name in
    let writes =
      and_then-Touches full s _ (write_random d name (d.random size))
        (and_then-Touches full s (hks_file_write d s name (replicate size 0))
          (λ t. hks_file_write d t name (replicate size 1))
          (hks_file_write-Touches d s name full (replicate size 0) h)
          (λ t. hks_file_write-Touches d t name full (replicate size 1) h))
        (λ t. write_random-Touches d name full (d.random size) t h) in
    elim (Bool-cases ((size == 0) || ltb max_file_size size)) [
      | inl e ↦ rw e (untouched full s)
      | inr e ↦ rw e (elim (Bool-cases (hks_malloc d.memory size)) [
        | inl m ↦ rw m writes
        | inr m ↦ rw m (untouched full s)
      ])
    ]

-- A file that the system lets go is gone, and no other.
record Removed (full : List ℕ) (s s' : Store) : Type 0 where
  image : s'.image ≡ s.image
  files : (f : List ℕ) → s'.files f ≡ (if same_bytes f full then none else s.files f)

remove_found :
    (d : Device) (s : Store) (name full : List ℕ) (found : Option (List ℕ))
    → s.files full ≡ found
    → get_full_file_name d name ≡ ok full
    → d.can_remove full ≡ true
    → Removed full s (hks_file_remove d s name).1
unfolding hks_file_remove with_file hks_malloc
remove_found d s name full none h e r =
    rw (e, h)
      record {
        image = refl;
        files = λ f. elim (Bool-cases (same_bytes f full)) [
          | inl same ↦ rw same (ap s.files (eq_of_same_bytes f full same) ∙ h)
          | inr other ↦ rw other refl
        ];
      }
remove_found d s name full (some bs) h e r = rw (e, h, r) record { image = refl; files = λ f. refl }

Touches-Removed :
    (full : List ℕ) (a b c : Store) → Touches full a b → Removed full b c → Removed full a c
Touches-Removed full a b c p q = record {
  image = q.image ∙ p.image;
  files = λ f.
      q.files f
      ∙ elim (Bool-cases (same_bytes f full)) [ inl e ↦ rw e refl | inr e ↦ rw e (p.others f e) ];
}

remove_file-Removed :
    (d : Device) (clean : Bool) (s : Store) (name full : List ℕ)
    → get_full_file_name d name ≡ ok full
    → d.can_remove full ≡ true
    → Removed full s (remove_file d clean s name)
unfolding remove_file
remove_file-Removed d false s name full e r = remove_found d s name full (s.files full) refl e r
remove_file-Removed d true s name full e r =
    let s' = (clean_file d s name).1 in
    Touches-Removed full s s' _ (clean_file-Touches d s name full e)
      (remove_found d s' name full (s'.files full) refl e r)

any_of_three :
    (a b c : Bool) (x : Option (List ℕ))
    → (if c then none else if b then none else if a then none else x)
      ≡ (if a || b || c then none else x)
any_of_three true true true x = refl
any_of_three true true false x = refl
any_of_three true false true x = refl
any_of_three true false false x = refl
any_of_three false true true x = refl
any_of_three false true false x = refl
any_of_three false false true x = refl
any_of_three false false false x = refl

-- HksStoreDestroy, where the system lets go of its three files, succeeds and removes them, whether
-- they were there and whether they are written over first. Every other file, and the image in
-- memory, stays as it was.
pub hks_store_destroy_lem :
    (d : Device) (clean : Bool) (s : Store) (keys info1 info2 : List ℕ)
    → get_full_file_name d key_store_file_name ≡ ok keys
    → get_full_file_name d info1_file_name ≡ ok info1
    → get_full_file_name d info2_file_name ≡ ok info2
    → d.can_remove keys ≡ true
    → d.can_remove info1 ≡ true
    → d.can_remove info2 ≡ true
    → let r = hks_store_destroy d clean s in
      (r.0 ≡ success)
      × (r.1.image ≡ s.image)
      × ((f : List ℕ)
          → r.1.files f ≡ (
              if same_bytes f keys || same_bytes f info1 || same_bytes f info2
              then none
              else s.files f))
unfolding hks_store_destroy
hks_store_destroy_lem d clean s keys info1 info2 e e1 e2 c c1 c2 =
    let s1 = remove_file d clean s key_store_file_name in
    let s2 = remove_file d clean s1 info1_file_name in
    let r = remove_file-Removed d clean s key_store_file_name keys e c in
    let r1 = remove_file-Removed d clean s1 info1_file_name info1 e1 c1 in
    let r2 = remove_file-Removed d clean s2 info2_file_name info2 e2 c2 in
    (
      refl,
      r2.image ∙ r1.image ∙ r.image,
      λ f.
          rw (r2.files f, r1.files f, r.files f)
            (any_of_three (same_bytes f keys) (same_bytes f info1) (same_bytes f info2)
              (s.files f)),
    )
