-- ===== src/StorageLite/Midst.antt =====
-- A key in the midst of an image of hks_storage_lite.c, and `DeleteKey` of it.
use security_huks.Prelude.{
  ℕ, ◌+◌, ◌-◌, ◌≡◌, refl, sym, ap, ◌∙◌, subst, List, [], ◌∷◌, ◌++◌, length, length-append,
  drop-append, All, append_assoc, arith,
}
use security_huks.Status.{success}
use security_huks.StorageLite.{Image, Device, store_header_size, key_info_len}
use security_huks.StorageLite.Keys.{bytes_at, counted_down, delete_key}
use security_huks.StorageLite.Records.{IsRecord, valid_len, flat, flat-append, key_info_len-append}
use security_huks.StorageLite.Find.{without, Holds, Parted}
use security_huks.StorageLite.Cut.{Starts, delete_key-splice}
use security_huks.StorageLite.Held.{IsGood, length_without}

-- A key in the midst of an image.
module _ (img : Image) (rs : List (List ℕ)) (held : Holds img rs) (alias : List ℕ) (k : ℕ)
    (p : Parted alias rs k) where
  abbrev pub off : ℕ
  off = store_header_size + k

  abbrev pub tail : List ℕ
  tail = flat p.behind ++ held.spare

  body_parts : img.body ≡ flat p.before ++ (p.key ++ tail)
  body_parts =
      let e : flat rs ≡ flat p.before ++ (p.key ++ flat p.behind) =
        ap flat p.whole ∙ flat-append p.before (p.key ∷ p.behind) ∙ (unfold flat in refl) in
      held.laid
      ∙ ap (λ (t : List ℕ). t ++ held.spare) e
      ∙ append_assoc (flat p.before) (p.key ++ flat p.behind) held.spare
      ∙ ap (◌++◌ (flat p.before)) (append_assoc p.key (flat p.behind) held.spare)

  pub key_there : bytes_at img off ≡ p.key ++ tail
  unfolding bytes_at
  key_there =
      let e : off - store_header_size ≡ length (flat p.before) = omega (arith, p.at) in
      rw (e, body_parts) (drop-append (flat p.before) (p.key ++ tail))

  pub key-IsRecord : IsRecord p.key
  key-IsRecord = in_midst p.before (subst (All IsRecord) p.whole held.records)
    where
      in_midst : (xs : List (List ℕ)) → All IsRecord (xs ++ (p.key ∷ p.behind)) → IsRecord p.key
      in_midst [] h = h.0
      in_midst (x ∷ xs) h = in_midst xs h.1

  key_len : key_info_len (p.key ++ tail) ≡ length p.key
  key_len =
      let r = key-IsRecord in
      key_info_len-append p.key tail (omega (arith, valid_len p.key r.valid, r.whole)) ∙ sym r.whole

  pub key_len_there : key_info_len (bytes_at img off) ≡ length p.key
  key_len_there = ap key_info_len key_there ∙ key_len

  -- The lengths of the parts.
  pub sizes :
      (length (flat rs) ≡ length (flat p.before) + length p.key + length (flat p.behind))
      × (length (flat (without alias rs)) ≡ length (flat p.before) + length (flat p.behind))
      × (length rs ≡ length (without alias rs) + 1)
  sizes =
      let w : flat (without alias rs) ≡ flat p.before ++ flat p.behind =
        ap flat p.rest ∙ flat-append p.before p.behind in
      let e : flat rs ≡ flat p.before ++ (p.key ++ flat p.behind) =
        ap flat p.whole ∙ flat-append p.before (p.key ∷ p.behind) ∙ (unfold flat in refl) in
      (
        omega (
          arith,
          ap length e,
          length-append (flat p.before) (p.key ++ flat p.behind),
          length-append p.key (flat p.behind),
        ),
        omega (arith, ap length w, length-append (flat p.before) (flat p.behind)),
        ap length p.whole
            ∙ length_without p.before p.behind p.key
            ∙ ap (λ t. length t + 1) (sym p.rest),
      )

  -- `DeleteKey` leaves the other keys.
  pub delete_key-Holds :
      (d : Device)
      → IsGood d
      → (img' : Image) × (delete_key d.memory img off ≡ (success, img'))
        × (img'.head ≡ counted_down img.head (length p.key))
        × Starts img' (flat (without alias rs))
  delete_key-Holds d good =
      let e : off ≡ store_header_size + length (flat p.before) = omega (arith, p.at) in
      let (img', f, h, (s, b)) =
        delete_key-splice d.memory img (flat p.before) p.key (flat p.behind) held.spare good.securec
          body_parts (omega (arith, held.total, sizes)) held.bounded key_len in
      (
        img',
        ap (delete_key d.memory img) e ∙ f,
        h,
        (s, b ∙ ap (λ (t : List ℕ). t ++ s) (sym (ap flat p.rest ∙ flat-append p.before p.behind))),
      )
