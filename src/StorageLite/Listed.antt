-- ===== src/StorageLite/Listed.antt =====
-- The list of keys that HksStoreGetKeyInfoList of hks_storage_lite.c makes of a store.
use security_huks.Prelude.{
  ℕ, true, suc, ◌+◌, ◌-◌, ◌≤◌, ◌≡◌, inl, inr, refl, sym, ap, ◌∙◌, false, some, List, [], ◌∷◌, ◌++◌,
  map, ◌*◌, length, length-append, take, take-append, drop, drop-append, ltb, ◌==◌, Bool-cases, All,
  append_assoc, add32, arith,
}
use security_huks.Status.{success}
use security_huks.Memory.{Memory, IsSecurec}
use security_huks.ParamSet.{ParamSet, freed, is_bytes, header_size, param_size}
use security_huks.ParamSet.Build.{moved}
use security_huks.ParamSet.Layout.{shapes}
use security_huks.ParamSet.Copy.{Built}
use security_huks.Check.{ok}
use security_huks.StorageLite.{
  Image, Store, store_header_size, key_info_size, max_storage_size, image_size, key_info_len,
  alias_size, alias_of, is_key_info_len_invalid,
}
use security_huks.StorageLite.Keys.{bytes_at}
use security_huks.StorageLite.Records.{
  IsRecord, valid_len, flat, key_info_len-append, invalid-append,
}
use security_huks.StorageLite.Find.{long_record, bytes_at_add}
use security_huks.StorageLite.Splice.{HasMemory}
use security_huks.StorageLite.Kept.{Keeps}
use security_huks.StorageLite.KeyInfos.{
  KeyInfo, with_entry, give_set, get_key_info, get_and_check_key_count, fill_list, fill_from,
  hks_store_get_key_info_list,
}
use security_huks.StorageLite.Members.{
  Members, IsFit, encoded, told, alias_of-encoded, described-told, described-views, shapes-dangle,
  freed-dangle,
}
use security_huks.StorageLite.Described.{described, translate_key_info-Built}

-- An entry with room for every alias and for the set of every key.
pub record IsRoomy (k : KeyInfo) : Type 0 where
  pub alias : 64 ≤ length k.alias
  pub set : 312 ≤ k.param_set.set_size

-- An entry that tells of a key: its alias, and a set whose entries have the members of the key and, if
-- it has one, the size of its identity. The bytes of the identity stand behind the entries, but the
-- pointer to them is that of the set that was freed.
pub record Tells (d : Members) (k : KeyInfo) : Type 0 where
  pub alias : k.alias ≡ d.alias
  pub entries : shapes k.param_set.params ≡ told d
  pub identity : k.param_set.payload ≡ d.auth_id
  pub dangling : All (λ p. is_bytes p ≡ true → p.blob.ptr ≡ freed) k.param_set.params

-- The entries tell of the keys, one after the other, and those behind stay as they were.
pub data Lists : List Members → List KeyInfo → List KeyInfo → Type 0 where
  over : (ks : List KeyInfo) → Lists [] ks ks
  next :
      {d : Members}
      → {k k' : KeyInfo} → {ds : List Members} → {ks ks' : List KeyInfo} → Tells d k'
      → Lists ds ks ks'
      → Lists (d ∷ ds) (k ∷ ks) (k' ∷ ks')

moved-Tells :
    (d : Members) (t : ParamSet)
    → IsFit d
    → Built (described (encoded d)) t
    → Tells d (record { alias = alias_of (encoded d); param_set = moved t })
unfolding moved
moved-Tells d t fit b = record {
  alias = alias_of-encoded d fit;
  entries = shapes-dangle t.params ∙ b.same ∙ described-told d fit;
  identity = b.bytes ∙ described-views d fit;
  dangling = freed-dangle (header_size + param_size * length t.params) t.params b.laid.laid;
}

get_key_info-Tells :
    (m : Memory) (k : KeyInfo) (d : Members)
    → IsSecurec m
    → HasMemory m
    → IsFit d
    → IsRecord (encoded d)
    → IsRoomy k
    → (k' : KeyInfo) × (get_key_info m k (encoded d) ≡ (success, k')) × Tells d k'
unfolding get_key_info give_set
get_key_info-Tells m k d sec mem fit h room =
    let r = encoded d in
    let v = valid_len r h.valid in
    let (t, e, b, small) = translate_key_info-Built m r sec mem h in
    let wide : ltb (length k.alias) (alias_size r) ≡ false = ground (arith, v, room.alias) in
    let fits =
      sec.fits (length k.alias) (alias_size r) (omega (arith, v)) (omega (arith, v, room.alias)) in
    let low : ltb k.param_set.set_size t.set_size ≡ false = ground (arith, small, room.set) in
    let copied =
      sec.fits k.param_set.set_size t.set_size (omega (arith, b.laid.whole))
        (omega (arith, small, room.set)) in
    (
      record { alias = alias_of r; param_set = moved t },
      rw (wide, fits, e, low, copied) refl,
      moved-Tells d t fit b,
    )

-- One round at a key.
fill_list-round :
    (m : Memory) (img : Image) (r rest : List ℕ) (n off : ℕ) (k k' : KeyInfo) (ks : List KeyInfo)
    → IsRecord r
    → bytes_at img off ≡ r ++ rest
    → off + length r ≤ img.head.total_len
    → img.head.total_len ≤ max_storage_size
    → get_key_info m k r ≡ (success, k')
    → fill_list m img (suc n) off (k ∷ ks)
      ≡ with_entry (success, k') ks (fill_list m img n (off + length r) ks)
unfolding fill_list
fill_list-round m img r rest n off k k' ks h at fits small e =
    let long = long_record r h in
    let len : key_info_len (r ++ rest) ≡ length r =
      key_info_len-append r rest long.0 ∙ sym h.whole in
    let valid : is_key_info_len_invalid (r ++ rest) ≡ false =
      invalid-append r rest long.0 ∙ h.valid in
    let whole : take (length r) (r ++ rest) ≡ r = take-append r rest in
    let next_ : add32 off (length r) ≡ off + length r = omega arith in
    let g : ltb img.head.total_len off ≡ false = ground (arith, long.0) in
    let o : ltb (img.head.total_len - off) key_info_size ≡ false = ground (arith, long.0) in
    let l : ltb (img.head.total_len - off) (length r) ≡ false = ground (arith, long.0) in
    rw (at, len, valid, whole, next_, g, o, l, e) refl

fill_list-Lists :
    (m : Memory) (img : Image) (off : ℕ) (ds : List Members) (spare : List ℕ) (ks : List KeyInfo)
    → IsSecurec m
    → HasMemory m
    → All IsFit ds
    → All IsRecord (map encoded ds)
    → All IsRoomy ks
    → length ds ≤ length ks
    → store_header_size ≤ off
    → img.head.total_len ≡ off + length (flat (map encoded ds))
    → img.head.total_len ≤ max_storage_size
    → bytes_at img off ≡ flat (map encoded ds) ++ spare
    → (ks' : List KeyInfo) × (fill_list m img (length ds) off ks ≡ (success, ks')) × Lists ds ks ks'
unfolding flat
fill_list-Lists m img off [] spare ks sec mem fit h roomy few low t small at =
    (ks, unfold fill_list in refl, over ks)
fill_list-Lists m img off (d ∷ ds) spare [] sec mem fit h roomy few low t small at =
    absurd (omega arith)
fill_list-Lists m img off (d ∷ ds) spare (k ∷ ks) sec mem fit h roomy few low t small at =
    let r = encoded d in
    let rest = flat (map encoded ds) in
    let there : bytes_at img off ≡ r ++ (rest ++ spare) = at ∙ append_assoc r rest spare in
    let behind : bytes_at img (off + length r) ≡ rest ++ spare =
      bytes_at_add img off (length r) low
      ∙ ap (drop (length r)) there
      ∙ drop-append r (rest ++ spare) in
    let n = length-append r rest in
    let (k', e, tells) = get_key_info-Tells m k d sec mem fit.0 h.0 roomy.0 in
    let (ks', f, lists) =
      fill_list-Lists m img (off + length r) ds spare ks sec mem fit.1 h.1 roomy.1 (omega arith)
        (omega arith) (omega arith) small behind in
    (
      k' ∷ ks',
      fill_list-round m img r (rest ++ spare) (length ds) off k k' ks h.0 there (omega arith) small
            e
          ∙ ap (with_entry (success, k') ks) f,
      next tells lists,
    )

length-encoded : (ds : List Members) → length (map encoded ds) ≡ length ds
length-encoded [] = refl
length-encoded (d ∷ ds) = ap suc (length-encoded ds)

-- Where there is memory, HksStoreGetKeyInfoList of a store that keeps some keys, into an array of at
-- least as many entries, each with room for the largest alias and the largest set, succeeds and
-- counts the keys. The keys are given by the members of their structs. The entries of the array tell of
-- them in their order, each with its alias and with a parameter set that has, by tag, exactly the flag,
-- algorithm, purpose, length, digest, padding, mode, role and domain of the key, and the size and the
-- bytes of its identity if it has one; the pointer to those bytes is left in the set that is freed.
-- The entries behind stay as they were.
pub get_key_info_list-Lists :
    (m : Memory) (s : Store) (ds : List Members) (ks : List KeyInfo)
    → IsSecurec m
    → HasMemory m
    → All IsFit ds
    → Keeps s (map encoded ds)
    → All IsRoomy ks
    → length ds ≤ length ks
    → (ks' : List KeyInfo) × (hks_store_get_key_info_list m s ks ≡ (success, ks', length ds))
      × Lists ds ks ks'
unfolding hks_store_get_key_info_list get_and_check_key_count fill_from
get_key_info_list-Lists m s ds ks sec mem fit k roomy few =
    let rs = map encoded ds in
    let img = k.img in
    let h = k.held in
    let all : bytes_at img store_header_size ≡ flat rs ++ h.spare = unfold bytes_at in h.laid in
    let size : length img.body ≡ length (flat rs) + length h.spare =
      ap length h.laid ∙ length-append (flat rs) h.spare in
    let counted : img.head.key_count ≡ length ds = h.counted ∙ length-encoded ds in
    let fits : ltb (image_size img) img.head.total_len ≡ false = ground (arith, size, h.total) in
    let enough : ltb (length ks) (length ds) ≡ false = ground arith in
    let (ks', e, lists) =
      fill_list-Lists m img store_header_size ds h.spare ks sec mem fit h.records roomy few
        (omega arith) h.total h.bounded all in
    let count : get_and_check_key_count (some img) (length ks) ≡ ok (length ds) =
      unfold get_and_check_key_count in
      rw counted (elim (Bool-cases (length ds == 0)) [
        | inl z ↦ rw z (ap ok (ground (arith, z)))
        | inr z ↦ rw (z, fits, enough) refl
      ]) in
    (ks', rw (k.there, count, e) refl, lists)
