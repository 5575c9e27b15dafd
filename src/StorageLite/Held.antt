-- ===== src/StorageLite/Held.antt =====
-- `StoreKeyBlob` and the deletion of a key in hks_storage_lite.c, on an image that holds keys.
use security_huks.Prelude.{
  ℕ, ◌+◌, ◌-◌, ◌^◌, ◌≤◌, ◌<◌, ◌≡◌, refl, sym, ap, ◌∙◌, true, false, List, [], ◌∷◌, ◌++◌, length,
  length-append, ltb, All, All-append, append-nil, add32, arith,
}
use security_huks.Status.{success, storage_failure}
use security_huks.Memory.{Memory, IsSecurec}
use security_huks.ParamSet.{is_addition_overflow}
use security_huks.Check.{ok, error}
use security_huks.StorageLite.{
  Header, Image, Device, store_header_size, max_storage_size, sealed_bytes,
}
use security_huks.StorageLite.Load.{calc_header_mac, refresh_hmac}
use security_huks.StorageLite.Keys.{get_len_after_add_key, append_new_key, append_to}
use security_huks.StorageLite.Operate.{new_header, replace_header, and_then}
use security_huks.StorageLite.Records.{IsRecord, valid_len, flat, flat-append}
use security_huks.StorageLite.Find.{Distinct, Holds}
use security_huks.StorageLite.Splice.{HasMemory, hks_malloc-HasMemory, append_to-splice}
use security_huks.StorageLite.Cut.{Starts}

-- The members of a header, other than the counters, fit their types.
pub record IsShaped (h : Header) : Type 0 where
  pub version : h.version < 2 ^ 16
  pub alg : h.sealing_alg < 2 ^ 32
  pub salt : length h.salt ≡ 16

-- What surrounds the calls does what they ask of it.
pub record IsGood (d : Device) : Type 0 where
  pub securec : IsSecurec d.memory
  pub memory : HasMemory d.memory
  pub mac :
      (h : Header)
      → IsShaped h
      → (t : List ℕ) × (calc_header_mac d h.salt (sealed_bytes h) ≡ ok t) × (length t ≡ 64)

-- The HMAC of a header is that of its other members.
pub record IsSealed (d : Device) (h : Header) : Type 0 where
  pub shape : IsShaped h
  pub mac : calc_header_mac d h.salt (sealed_bytes h) ≡ ok h.hmac
  pub size : length h.hmac ≡ 64

module _ (d : Device) (good : IsGood d) where
  -- A header of its own differs from the one given by its HMAC.
  pub new_header-IsGood :
      (h : Header)
      → IsShaped h
      → (t : List ℕ) × (new_header d h ≡ ok (record h { hmac = t }))
        × IsSealed d (record h { hmac = t })
  unfolding new_header refresh_hmac sealed_bytes
  new_header-IsGood h p =
      let (t, e, n) = good.mac h p in
      let f = good.securec.fits store_header_size store_header_size (omega arith) (omega arith) in
      let g =
        hks_malloc-HasMemory d.memory store_header_size good.memory (omega arith) (omega arith) in
      (
        t,
        rw (f, g, e) refl,
        record {
          shape = record { version = p.version; alg = p.alg; salt = p.salt };
          mac = e;
          size = n;
        },
      )

  pub replace_header-IsGood :
      (h : Header) (img : Image)
      → replace_header d.memory h img ≡ (success, record img { head = h })
  unfolding replace_header
  replace_header-IsGood h img =
      rw (good.securec.fits store_header_size store_header_size (omega arith) (omega arith)) refl

-- The length of a store with one more key.
pub get_len-fits :
    (K : List ℕ) (total : ℕ)
    → total + length K ≤ max_storage_size
    → get_len_after_add_key K total ≡ ok (total + length K)
unfolding get_len_after_add_key
get_len-fits K total fits =
    let e : add32 total (length K) ≡ total + length K = omega arith in
    let g : ltb (2 ^ 32 - 1 - total) (length K) ≡ false = ground arith in
    let l : ltb max_storage_size (total + length K) ≡ false = ground arith in
    unfold is_addition_overflow in rw (g, e, l) refl

pub get_len-full :
    (K : List ℕ) (total : ℕ)
    → max_storage_size < total + length K
    → total + length K < 2 ^ 32
    → get_len_after_add_key K total ≡ error storage_failure
unfolding get_len_after_add_key
get_len-full K total full small =
    let e : add32 total (length K) ≡ total + length K = omega arith in
    let g : ltb (2 ^ 32 - 1 - total) (length K) ≡ false = ground arith in
    let l : ltb max_storage_size (total + length K) ≡ true = ground arith in
    unfold is_addition_overflow in rw (g, e, l) refl

length-flat :
    (before behind : List (List ℕ)) (key : List ℕ)
    → length (flat (before ++ (key ∷ behind)))
      ≡ length (flat before) + length key + length (flat behind)
unfolding flat
length-flat before behind key = omega (
  arith,
  ap length (flat-append before (key ∷ behind)),
  length-append (flat before) (key ++ flat behind),
  length-append key (flat behind),
)

-- Keys are not empty, so that there are no more of them than bytes.
pub length-le-flat : (rs : List (List ℕ)) → All IsRecord rs → length rs ≤ length (flat rs)
unfolding flat
length-le-flat [] h = omega arith
length-le-flat (r ∷ rs) h =
    omega
      (arith, length-append r (flat rs), length-le-flat rs h.1, valid_len r h.0.valid, h.0.whole)

pub length_without :
    (before behind : List (List ℕ)) (key : List ℕ)
    → length (before ++ (key ∷ behind)) ≡ length (before ++ behind) + 1
length_without [] behind key = omega arith
length_without (r ∷ before) behind key = omega (arith, length_without before behind key)

append_new_key-fits :
    (m : Memory) (img : Image) (K : List ℕ)
    → img.head.total_len + length K ≤ max_storage_size
    → append_new_key m img K ≡ append_to m img K (img.head.total_len + length K)
unfolding append_new_key
append_new_key-fits m img K fits = rw (get_len-fits K img.head.total_len fits, append_new_key) refl

-- The last steps of `StoreKeyBlob`: a key comes behind those that are left, and the header is
-- replaced.
pub append_and_replace :
    (d : Device) (good : IsGood d) (img : Image) (h : Header) (K : List ℕ) (rs : List (List ℕ))
    → Starts img (flat rs)
    → img.head.total_len ≡ store_header_size + length (flat rs)
    → img.head.total_len + length K ≤ max_storage_size
    → IsRecord K
    → All IsRecord rs
    → Distinct (rs ++ K ∷ [])
    → h.key_count ≡ length rs + 1
    → h.total_len ≡ img.head.total_len + length K
    → (img' : Image) × (and_then (append_new_key d.memory img K) (replace_header d.memory h)
        ≡ (success, img'))
      × Holds img' (rs ++ K ∷ [])
      × (img'.head ≡ h)
append_and_replace d good img h K rs (spare, body) total fits rec recs dist count sum =
    let long = valid_len K rec.valid in
    let l = append_new_key-fits d.memory img K fits in
    let (img', e, _, (spare', body')) =
      append_to-splice d.memory img (flat rs) spare K (img.head.total_len + length K) good.securec
        good.memory body total refl fits (omega (arith, long, rec.whole)) in
    let f : flat (rs ++ K ∷ []) ≡ flat rs ++ K =
      flat-append rs (K ∷ []) ∙ (unfold flat in ap (◌++◌ (flat rs)) (append-nil K)) in
    let n : length (flat rs ++ K) ≡ length (flat rs) + length K = length-append (flat rs) K in
    (
      record img' { head = h },
      ap (λ r. and_then r (replace_header d.memory h)) (l ∙ e)
          ∙ replace_header-IsGood d good h img',
      record {
        records = All-append IsRecord rs (K ∷ []) recs (rec, tt);
        distinct = dist;
        counted = count ∙ sym (length-append rs (K ∷ []));
        total = rw f (omega (arith, n, sum, total));
        bounded = omega arith;
        spare = spare';
        laid = body' ∙ ap (λ (t : List ℕ). t ++ spare') (sym f);
      },
      refl,
    )
