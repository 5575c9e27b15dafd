-- ===== src/StorageLite/Members.antt =====
-- A key in the image of hks_storage_lite.c by the members of its struct, in the order of `struct
-- HksStoreKeyInfo`, and what hks_storage_adapter.c reads of them.
use security_huks.Prelude.{
  ℕ, ◌+◌, ◌*◌, ◌/◌, ◌%◌, ◌^◌, ◌<◌, ◌≡◌, refl, sym, ap, ◌∙◌, true, inl, inr, List, [], ◌∷◌, ◌++◌,
  map, length, take, take-append, append-nil, take-length, subst, drop, drop-append, ◌==◌,
  if◌then◌else◌, Bool-cases, All, arith,
}
use security_huks.ParamSet.{Param, ParamSet, freed, inside, is_bytes, get_tag_type, read}
use security_huks.ParamSet.Tags.{
  tag_algorithm, tag_purpose, tag_key_size, tag_digest, tag_padding, tag_block_mode,
  tag_key_auth_id, tag_key_role, tag_key_flag, tag_key_domain,
}
use security_huks.ParamSet.Build.{dangle, dangle_at}
use security_huks.ParamSet.Size.{extended, blob_size}
use security_huks.ParamSet.Layout.{Laid, shape, shapes, view, all_views}
use security_huks.Ipc.{le_bytes, le_u32}
use security_huks.Ipc.Buffer.{drop-drop}
use security_huks.StorageLite.{
  head_byte, le_u16, le_bytes_16, alias_size, auth_id_size, alias_of, key_info_size,
}
use security_huks.StorageLite.Cut.{nil_of}
use security_huks.StorageLite.KeyInfos.{bytes_param, storage_fixed_params, auth_id_of}
use security_huks.StorageLite.Described.{described, auth_params}

pub record Members : Type 0 where
  pub random : List ℕ
  pub flag : ℕ
  pub key_alg : ℕ
  pub key_mode : ℕ
  pub digest : ℕ
  pub padding : ℕ
  pub rsv : ℕ
  pub key_len : ℕ
  pub purpose : ℕ
  pub role : ℕ
  pub domain : ℕ
  pub alias : List ℕ
  pub auth_id : List ℕ
  pub key : List ℕ

-- The members have the widths of the struct.
pub record IsFit (d : Members) : Type 0 where
  pub random : length d.random ≡ 16
  pub key_len : d.key_len < 2 ^ 16
  pub purpose : d.purpose < 2 ^ 32
  pub role : d.role < 2 ^ 32
  pub domain : d.domain < 2 ^ 16

-- The bytes from `flag` on.
unfoldable from_flag : Members → List ℕ
from_flag d =
    d.flag
    ∷ d.key_alg
    ∷ d.key_mode
    ∷ d.digest
    ∷ d.padding
    ∷ d.rsv
    ∷ (le_bytes_16 d.key_len
        ++ (le_bytes d.purpose
            ++ (le_bytes d.role
                ++ (le_bytes_16 d.domain
                    ++ (length d.alias ∷ length d.auth_id ∷ (d.alias ++ (d.auth_id ++ d.key)))))))

-- The key as it stands in the image.
unfoldable pub encoded : Members → List ℕ
unfolding from_flag
encoded d =
    le_bytes_16 (40 + length d.alias + length d.auth_id + length d.key)
    ++ (le_bytes_16 (length d.key) ++ (d.random ++ from_flag d))

-- The entries of the set that tells of a key: tag, value and size of the blob.
abbrev pub told : Members → List (ℕ × ℕ × ℕ)
told d =
    (tag_key_flag, d.flag, 0)
    ∷ (tag_algorithm, d.key_alg, 0)
    ∷ (tag_purpose, d.purpose, 0)
    ∷ (tag_key_size, d.key_len, 0)
    ∷ (tag_digest, d.digest, 0)
    ∷ (tag_padding, d.padding, 0)
    ∷ (tag_block_mode, d.key_mode, 0)
    ∷ (tag_key_role, d.role, 0)
    ∷ (tag_key_domain, d.domain, 0)
    ∷ (if length d.auth_id == 0 then [] else (tag_key_auth_id, 0, length d.auth_id) ∷ [])

shapes-append : (xs ys : List Param) → shapes (xs ++ ys) ≡ shapes xs ++ shapes ys
shapes-append [] ys = refl
shapes-append (x ∷ xs) ys = ap (◌∷◌ (shape x)) (shapes-append xs ys)

module _ (d : Members) (fit : IsFit d) where
  behind : (k : ℕ) → drop (20 + k) (encoded d) ≡ drop k (from_flag d)
  behind k =
      let front : drop 20 (encoded d) ≡ from_flag d =
        unfold encoded le_bytes_16 in
        subst (λ n. drop n (d.random ++ from_flag d) ≡ from_flag d) fit.random
          (drop-append d.random (from_flag d)) in
      sym (drop-drop 20 k (encoded d)) ∙ ap (drop k) front

  alias_size-encoded : alias_size (encoded d) ≡ length d.alias
  unfolding alias_size
  alias_size-encoded =
      ap head_byte (behind 18) ∙ unfold head_byte from_flag le_bytes le_bytes_16 in refl

  auth_id_size-encoded : auth_id_size (encoded d) ≡ length d.auth_id
  unfolding auth_id_size
  auth_id_size-encoded =
      ap head_byte (behind 19) ∙ unfold head_byte from_flag le_bytes le_bytes_16 in refl

  names : drop key_info_size (encoded d) ≡ d.alias ++ (d.auth_id ++ d.key)
  names = behind 20 ∙ unfold from_flag le_bytes le_bytes_16 in refl

  pub alias_of-encoded : alias_of (encoded d) ≡ d.alias
  unfolding alias_of
  alias_of-encoded = rw (alias_size-encoded, names) (take-append d.alias (d.auth_id ++ d.key))

  pub auth_id_of-encoded : auth_id_of (encoded d) ≡ d.auth_id
  unfolding auth_id_of
  auth_id_of-encoded =
      rw (alias_size-encoded, auth_id_size-encoded, names)
        (ap (take (length d.auth_id)) (drop-append d.alias (d.auth_id ++ d.key))
          ∙ take-append d.auth_id d.key)

  word : (n : ℕ) → n < 2 ^ 16 → n % 256 + 256 * (n / 256 % 256) ≡ n
  word n h = omega arith

  long :
      (n : ℕ)
      → n < 2 ^ 32
      → n % 256
          + 256 * (n / 256 % 256)
          + 65536 * (n / 65536 % 256)
          + 16777216 * (n / 16777216 % 256)
        ≡ n
  long n h = omega arith

  -- The members, one by one.
  fixed-told :
      shapes (storage_fixed_params (encoded d))
      ≡ (tag_key_flag, d.flag, 0)
        ∷ (tag_algorithm, d.key_alg, 0)
        ∷ (tag_purpose, d.purpose, 0)
        ∷ (tag_key_size, d.key_len, 0)
        ∷ (tag_digest, d.digest, 0)
        ∷ (tag_padding, d.padding, 0)
        ∷ (tag_block_mode, d.key_mode, 0)
        ∷ (tag_key_role, d.role, 0)
        ∷ (tag_key_domain, d.domain, 0)
        ∷ []
  unfolding storage_fixed_params from_flag head_byte le_u16 le_u32 le_bytes le_bytes_16
  fixed-told =
      let key_len : le_u16 (drop 26 (encoded d)) ≡ d.key_len =
        ap le_u16 (behind 6) ∙ word d.key_len fit.key_len in
      let purpose : le_u32 (drop 28 (encoded d)) ≡ d.purpose =
        ap le_u32 (behind 8) ∙ long d.purpose fit.purpose in
      let role : le_u32 (drop 32 (encoded d)) ≡ d.role =
        ap le_u32 (behind 12) ∙ long d.role fit.role in
      let domain : le_u16 (drop 36 (encoded d)) ≡ d.domain =
        ap le_u16 (behind 16) ∙ word d.domain fit.domain in
      λ i.
        (tag_key_flag, head_byte (behind 0 i), 0)
        ∷ (tag_algorithm, head_byte (behind 1 i), 0)
        ∷ (tag_purpose, purpose i, 0)
        ∷ (tag_key_size, key_len i, 0)
        ∷ (tag_digest, head_byte (behind 3 i), 0)
        ∷ (tag_padding, head_byte (behind 4 i), 0)
        ∷ (tag_block_mode, head_byte (behind 2 i), 0)
        ∷ (tag_key_role, role i, 0)
        ∷ (tag_key_domain, domain i, 0)
        ∷ []

  auth-told :
      shapes (auth_params (encoded d))
      ≡ (if length d.auth_id == 0 then [] else (tag_key_auth_id, 0, length d.auth_id) ∷ [])
  unfolding auth_params
  auth-told = rw auth_id_size-encoded (elim (Bool-cases (length d.auth_id == 0)) [
    | inl e ↦ rw e refl
    | inr e ↦ rw e (ap (λ (bs : List ℕ). (tag_key_auth_id, 0, length bs) ∷ []) auth_id_of-encoded)
  ])

  pub described-told : shapes (described (encoded d)).params ≡ told d
  unfolding extended
  described-told =
      shapes-append (storage_fixed_params (encoded d)) (auth_params (encoded d))
      ∙ ap (λ (xs : List (ℕ × ℕ × ℕ)). xs ++ shapes (auth_params (encoded d))) fixed-told
      ∙ ap
          (λ (xs : List (ℕ × ℕ × ℕ)).
            (tag_key_flag, d.flag, 0)
            ∷ (tag_algorithm, d.key_alg, 0)
            ∷ (tag_purpose, d.purpose, 0)
            ∷ (tag_key_size, d.key_len, 0)
            ∷ (tag_digest, d.digest, 0)
            ∷ (tag_padding, d.padding, 0)
            ∷ (tag_block_mode, d.key_mode, 0)
            ∷ (tag_key_role, d.role, 0)
            ∷ (tag_key_domain, d.domain, 0)
            ∷ xs)
          auth-told

  auth-views : (s : ParamSet) → all_views s (auth_params (encoded d)) ≡ d.auth_id
  unfolding auth_params all_views
  auth-views s = rw auth_id_size-encoded (elim (Bool-cases (length d.auth_id == 0)) [
    | inl e ↦ rw e (sym (nil_of d.auth_id (ground (arith, e))))
    | inr e ↦
        let whole : view s (bytes_param tag_key_auth_id (auth_id_of (encoded d)))
            ≡ auth_id_of (encoded d) =
          unfold view is_bytes get_tag_type read in take-length (auth_id_of (encoded d)) in
        rw e (append-nil _ ∙ whole ∙ auth_id_of-encoded)
  ])

  -- The identity is all that is copied behind the entries.
  pub described-views : all_views (described (encoded d)) (described (encoded d)).params ≡ d.auth_id
  described-views =
      let s = described (encoded d) in
      let front : all_views s s.params ≡ all_views s (auth_params (encoded d)) =
        unfold extended all_views view is_bytes get_tag_type storage_fixed_params in refl in
      front ∙ auth-views s

-- What becomes of the entries of a set that was built when the set is copied elsewhere.
shape-dangle : (p : Param) → shape (dangle p) ≡ shape p
unfolding dangle
shape-dangle p = elim (Bool-cases (is_bytes p)) [ inl e ↦ rw e refl | inr e ↦ rw e refl ]

pub shapes-dangle : (ps : List Param) → shapes (map dangle ps) ≡ shapes ps
shapes-dangle [] = refl
shapes-dangle (p ∷ ps) = λ i. shape-dangle p i ∷ shapes-dangle ps i

freed_there :
    (off : ℕ) (p : Param)
    → (is_bytes p ≡ true → p.blob.ptr ≡ inside off)
    → is_bytes (dangle p) ≡ true
    → (dangle p).blob.ptr ≡ freed
unfolding dangle
freed_there off p h = elim (Bool-cases (is_bytes p)) [
  | inl e ↦ rw e (λ _. ap dangle_at (h e) ∙ (unfold dangle_at in refl))
  | inr e ↦ rw e (λ b. absurd (cc))
]

pub freed-dangle :
    (off : ℕ) (ps : List Param)
    → Laid off ps
    → All (λ p. is_bytes p ≡ true → p.blob.ptr ≡ freed) (map dangle ps)
freed-dangle off [] h = tt
freed-dangle off (p ∷ ps) h = (freed_there off p h.0, freed-dangle (off + blob_size p) ps h.1)
