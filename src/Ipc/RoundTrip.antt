-- ===== src/Ipc/RoundTrip.antt =====
-- The calls that pack the arguments of a request against the calls that unpack them: the Hks...Pack
-- functions of hks_client_ipc_serialization.c and the Hks...Unpack functions of
-- hks_service_ipc_serialization.c.
use security_huks.Prelude.{
  ℕ, ◌+◌, ◌^◌, ◌≤◌, ◌<◌, ◌≡◌, refl, true, false, List, [], drop, length, arith,
}
use security_huks.Status.{Status, success}
use security_huks.Memory.{Memory, IsSecurec, hks_malloc}
use security_huks.ParamSet.{ParamSet}
use security_huks.ParamSet.Build.{fresh_param_set}
use security_huks.Ipc.{
  Cursor, Writer, ◌>>◌, Reader, got, ◌>>=◌, return, align_size, le_u32, is_invalid_length,
}
use security_huks.Ipc.Client.{
  copy_uint32_to_buffer, copy_blob_to_buffer, copy_param_set_to_buffer, import_key_pack,
  import_wrapped_key_pack, agree_key_pack, derive_key_pack, from_start,
}
use security_huks.Ipc.Service.{
  Abi, IsAbi, get_blob_from_buffer, get_param_set_from_buffer, get_key_and_param_set_from_buffer,
  malloc_blob_from_buffer, import_key_unpack, import_wrapped_key_unpack, agree_key_unpack,
  derive_key_unpack,
}
use security_huks.Ipc.Sent.{Sends, Sends-then, Sends-assoc, Sends-map, length-written}
use security_huks.Ipc.Blobs.{Sends-blob}
use security_huks.Ipc.Copied.{Sends-param_set, Sends-malloc_blob}

-- A request was packed, and is unpacked to `a`, with nothing left of what was packed.
abbrev pub Delivers : {A : Type 0} → Status × Cursor → Reader A → A → Type 0
Delivers p r a = (p.0 ≡ success) × (r p.1.bytes 0 ≡ got a p.1.offset)

pub Delivers-Sends :
    {A : Type 0} {w : Writer} {r : Reader A} {a : A} {n : ℕ} (dest : List ℕ)
    → Sends w r a n
    → n ≤ length dest
    → length dest < 2 ^ 32
    → Delivers (w (from_start dest)) r a
Delivers-Sends {n = n} dest x room fits =
    let s = x [] dest fits room in
    rw s.wrote (
      refl,
      s.reads (drop n dest) (omega (arith, fits, length-written [] s.chunk dest n s.filled room)),
    )

-- The bytes that a blob takes in a buffer.
abbrev pub blob_room : List ℕ → ℕ
blob_room blob = 4 + align_size (length blob)

module _ (m : Memory) (abi : Abi) (set_ : List ℕ) (securec : IsSecurec m) (is_abi : IsAbi abi)
    (own : le_u32 set_ ≡ length set_)
    (fresh : (fresh_param_set m (abi.layout set_) false).0 ≡ success) where
  abbrev received : ParamSet
  received = (fresh_param_set m (abi.layout set_) false).1

  Sends-named :
      (key_alias : List ℕ)
      → length key_alias + 3 < 2 ^ 32
      → Sends
          (copy_blob_to_buffer m key_alias >> copy_param_set_to_buffer m set_)
          (get_key_and_param_set_from_buffer m abi)
          (key_alias, received)
          (blob_room key_alias + align_size (length set_))
  unfolding get_key_and_param_set_from_buffer
  Sends-named key_alias small =
      Sends-then (λ a. get_param_set_from_buffer m abi >>= λ s. return (a, s))
        (Sends-blob m key_alias securec small)
        (Sends-map (λ s. (key_alias, s)) (Sends-param_set m abi set_ securec is_abi own fresh))

  -- HksImportKeyPack of an alias, of a parameter set that HksFreshParamSet accepts and whose size
  -- field is its length, and of a key, into a buffer with room for them, succeeds, and
  -- HksImportKeyUnpack of that buffer returns the alias, the set with its pointers set, and the key,
  -- and ends at the offset that packing reached.
  -- All sizes, also after alignment, fit 32 bits; memcpy_s is as securec documents, and the layout
  -- of a set as the compiler's ABI has it.
  pub import_key_unpack-pack :
      (dest key_alias key : List ℕ)
      → length key_alias + 3 < 2 ^ 32
      → length key + 3 < 2 ^ 32
      → blob_room key_alias + align_size (length set_) + blob_room key ≤ length dest
      → length dest < 2 ^ 32
      → Delivers
          (import_key_pack m dest key_alias set_ key)
          (import_key_unpack m abi)
          (key_alias, (fresh_param_set m (abi.layout set_) false).1, key)
  unfolding import_key_pack import_key_unpack
  import_key_unpack-pack dest key_alias key small small' room fits =
      Delivers-Sends dest
        (Sends-then (λ named. get_blob_from_buffer >>= λ k. return (named.0, named.1, k))
          (Sends-named key_alias small)
          (Sends-map (λ k. (key_alias, received, k)) (Sends-blob m key securec small')))
        room fits

  -- HksImportWrappedKeyPack of two aliases, of a parameter set that HksFreshParamSet accepts and
  -- whose size field is its length, and of a wrapped key, into a buffer with room for them, succeeds,
  -- and HksImportWrappedKeyUnpack of that buffer returns the same, the set with its pointers set.
  -- All sizes, also after alignment, fit 32 bits; memcpy_s is as securec documents, and the layout
  -- of a set as the compiler's ABI has it.
  pub import_wrapped_key_unpack-pack :
      (dest key_alias wrapping_key_alias wrapped_key_data : List ℕ)
      → length key_alias + 3 < 2 ^ 32
      → length wrapping_key_alias + 3 < 2 ^ 32
      → length wrapped_key_data + 3 < 2 ^ 32
      → blob_room key_alias
          + (blob_room wrapping_key_alias + (align_size (length set_) + blob_room wrapped_key_data))
        ≤ length dest
      → length dest < 2 ^ 32
      → Delivers
          (import_wrapped_key_pack m dest key_alias wrapping_key_alias set_ wrapped_key_data)
          (import_wrapped_key_unpack m abi)
          (
            key_alias,
            wrapping_key_alias,
            (fresh_param_set m (abi.layout set_) false).1,
            wrapped_key_data,
          )
  unfolding import_wrapped_key_pack import_wrapped_key_unpack
  import_wrapped_key_unpack-pack dest a w k small small' small'' room fits =
      Delivers-Sends dest
        (Sends-assoc (copy_blob_to_buffer m a >> copy_blob_to_buffer m w)
          (copy_param_set_to_buffer m set_) (copy_blob_to_buffer m k)
          (Sends-assoc (copy_blob_to_buffer m a) (copy_blob_to_buffer m w)
            (copy_param_set_to_buffer m set_ >> copy_blob_to_buffer m k)
            (Sends-then
              (λ x. get_blob_from_buffer >>= λ y. get_param_set_from_buffer m abi >>= λ s.
                get_blob_from_buffer >>= λ z. return (x, y, s, z))
              (Sends-blob m a securec small)
              (Sends-then
                (λ y. get_param_set_from_buffer m abi >>= λ s.
                  get_blob_from_buffer >>= λ z. return (a, y, s, z))
                (Sends-blob m w securec small')
                (Sends-then (λ s. get_blob_from_buffer >>= λ z. return (a, w, s, z))
                  (Sends-param_set m abi set_ securec is_abi own fresh)
                  (Sends-map (λ z. (a, w, received, z)) (Sends-blob m k securec small'')))))))
        room fits

  -- HksAgreeKeyPack of a parameter set that HksFreshParamSet accepts and whose size field is its
  -- length, of two keys and of a size, into a buffer with room for them, succeeds, and
  -- HksAgreeKeyUnpack of that buffer returns the same, the set with its pointers set, and a block of
  -- that size, where the size is valid and memory is found for it.
  -- All sizes, also after alignment, fit 32 bits; memcpy_s is as securec documents, and the layout
  -- of a set as the compiler's ABI has it.
  pub agree_key_unpack-pack :
      (dest private_key peer_public_key : List ℕ) (size : ℕ)
      → length private_key + 3 < 2 ^ 32
      → length peer_public_key + 3 < 2 ^ 32
      → is_invalid_length size ≡ false
      → hks_malloc m size ≡ true
      → align_size (length set_) + (blob_room private_key + (blob_room peer_public_key + 4))
        ≤ length dest
      → length dest < 2 ^ 32
      → Delivers
          (agree_key_pack m dest set_ private_key peer_public_key size)
          (agree_key_unpack m abi)
          ((fresh_param_set m (abi.layout set_) false).1, private_key, peer_public_key, size)
  unfolding agree_key_pack agree_key_unpack
  agree_key_unpack-pack dest k p size small small' valid memory room fits =
      Delivers-Sends dest
        (Sends-assoc (copy_param_set_to_buffer m set_ >> copy_blob_to_buffer m k)
          (copy_blob_to_buffer m p) (copy_uint32_to_buffer size)
          (Sends-assoc (copy_param_set_to_buffer m set_) (copy_blob_to_buffer m k)
            (copy_blob_to_buffer m p >> copy_uint32_to_buffer size)
            (Sends-then
              (λ s. get_blob_from_buffer >>= λ x. get_blob_from_buffer >>= λ y.
                malloc_blob_from_buffer m abi >>= λ z. return (s, x, y, z))
              (Sends-param_set m abi set_ securec is_abi own fresh)
              (Sends-then
                (λ x. get_blob_from_buffer >>= λ y.
                  malloc_blob_from_buffer m abi >>= λ z. return (received, x, y, z))
                (Sends-blob m k securec small)
                (Sends-then (λ y. malloc_blob_from_buffer m abi >>= λ z. return (received, k, y, z))
                  (Sends-blob m p securec small')
                  (Sends-map (λ z. (received, k, p, z))
                    (Sends-malloc_blob m abi size valid memory)))))))
        room fits

  -- HksDeriveKeyPack of a parameter set that HksFreshParamSet accepts and whose size field is its
  -- length, of a key and of a size, into a buffer with room for them, succeeds, and HksDeriveKeyUnpack
  -- of that buffer returns the same, the set with its pointers set, and a block of that size, where
  -- the size is valid and memory is found for it.
  -- All sizes, also after alignment, fit 32 bits; memcpy_s is as securec documents, and the layout
  -- of a set as the compiler's ABI has it.
  derive_key_unpack-pack :
      (dest kdf_key : List ℕ) (size : ℕ)
      → length kdf_key + 3 < 2 ^ 32
      → is_invalid_length size ≡ false
      → hks_malloc m size ≡ true
      → align_size (length set_) + (blob_room kdf_key + 4) ≤ length dest
      → length dest < 2 ^ 32
      → Delivers
          (derive_key_pack m dest set_ kdf_key size)
          (derive_key_unpack m abi)
          ((fresh_param_set m (abi.layout set_) false).1, kdf_key, size)
  unfolding derive_key_pack derive_key_unpack
  derive_key_unpack-pack dest k size small valid memory room fits =
      Delivers-Sends dest
        (Sends-assoc (copy_param_set_to_buffer m set_) (copy_blob_to_buffer m k)
          (copy_uint32_to_buffer size)
          (Sends-then
            (λ s.
              get_blob_from_buffer >>= λ x. malloc_blob_from_buffer m abi >>= λ y. return (s, x, y))
            (Sends-param_set m abi set_ securec is_abi own fresh)
            (Sends-then (λ x. malloc_blob_from_buffer m abi >>= λ y. return (received, x, y))
              (Sends-blob m k securec small)
              (Sends-map (λ y. (received, k, y)) (Sends-malloc_blob m abi size valid memory)))))
        room fits
