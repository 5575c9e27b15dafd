-- ===== src/Ipc/Delete.antt =====
-- HksDeleteKeyPack of hks_client_ipc_serialization.c against HksDeleteKeyUnpack of
-- hks_service_ipc_serialization.c, which reads a parameter set only where something is left of the
-- buffer.
use security_huks.Prelude.{
  ℕ, ◌+◌, ◌^◌, ◌≤◌, ◌<◌, ◌≡◌, refl, false, some, ◌++◌, ◌==◌, length-append, List, length, arith,
}
use security_huks.Status.{success}
use security_huks.Memory.{Memory, IsSecurec}
use security_huks.ParamSet.{ParamSet}
use security_huks.ParamSet.Build.{fresh_param_set}
use security_huks.Ipc.{◌>>=◌, return, align_size, le_u32}
use security_huks.Ipc.Client.{copy_param_set_to_buffer, delete_key_pack}
use security_huks.Ipc.Service.{Abi, IsAbi, get_param_set_if_left, delete_key_unpack}
use security_huks.Ipc.Sent.{Sends, Sends-then, Sends-map}
use security_huks.Ipc.Blobs.{Sends-blob}
use security_huks.Ipc.Copied.{Sends-param_set, fresh_param_set-sized}
use security_huks.Ipc.Buffer.{align_size-bounds}
use security_huks.Ipc.RoundTrip.{Delivers, Delivers-Sends, blob_room}

module _ (m : Memory) (abi : Abi) (set_ : List ℕ) (securec : IsSecurec m) (is_abi : IsAbi abi)
    (own : le_u32 set_ ≡ length set_)
    (fresh : (fresh_param_set m (abi.layout set_) false).0 ≡ success) where
  abbrev received : ParamSet
  received = (fresh_param_set m (abi.layout set_) false).1

  -- The set stands at the end of the request, so there is something left of the buffer.
  Sends-if_left :
      Sends
        (copy_param_set_to_buffer m set_)
        (get_param_set_if_left m abi)
        (some received)
        (align_size (length set_))
  unfolding get_param_set_if_left
  Sends-if_left pre old fits room =
      let s = Sends-param_set m abi set_ securec is_abi own fresh pre old fits room in
      let size = fresh_param_set-sized m (abi.layout set_) fresh in
      let b = align_size-bounds (length set_) (omega (arith, size, is_abi.size_first set_, own)) in
      record {
        chunk = s.chunk;
        filled = s.filled;
        wrote = s.wrote;
        reads = λ rest fits'.
            let more : (length pre == length ((pre ++ s.chunk) ++ rest)) ≡ false = ground (
              arith,
              length-append (pre ++ s.chunk) rest,
              length-append pre s.chunk,
              s.filled,
              b,
              size,
              is_abi.size_first set_,
              own,
            ) in
            rw (get_param_set_if_left, more, s.reads rest fits') refl;
      }

  -- HksDeleteKeyPack of an alias and of a parameter set that HksFreshParamSet accepts and whose
  -- size field is its length, into a buffer with room for them, succeeds, and HksDeleteKeyUnpack of
  -- that buffer returns the alias and the set with its pointers set.
  -- All sizes, also after alignment, fit 32 bits; memcpy_s is as securec documents, and the layout
  -- of a set as the compiler's ABI has it.
  pub delete_key_unpack-pack :
      (dest key_alias : List ℕ)
      → length key_alias + 3 < 2 ^ 32
      → blob_room key_alias + align_size (length set_) ≤ length dest
      → length dest < 2 ^ 32
      → Delivers
          (delete_key_pack m key_alias set_ dest)
          (delete_key_unpack m abi)
          (key_alias, some (fresh_param_set m (abi.layout set_) false).1)
  unfolding delete_key_pack delete_key_unpack
  delete_key_unpack-pack dest key_alias small room fits =
      Delivers-Sends dest
        (Sends-then (λ a. get_param_set_if_left m abi >>= λ s. return (a, s))
          (Sends-blob m key_alias securec small) (Sends-map (λ s. (key_alias, s)) Sends-if_left))
        room fits
