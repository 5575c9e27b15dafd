-- ===== src/Ipc/Tests.antt =====
-- Requests on concrete buffers, with the layout of struct HksParamSet on a little-endian build of
-- 64 bits: 8 bytes of header, and 24 bytes for each entry.
use security_huks.Prelude.{
  ℕ, zero, suc, ◌+◌, ◌*◌, ◌/◌, ◌^◌, ◌≤◌, ◌<◌, ◌≡◌, ◌∙◌, refl, sym, ap, false, some, List, [], ◌∷◌,
  ◌++◌, take, drop, replicate, length, arith, take-append, take-length,
}
use security_huks.Status.{success, invalid_argument}
use security_huks.Memory.{IsSecurec, ample, hks_malloc}
use security_huks.ParamSet.{
  ParamSet, Param, outside, header_size, param_size, get_tag_type, check_param_set, read,
  fixed_size, is_null,
}
use security_huks.ParamSet.Build.{fresh_param_set, fresh_params, fresh_round, fresh_loop}
use security_huks.ParamSet.Layout.{IsLaid}
use security_huks.Ipc.{le_u32, le_bytes, align_size, is_invalid_length, put}
use security_huks.Ipc.Client.{
  delete_key_pack, import_key_pack, import_wrapped_key_pack, agree_key_pack,
  check_and_calculate_size, copy_blob_to_buffer, copy_param_set_to_buffer, put_blob,
}
use security_huks.Ipc.Service.{
  Abi, IsAbi, delete_key_unpack, import_key_unpack, import_wrapped_key_unpack, agree_key_unpack,
}
use security_huks.Ipc.RoundTrip.{
  Delivers, import_key_unpack-pack, import_wrapped_key_unpack-pack, agree_key_unpack-pack,
}
use security_huks.Ipc.Delete.{delete_key_unpack-pack}
use security_huks.Ipc.Inside.{import_key_unpack-inside, check_and_calculate_size_lem}

-- An entry and the entries from an address on; the pointers are those of the sender.
abbrev entry : List ℕ → Param
entry bs = record {
  tag = le_u32 bs;
  scalar = le_u32 (drop 8 bs);
  blob = record { size = le_u32 (drop 8 bs); ptr = outside [] };
}

abbrev entries : ℕ → List ℕ → List Param
entries zero bs = []
entries (suc n) bs = entry bs ∷ entries n (drop param_size bs)

abbrev set_of : ℕ → List ℕ → ParamSet
set_of size bs = record {
  set_size = size;
  params = entries (le_u32 (drop 4 bs)) (drop header_size bs);
  payload = drop (header_size + param_size * le_u32 (drop 4 bs)) bs;
}

abbrev packed : Abi
packed = record { layout = λ bs. set_of (le_u32 bs) (take (le_u32 bs) bs) }

le_u32-append : (bs rest : List ℕ) → header_size ≤ length bs → le_u32 (bs ++ rest) ≡ le_u32 bs
unfolding le_u32
le_u32-append [] rest h = absurd (omega (arith, h))
le_u32-append (a ∷ []) rest h = absurd (omega (arith, h))
le_u32-append (a ∷ b ∷ []) rest h = absurd (omega (arith, h))
le_u32-append (a ∷ b ∷ c ∷ []) rest h = absurd (omega (arith, h))
le_u32-append (a ∷ b ∷ c ∷ d ∷ bs) rest h = refl

packed-IsAbi : IsAbi packed
packed-IsAbi = record {
  size_first = λ bs. refl;
  own_bytes = λ bs rest whole own.
      let same : take (le_u32 (bs ++ rest)) (bs ++ rest) ≡ take (le_u32 bs) bs =
        ap (λ k. take k (bs ++ rest)) (le_u32-append bs rest whole ∙ own)
        ∙ (take-append bs rest ∙ sym (ap (λ k. take k bs) own ∙ take-length bs)) in
      λ i. set_of (le_u32-append bs rest whole i) (same i);
}

ample-IsSecurec : IsSecurec ample
ample-IsSecurec = record {
  fits = λ room count p h. ground arith;
  refuses = λ room count h. ground arith;
}

-- A set of one entry, two bytes of additional data, as its sender laid it out.
abbrev set_bytes : List ℕ
set_bytes =
    34 ∷ 0 ∷ 0 ∷ 0 ∷ 1 ∷ 0 ∷ 0 ∷ 0 ∷ 10 ∷ 0 ∷ 0 ∷ 80 ∷ 0 ∷ 0 ∷ 0 ∷ 0 ∷ 2 ∷ 0 ∷ 0 ∷ 0 ∷ 0 ∷ 0 ∷ 0 ∷ 0
    ∷ 32 ∷ 0 ∷ 0 ∷ 0 ∷ 0 ∷ 0 ∷ 0 ∷ 0 ∷ 7 ∷ 9 ∷ []

abbrev buffer : List ℕ
buffer = replicate 80 0

set_bytes-own : le_u32 set_bytes ≡ length set_bytes
unfolding le_u32
set_bytes-own = refl

set_bytes-fresh : (fresh_param_set ample (packed.layout set_bytes) false).0 ≡ success
unfolding fresh_param_set fresh_params fresh_round check_param_set get_tag_type read fixed_size
    fresh_loop is_null le_u32
set_bytes-fresh = refl

import_key_unpack-pack_example :
    Delivers
      (import_key_pack ample buffer (1 ∷ 2 ∷ []) set_bytes (3 ∷ 4 ∷ 5 ∷ []))
      (import_key_unpack ample packed)
      (1 ∷ 2 ∷ [], (fresh_param_set ample (packed.layout set_bytes) false).1, 3 ∷ 4 ∷ 5 ∷ [])
unfolding align_size
import_key_unpack-pack_example =
    import_key_unpack-pack ample packed set_bytes ample-IsSecurec packed-IsAbi set_bytes-own
      set_bytes-fresh buffer (1 ∷ 2 ∷ []) (3 ∷ 4 ∷ 5 ∷ []) (omega arith) (omega arith) (omega arith)
      (omega arith)

import_wrapped_key_unpack-pack_example :
    Delivers
      (import_wrapped_key_pack ample buffer (1 ∷ []) (2 ∷ []) set_bytes (3 ∷ []))
      (import_wrapped_key_unpack ample packed)
      (1 ∷ [], 2 ∷ [], (fresh_param_set ample (packed.layout set_bytes) false).1, 3 ∷ [])
unfolding align_size
import_wrapped_key_unpack-pack_example =
    import_wrapped_key_unpack-pack ample packed set_bytes ample-IsSecurec packed-IsAbi set_bytes-own
      set_bytes-fresh buffer (1 ∷ []) (2 ∷ []) (3 ∷ []) (omega arith) (omega arith) (omega arith)
      (omega arith) (omega arith)

agree_key_unpack-pack_example :
    Delivers
      (agree_key_pack ample buffer set_bytes (1 ∷ []) (2 ∷ []) 32)
      (agree_key_unpack ample packed)
      ((fresh_param_set ample (packed.layout set_bytes) false).1, 1 ∷ [], 2 ∷ [], 32)
unfolding align_size is_invalid_length hks_malloc
agree_key_unpack-pack_example =
    agree_key_unpack-pack ample packed set_bytes ample-IsSecurec packed-IsAbi set_bytes-own
      set_bytes-fresh buffer (1 ∷ []) (2 ∷ []) 32 (omega arith) (omega arith) refl refl
      (omega arith) (omega arith)

delete_key_unpack-pack_example :
    Delivers
      (delete_key_pack ample (1 ∷ 2 ∷ []) set_bytes buffer)
      (delete_key_unpack ample packed)
      (1 ∷ 2 ∷ [], some (fresh_param_set ample (packed.layout set_bytes) false).1)
unfolding align_size
delete_key_unpack-pack_example =
    delete_key_unpack-pack ample packed set_bytes ample-IsSecurec packed-IsAbi set_bytes-own
      set_bytes-fresh buffer (1 ∷ 2 ∷ []) (omega arith) (omega arith) (omega arith)

-- The request to import a key, as it stands in the buffer.
abbrev request : List ℕ
request = (import_key_pack ample buffer (1 ∷ 2 ∷ []) set_bytes (3 ∷ 4 ∷ 5 ∷ [])).1.bytes

request_fits : length request < 2 ^ 32
unfolding import_key_pack copy_blob_to_buffer copy_param_set_to_buffer put_blob put le_bytes
    align_size
request_fits = omega arith

import_key_unpack-inside_example :
    IsLaid (fresh_param_set ample (packed.layout set_bytes) false).1
    × (4 + 2 + (fresh_param_set ample (packed.layout set_bytes) false).1.set_size + (4 + 3)
        ≤ (import_key_pack ample buffer (1 ∷ 2 ∷ []) set_bytes (3 ∷ 4 ∷ 5 ∷ [])).1.offset)
    × ((import_key_pack ample buffer (1 ∷ 2 ∷ []) set_bytes (3 ∷ 4 ∷ 5 ∷ [])).1.offset
        ≤ length request)
import_key_unpack-inside_example =
    import_key_unpack-inside ample packed request (1 ∷ 2 ∷ [])
      (fresh_param_set ample (packed.layout set_bytes) false).1 (3 ∷ 4 ∷ 5 ∷ [])
      (import_key_pack ample buffer (1 ∷ 2 ∷ []) set_bytes (3 ∷ 4 ∷ 5 ∷ [])).1.offset request_fits
      import_key_unpack-pack_example.1

check_and_calculate_size_lem_example :
    ((10 + 2) / 3 * 4 + 50 < 2 ^ 32
      → check_and_calculate_size 10 50 ≡ (success, (10 + 2) / 3 * 4 + 50))
    × (2 ^ 32 ≤ (10 + 2) / 3 * 4 + 50 → (check_and_calculate_size 10 50).0 ≡ invalid_argument)
check_and_calculate_size_lem_example =
    check_and_calculate_size_lem 10 50 (omega arith) (omega arith)
