-- ===== src/Ipc/Copied.antt =====
-- CopyUint32ToBuffer and CopyParamSetToBuffer against the reads of the service.
use security_huks.Prelude.{
  ℕ, ◌+◌, ◌-◌, ◌^◌, ◌≤◌, ◌<◌, ◌≡◌, refl, sym, ap, ◌∙◌, true, false, ◌||◌, some, List, ◌++◌, length,
  take, drop, length-append, length-take, length-drop, append_assoc, drop-append, arith, ltb,
}
use security_huks.Status.{success}
use security_huks.Memory.{Memory, IsSecurec, hks_malloc}
use security_huks.ParamSet.{ParamSet, is_addition_overflow, header_size}
use security_huks.ParamSet.Build.{fresh_param_set}
use security_huks.Ipc.{got, align_size, le_bytes, le_u32, put, is_invalid_length, ◌>>=◌}
use security_huks.Ipc.Client.{copy_uint32_to_buffer, copy_param_set_to_buffer}
use security_huks.Ipc.Service.{
  Abi, IsAbi, get_uint32_from_buffer, get_param_set_from_buffer, malloc_blob_from_buffer,
}
use security_huks.Ipc.Buffer.{
  drop-drop, take-drop, put-append, le_u32-le_bytes, length-le_bytes, align_size-bounds,
}
use security_huks.Ipc.Sent.{Sends}
use security_huks.Ipc.Blobs.{add32-small}
use security_huks.ParamSet.Size.{check_param_set_iff}
use security_huks.ParamSet.{check_param_set}

-- CopyUint32ToBuffer and GetUint32FromBuffer agree.
pub Sends-uint32 : (n : ℕ) → n < 2 ^ 32 → Sends (copy_uint32_to_buffer n) get_uint32_from_buffer n 4
unfolding copy_uint32_to_buffer get_uint32_from_buffer
Sends-uint32 n small pre old fits room =
    let all = length-append pre old in
    let end : length (pre ++ le_bytes n) ≡ length pre + 4 =
      omega (arith, length-append pre (le_bytes n), length-le_bytes n) in
    let bytes : put (length pre) (le_bytes n) (pre ++ old) ≡ (pre ++ le_bytes n) ++ drop 4 old =
      put-append pre (le_bytes n) old
      ∙ (rw (length-le_bytes n) (sym (append_assoc pre (le_bytes n) (drop 4 old)))) in
    record {
      chunk = le_bytes n;
      filled = length-le_bytes n;
      wrote =
          rw (bytes, end, add32-small (length pre) 4 (omega (arith, room, fits, all)))
            (ground (arith, all, room));
      reads = λ rest fits'.
          let here : drop (length pre) ((pre ++ le_bytes n) ++ rest) ≡ le_bytes n ++ rest =
            ap (drop (length pre)) (append_assoc pre (le_bytes n) rest) ∙ drop-append pre _ in
          let grown = length-append (pre ++ le_bytes n) rest in
          rw
            (
              here,
              le_u32-le_bytes n rest small,
              end,
              add32-small (length pre) 4 (omega (arith, end, grown, fits')),
            )
            (ground (arith, end, grown));
    }

-- How the bytes of a set lie between what is before it and what is behind it.
regroup :
    (pre set_ pad rest : List ℕ) → pre ++ (set_ ++ (pad ++ rest)) ≡ (pre ++ (set_ ++ pad)) ++ rest
regroup pre set_ pad rest = simp append_assoc

copied_param_set :
    (pre set_ old : List ℕ) (n : ℕ)
    → length set_ ≤ n
    → n ≤ length old
    → put (length pre) set_ (pre ++ old)
      ≡ (pre ++ (set_ ++ take (n - length set_) (drop (length set_) old))) ++ drop n old
copied_param_set pre set_ old n small room =
    let k = length set_ in
    let pad = take (n - k) (drop k old) in
    let rest : drop (n - k) (drop k old) ≡ drop n old =
      drop-drop k (n - k) old ∙ ap (λ j. drop j old) (omega (arith, small)) in
    let left : drop k old ≡ pad ++ drop n old =
      sym (take-drop (n - k) (drop k old)) ∙ ap (◌++◌ pad) rest in
    put-append pre set_ old
    ∙ (ap (λ xs. pre ++ (set_ ++ xs)) left ∙ regroup pre set_ pad (drop n old))

-- A set that HksFreshParamSet accepts is of a size that CheckParamSet accepts.
pub fresh_param_set-sized :
    (m : Memory) (s : ParamSet)
    → (fresh_param_set m s false).0 ≡ success
    → (header_size ≤ s.set_size) × (s.set_size + 3 < 2 ^ 32)
unfolding fresh_param_set
fresh_param_set-sized m s h =
    let ok : check_param_set (some s) s.set_size ≡ success = ground arith in
    let c = (check_param_set_iff s s.set_size).0 ok in (omega (arith, c), omega (arith, c))

copy_param_set_lem :
    (m : Memory) (pre set_ old : List ℕ)
    → IsSecurec m
    → 0 < length set_
    → length set_ ≤ align_size (length set_)
    → align_size (length set_) ≤ length old
    → length (pre ++ old) < 2 ^ 32
    → copy_param_set_to_buffer m set_ (record { bytes = pre ++ old; offset = length pre }) ≡ (
      success,
      record {
        bytes = put (length pre) set_ (pre ++ old);
        offset = length pre + align_size (length set_);
      },
    )
unfolding copy_param_set_to_buffer
copy_param_set_lem m pre set_ old securec some_bytes small room fits =
    let all = length-append pre old in
    let guard : (ltb (length (pre ++ old)) (length pre)
          || ltb (length (pre ++ old) - length pre) (align_size (length set_)))
        ≡ false =
      ground (arith, all, room) in
    let copied =
      securec.fits (length (pre ++ old) - length pre) (length set_) some_bytes
        (omega (arith, all, small, room)) in
    rw
      (
        guard,
        copied,
        add32-small (length pre) (align_size (length set_)) (omega (arith, room, fits, all)),
      )
      refl

get_param_set-got :
    (m : Memory) (abi : Abi) (bs : List ℕ) (off : ℕ) (s : ParamSet)
    → abi.layout (drop off bs) ≡ s
    → (fresh_param_set m s false).0 ≡ success
    → off + align_size s.set_size ≤ length bs
    → length bs < 2 ^ 32
    → get_param_set_from_buffer m abi bs off
      ≡ got (fresh_param_set m s false).1 (off + align_size s.set_size)
unfolding get_param_set_from_buffer is_addition_overflow
get_param_set-got m abi bs off s e fresh room fits =
    let sized = fresh_param_set-sized m s fresh in
    let b = align_size-bounds s.set_size sized.1 in
    rw (e, fresh, add32-small off (align_size s.set_size) (omega (arith, room, fits)))
      (ground (arith, sized, b, room))

-- CopyParamSetToBuffer and GetParamSetFromBuffer agree on a set that HksFreshParamSet accepts.
pub Sends-param_set :
    (m : Memory) (abi : Abi) (set_ : List ℕ)
    → IsSecurec m
    → IsAbi abi
    → le_u32 set_ ≡ length set_
    → (fresh_param_set m (abi.layout set_) false).0 ≡ success
    → Sends
        (copy_param_set_to_buffer m set_)
        (get_param_set_from_buffer m abi)
        (fresh_param_set m (abi.layout set_) false).1
        (align_size (length set_))
Sends-param_set m abi set_ securec is_abi own fresh pre old fits room =
    let s = abi.layout set_ in
    let k = length set_ in
    let size : s.set_size ≡ k = is_abi.size_first set_ ∙ own in
    let sized = fresh_param_set-sized m s fresh in
    let b = align_size-bounds k (omega (arith, sized, size)) in
    let pad = take (align_size k - k) (drop k old) in
    let padded : length pad ≡ align_size k - k =
      omega (arith, b, room, length-take (align_size k - k) (drop k old), length-drop k old) in
    let chunk_length : length (set_ ++ pad) ≡ align_size k =
      omega (arith, b, padded, length-append set_ pad) in
    let end : length (pre ++ (set_ ++ pad)) ≡ length pre + align_size k =
      omega (arith, chunk_length, length-append pre (set_ ++ pad)) in
    record {
      chunk = set_ ++ pad;
      filled = chunk_length;
      wrote =
          copy_param_set_lem m pre set_ old securec (omega (arith, sized, size)) b.0 room fits
          ∙ (rw (copied_param_set pre set_ old (align_size k) b.0 room, end) refl);
      reads = λ rest fits'.
          let bs = (pre ++ (set_ ++ pad)) ++ rest in
          let here : drop (length pre) bs ≡ set_ ++ (pad ++ rest) =
            ap (drop (length pre)) (sym (regroup pre set_ pad rest)) ∙ drop-append pre _ in
          let same : abi.layout (drop (length pre) bs) ≡ s =
            ap abi.layout here
            ∙ is_abi.own_bytes set_ (pad ++ rest) (omega (arith, sized, size)) own in
          get_param_set-got m abi bs (length pre) s same fresh
            (omega (arith, end, ap align_size size, length-append (pre ++ (set_ ++ pad)) rest))
            fits'
          ∙ (rw (size, end) refl);
    }

is_invalid_length-small : (n : ℕ) → is_invalid_length n ≡ false → n < 2 ^ 32
unfolding is_invalid_length
is_invalid_length-small n h = ground arith

-- A size that MallocBlobFromBuffer accepts.
pub Sends-malloc_blob :
    (m : Memory) (abi : Abi) (n : ℕ)
    → is_invalid_length n ≡ false
    → hks_malloc m n ≡ true
    → Sends (copy_uint32_to_buffer n) (malloc_blob_from_buffer m abi) n 4
unfolding malloc_blob_from_buffer
Sends-malloc_blob m abi n valid memory pre old fits room =
    let s = Sends-uint32 n (is_invalid_length-small n valid) pre old fits room in
    record {
      chunk = s.chunk;
      filled = s.filled;
      wrote = s.wrote;
      reads =
          λ rest fits'. rw (malloc_blob_from_buffer, ◌>>=◌, s.reads rest fits', valid, memory) refl;
    }
