-- ===== src/Ipc/Blobs.antt =====
-- CopyBlobToBuffer against GetBlobFromBuffer: the blob that a client copies to a buffer, the
-- service finds there.
use security_huks.Prelude.{
  ℕ, ◌+◌, ◌-◌, ◌^◌, ◌≤◌, ◌<◌, ◌≡◌, refl, sym, ap, ◌∙◌, false, ◌||◌, List, ◌++◌, length, take, drop,
  length-append, length-take, length-drop, append_assoc, take-append, drop-append, arith, add32,
  ltb,
}
use security_huks.Status.{success}
use security_huks.Memory.{Memory, IsSecurec}
use security_huks.ParamSet.{is_addition_overflow}
use security_huks.Ipc.{got, align_size, le_bytes, le_u32, put}
use security_huks.Ipc.Client.{put_blob, copy_blob_to_buffer}
use security_huks.Ipc.Service.{get_blob_from_buffer}
use security_huks.Ipc.Buffer.{
  drop-drop, take-drop, put-append, put_blob-fits, le_u32-le_bytes, length-le_bytes,
  align_size-bounds,
}
use security_huks.Ipc.Sent.{Sends}

pub add32-small : (a b : ℕ) → a + b < 2 ^ 32 → add32 a b ≡ a + b
add32-small a b small = omega (arith, small)

-- A blob that is inside the buffer is found.
get_blob-got :
    (bs : List ℕ) (off size : ℕ)
    → le_u32 (drop off bs) ≡ size
    → size + 3 < 2 ^ 32
    → off + 4 + align_size size ≤ length bs
    → length bs < 2 ^ 32
    → get_blob_from_buffer bs off ≡ got (take size (drop (off + 4) bs)) (off + 4 + align_size size)
unfolding get_blob_from_buffer is_addition_overflow
get_blob-got bs off size e small room fits =
    rw
      (
        e,
        add32-small off 4 (omega (arith, room, fits)),
        add32-small (off + 4) (align_size size) (omega (arith, room, fits)),
      )
      (ground (arith, small, room, fits))

-- How the bytes of a blob lie between what is before it and what is behind it.
regroup :
    (pre le blob pad rest : List ℕ)
    → (pre ++ le) ++ (blob ++ (pad ++ rest)) ≡ (pre ++ (le ++ (blob ++ pad))) ++ rest
regroup pre le blob pad rest = simp append_assoc

drop-le_bytes : (n : ℕ) (xs : List ℕ) → drop 4 (le_bytes n ++ xs) ≡ xs
unfolding le_bytes
drop-le_bytes n xs = refl

length-blob_chunk :
    (pre blob pad : List ℕ)
    → length blob + length pad ≡ align_size (length blob)
    → length (pre ++ (le_bytes (length blob) ++ (blob ++ pad)))
      ≡ length pre + 4 + align_size (length blob)
length-blob_chunk pre blob pad padded = omega (
  arith,
  padded,
  length-append pre (le_bytes (length blob) ++ (blob ++ pad)),
  length-append (le_bytes (length blob)) (blob ++ pad),
  length-le_bytes (length blob),
  length-append blob pad,
)

get_blob-at :
    (pre blob pad rest : List ℕ)
    → length blob + length pad ≡ align_size (length blob)
    → length blob + 3 < 2 ^ 32
    → length ((pre ++ (le_bytes (length blob) ++ (blob ++ pad))) ++ rest) < 2 ^ 32
    → get_blob_from_buffer ((pre ++ (le_bytes (length blob) ++ (blob ++ pad))) ++ rest) (length pre)
      ≡ got blob (length (pre ++ (le_bytes (length blob) ++ (blob ++ pad))))
get_blob-at pre blob pad rest padded small fits =
    let n = length blob in
    let bs = (pre ++ le_bytes n) ++ (blob ++ (pad ++ rest)) in
    let here : drop (length pre) bs ≡ le_bytes n ++ (blob ++ (pad ++ rest)) =
      ap (drop (length pre)) (append_assoc pre (le_bytes n) _) ∙ drop-append pre _ in
    let behind : drop (length pre + 4) bs ≡ blob ++ (pad ++ rest) =
      sym (drop-drop (length pre) 4 bs) ∙ (ap (drop 4) here ∙ drop-le_bytes n _) in
    let size : le_u32 (drop (length pre) bs) ≡ n =
      ap le_u32 here ∙ le_u32-le_bytes n _ (omega (arith, small)) in
    let all : length bs ≡ length pre + 4 + align_size n + length rest = omega (
      arith,
      padded,
      length-append (pre ++ le_bytes n) (blob ++ (pad ++ rest)),
      length-append pre (le_bytes n),
      length-le_bytes n,
      length-append blob (pad ++ rest),
      length-append pad rest,
    ) in
    let fits' : length bs < 2 ^ 32 = rw (regroup pre (le_bytes n) blob pad rest) fits in
    let end : length (pre ++ (le_bytes n ++ (blob ++ pad))) ≡ length pre + 4 + align_size n =
      length-blob_chunk pre blob pad padded in
    rw (sym (regroup pre (le_bytes n) blob pad rest), end)
      (get_blob-got bs (length pre) n size small (omega (arith, all)) fits'
        ∙ (rw (behind, take-append blob (pad ++ rest)) refl))

-- What CopyBlobToBuffer leaves, the padding as it was before.
padding : List ℕ → List ℕ → List ℕ
padding blob old = take (align_size (length blob) - length blob) (drop (4 + length blob) old)

copied_blob :
    (m : Memory) (pre blob old : List ℕ)
    → IsSecurec m
    → length blob + 3 < 2 ^ 32
    → 4 + align_size (length blob) ≤ length old
    → put_blob m (length pre + 4) blob (put (length pre) (le_bytes (length blob)) (pre ++ old))
      ≡ (pre ++ (le_bytes (length blob) ++ (blob ++ padding blob old)))
        ++ drop (4 + align_size (length blob)) old
unfolding padding
copied_blob m pre blob old securec small room =
    let n = length blob in
    let le = le_bytes n in
    let b = align_size-bounds n small in
    let start : length pre + 4 ≡ length (pre ++ le) =
      omega (arith, length-append pre le, length-le_bytes n) in
    let first : put (length pre) le (pre ++ old) ≡ (pre ++ le) ++ drop 4 old =
      put-append pre le old ∙ (rw (length-le_bytes n) (sym (append_assoc pre le (drop 4 old)))) in
    let fits : length (pre ++ le) + length blob ≤ length ((pre ++ le) ++ drop 4 old) =
      omega (arith, room, b, length-append (pre ++ le) (drop 4 old), length-drop 4 old) in
    let pad = take (align_size n - n) (drop (4 + n) old) in
    let rest : drop (align_size n - n) (drop (4 + n) old) ≡ drop (4 + align_size n) old =
      drop-drop (4 + n) (align_size n - n) old ∙ ap (λ j. drop j old) (omega (arith, b)) in
    let left : drop n (drop 4 old) ≡ pad ++ drop (4 + align_size n) old =
      drop-drop 4 n old
      ∙ (sym (take-drop (align_size n - n) (drop (4 + n) old)) ∙ ap (◌++◌ pad) rest) in
    rw (first, start)
      (put_blob-fits m (length (pre ++ le)) blob _ securec fits
        ∙ (put-append (pre ++ le) blob (drop 4 old)
            ∙ (rw left (regroup pre le blob pad (drop (4 + align_size n) old)))))

length-padding :
    (blob old : List ℕ)
    → length blob + 3 < 2 ^ 32
    → 4 + align_size (length blob) ≤ length old
    → length blob + length (padding blob old) ≡ align_size (length blob)
unfolding padding
length-padding blob old small room =
    let n = length blob in
    omega (
      arith,
      room,
      align_size-bounds n small,
      length-take (align_size n - n) (drop (4 + n) old),
      length-drop (4 + n) old,
    )

copy_blob_lem :
    (m : Memory) (pre blob old : List ℕ)
    → 4 + align_size (length blob) ≤ length old
    → length (pre ++ old) < 2 ^ 32
    → copy_blob_to_buffer m blob (record { bytes = pre ++ old; offset = length pre }) ≡ (
      success,
      record {
        bytes =
            put_blob m
              (length pre + 4)
              blob
              (put (length pre) (le_bytes (length blob)) (pre ++ old));
        offset = length pre + 4 + align_size (length blob);
      },
    )
unfolding copy_blob_to_buffer
copy_blob_lem m pre blob old room fits =
    let all = length-append pre old in
    let guard : (ltb (length (pre ++ old)) (length pre)
          || ltb (length (pre ++ old) - length pre) (4 + align_size (length blob)))
        ≡ false =
      ground (arith, all, room) in
    rw
      (
        guard,
        add32-small (length pre) 4 (omega (arith, room, fits, all)),
        add32-small (length pre + 4) (align_size (length blob)) (omega (arith, room, fits, all)),
      )
      refl

-- CopyBlobToBuffer and GetBlobFromBuffer agree.
pub Sends-blob :
    (m : Memory) (blob : List ℕ)
    → IsSecurec m
    → length blob + 3 < 2 ^ 32
    → Sends (copy_blob_to_buffer m blob) get_blob_from_buffer blob (4 + align_size (length blob))
Sends-blob m blob securec small pre old fits room =
    let n = length blob in
    let pad = padding blob old in
    let padded = length-padding blob old small room in
    let end = length-blob_chunk pre blob pad padded in
    record {
      chunk = le_bytes n ++ (blob ++ pad);
      filled = omega (arith, end, length-append pre (le_bytes n ++ (blob ++ pad)));
      wrote =
          copy_blob_lem m pre blob old room fits
          ∙ (rw (copied_blob m pre blob old securec small room, end) refl);
      reads = λ rest fits'. get_blob-at pre blob pad rest padded small fits';
    }
