-- ===== src/StorageLite/Splice.antt =====
-- The copies of hks_storage_lite.c that put a key behind the others.
use security_huks.Prelude.{
  ℕ, ◌+◌, ◌-◌, ◌≤◌, ◌<◌, ◌≡◌, inl, inr, refl, sym, ap, ◌∙◌, true, List, ◌++◌, length, length-append,
  replicate, take, drop, take-append, ltb, leb, if◌then◌else◌, Bool-cases, append_assoc, add32,
  sub32, arith,
}
use security_huks.Status.{success}
use security_huks.Memory.{Memory, IsSecurec, hks_malloc}
use security_huks.Ipc.{put}
use security_huks.Ipc.Buffer.{put-append}
use security_huks.StorageLite.{
  Image, store_header_size, max_storage_size, buf_size_addend, image_size,
}
use security_huks.StorageLite.Keys.{counted_up, append_to, adjust_image_buffer}
use security_huks.StorageLite.Cut.{Starts, image}

-- `malloc` finds memory for every block that `HksMalloc` asks it for.
abbrev pub HasMemory : Memory → Type 0
HasMemory m = (n : ℕ) → 0 < n → n ≤ 0x800000 → m.malloc n ≡ true

pub hks_malloc-HasMemory :
    (m : Memory) (n : ℕ) → HasMemory m → 0 < n → n ≤ 0x800000 → hks_malloc m n ≡ true
unfolding hks_malloc
hks_malloc-HasMemory m n h low high = ground (arith, h n low high)

adjusted :
    (m : Memory) (img : Image) (F S K : List ℕ) (added : ℕ)
    → IsSecurec m
    → HasMemory m
    → img.body ≡ F ++ S
    → img.head.total_len ≡ store_header_size + length F
    → added ≡ img.head.total_len + length K
    → added ≤ max_storage_size
    → 0 < length K
    → image_size img < added
    → (img' : Image) × (adjust_image_buffer m img added K ≡ (success, img'))
      × (img'.head ≡ record (counted_up img.head) { total_len = added })
      × Starts img' (F ++ K)
unfolding adjust_image_buffer
adjusted m img F S K added sec memory body total sum small some_key tight =
    let at : img.head.total_len - store_header_size ≡ length F = omega arith in
    let more : ℕ = if ltb buf_size_addend (length K) then length K else buf_size_addend in
    let big : (length K ≤ more) × (more ≤ 5120) = ground arith in
    let room = add32 (image_size img) more in
    let wide : room ≡ image_size img + more = ground (arith, big) in
    let held : img.head.total_len ≤ image_size img =
      omega (arith, ap length body, length-append F S) in
    let g : hks_malloc m room ≡ true =
      hks_malloc-HasMemory m room memory (omega arith) (omega arith) in
    let e : m.memcpy_s room img.head.total_len ≡ true = sec.fits _ _ (omega arith) (omega arith) in
    let f : m.memcpy_s (sub32 room img.head.total_len) (length K) ≡ true =
      sec.fits _ _ some_key (omega arith) in
    let zeros : List ℕ = replicate (room - img.head.total_len - length K) 0 in
    let front : take (img.head.total_len - store_header_size) img.body ≡ F =
      rw (at, body) (take-append F S) in
    (
      image (record (counted_up img.head) { total_len = added })
          (take (img.head.total_len - store_header_size) img.body ++ (K ++ zeros)),
      rw (g, e, f) refl,
      refl,
      (zeros, rw front (sym (append_assoc F K zeros))),
    )

-- The image after `AppendNewKey`, whether or not the buffer has to grow.
pub append_to-splice :
    (m : Memory) (img : Image) (F S K : List ℕ) (added : ℕ)
    → IsSecurec m
    → HasMemory m
    → img.body ≡ F ++ S
    → img.head.total_len ≡ store_header_size + length F
    → added ≡ img.head.total_len + length K
    → added ≤ max_storage_size
    → 0 < length K
    → (img' : Image) × (append_to m img K added ≡ (success, img'))
      × (img'.head ≡ record (counted_up img.head) { total_len = added })
      × Starts img' (F ++ K)
unfolding append_to
append_to-splice m img F S K added sec memory body total sum small some_key =
    let size : length img.body ≡ length F + length S = ap length body ∙ length-append F S in
    let at : img.head.total_len - store_header_size ≡ length F = omega arith in
    let head = record (counted_up img.head) { total_len = added } in
    elim (Bool-cases (leb added (image_size img))) [
      | inl fits ↦
          let f : m.memcpy_s (image_size img - img.head.total_len) (length K) ≡ true =
            sec.fits _ _ some_key (ground (arith, fits, total)) in
          let b : put (length F) K img.body ≡ (F ++ K) ++ drop (length K) S =
            ap (put (length F) K) body
            ∙ put-append F K S
            ∙ sym (append_assoc F K (drop (length K) S)) in
          (
            image head (put (length F) K img.body),
            rw (fits, f, at) refl,
            refl,
            (drop (length K) S, b),
          )
      | inr tight ↦
          let (img', e, x, y) =
            adjusted m img F S K added sec memory body total sum small some_key
              (ground (arith, tight)) in
          (img', rw tight e, x, y)
    ]
