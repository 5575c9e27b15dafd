-- ===== src/StorageLite/Cut.antt =====
-- The copies of hks_storage_lite.c that take a key out of an image.
use security_huks.Prelude.{
  ℕ, ◌+◌, ◌-◌, ◌≤◌, ◌≡◌, inl, inr, refl, sym, ap, ◌∙◌, true, false, List, [], ◌∷◌, ◌++◌, length,
  length-append, length-replicate, replicate, take, drop, drop-append, take-append, ltb, Bool-cases,
  append_assoc, append-nil, add32, arith,
}
use security_huks.Status.{success}
use security_huks.Memory.{Memory, IsSecurec}
use security_huks.Ipc.{put}
use security_huks.Ipc.Buffer.{put-append}
use security_huks.StorageLite.{Header, Image, store_header_size, max_storage_size, key_info_len}
use security_huks.StorageLite.Keys.{bytes_at, delete_key, close_gap, counted_down}

pub nil_of : (xs : List ℕ) → length xs ≡ 0 → xs ≡ []
nil_of [] e = refl
nil_of (x ∷ xs) e = absurd (omega arith)

-- The bytes before a key, of the key, of the keys behind it, and those that are spare.
module _ (A K C S : List ℕ) where
  abbrev pub zeros : List ℕ
  zeros = replicate (length K) 0

  cleared-body : put (length A) zeros (A ++ (K ++ (C ++ S))) ≡ A ++ (zeros ++ (C ++ S))
  cleared-body =
      let n : length zeros ≡ length K = length-replicate (length K) 0 in
      put-append A zeros (K ++ (C ++ S))
      ∙ ap (λ k. A ++ (zeros ++ drop k (K ++ (C ++ S)))) n
      ∙ ap (λ (t : List ℕ). A ++ (zeros ++ t)) (drop-append K (C ++ S))

  -- What the next step puts over the gap.
  abbrev moved : List ℕ
  moved = drop (length zeros) (drop (length C) (zeros ++ (C ++ S)))

  closed-body :
      put (length A + length C) zeros (put (length A) C (A ++ (zeros ++ (C ++ S))))
      ≡ (A ++ C) ++ (zeros ++ moved)
  closed-body =
      let tail = drop (length C) (zeros ++ (C ++ S)) in
      let e : put (length A) C (A ++ (zeros ++ (C ++ S))) ≡ (A ++ C) ++ tail =
        put-append A C (zeros ++ (C ++ S)) ∙ sym (append_assoc A C tail) in
      rw e (rw (sym (length-append A C)) (put-append (A ++ C) zeros tail))

  nothing_behind : length C ≡ 0 → A ++ (zeros ++ (C ++ S)) ≡ (A ++ C) ++ (zeros ++ S)
  nothing_behind e = let n = nil_of C e in rw n (rw (append-nil A) refl)

-- An image with these bytes in front of some that are spare.
abbrev pub Starts : Image → List ℕ → Type 0
Starts img front = (spare : List ℕ) × (img.body ≡ front ++ spare)

abbrev pub image : Header → List ℕ → Image
image h b = record { head = h; body = b }

module _ (m : Memory) (h : Header) (A K C S : List ℕ) (sec : IsSecurec m)
    (total : h.total_len ≡ store_header_size + length A + length K + length C)
    (small : h.total_len ≤ max_storage_size) (len : key_info_len (K ++ (C ++ S)) ≡ length K) where
  abbrev off : ℕ
  off = store_header_size + length A

  there : bytes_at (image h (A ++ (K ++ (C ++ S)))) off ≡ K ++ (C ++ S)
  unfolding bytes_at
  there =
      let e : off - store_header_size ≡ length A = omega arith in
      rw e (drop-append A (K ++ (C ++ S)))

  kept_bytes :
      take
        (h.total_len - (off + length K))
        (bytes_at (image h (A ++ (zeros A K C S ++ (C ++ S)))) (off + length K))
      ≡ C
  unfolding bytes_at
  kept_bytes =
      let n : length (A ++ zeros A K C S) ≡ length A + length K =
        length-append A (zeros A K C S) ∙ ap (λ k. length A + k) (length-replicate (length K) 0) in
      let e : off + length K - store_header_size ≡ length (A ++ zeros A K C S) = omega (arith, n) in
      let k : h.total_len - (off + length K) ≡ length C = omega arith in
      rw
        (
          e,
          k,
          sym (append_assoc A (zeros A K C S) (C ++ S)),
          drop-append (A ++ zeros A K C S) (C ++ S),
        )
        (take-append C S)

  deleted :
      (img' : Image) × (delete_key m (image h (A ++ (K ++ (C ++ S)))) off ≡ (success, img'))
      × (img'.head ≡ counted_down h (length K))
      × Starts img' (A ++ C)
  unfolding delete_key close_gap
  deleted =
      let next : add32 off (length K) ≡ off + length K = omega arith in
      let e : off - store_header_size ≡ length A = omega arith in
      let g : ltb h.total_len (off + length K) ≡ false = ground arith in
      elim (Bool-cases (ltb (off + length K) h.total_len)) [
        | inl b ↦
            let f : m.memcpy_s (h.total_len - off) (h.total_len - (off + length K)) ≡ true =
              sec.fits _ _ (ground (arith, b)) (omega arith) in
            let last : h.total_len - length K - store_header_size ≡ length A + length C =
              omega arith in
            (
              image (counted_down h (length K)) ((A ++ C) ++ (zeros A K C S ++ moved A K C S)),
              rw
                  (
                    there,
                    len,
                    next,
                    e,
                    cleared-body A K C S,
                    g,
                    b,
                    kept_bytes,
                    f,
                    last,
                    closed-body A K C S,
                  )
                  refl,
              refl,
              (zeros A K C S ++ moved A K C S, refl),
            )
        | inr b ↦
            let c : length C ≡ 0 = ground (arith, b) in
            (
              image (counted_down h (length K)) ((A ++ C) ++ (zeros A K C S ++ S)),
              rw (there, len, next, e, cleared-body A K C S, g, b, nothing_behind A K C S c) refl,
              refl,
              (zeros A K C S ++ S, refl),
            )
      ]

-- The image after `DeleteKey` of a key in its midst.
pub delete_key-splice :
    (m : Memory) (img : Image) (A K C S : List ℕ)
    → IsSecurec m
    → img.body ≡ A ++ (K ++ (C ++ S))
    → img.head.total_len ≡ store_header_size + length A + length K + length C
    → img.head.total_len ≤ max_storage_size
    → key_info_len (K ++ (C ++ S)) ≡ length K
    → (img' : Image) × (delete_key m img (store_header_size + length A) ≡ (success, img'))
      × (img'.head ≡ counted_down img.head (length K))
      × Starts img' (A ++ C)
delete_key-splice m img A K C S sec body total small len =
    let same : img ≡ image img.head (A ++ (K ++ (C ++ S))) = ap (image img.head) body in
    let (img', e, x, y) = deleted m img.head A K C S sec total small len in
    (img', ap (λ i. delete_key m i (store_header_size + length A)) same ∙ e, x, y)
