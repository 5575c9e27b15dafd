-- ===== src/Ipc/Buffer.antt =====
-- What one copy into a buffer leaves there, and what a read of it finds: the lemmas that the
-- packing and the unpacking of arguments share.
use security_huks.Prelude.{
  ℕ, zero, suc, ◌+◌, ◌-◌, ◌^◌, ◌≤◌, ◌<◌, ◌≡◌, refl, sym, ap, ◌∙◌, inl, inr, List, [], ◌∷◌, ◌++◌,
  length, take, drop, take-append, drop-append, arith, Bool-cases,
}
use security_huks.Memory.{Memory, IsSecurec}
use security_huks.Ipc.{put, align_size, le_bytes, le_u32}
use security_huks.Ipc.Client.{put_blob}

drop-empty : (n : ℕ) → drop {A = ℕ} n [] ≡ []
drop-empty zero = refl
drop-empty (suc n) = refl

pub drop-drop : (a b : ℕ) (xs : List ℕ) → drop b (drop a xs) ≡ drop (a + b) xs
drop-drop zero b xs = ap (λ k. drop k xs) (omega arith)
drop-drop (suc a) b [] = drop-empty b ∙ sym (drop-empty (suc a + b))
drop-drop (suc a) b (x ∷ xs) =
    let e : suc a + b ≡ suc (a + b) = omega arith in rw e (drop-drop a b xs)

pub take-drop : (n : ℕ) (xs : List ℕ) → take n xs ++ drop n xs ≡ xs
take-drop zero xs = refl
take-drop (suc n) [] = refl
take-drop (suc n) (x ∷ xs) = ap (◌∷◌ x) (take-drop n xs)

-- A copy to the offset at which `old` begins.
pub put-append :
    (pre bs old : List ℕ) → put (length pre) bs (pre ++ old) ≡ pre ++ (bs ++ drop (length bs) old)
unfolding put
put-append pre bs old =
    rw
      (
        take-append pre old,
        sym (drop-drop (length pre) (length bs) (pre ++ old)),
        drop-append pre old,
      )
      refl

put-empty : (off : ℕ) (xs : List ℕ) → put off [] xs ≡ xs
unfolding put
put-empty off xs = ap (λ k. take off xs ++ drop k xs) (omega arith) ∙ take-drop off xs

-- The copy of a blob that fits.
pub put_blob-fits :
    (m : Memory) (off : ℕ) (blob old : List ℕ)
    → IsSecurec m
    → off + length blob ≤ length old
    → put_blob m off blob old ≡ put off blob old
unfolding put_blob
put_blob-fits m off [] old securec room = elim (Bool-cases (m.memcpy_s (length old - off) 0)) [
  | inl e ↦ rw e refl
  | inr e ↦ rw e (sym (put-empty off old))
]
put_blob-fits m off (b ∷ bs) old securec room =
    rw (securec.fits (length old - off) (length (b ∷ bs)) (omega arith) (omega (arith, room))) refl

-- Four bytes give back the number that they were made of.
pub le_u32-le_bytes : (n : ℕ) (rest : List ℕ) → n < 2 ^ 32 → le_u32 (le_bytes n ++ rest) ≡ n
unfolding le_u32 le_bytes
le_u32-le_bytes n rest small = omega (arith, small)

pub length-le_bytes : (n : ℕ) → length (le_bytes n) ≡ 4
unfolding le_bytes
length-le_bytes n = refl

-- Without overflow the aligned size is the next multiple of 4.
pub align_size-bounds : (n : ℕ) → n + 3 < 2 ^ 32 → (n ≤ align_size n) × (align_size n ≤ n + 3)
unfolding align_size
align_size-bounds n small = (omega (arith, small), omega (arith, small))
