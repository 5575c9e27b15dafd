-- ===== src/Wrapped/Fetch.antt =====
-- `HksGetBlobFromWrappedData` on data in the relation `Framed`.
use security_huks.Prelude.{
  ℕ, zero, suc, ◌+◌, ◌≤◌, ◌<◌, ◌≡◌, refl, sym, ap, ◌∙◌, subst, true, false, not, ◌||◌, Option, none,
  some, List, [], ◌∷◌, ◌++◌, length, length-append, take, drop, take-append, drop-append,
  append_assoc, ltb, leb, ◌==◌, if◌then◌else◌, add32, sub32, arith,
}
use security_huks.Ipc.{le_u32}
use security_huks.Check.Values.{wrapped_format_max_size}
use security_huks.Wrapped.{found, fetch_part, get_blob_from_wrapped_data, Framed, no_part, part}
use security_huks.Wrapped.Parse.{le_u32-append}

-- The part at an index.
unfoldable pub nth : List (List ℕ) → ℕ → Option (List ℕ)
nth [] i = none
nth (p ∷ ps) zero = some p
nth (p ∷ ps) (suc i) = nth ps i

-- Behind the bytes `done` stand the head of a part, the part and the rest.
abbrev at_part : List ℕ → List ℕ → List ℕ → List ℕ → List ℕ
at_part done head p rest = done ++ (head ++ (p ++ rest))

drop-done :
    (done head p rest beyond : List ℕ)
    → drop (length done) (at_part done head p rest ++ beyond) ≡ head ++ (p ++ (rest ++ beyond))
drop-done done head p rest beyond =
    rw
      (
        append_assoc done (head ++ (p ++ rest)) beyond,
        append_assoc head (p ++ rest) beyond,
        append_assoc p rest beyond,
      )
      (drop-append done (head ++ (p ++ (rest ++ beyond))))

drop-head :
    (done head p rest beyond : List ℕ)
    → length head ≡ 4
    → drop (length done + 4) (at_part done head p rest ++ beyond) ≡ p ++ (rest ++ beyond)
drop-head done head p rest beyond four =
    rw
      (
        append_assoc done (head ++ (p ++ rest)) beyond,
        append_assoc head (p ++ rest) beyond,
        append_assoc p rest beyond,
        sym (append_assoc done head (p ++ (rest ++ beyond))),
      )
      (subst (λ k. drop k ((done ++ head) ++ (p ++ (rest ++ beyond))) ≡ p ++ (rest ++ beyond))
        (length-append done head ∙ ap (λ k. length done + k) four)
        (drop-append (done ++ head) (p ++ (rest ++ beyond))))

length-at_part :
    (done head p rest : List ℕ)
    → length head ≡ 4
    → length (at_part done head p rest) ≡ length done + (4 + (length p + length rest))
length-at_part done head p rest four = omega (
  arith,
  four,
  length-append done (head ++ (p ++ rest)),
  length-append head (p ++ rest),
  length-append p rest,
)

-- One round at an offset, where the length that stands there leads to no byte behind the data.
fetch_inside :
    (bytes beyond : List ℕ) (wanted n i o size : ℕ)
    → length bytes ≤ wrapped_format_max_size
    → 0 < size
    → o + (4 + size) ≤ length bytes
    → le_u32 (drop o (bytes ++ beyond)) ≡ size
    → fetch_part bytes beyond wanted (suc n) i o ≡ (
        if wanted == i
        then found (take size (drop (o + 4) (bytes ++ beyond)))
        else fetch_part bytes beyond wanted n (i + 1) (o + (4 + size)))
unfolding fetch_part
fetch_inside bytes beyond wanted n i o size small there fits e =
    let start : add32 o 4 ≡ o + 4 = omega arith in
    let next : add32 (o + 4) size ≡ o + (4 + size) = omega arith in
    let test : not (ltb o (length bytes)) ≡ false = ground arith in
    let fine : ((size == 0)
          || ltb wrapped_format_max_size size
          || ltb (sub32 (length bytes) (o + 4)) size)
        ≡ false =
      ground arith in
    rw (e, start, next, test, fine) refl

-- One round at a part.
fetch-round :
    (done head p rest beyond : List ℕ) (wanted n i : ℕ)
    → length head ≡ 4
    → le_u32 head ≡ length p
    → 0 < length p
    → length (at_part done head p rest) ≤ wrapped_format_max_size
    → fetch_part (at_part done head p rest) beyond wanted (suc n) i (length done) ≡ (
        if wanted == i
        then found p
        else fetch_part
            (at_part done head p rest)
            beyond
            wanted
            n
            (i + 1)
            (length done + (4 + length p)))
fetch-round done head p rest beyond wanted n i four size there small =
    let d = drop-done done head p rest beyond in
    let long = length-at_part done head p rest four in
    fetch_inside (at_part done head p rest) beyond wanted n i (length done) (length p) small there
      (omega (arith, long)) (ap le_u32 d ∙ (le_u32-append head (p ++ (rest ++ beyond)) four ∙ size))
    ∙ ap
        (λ q.
          if wanted == i
          then found q
          else fetch_part (at_part done head p rest) beyond wanted n (i + 1)
              (length done + (4 + length p)))
        (ap (take (length p)) (drop-head done head p rest beyond four)
          ∙ take-append p (rest ++ beyond))

-- Data with a part have bytes.
Framed-there :
    {bytes : List ℕ} {ps : List (List ℕ)} (j : ℕ) (q : List ℕ)
    → Framed bytes ps
    → nth ps j ≡ some q
    → 0 < length bytes
unfolding nth
Framed-there j q no_part e = absurd (cc)
Framed-there j q (part head p {rest} four size there f) e =
    omega (arith, four, length-append head (p ++ rest))

-- The parts from an offset on, by their index from there.
fetch-Framed :
    (done beyond : List ℕ) {tail : List ℕ} {ps : List (List ℕ)} (n i j : ℕ) (q : List ℕ)
    → Framed tail ps
    → length (done ++ tail) ≤ wrapped_format_max_size
    → nth ps j ≡ some q
    → j < n
    → fetch_part (done ++ tail) beyond (i + j) n i (length done) ≡ found q
unfolding nth
fetch-Framed done beyond n i j q no_part small e few = absurd (cc)
fetch-Framed done beyond zero i j q (part head p {rest} four size there f) small e few =
    absurd (omega (arith, few))
fetch-Framed done beyond (suc n) i zero q (part head p {rest} four size there f) small e few =
    let here : ((i + 0) == i) ≡ true = ground arith in
    fetch-round done head p rest beyond (i + 0) n i four size there small ∙ rw here (cc)
fetch-Framed done beyond (suc n) i (suc j) q (part head p {rest} four size there f) small e few =
    let away : ((i + suc j) == i) ≡ false = ground arith in
    let whole : (done ++ (head ++ p)) ++ rest ≡ at_part done head p rest =
      append_assoc done (head ++ p) rest ∙ ap (λ t. done ++ t) (append_assoc head p rest) in
    let long : length (done ++ (head ++ p)) ≡ length done + (4 + length p) =
      omega (arith, four, length-append done (head ++ p), length-append head p) in
    let index : i + 1 + j ≡ i + suc j = omega arith in
    fetch-round done head p rest beyond (i + suc j) n i four size there small
    ∙ rw away (
        rw (whole, long, index) at
          (fetch-Framed (done ++ (head ++ p)) beyond n (i + 1) j q f (rw whole small) e
            (omega (arith, few))))

-- Where data of at most 1 MB are parts, each not empty and behind its length,
-- `HksGetBlobFromWrappedData` gives each of the first `total` of them by its index, whatever bytes stand
-- in memory behind the data.
pub get_blob_from_wrapped_data-Framed :
    (bytes beyond : List ℕ) (ps : List (List ℕ)) (total j : ℕ) (q : List ℕ)
    → Framed bytes ps
    → length bytes ≤ wrapped_format_max_size
    → nth ps j ≡ some q
    → j < total
    → get_blob_from_wrapped_data bytes beyond j total ≡ found q
unfolding get_blob_from_wrapped_data
get_blob_from_wrapped_data-Framed bytes beyond ps total j q f small e few =
    let open_guard : ((length bytes == 0) || leb total j) ≡ false =
      ground (arith, Framed-there j q f e) in
    let index : 0 + j ≡ j = omega arith in
    rw open_guard (rw index at (fetch-Framed [] beyond total 0 j q f small e few))
