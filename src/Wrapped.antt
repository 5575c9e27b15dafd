-- ===== src/Wrapped.antt =====
-- frameworks/huks_standard/main/common/src/hks_common_check.c: the data of a wrapped key, which are
-- parts one behind the other, each behind its length in four bytes. Data at a pointer that is not NULL
-- are their bytes; `beyond` are the bytes that stand in memory behind them.
pub mod Parse
pub mod Fetch
mod Tests
use security_huks.Prelude.{
  ℕ, zero, suc, ◌+◌, ◌-◌, ◌*◌, ◌%◌, ◌^◌, ◌≤◌, ◌<◌, ◌≡◌, Bool, true, false, not, ◌&&◌, ◌||◌, Option,
  none, some, List, [], ◌∷◌, ◌++◌, length, take, drop, ltb, leb, ◌==◌, if◌then◌else◌, add32, sub32,
}
use security_huks.Status.{Status, success, invalid_argument, invalid_wrapped_format}
use security_huks.Ipc.{le_u32}
use security_huks.Check.Values.{wrapped_format_max_size}

-- Whether the part at an index has the length that is asked for, where lengths are given.
unfoldable pub is_wrong_length : Option (ℕ → ℕ) → ℕ → ℕ → Bool
is_wrong_length none index n = false
is_wrong_length (some lengths) index n = not (lengths index == n)

-- One round of the loop of `HksCheckWrappedDataFormatValidity` over the bytes from the offset on: what
-- stands behind the next part.
unfoldable pub next_part : Option (ℕ → ℕ) → ℕ → List ℕ → Option (List ℕ)
unfolding is_wrong_length
next_part lengths index bytes =
    let n = le_u32 bytes in
    if ltb (length bytes) 4
    then none
    else if (n == 0) || ltb (length bytes - 4) n || is_wrong_length lengths index n
    then none
    else some (drop n (drop 4 bytes))

-- The loop with some rounds left; it stops where no byte is left, which `data is redundant` asks for.
unfoldable pub check_parts : Option (ℕ → ℕ) → ℕ → ℕ → List ℕ → Status
unfolding next_part
check_parts lengths zero index [] = success
check_parts lengths zero index (b ∷ bytes) = invalid_wrapped_format
check_parts lengths (suc n) index [] = success
check_parts lengths (suc n) index (b ∷ bytes) = elim (next_part lengths index (b ∷ bytes)) [
  | none ↦ invalid_wrapped_format
  | some rest ↦ check_parts lengths n (index + 1) rest
]

-- `HksCheckWrappedDataFormatValidity`.
unfoldable pub check_wrapped_data_format_validity : List ℕ → ℕ → Option (ℕ → ℕ) → Status
unfolding check_parts
check_wrapped_data_format_validity bytes total lengths =
    if (length bytes == 0) || ltb wrapped_format_max_size (length bytes) || (total == 0)
    then invalid_argument
    else check_parts lengths total 0 bytes

pub data Fetched : Type 0 where
  found : List ℕ → Fetched
  refused : Status → Fetched

-- The loop of `HksGetBlobFromWrappedData` with some rounds left. It takes the four bytes of a length
-- without asking whether they are there.
unfoldable pub fetch_part : List ℕ → List ℕ → ℕ → ℕ → ℕ → ℕ → Fetched
fetch_part bytes beyond wanted zero index offset = refused invalid_wrapped_format
fetch_part bytes beyond wanted (suc n) index offset =
    let size = le_u32 (drop offset (bytes ++ beyond)) in
    let start = add32 offset 4 in
    let rest = fetch_part bytes beyond wanted n (index + 1) (add32 start size) in
    if not (ltb offset (length bytes))
    then refused invalid_wrapped_format
    else if (size == 0) || ltb wrapped_format_max_size size || ltb (sub32 (length bytes) start) size
    then refused invalid_wrapped_format
    else if wanted == index
    then found (take size (drop start (bytes ++ beyond)))
    else rest

-- `HksGetBlobFromWrappedData`.
unfoldable pub get_blob_from_wrapped_data : List ℕ → List ℕ → ℕ → ℕ → Fetched
unfolding fetch_part
get_blob_from_wrapped_data bytes beyond wanted total =
    if (length bytes == 0) || leb total wanted
    then refused invalid_argument
    else fetch_part bytes beyond wanted total 0 0

-- Bytes that are some parts, each not empty and behind its length.
pub data Framed : List ℕ → List (List ℕ) → Type 0 where
  no_part : Framed [] []
  part :
      (head p : List ℕ) {rest : List ℕ} {ps : List (List ℕ)}
      → length head ≡ 4
      → le_u32 head ≡ length p
      → 0 < length p
      → Framed rest ps
      → Framed (head ++ (p ++ rest)) (p ∷ ps)
