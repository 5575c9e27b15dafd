-- ===== src/Wrapped/Tests.antt =====
-- Data of two parts, at which the theorems on wrapped data are applied.
use security_huks.Prelude.{ℕ, ◌≤◌, ◌<◌, ◌≡◌, ◌↔◌, refl, none, some, List, [], ◌∷◌, length, arith}
use security_huks.Status.{success}
use security_huks.Ipc.{le_u32}
use security_huks.Check.Values.{wrapped_format_max_size}
use security_huks.Wrapped.{
  check_wrapped_data_format_validity, found, get_blob_from_wrapped_data, Framed, no_part, part,
}
use security_huks.Wrapped.Parse.{check_wrapped_data_format_validity_iff}
use security_huks.Wrapped.Fetch.{nth, get_blob_from_wrapped_data-Framed}

abbrev wrapped : List ℕ
wrapped = 2 ∷ 0 ∷ 0 ∷ 0 ∷ 7 ∷ 8 ∷ 1 ∷ 0 ∷ 0 ∷ 0 ∷ 9 ∷ []

abbrev wrapped_parts : List (List ℕ)
wrapped_parts = (7 ∷ 8 ∷ []) ∷ (9 ∷ []) ∷ []

wrapped-Framed : Framed wrapped wrapped_parts
unfolding le_u32
wrapped-Framed =
    part (2 ∷ 0 ∷ 0 ∷ 0 ∷ []) (7 ∷ 8 ∷ []) refl refl (omega arith)
      (part (1 ∷ 0 ∷ 0 ∷ 0 ∷ []) (9 ∷ []) refl refl (omega arith) no_part)

check_wrapped_data_format_validity_iff_example :
    (check_wrapped_data_format_validity wrapped 10 none ≡ success) ↔ (
      (0 < length wrapped)
      × (length wrapped ≤ wrapped_format_max_size)
      × (0 < 10)
      × ((ps : List (List ℕ)) × Framed wrapped ps × (length ps ≤ 10)))
check_wrapped_data_format_validity_iff_example = check_wrapped_data_format_validity_iff wrapped 10

second_part : nth wrapped_parts 1 ≡ some (9 ∷ [])
unfolding nth
second_part = refl

get_blob_from_wrapped_data-Framed_example :
    get_blob_from_wrapped_data wrapped (1 ∷ []) 1 10 ≡ found (9 ∷ [])
get_blob_from_wrapped_data-Framed_example =
    get_blob_from_wrapped_data-Framed wrapped (1 ∷ []) wrapped_parts 10 1 (9 ∷ []) wrapped-Framed
      (omega arith) second_part (omega arith)

-- Data that stop in the middle of a length: the part that is found lies behind them.
beyond_data : get_blob_from_wrapped_data (5 ∷ []) (0 ∷ 0 ∷ 0 ∷ 6 ∷ []) 0 1 ≡ found (6 ∷ [])
unfolding get_blob_from_wrapped_data le_u32
beyond_data = refl
