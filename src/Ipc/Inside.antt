-- ===== src/Ipc/Inside.antt =====
-- What hks_service_ipc_serialization.c takes out of a buffer lies inside it; and the size that
-- CheckAndCalculateSize of hks_client_ipc_serialization.c computes does not wrap.
use security_huks.Prelude.{
  ℕ, ◌+◌, ◌-◌, ◌*◌, ◌/◌, ◌%◌, ◌^◌, ◌≤◌, ◌<◌, ◌≡◌, ◌∙◌, subst, ◌⊎◌, refl, sym, ap, inl, inr, false,
  List, drop, take, length, length-take, arith, add32,
}
use security_huks.Status.{Status, success, invalid_argument}
use security_huks.Memory.{Memory}
use security_huks.ParamSet.{ParamSet, is_addition_overflow}
use security_huks.ParamSet.Build.{fresh_param_set, fresh_params}
use security_huks.ParamSet.Layout.{IsLaid, fresh_param_set-IsLaid}
use security_huks.Ipc.{Reader, Read, got, failed, ◌>>=◌, return, align_size, le_u32}
use security_huks.Ipc.Client.{check_and_calculate_size}
use security_huks.Ipc.Service.{
  Abi, get_blob_from_buffer, get_param_set_from_buffer, get_key_and_param_set_from_buffer,
  import_key_unpack,
}
use security_huks.Ipc.Buffer.{align_size-bounds}
use security_huks.Ipc.Blobs.{add32-small}
use security_huks.Ipc.Sent.{bind-got}

-- A read that succeeds has `P` of its value, whose `n` bytes lie between the old offset and the
-- new one, which is at most the length of the buffer.
abbrev pub Inside : {A : Type 0} → Reader A → (A → ℕ) → (A → Type 0) → Type 0
Inside {A} r n P =
    (bs : List ℕ) (off : ℕ) (a : A) (off' : ℕ)
    → length bs < 2 ^ 32
    → r bs off ≡ got a off'
    → P a × (off + n a ≤ off') × (off' ≤ length bs)

get_blob_guard :
    (bs : List ℕ) (off : ℕ) (blob : List ℕ) (off' : ℕ)
    → get_blob_from_buffer bs off ≡ got blob off'
    → (off + 4 ≤ length bs)
      × (le_u32 (drop off bs) + 3 < 2 ^ 32)
      × (align_size (le_u32 (drop off bs)) ≤ length bs - off - 4)
      × (blob ≡ take (le_u32 (drop off bs)) (drop (add32 off 4) bs))
      × (off' ≡ add32 (add32 off 4) (align_size (le_u32 (drop off bs))))
unfolding get_blob_from_buffer is_addition_overflow
get_blob_guard bs off blob off' h = ground arith

get_blob-Inside : Inside get_blob_from_buffer (λ blob. 4 + length blob) (λ blob. Unit)
get_blob-Inside bs off blob off' fits h =
    let g = get_blob_guard bs off blob off' h in
    let size = le_u32 (drop off bs) in
    let b = align_size-bounds size g.1 in
    let start = add32-small off 4 (omega (arith, g.0, fits)) in
    let end = add32-small (off + 4) (align_size size) (omega (arith, g.0, g.2, fits)) in
    let moved : off' ≡ off + 4 + align_size size = g.4 ∙ (rw start end) in
    let taken : length blob ≤ size =
      omega (arith, ap length g.3, length-take size (drop (add32 off 4) bs)) in
    (tt, omega (arith, moved, taken, b), omega (arith, moved, g.0, g.2))

Read-cases :
    {A : Type 0} (r : Read A)
    → ((a : A) × (off : ℕ) × (r ≡ got a off)) ⊎ ((st : Status) × (off : ℕ) × (r ≡ failed st off))
Read-cases (got a off) = inl (a, off, refl)
Read-cases (failed st off) = inr (st, off, refl)

bind-inverse :
    {A B : Type 0} (r : Reader A) (f : A → Reader B) (bs : List ℕ) (off : ℕ) (b : B) (off' : ℕ)
    → (r >>= f) bs off ≡ got b off'
    → (a : A) × (o : ℕ) × (r bs off ≡ got a o) × (f a bs o ≡ got b off')
bind-inverse r f bs off b off' h = elim (Read-cases (r bs off)) [
  | inl (a, o, e) ↦ (a, o, e, sym (bind-got r f a bs off o e) ∙ h)
  | inr (st, o, e) ↦
      let stopped : (r >>= f) bs off ≡ failed st o = rw (e, ◌>>=◌) refl in absurd (ground arith)
]

got-injective : {A : Type 0} (a b : A) (o o' : ℕ) → got a o ≡ got b o' → (a ≡ b) × (o ≡ o')
got-injective a b o o' h = (cc, cc)

fresh_param_set-size :
    (m : Memory) (s : ParamSet) → (fresh_param_set m s false).1.set_size ≡ s.set_size
unfolding fresh_param_set fresh_params
fresh_param_set-size m s = ground arith

module _ (m : Memory) (abi : Abi) where
  get_param_set_guard :
      (bs : List ℕ) (off : ℕ) (s : ParamSet) (off' : ℕ)
      → get_param_set_from_buffer m abi bs off ≡ got s off'
      → ((fresh_param_set m (abi.layout (drop off bs)) false).0 ≡ success)
        × (s ≡ (fresh_param_set m (abi.layout (drop off bs)) false).1)
        × (off ≤ length bs)
        × ((abi.layout (drop off bs)).set_size + 3 < 2 ^ 32)
        × (align_size (abi.layout (drop off bs)).set_size ≤ length bs - off)
        × (off' ≡ add32 off (align_size (abi.layout (drop off bs)).set_size))
  unfolding get_param_set_from_buffer is_addition_overflow
  get_param_set_guard bs off s off' h = ground arith

  get_param_set-Inside : Inside (get_param_set_from_buffer m abi) (λ s. s.set_size) IsLaid
  get_param_set-Inside bs off s off' fits h =
      let g = get_param_set_guard bs off s off' h in
      let from = abi.layout (drop off bs) in
      let b = align_size-bounds from.set_size g.3 in
      let kept : s.set_size ≡ from.set_size =
        ap (λ x. x.set_size) g.1 ∙ fresh_param_set-size m from in
      let moved : off' ≡ off + align_size from.set_size =
        g.5 ∙ add32-small off (align_size from.set_size) (omega (arith, g.2, g.4, fits)) in
      (
        subst IsLaid (sym g.1) (fresh_param_set-IsLaid m from false g.0).0,
        omega (arith, moved, kept, b),
        omega (arith, moved, g.2, g.4),
      )

  -- What HksImportKeyUnpack returns, of any buffer of a 32-bit size, lies in that buffer: the
  -- alias, the set and the key one behind the other with their two sizes, and the blobs of the set
  -- inside the set.
  pub import_key_unpack-inside :
      (bs : List ℕ) (key_alias : List ℕ) (s : ParamSet) (key : List ℕ) (off : ℕ)
      → length bs < 2 ^ 32
      → import_key_unpack m abi bs 0 ≡ got (key_alias, s, key) off
      → IsLaid s × (4 + length key_alias + s.set_size + (4 + length key) ≤ off) × (off ≤ length bs)
  unfolding import_key_unpack get_key_and_param_set_from_buffer
  import_key_unpack-inside bs key_alias s key off fits h =
      let named =
        bind-inverse (get_key_and_param_set_from_buffer m abi)
          (λ x. get_blob_from_buffer >>= λ k. return (x.0, x.1, k)) bs 0 (key_alias, s, key) off
          h in
      let first =
        bind-inverse get_blob_from_buffer
          (λ a. get_param_set_from_buffer m abi >>= λ t. return (a, t)) bs 0 named.0 named.1
          named.2 in
      let second =
        bind-inverse (get_param_set_from_buffer m abi) (λ t. return (first.0, t)) bs first.1 named.0
          named.1 first.3 in
      let third =
        bind-inverse get_blob_from_buffer (λ k. return (named.0.0, named.0.1, k)) bs named.1
          (key_alias, s, key) off named.3 in
      let a = get_blob-Inside bs 0 first.0 first.1 fits first.2 in
      let t = get_param_set-Inside bs first.1 second.0 second.1 fits second.2 in
      let k = get_blob-Inside bs named.1 third.0 third.1 fits third.2 in
      let e = got-injective (first.0, second.0) named.0 second.1 named.1 second.3 in
      let e' =
        got-injective (named.0.0, named.0.1, third.0) (key_alias, s, key) third.1 off third.3 in
      let same_set : second.0 ≡ s = ap (λ x. x.1) e.0 ∙ ap (λ x. x.1) e'.0 in
      let same_alias : first.0 ≡ key_alias = ap (λ x. x.0) e.0 ∙ ap (λ x. x.0) e'.0 in
      let same_key : third.0 ≡ key = ap (λ x. x.2) e'.0 in
      (
        subst IsLaid same_set t.0,
        omega (
          arith,
          a,
          t,
          k,
          e.1,
          e'.1,
          ap length same_alias,
          ap (λ x. x.set_size) same_set,
          ap length same_key,
        ),
        omega (arith, k, e'.1),
      )

-- For sizes of 32 bits CheckAndCalculateSize, which computes in 32 bits, returns four bytes for every
-- three, the last of which may be incomplete, and what stands around them, if the sum fits 32 bits,
-- and fails with HKS_ERROR_INVALID_ARGUMENT otherwise: no step wraps.
pub check_and_calculate_size_lem :
    (in_size extra_size : ℕ)
    → in_size < 2 ^ 32
    → extra_size < 2 ^ 32
    → ((in_size + 2) / 3 * 4 + extra_size < 2 ^ 32
        → check_and_calculate_size in_size extra_size
          ≡ (success, (in_size + 2) / 3 * 4 + extra_size))
      × (2 ^ 32 ≤ (in_size + 2) / 3 * 4 + extra_size
          → (check_and_calculate_size in_size extra_size).0 ≡ invalid_argument)
unfolding check_and_calculate_size
check_and_calculate_size_lem in_size extra_size small small' =
    (λ h. ground (arith, fits h), λ h. ground arith)
  where
    fits :
        (in_size + 2) / 3 * 4 + extra_size < 2 ^ 32
        → add32 ((add32 in_size 2 / 3 * 4) % 2 ^ 32) extra_size ≡ (in_size + 2) / 3 * 4 + extra_size
    fits h = omega arith
