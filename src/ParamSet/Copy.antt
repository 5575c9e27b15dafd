-- ===== src/ParamSet/Copy.antt =====
-- `HksBuildParamSet` of hks_param.c: when it succeeds, and that the set then holds the blobs that
-- its entries were given.
use security_huks.Prelude.{
  ℕ, ◌+◌, ◌-◌, ◌*◌, ◌^◌, ◌≤◌, ◌<◌, ◌≡◌, refl, sym, ap, ◌∙◌, inl, inr, Bool, true, false, some, List,
  [], ◌∷◌, ◌++◌, map, length, take, drop, length-append, append_assoc, take-append, drop-append,
  arith, Bool-cases, All,
}
use security_huks.Status.{success}
use security_huks.Memory.{Memory, IsSecurec, hks_malloc}
use security_huks.ParamSet.{
  Ptr, Param, ParamSet, null, outside, inside, freed, is_bytes, is_null, header_size, param_size,
  param_set_max_size, fixed_size, read, check_param_set,
}
use security_huks.ParamSet.Build.{
  go, place, dangle_at, dangle, moved, fresh_round, Fresh, fresh_loop, fresh_params,
  fresh_param_set, build_params, build_param_set,
}
use security_huks.ParamSet.Size.{blob_size, blob_total, check_param_set_iff, IsSized}
use security_huks.ParamSet.Layout.{
  shapes, Went, Looped, Freshened, IsLaid, view, all_views, Round-cases, fresh_round-Went,
  fresh_loop-Looped, fresh_params-Freshened, fixed_size-eq, length-shapes, is_bytes-shape,
  Freshened-IsLaid, fresh_round_stops,
}

unfoldable pub is_outside : Ptr → Bool
is_outside null = false
is_outside (outside bs) = true
is_outside (inside off) = false
is_outside freed = false

-- The blob of the entry is there: it points outside the set, it is not empty, and as many bytes stand
-- where it points.
abbrev pub IsBacked : ParamSet → Param → Type 0
IsBacked s p =
    is_bytes p ≡ true
    → (is_outside p.blob.ptr ≡ true)
      × (0 < p.blob.size)
      × (length (read s p.blob.ptr p.blob.size) ≡ p.blob.size)

pub outside_there : (q : Ptr) → is_outside q ≡ true → is_null q ≡ false
unfolding is_outside is_null
outside_there null h = absurd (cc)
outside_there (outside bs) h = refl
outside_there (inside off) h = absurd (cc)
outside_there freed h = absurd (cc)

-- Such entries are the same when their set moves.
dangle_at-outside : (q : Ptr) → is_outside q ≡ true → dangle_at q ≡ q
unfolding is_outside dangle_at
dangle_at-outside null h = refl
dangle_at-outside (outside bs) h = refl
dangle_at-outside (inside off) h = absurd (cc)
dangle_at-outside freed h = refl

dangle-IsBacked : (s : ParamSet) (p : Param) → IsBacked s p → dangle p ≡ p
unfolding dangle
dangle-IsBacked s p backed = elim (Bool-cases (is_bytes p)) [
  | inl b ↦ rw b (
      ap (λ q. record p { blob = record { size = p.blob.size; ptr = q } })
        (dangle_at-outside p.blob.ptr (backed b).0))
  | inr b ↦ rw b refl
]

moved-IsBacked : (s : ParamSet) → All (IsBacked s) s.params → moved s ≡ s
unfolding moved
moved-IsBacked s backed = ap (λ ps. record s { params = ps }) (all_same s.params backed)
  where
    all_same : (ps : List Param) → All (IsBacked s) ps → map dangle ps ≡ ps
    all_same [] h = refl
    all_same (p ∷ ps) h = λ i. dangle-IsBacked s p h.0 i ∷ all_same ps h.1 i

-- Bytes found in the middle of a list.
take-drop-middle :
    (pre bs rest : List ℕ) → take (length bs) (drop (length pre) (pre ++ (bs ++ rest))) ≡ bs
take-drop-middle pre bs rest = rw (drop-append pre (bs ++ rest)) (take-append bs rest)

read_inside :
    (t : ParamSet) (off : ℕ) (pre bs rest : List ℕ)
    → off ≡ fixed_size (length t.params) + length pre
    → t.payload ≡ pre ++ (bs ++ rest)
    → read t (inside off) (length bs) ≡ bs
unfolding read
read_inside t off pre bs rest at full =
    let e : off - fixed_size (length t.params) ≡ length pre = omega (arith, at) in
    rw (e, full) (take-drop-middle pre bs rest)

view-placed :
    (m : Memory) (s t : ParamSet) (p p' : Param) (off off' : ℕ) (pre bs rest : List ℕ)
    → off ≡ fixed_size (length t.params) + length pre
    → t.payload ≡ pre ++ (bs ++ rest)
    → IsBacked s p
    → Went m true s p p' off off' bs
    → view t p' ≡ view s p
unfolding view
view-placed m s t p p' off off' pre bs rest at full backed w = elim (Bool-cases (is_bytes p)) [
  | inl b ↦
      let b' : is_bytes p' ≡ true = is_bytes-shape p' p w.same ∙ b in
      let n : p'.blob.size ≡ length bs = ground (arith, backed b) in
      rw (b, b', w.points b, n) (read_inside t off pre bs rest at full ∙ from b)
  | inr b ↦ let b' : is_bytes p' ≡ false = is_bytes-shape p' p w.same ∙ b in rw (b, b')
]
  where
    from : is_bytes p ≡ true → bs ≡ read s p.blob.ptr p.blob.size
    from b = w.copied ∙ (rw b)

length-copied :
    (m : Memory) (s : ParamSet) (p p' : Param) (off off' : ℕ) (bs : List ℕ)
    → Went m true s p p' off off' bs
    → IsBacked s p
    → length bs ≡ blob_size p
unfolding blob_size
length-copied m s p p' off off' bs w backed = elim (Bool-cases (is_bytes p)) [
  | inl b ↦ ground (arith, w.copied, (backed b).2)
  | inr b ↦ ground (arith, w.copied)
]

-- The entries that the loop leaves show in `t` what they showed in `s`.
fresh_loop-views :
    (m : Memory) (s t : ParamSet) (ps : List Param) (off : ℕ) (pre : List ℕ)
    → off ≡ fixed_size (length t.params) + length pre
    → t.payload ≡ pre ++ (fresh_loop m true s ps off).copied
    → All (IsBacked s) ps
    → (fresh_loop m true s ps off).status ≡ success
    → map (view t) (fresh_loop m true s ps off).params ≡ map (view s) ps
unfolding fresh_loop
fresh_loop-views m s t [] off pre at full backed h = refl
fresh_loop-views m s t (p ∷ ps) off pre at full backed h =
    elim (Round-cases (fresh_round m true s p off)) [
      | inl (st, e) ↦
          let h' : st ≡ success = rw (e, fresh_loop) at h in
          absurd (fresh_round_stops m true s p off st e h')
      | inr (p', off', bs, e) ↦
          let r = fresh_loop m true s ps off' in
          let h' : r.status ≡ success = rw (e, fresh_loop) at h in
          let full' : t.payload ≡ pre ++ (bs ++ r.copied) = rw (e, fresh_loop) at full in
          let w = fresh_round-Went m true s p p' off off' bs e in
          let grown : off' ≡ fixed_size (length t.params) + length (pre ++ bs) =
            omega (
              arith,
              w.moved,
              length-append pre bs,
              length-copied m s p p' off off' bs w backed.0,
            ) in
          rw (e, fresh_loop)
            (λ i.
              view-placed m s t p p' off off' pre bs r.copied at full' backed.0 w i
              ∷ fresh_loop-views m s t ps off' (pre ++ bs) grown
                  (full' ∙ sym (append_assoc pre bs r.copied)) backed.1 h' i)
    ]

-- A set that is being built holds what its entries were given when it is done.
pub record Built (s t : ParamSet) : Type 0 where
  pub laid : IsLaid t
  pub same : shapes t.params ≡ shapes s.params
  pub kept : map (view t) t.params ≡ map (view s) s.params
  pub bytes : t.payload ≡ all_views s s.params

fresh_round_goes :
    (m : Memory) (s : ParamSet) (p : Param) (off : ℕ)
    → IsSecurec m
    → s.set_size < 2 ^ 32
    → off + blob_size p ≤ s.set_size
    → IsBacked s p
    → (p' : Param) × (off' : ℕ) × (bs : List ℕ) × (fresh_round m true s p off ≡ go p' off' bs)
unfolding fresh_round blob_size
fresh_round_goes m s p off sec small room backed = elim (Bool-cases (is_bytes p)) [
  | inl b ↦ (
    place p off,
    off + p.blob.size,
    read s p.blob.ptr p.blob.size,
    ground (
      arith,
      backed b,
      outside_there p.blob.ptr (backed b).0,
      sec.fits (s.set_size - off) p.blob.size,
    ),
  )
  | inr b ↦ (p, off, [], ground arith)
]

fresh_loop_succeeds :
    (m : Memory) (s : ParamSet) (ps : List Param) (off : ℕ)
    → IsSecurec m
    → s.set_size < 2 ^ 32
    → off + blob_total ps ≤ s.set_size
    → All (IsBacked s) ps
    → (fresh_loop m true s ps off).status ≡ success
unfolding fresh_loop blob_total
fresh_loop_succeeds m s [] off sec small room backed = refl
fresh_loop_succeeds m s (p ∷ ps) off sec small room backed =
    let (p', off', bs, e) = fresh_round_goes m s p off sec small (omega arith) backed.0 in
    let w = fresh_round-Went m true s p p' off off' bs e in
    rw (e, fresh_loop) (fresh_loop_succeeds m s ps off' sec small (omega (arith, w.moved)) backed.1)

fresh_params-Built :
    (m : Memory) (s : ParamSet)
    → IsSecurec m
    → IsSized s
    → s.set_size ≤ param_set_max_size
    → All (IsBacked s) s.params
    → ((fresh_params m s true).0 ≡ success) × Built s (fresh_params m s true).1
unfolding fresh_params
fresh_params-Built m s sec sized small backed = (
  done,
  record {
    laid = Freshened-IsLaid m s t true small room f;
    same = f.same;
    kept = kept;
    bytes = f.bytes;
  },
)
  where
    off : ℕ
    off = fixed_size (length s.params)

    start : off ≡ 8 + 24 * length s.params
    start = fixed_size-eq (length s.params) (omega arith)

    room : header_size + param_size * length s.params ≤ s.set_size
    room = omega arith

    r : Fresh
    r = fresh_loop m true s s.params off

    ok : r.status ≡ success
    ok = fresh_loop_succeeds m s s.params off sec sized.fits (omega (arith, start)) backed

    l : Looped m true s s.params off r
    l = fresh_loop-Looped m true s s.params off ok

    t : ParamSet
    t = (fresh_params m s true).1

    done : (fresh_params m s true).0 ≡ success
    done = ground (arith, ok, l.reached, start)

    f : Freshened m s true t
    f = fresh_params-Freshened m s true done

    kept : map (view t) t.params ≡ map (view s) s.params
    kept =
        fresh_loop-views m s t s.params off []
          (omega (arith, ap fixed_size (length-shapes t.params s.params f.same))) refl backed ok

-- `HksBuildParamSet` succeeds on every set of at most 4 MB whose size field covers it and whose
-- blobs are there, outside the set, if memory for the larger block is found. The entries, their tags, scalars and
-- sizes stay in order, each blob is copied into the set, one behind the other up to its end, and
-- the bytes that its pointer now shows are those that the entry was given.
pub build_param_set-Built :
    (m : Memory) (s : ParamSet)
    → IsSecurec m
    → IsSized s
    → s.set_size ≤ param_set_max_size
    → hks_malloc m s.set_size ≡ true
    → All (IsBacked s) s.params
    → (t : ParamSet) × (build_param_set m (some s) ≡ (success, some t)) × Built s t
unfolding build_param_set build_params fresh_param_set
build_param_set-Built m s sec sized small mem backed =
    let (done, built) = fresh_params-Built m s sec sized small backed in
    let start = fixed_size-eq (length s.params) (omega arith) in
    let fixed : m.memcpy_s s.set_size (fixed_size (length s.params)) ≡ true =
      sec.fits s.set_size (fixed_size (length s.params)) (omega (arith, start))
        (omega (arith, start)) in
    let ok : check_param_set (some s) s.set_size ≡ success =
      (check_param_set_iff s s.set_size).1 refl small (omega arith) in
    (
      (fresh_params m s true).1,
      ground (arith, ok, done, mem, fixed, moved-IsBacked s backed),
      built,
    )
