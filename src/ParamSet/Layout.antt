-- ===== src/ParamSet/Layout.antt =====
-- `HksFreshParamSet` on any set, one received from another process included: where the blob
-- pointers of an accepted set point, and that the blobs copied in are those that were given.
use security_huks.Prelude.{
  ℕ, ◌+◌, ◌*◌, ◌^◌, ◌≤◌, ◌<◌, ◌≡◌, refl, subst, ◌≢◌, ◌⊎◌, inl, inr, Bool, true, false, ◌&&◌, some,
  List, [], ◌∷◌, ◌++◌, map, length, arith, if◌then◌else◌,
}
use security_huks.Status.{Status, success}
use security_huks.Memory.{Memory}
use security_huks.ParamSet.{
  Param, ParamSet, inside, is_bytes, header_size, param_size, param_set_max_size, fixed_size, read,
  check_param_set,
}
use security_huks.ParamSet.Build.{
  Round, stop, go, fresh_round, Fresh, fresh_loop, fresh_params, fresh_param_set,
}
use security_huks.ParamSet.Size.{blob_size, blob_total, check_param_set_iff}

-- The blobs of the entries stand one behind the other from an offset on.
abbrev pub Laid : ℕ → List Param → Type 0
Laid off [] = Unit
Laid off (p ∷ ps) = (is_bytes p ≡ true → p.blob.ptr ≡ inside off) × Laid (off + blob_size p) ps

-- The entry without its blob pointer.
abbrev pub shape : Param → ℕ × ℕ × ℕ
shape p = (p.tag, p.scalar, p.blob.size)

abbrev pub shapes : List Param → List (ℕ × ℕ × ℕ)
shapes = map shape

-- What a round of the loop leaves when it goes on.
pub record Went (m : Memory) (copy : Bool) (s : ParamSet) (p p' : Param) (off off' : ℕ)
    (bs : List ℕ) : Type 0 where
  pub moved : off' ≡ off + blob_size p
  pub same : shape p' ≡ shape p
  pub points : is_bytes p ≡ true → p'.blob.ptr ≡ inside off
  pub stays : is_bytes p ≡ false → p' ≡ p
  pub copied : bs ≡ (if copy && is_bytes p then read s p.blob.ptr p.blob.size else [])

pub fresh_round-Went :
    (m : Memory) (copy : Bool) (s : ParamSet) (p p' : Param) (off off' : ℕ) (bs : List ℕ)
    → fresh_round m copy s p off ≡ go p' off' bs
    → Went m copy s p p' off off' bs
unfolding fresh_round blob_size
fresh_round-Went m copy s p p' off off' bs h = ground arith

pub Round-cases :
    (r : Round)
    → ((st : Status) × (r ≡ stop st))
      ⊎ ((p' : Param) × (off' : ℕ) × (bs : List ℕ) × (r ≡ go p' off' bs))
Round-cases (stop st) = inl (st, refl)
Round-cases (go p' off' bs) = inr (p', off', bs, refl)

-- The bytes of an entry's blob.
unfoldable pub view : ParamSet → Param → List ℕ
view s p = if is_bytes p then read s p.blob.ptr p.blob.size else []

unfoldable pub all_views : ParamSet → List Param → List ℕ
all_views s [] = []
all_views s (p ∷ ps) = view s p ++ all_views s ps

-- What the loop leaves when it ends well.
pub record Looped (m : Memory) (copy : Bool) (s : ParamSet) (ps : List Param) (off : ℕ) (r : Fresh)
    : Type 0 where
  pub reached : r.offset ≡ off + blob_total ps
  pub same : shapes r.params ≡ shapes ps
  pub laid : Laid off r.params
  pub copied : r.copied ≡ (if copy then all_views s ps else [])

pub fresh_round_stops :
    (m : Memory) (copy : Bool) (s : ParamSet) (p : Param) (off : ℕ) (st : Status)
    → fresh_round m copy s p off ≡ stop st
    → st ≢ success
unfolding fresh_round
fresh_round_stops m copy s p off st e h = ground arith

-- The size and the type of an entry are in its shape.
pub is_bytes-shape : (p q : Param) → shape p ≡ shape q → is_bytes p ≡ is_bytes q
unfolding is_bytes
is_bytes-shape p q h = ground arith

blob_size-shape : (p q : Param) → shape p ≡ shape q → blob_size p ≡ blob_size q
unfolding blob_size is_bytes
blob_size-shape p q h = ground arith

Looped-cons :
    (m : Memory) (copy : Bool) (s : ParamSet) (p p' : Param) (ps : List Param) (off off' : ℕ)
    (bs : List ℕ) (r : Fresh)
    → Went m copy s p p' off off' bs
    → Looped m copy s ps off' r
    → Looped m copy s (p ∷ ps) off (record {
      status = r.status;
      params = p' ∷ r.params;
      copied = bs ++ r.copied;
      offset = r.offset;
    })
unfolding blob_total all_views view
Looped-cons m copy s p p' ps off off' bs r w l = record {
  reached = omega (arith, w.moved, l.reached);
  same = rw (w.same, l.same);
  laid = (λ b. w.points (type b), subst (λ k. Laid k r.params) moved l.laid);
  copied = ground arith;
}
  where
    type : is_bytes p' ≡ true → is_bytes p ≡ true
    type b = ground (arith, is_bytes-shape p' p)

    moved : off' ≡ off + blob_size p'
    moved = rw (blob_size-shape p' p w.same) w.moved

pub fresh_loop-Looped :
    (m : Memory) (copy : Bool) (s : ParamSet) (ps : List Param) (off : ℕ)
    → (fresh_loop m copy s ps off).status ≡ success
    → Looped m copy s ps off (fresh_loop m copy s ps off)
unfolding fresh_loop blob_total all_views
fresh_loop-Looped m copy s [] off h = record {
  reached = omega arith;
  same = refl;
  laid = tt;
  copied = ground arith;
}
fresh_loop-Looped m copy s (p ∷ ps) off h = elim (Round-cases (fresh_round m copy s p off)) [
  | inl (st, e) ↦
      let h' : st ≡ success = rw (e, fresh_loop) at h in
      absurd (fresh_round_stops m copy s p off st e h')
  | inr (p', off', bs, e) ↦
      let h' : (fresh_loop m copy s ps off').status ≡ success = rw (e, fresh_loop) at h in
      rw (e, fresh_loop)
        (Looped-cons m copy s p p' ps off off' bs (fresh_loop m copy s ps off')
          (fresh_round-Went m copy s p p' off off' bs e) (fresh_loop-Looped m copy s ps off' h'))
]

pub blob_total-shapes : (ps qs : List Param) → shapes ps ≡ shapes qs → blob_total ps ≡ blob_total qs
unfolding blob_total
blob_total-shapes [] [] h = refl
blob_total-shapes [] (q ∷ qs) h = absurd (cc)
blob_total-shapes (p ∷ ps) [] h = absurd (cc)
blob_total-shapes (p ∷ ps) (q ∷ qs) h = ground (arith, blob_size-shape p q, blob_total-shapes ps qs)

pub length-shapes : (ps qs : List Param) → shapes ps ≡ shapes qs → length ps ≡ length qs
length-shapes [] [] h = refl
length-shapes [] (q ∷ qs) h = absurd (cc)
length-shapes (p ∷ ps) [] h = absurd (cc)
length-shapes (p ∷ ps) (q ∷ qs) h = ground (arith, length-shapes ps qs)

-- Where the blobs of an accepted set stand: one behind the other after the entries, up to the end.
pub record IsLaid (s : ParamSet) : Type 0 where
  pub small : s.set_size ≤ param_set_max_size
  pub whole : s.set_size ≡ header_size + param_size * length s.params + blob_total s.params
  pub laid : Laid (header_size + param_size * length s.params) s.params

-- What `FreshParamSet` leaves when it succeeds.
pub record Freshened (m : Memory) (s : ParamSet) (copy : Bool) (t : ParamSet) : Type 0 where
  pub size : t.set_size ≡ s.set_size
  pub same : shapes t.params ≡ shapes s.params
  pub within : t.set_size ≡ fixed_size (length s.params) + blob_total t.params
  pub laid : Laid (fixed_size (length s.params)) t.params
  pub bytes : t.payload ≡ (if copy then all_views s s.params else s.payload)
  pub loop : (fresh_loop m copy s s.params (fixed_size (length s.params))).status ≡ success
  pub entries : t.params ≡ (fresh_loop m copy s s.params (fixed_size (length s.params))).params

pub fresh_params-Freshened :
    (m : Memory) (s : ParamSet) (copy : Bool)
    → (fresh_params m s copy).0 ≡ success
    → Freshened m s copy (fresh_params m s copy).1
unfolding fresh_params
fresh_params-Freshened m s copy h =
    let r = fresh_loop m copy s s.params (fixed_size (length s.params)) in
    let ok : r.status ≡ success = ground arith in
    let l = fresh_loop-Looped m copy s s.params (fixed_size (length s.params)) ok in
    record {
      size = refl;
      same = l.same;
      within = ground (arith, l.reached, blob_total-shapes r.params s.params l.same);
      laid = l.laid;
      bytes = ground (arith, l.copied);
      loop = ok;
      entries = refl;
    }

pub fixed_size-eq : (n : ℕ) → header_size + param_size * n < 2 ^ 32 → fixed_size n ≡ 8 + 24 * n
unfolding fixed_size
fixed_size-eq n h = omega arith

pub Freshened-IsLaid :
    (m : Memory) (s t : ParamSet) (copy : Bool)
    → s.set_size ≤ param_set_max_size
    → header_size + param_size * length s.params ≤ s.set_size
    → Freshened m s copy t
    → IsLaid t
Freshened-IsLaid m s t copy small room f = record {
  small = omega (arith, f.size);
  whole = omega (arith, f.within, fixed, count);
  laid = subst (λ k. Laid k t.params) start f.laid;
}
  where
    fixed : fixed_size (length s.params) ≡ 8 + 24 * length s.params
    fixed = fixed_size-eq (length s.params) (omega arith)

    count : length t.params ≡ length s.params
    count = length-shapes t.params s.params f.same

    start : fixed_size (length s.params) ≡ 8 + 24 * length t.params
    start = omega (arith, fixed, count)

-- Whatever set it is given, `HksFreshParamSet` accepts it only if the header, the entries and the
-- blobs make up exactly the size of the set, which is at most 4 MB. Every blob pointer then is an
-- offset into the set, and the blobs follow one another without overlap. Tags, scalars and sizes
-- stay as they were.
pub fresh_param_set-IsLaid :
    (m : Memory) (s : ParamSet) (copy : Bool)
    → (fresh_param_set m s copy).0 ≡ success
    → IsLaid (fresh_param_set m s copy).1
      × (shapes (fresh_param_set m s copy).1.params ≡ shapes s.params)
unfolding fresh_param_set
fresh_param_set-IsLaid m s copy h =
    let ok : check_param_set (some s) s.set_size ≡ success = ground arith in
    let e : fresh_param_set m s copy ≡ fresh_params m s copy = ground arith in
    let f = fresh_params-Freshened m s copy (ground arith) in
    let c = (check_param_set_iff s s.set_size).0 ok in
    rw e (Freshened-IsLaid m s (fresh_params m s copy).1 copy c.1 c.2 f, f.same)
