-- ===== src/Ipc/Sent.antt =====
-- When a write of a client and a read of the service agree, and how such pairs compose: the copies
-- of hks_client_ipc_serialization.c against the reads of hks_service_ipc_serialization.c.
use security_huks.Prelude.{
  ℕ, ◌+◌, ◌^◌, ◌≤◌, ◌<◌, ◌≡◌, refl, sym, ◌∙◌, inl, inr, List, ◌++◌, length, drop, length-append,
  length-drop, append_assoc, arith, Bool-cases,
}
use security_huks.Status.{success, is_success}
use security_huks.Ipc.Buffer.{drop-drop}
use security_huks.Ipc.{Cursor, Writer, ◌>>◌, Reader, got, ◌>>=◌, return}

-- A write of `n` bytes at the place where `old` begins, and a read that finds `a` there, whatever
-- is written behind it.
pub record Sent {A : Type 0} (w : Writer) (r : Reader A) (a : A) (n : ℕ) (pre old : List ℕ)
    : Type 0 where
  pub chunk : List ℕ
  pub filled : length chunk ≡ n
  pub wrote :
      w (record { bytes = pre ++ old; offset = length pre })
      ≡ (success, record { bytes = (pre ++ chunk) ++ drop n old; offset = length (pre ++ chunk) })
  pub reads :
      (rest : List ℕ)
      → length ((pre ++ chunk) ++ rest) < 2 ^ 32
      → r ((pre ++ chunk) ++ rest) (length pre) ≡ got a (length (pre ++ chunk))

abbrev pub Sends : {A : Type 0} → Writer → Reader A → A → ℕ → Type 0
Sends w r a n =
    (pre old : List ℕ) → length (pre ++ old) < 2 ^ 32 → n ≤ length old → Sent w r a n pre old

pub length-written :
    (pre chunk old : List ℕ) (n : ℕ)
    → length chunk ≡ n
    → n ≤ length old
    → length ((pre ++ chunk) ++ drop n old) ≡ length (pre ++ old)
length-written pre chunk old n filled room = omega (
  arith,
  filled,
  room,
  length-append (pre ++ chunk) (drop n old),
  length-append pre chunk,
  length-append pre old,
  length-drop n old,
)

>>-assoc : (w w' w'' : Writer) (c : Cursor) → ((w >> w') >> w'') c ≡ (w >> (w' >> w'')) c
>>-assoc w w' w'' c = elim (Bool-cases (is_success (w c).0)) [
  | inl e ↦ rw e refl
  | inr e ↦ rw (e, e) refl
]

pub bind-got :
    {A B : Type 0} (r : Reader A) (f : A → Reader B) (a : A) (bs : List ℕ) (off off' : ℕ)
    → r bs off ≡ got a off'
    → (r >>= f) bs off ≡ f a bs off'
bind-got r f a bs off off' e = rw (e, ◌>>=◌) refl

pub Sends-then :
    {A B : Type 0} {w w' : Writer} {r : Reader A} (f : A → Reader B) {a : A} {b : B} {n n' : ℕ}
    → Sends w r a n
    → Sends w' (f a) b n'
    → Sends (w >> w') (r >>= f) b (n + n')
Sends-then {w = w} {w' = w'} {r = r} f {a = a} {b = b} {n = n} {n' = n'} x y pre old small room =
    let s = x pre old small (omega (arith, room)) in
    let keep_length = length-written pre s.chunk old n s.filled (omega (arith, room)) in
    let t =
      y (pre ++ s.chunk) (drop n old) (omega (arith, small, keep_length))
        (omega (arith, room, length-drop n old)) in
    let e : pre ++ (s.chunk ++ t.chunk) ≡ (pre ++ s.chunk) ++ t.chunk =
      sym (append_assoc pre s.chunk t.chunk) in
    record {
      chunk = s.chunk ++ t.chunk;
      filled = omega (arith, length-append s.chunk t.chunk, s.filled, t.filled);
      wrote = rw (s.wrote, e, sym (drop-drop n n' old)) t.wrote;
      reads = λ rest fits.
          let full : ((pre ++ s.chunk) ++ t.chunk) ++ rest ≡ (pre ++ s.chunk) ++ (t.chunk ++ rest) =
            append_assoc (pre ++ s.chunk) t.chunk rest in
          let fits' : length (((pre ++ s.chunk) ++ t.chunk) ++ rest) < 2 ^ 32 = rw e at fits in
          let first : r (((pre ++ s.chunk) ++ t.chunk) ++ rest) (length pre)
              ≡ got a (length (pre ++ s.chunk)) =
            rw full (s.reads (t.chunk ++ rest) (rw full at fits')) in
          rw e (bind-got r f a _ _ _ first ∙ t.reads rest fits');
    }

-- Three writes may be grouped in either way.
pub Sends-assoc :
    {A : Type 0} (w w' w'' : Writer) {r : Reader A} {a : A} {n : ℕ}
    → Sends (w >> (w' >> w'')) r a n
    → Sends ((w >> w') >> w'') r a n
Sends-assoc w w' w'' x pre old small room =
    let s = x pre old small room in
    record {
      chunk = s.chunk;
      filled = s.filled;
      wrote = >>-assoc w w' w'' _ ∙ s.wrote;
      reads = s.reads;
    }

-- A read whose value is only repacked.
pub Sends-map :
    {A B : Type 0} {w : Writer} {r : Reader A} (g : A → B) {a : A} {n : ℕ}
    → Sends w r a n
    → Sends w (r >>= λ x. return (g x)) (g a) n
Sends-map {r = r} g {a = a} x pre old small room =
    let s = x pre old small room in
    record {
      chunk = s.chunk;
      filled = s.filled;
      wrote = s.wrote;
      reads = λ rest fits. bind-got r (λ x. return (g x)) a _ _ _ (s.reads rest fits);
    }
