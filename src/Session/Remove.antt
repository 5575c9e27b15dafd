-- ===== src/Session/Remove.antt =====
-- The searches of hks_session_manager.c that give up one node of the list: which node, and what
-- the list is without it.
use security_huks.Prelude.{
  ℕ, suc, ◌+◌, ◌≡◌, refl, ap, inl, inr, Bool, true, false, ◌&&◌, Option, none, some, List, [], ◌∷◌,
  length, arith, if◌then◌else◌, count, Bool-cases, All, In,
}
use security_huks.Session.{Operation, past, take_first, take_timed_out, is_timed_out}

-- `rest` is the list without one node of `x`.
pub data Removed (x : Operation) : List Operation → List Operation → Type 0 where
  here : {os : List Operation} → Removed x (x ∷ os) os
  there :
      {o : Operation} {os rest : List Operation} → Removed x os rest → Removed x (o ∷ os) (o ∷ rest)

pub length-Removed :
    {x : Operation} {os rest : List Operation} → Removed x os rest → length os ≡ suc (length rest)
length-Removed here = refl
length-Removed (there r) = ap suc (length-Removed r)

pub count-Removed :
    (p : Operation → Bool) {x : Operation} {os rest : List Operation}
    → Removed x os rest
    → count p os ≡ count p rest + (if p x then 1 else 0)
unfolding count
count-Removed p {x = x} here = ground arith
count-Removed p {x = x} (there r) = ground (arith, count-Removed p r)

-- What is in use stays when a node that is not in use goes.
pub In-Removed :
    {x : Operation} {os rest : List Operation} (o : Operation)
    → Removed x os rest
    → x.is_in_use ≡ false
    → o.is_in_use ≡ true
    → In o os
    → In o rest
In-Removed o here free held (inl e) = absurd (cc)
In-Removed o here free held (inr i) = i
In-Removed o (there r) free held (inl e) = inl e
In-Removed o (there r) free held (inr i) = inr (In-Removed o r free held i)

-- The outcome of a search that gives up a node with the property `P`.
abbrev pub Outcome :
    (Operation → Type 0) → List Operation → Option (Operation × List Operation) → Type 0
Outcome P os none = Unit
Outcome P os (some (x, rest)) = P x × Removed x os rest

Outcome-past :
    (P : Operation → Type 0) (o : Operation) (os : List Operation)
    (r : Option (Operation × List Operation))
    → Outcome P os r
    → Outcome P (o ∷ os) (past o r)
unfolding past
Outcome-past P o os none h = tt
Outcome-past P o os (some (x, rest)) h = (h.0, there h.1)

pub take_first-Outcome :
    (p : Operation → Bool) (os : List Operation) → Outcome (λ x. p x ≡ true) os (take_first p os)
unfolding take_first
take_first-Outcome p [] = tt
take_first-Outcome p (o ∷ os) = elim (Bool-cases (p o)) [
  | inl e ↦ rw (e, take_first) (e, here)
  | inr e ↦ rw (e, take_first) (Outcome-past _ o os (take_first p os) (take_first-Outcome p os))
]

-- A search that fails has met no node that passes.
pub take_first-none :
    (p : Operation → Bool) (os : List Operation)
    → take_first p os ≡ none
    → All (λ o. p o ≡ false) os
unfolding take_first past
take_first-none p [] h = tt
take_first-none p (o ∷ os) h = (ground arith, take_first-none p os (ground arith))

timed_out_free : (c : Option ℕ) (o : Operation) → is_timed_out c o ≡ true → o.is_in_use ≡ false
unfolding is_timed_out
timed_out_free none o h = absurd (cc)
timed_out_free (some now) o h = ground arith

-- A batch operation that has run out, and is not in use.
pub take_timed_out-Outcome :
    (clock : ℕ → Option ℕ) (k : ℕ) (os : List Operation)
    → Outcome
        (λ x. (x.is_batch_operation ≡ true) × (x.is_in_use ≡ false))
        os
        (take_timed_out clock k os)
unfolding take_timed_out
take_timed_out-Outcome clock k [] = tt
take_timed_out-Outcome clock k (o ∷ os) =
    elim (Bool-cases (o.is_batch_operation && is_timed_out (clock k) o)) [
      | inl e ↦ rw (e, take_timed_out) (out e, here)
      | inr e ↦
          let k' : ℕ = if o.is_batch_operation then k + 1 else k in
          rw (e, take_timed_out)
            (Outcome-past _ o os (take_timed_out clock k' os) (take_timed_out-Outcome clock k' os))
    ]
  where
    out :
        (o.is_batch_operation && is_timed_out (clock k) o) ≡ true
        → (o.is_batch_operation ≡ true) × (o.is_in_use ≡ false)
    out e = ground (arith, timed_out_free (clock k) o)
