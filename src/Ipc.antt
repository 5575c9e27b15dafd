-- ===== src/Ipc.antt =====
-- The buffers in which a client hands the arguments of a call to the service. A buffer is the
-- list of its bytes; `destData->size` is its length. This file has what both sides share; Client
-- is frameworks/huks_standard/main/os_dependency/ipc/src/hks_client_ipc_serialization.c, Service
-- is services/huks_standard/huks_service/main/os_dependency/idl/ipc/
-- hks_service_ipc_serialization.c.
pub mod Client
pub mod Service
pub mod Buffer
pub mod Sent
pub mod Blobs
pub mod Copied
pub mod RoundTrip
pub mod Delete
pub mod Inside
mod Tests
use security_huks.Prelude.{
  ℕ, zero, suc, ◌+◌, ◌-◌, ◌*◌, ◌/◌, ◌%◌, ◌^◌, Bool, true, false, ◌&&◌, ◌||◌, List, [], ◌∷◌, ◌++◌,
  length, take, drop, ltb, ◌==◌, if◌then◌else◌,
}
use security_huks.Status.{Status, success, is_success}

-- The buffer that is being filled, and the offset of the next byte.
pub record Cursor : Type 0 where
  pub bytes : List ℕ
  pub offset : ℕ

-- A call that writes, and returns a result code.
abbrev pub Writer : Type 0
Writer = Cursor → Status × Cursor

-- `HKS_IF_NOT_SUCC_LOGE_RETURN` between two writes.
infixl 5 ◌>>◌
abbrev pub ◌>>◌ : Writer → Writer → Writer
◌>>◌ m k c = let r = m c in if is_success r.0 then k r.1 else r

-- How a call that reads ends: with a value or a result code, and the next offset.
pub data Read (A : Type 0) : Type 0 where
  got : A → ℕ → Read A
  failed : Status → ℕ → Read A

-- A call that reads a buffer from an offset on.
abbrev pub Reader : Type 0 → Type 0
Reader A = List ℕ → ℕ → Read A

infixl 5 ◌>>=◌
abbrev pub ◌>>=◌ : {A B : Type 0} → Reader A → (A → Reader B) → Reader B
◌>>=◌ m f bs off = elim (m bs off) [ got a off' ↦ f a bs off' | failed st off' ↦ failed st off' ]

abbrev pub return : {A : Type 0} → A → Reader A
return a bs off = got a off

-- `memcpy` of bytes to an offset.
unfoldable pub put : ℕ → List ℕ → List ℕ → List ℕ
put off bs old = take off old ++ (bs ++ drop (off + length bs) old)

-- ALIGN_SIZE: `((uint32_t)size + 3) >> 2 << 2`.
unfoldable pub align_size : ℕ → ℕ
align_size n = (n + 3) % 2 ^ 32 / 4 * 4

-- The bytes of an uint32_t in memory, the least significant first.
unfoldable pub le_bytes : ℕ → List ℕ
le_bytes n = n % 256 ∷ n / 256 % 256 ∷ n / 65536 % 256 ∷ n / 16777216 % 256 ∷ []

-- The uint32_t at the head of some bytes.
unfoldable pub le_u32 : List ℕ → ℕ
le_u32 (a ∷ b ∷ c ∷ d ∷ _) = a + 256 * b + 65536 * c + 16777216 * d
le_u32 _ = 0

abbrev pub max_out_blob_size : ℕ
max_out_blob_size = 5 * 1024 * 1024

-- `IsInvalidLength`.
unfoldable pub is_invalid_length : ℕ → Bool
is_invalid_length n = (n == 0) || ltb max_out_blob_size n
