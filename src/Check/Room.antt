-- ===== src/Check/Room.antt =====
-- The buffers that hks_base_check.c accepts for a cipher request: the bytes that each kind of cipher
-- writes, and `HksCheckCipherData` against them.
use security_huks.Prelude.{
  ℕ, ◌+◌, ◌-◌, ◌*◌, ◌/◌, ◌%◌, ◌^◌, ◌<◌, ◌≡◌, ◌↔◌, Bool, true, false, not, ◌&&◌, ◌||◌, Option, none,
  some, ◌==◌, ltb, leb, if◌then◌else◌, elem, arith,
}
use security_huks.Status.{success}
use security_huks.Check.{ParamsValues}
use security_huks.Check.Values.{
  alg_aes, alg_rsa, alg_sm2, alg_sm4, cmd_id_decrypt, cmd_id_encrypt, digest_none, digest_sha1,
  mode_cbc, mode_ccm, mode_ctr, mode_ecb, mode_gcm, padding_none, padding_oaep,
}
use security_huks.Check.Lists.{sm4_mode}
use security_huks.Check.Cipher.{
  get_digest_len, check_rsa_no_pad_cipher_data, check_rsa_oaep_sizes, check_rsa_oaep_cipher_data,
  check_rsa_cipher_data, check_block_encrypt, check_block_decrypt, check_block_cbc_cipher_data,
  check_aes_ae_cipher_data, check_block_cipher_data, check_cipher_data,
}

-- `none` where the input itself is refused, else the bytes of the output.
abbrev when : Bool → ℕ → Option ℕ
when b n = if b then some n else none

-- A block mode without padding takes whole blocks of 16 bytes; padding fills the last block, or adds
-- one.
abbrev block_output : ℕ → ℕ → ℕ → ℕ → Option ℕ
block_output cmd mode padding n =
    let is_whole = not ((mode == mode_cbc) || (mode == mode_ecb)) || (n % 16 == 0) in
    if cmd == cmd_id_encrypt
    then (if padding == padding_none then when is_whole n else some (16 * (n / 16 + 1)))
    else if cmd == cmd_id_decrypt
    then when is_whole n
    else none

-- The tag of 16 bytes follows the text.
abbrev sealed_output : ℕ → ℕ → Option ℕ
sealed_output cmd n =
    if cmd == cmd_id_encrypt
    then some (n + 16)
    else if cmd == cmd_id_decrypt
    then when (leb 16 n) (n - 16)
    else none

-- OAEP needs two digests of `d` bytes and two bytes of the modulus of `k` bytes.
abbrev oaep_output : ℕ → ℕ → Option ℕ → ℕ → Option ℕ
oaep_output cmd k none n = none
oaep_output cmd k (some d) n =
    let is_long = ltb (2 * d + 2) k in
    if cmd == cmd_id_encrypt
    then when (is_long && leb (n + 2 * d + 2) k) k
    else if cmd == cmd_id_decrypt
    then when (is_long && leb n k) (k - (2 * d + 2))
    else when is_long 0

-- What is asked of the sizes: nothing, or that the input is not refused and the buffer holds the
-- output.
pub data Demand : Type 0 where
  unchecked : Demand
  checked : Option ℕ → Demand

-- RSA with PKCS1 v1.5, or any padding but none and OAEP, is left to the engine.
abbrev rsa_output : ℕ → ℕ → ℕ → ℕ → ℕ → Demand
rsa_output cmd k padding digest n =
    if padding == padding_none
    then checked (when (leb n k) k)
    else if padding == padding_oaep
    then checked (
        oaep_output cmd k (get_digest_len (if digest == digest_none then digest_sha1 else digest))
          n)
    else unchecked

abbrev pub aes_output : ℕ → ℕ → ℕ → ℕ → Option ℕ
aes_output cmd mode padding n =
    if (mode == mode_cbc) || (mode == mode_ctr) || (mode == mode_ecb)
    then block_output cmd mode padding n
    else if (mode == mode_gcm) || (mode == mode_ccm)
    then sealed_output cmd n
    else none

unfoldable pub needed_output : ℕ → ℕ → ParamsValues → ℕ → Demand
unfolding elem sm4_mode
needed_output cmd alg v n =
    if alg == alg_rsa
    then rsa_output cmd (v.key_len.value / 8) v.padding.value v.digest.value n
    else if alg == alg_aes
    then checked (aes_output cmd v.mode.value v.padding.value n)
    else if alg == alg_sm4
    then checked (
        if elem v.mode.value sm4_mode
        then block_output cmd v.mode.value v.padding.value n
        else none)
    else if alg == alg_sm2
    then unchecked
    else checked none

-- Whether a buffer holds an output.
abbrev pub is_held : Option ℕ → ℕ → Bool
is_held none size = false
is_held (some n) size = leb n size

abbrev pub meets : Demand → ℕ → Bool
meets unchecked size = true
meets (checked o) size = is_held o size

check_block_cbc_iff :
    (cmd mode padding n size : ℕ)
    → size < 2 ^ 32
    → (check_block_cbc_cipher_data mode cmd padding n size ≡ success)
      ↔ (is_held (block_output cmd mode padding n) size ≡ true)
unfolding check_block_cbc_cipher_data check_block_encrypt check_block_decrypt
check_block_cbc_iff cmd mode padding n size h = ground arith

check_aes_ae_iff :
    (cmd n size : ℕ)
    → size < 2 ^ 32
    → (check_aes_ae_cipher_data cmd n size ≡ success) ↔ (is_held (sealed_output cmd n) size ≡ true)
unfolding check_aes_ae_cipher_data
check_aes_ae_iff cmd n size h = ground arith

check_oaep_iff :
    (cmd k n size digest : ℕ)
    → (check_rsa_oaep_cipher_data cmd k digest n size ≡ success) ↔ (
        is_held
          (oaep_output cmd k
            (get_digest_len (if digest == digest_none then digest_sha1 else digest))
            n)
          size
        ≡ true)
unfolding check_rsa_oaep_cipher_data check_rsa_oaep_sizes
check_oaep_iff cmd k n size digest = ground arith

check_rsa_iff :
    (cmd : ℕ) (v : ParamsValues) (n size : ℕ)
    → (check_rsa_cipher_data cmd v n size ≡ success)
      ↔ (meets (rsa_output cmd (v.key_len.value / 8) v.padding.value v.digest.value n) size ≡ true)
unfolding check_rsa_cipher_data check_rsa_no_pad_cipher_data
check_rsa_iff cmd v n size =
    ground (arith, check_oaep_iff cmd (v.key_len.value / 8) n size v.digest.value)

pub check_cipher_data_iff :
    (cmd alg : ℕ) (v : ParamsValues) (n size : ℕ)
    → size < 2 ^ 32
    → (check_cipher_data cmd alg v n size ≡ success)
      ↔ (meets (needed_output cmd alg v n) size ≡ true)
unfolding check_cipher_data check_block_cipher_data needed_output elem
check_cipher_data_iff cmd alg v n size h = ground (
  arith,
  check_rsa_iff cmd v n size,
  check_block_cbc_iff cmd v.mode.value v.padding.value n size h,
  check_aes_ae_iff cmd n size h,
)
