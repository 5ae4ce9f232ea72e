-- ===== src/Ta/Hash.antt =====
-- `TA_HashWasmBytecode`: the SHA-256 digest of the bytecode.
pub mod Laws
use capstone_2025_team.Base.{
  ℕ, ◌/◌, Bool, not, Option, none, some, Bytes, length, ◌==◌, if◌then◌else◌, ◌>>=◌,
}
use capstone_2025_team.Memory.{Buffer, of_list, memcpy}
use capstone_2025_team.Ta.{Result, success, generic}

-- The TEE's digest operations, as far as they are used. A result code of 0 is TEE_SUCCESS, and
-- `handle` is what the variable `operation_handle` holds after TEE_AllocateOperation: it is not
-- initialized before. `digest_do_final` gives the digest that it writes, and `left` what a failed
-- call leaves in the array. `free_operation` returns (`true`), or it panics.
pub record Digest : Type 1 where
  pub Handle : Type 0
  pub allocate_operation : Handle → ℕ × Handle
  pub digest_do_final : Handle → Bytes → ℕ → ℕ × Bytes
  pub left : Buffer → Buffer
  pub free_operation : Handle → Bool

-- TEE_ERROR_GENERIC
abbrev pub error_generic : ℕ
error_generic = 0xffff0000

abbrev pub ra_hash_size : ℕ
ra_hash_size = 256

-- out: TEE_FreeOperation(operation_handle); return res;
abbrev free : (d : Digest) → d.Handle → ℕ × Buffer → Option (ℕ × Buffer)
free d handle result = if d.free_operation handle then some result else none

-- The result code, and the array `wasm_bytecode_hash` of RA_HASH_SIZE / 8 bytes. The TEE is told
-- that RA_HASH_SIZE bytes have room; a digest that is longer than the array is a fault (`none`).
-- `uninitialized` is what the handle's variable holds at first.
unfoldable pub hash_wasm_bytecode : (d : Digest) → d.Handle → Bytes → Buffer → Option (ℕ × Buffer)
unfolding memcpy of_list
hash_wasm_bytecode d uninitialized wasm hash =
    let (allocated, handle) = d.allocate_operation uninitialized in
    if not (allocated == 0)
    then free d handle (allocated, hash)
    else let (res, digest) = d.digest_do_final handle wasm ra_hash_size in
      if not (res == 0) then free d handle (res, d.left hash) else (do
        hash' ← memcpy hash 0 (of_list (length digest) digest) 0 (length digest)
        free d handle (if not (length digest == ra_hash_size / 8) then error_generic else 0, hash'))
