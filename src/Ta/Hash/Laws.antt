-- ===== src/Ta/Hash/Laws.antt =====
-- With SHA-256, whose digests have 32 bytes, the hash is stored whole, or the code says so.
use capstone_2025_team.Base.{
  ℕ, ◌≡◌, refl, ap, ◌∙◌, some, Bytes, length, arith, Bool-cases, inl, inr, ◌==◌, take-of-le, ◌⊎◌,
  ◌≢◌, sym, true, false, ==-eq,
}
use capstone_2025_team.Memory.{Buffer, bytes, moved, of_list, memcpy}
use capstone_2025_team.Memory.Copies.{bytes-moved, bytes-of_list}
use capstone_2025_team.Ta.Hash.{Digest, hash_wasm_bytecode}

-- A digest that was made has 32 bytes, and a handle that was allocated can be freed.
pub record Sha256 (d : Digest) : Type 0 where
  pub digest_length :
      (handle : d.Handle) (wasm : Bytes) (capacity : ℕ)
      → (d.digest_do_final handle wasm capacity).0 ≡ 0
      → length (d.digest_do_final handle wasm capacity).1 ≡ 32
  pub frees :
      (handle : d.Handle)
      → (d.allocate_operation handle).0 ≡ 0
      → d.free_operation (d.allocate_operation handle).1 ≡ true

-- A code of 0 comes with the digest in the array, and any other with what the TEE left there.
abbrev pub Hashed : Digest → Bytes → Buffer → ℕ → Buffer → Type 0
Hashed d digest hash code hash' =
    ((code ≡ 0) × (bytes hash' 0 32 ≡ digest)) ⊎ ((code ≢ 0) × (hash' ≡ d.left hash))

==-false : (n : ℕ) → (n == 0) ≡ false → n ≢ 0
==-false n h = ground arith

==-true : (n : ℕ) → (n == 0) ≡ true → n ≡ 0
==-true n h = ground arith

module _ (d : Digest) (uninitialized : d.Handle) (wasm : Bytes) (hash : Buffer)
    (sized : hash.size ≡ 32) where
  abbrev handle : d.Handle
  handle = (d.allocate_operation uninitialized).1

  abbrev made : Bytes
  made = (d.digest_do_final handle wasm 256).1

  copy_lem :
      length made ≡ 32
      → memcpy hash 0 (of_list (length made) made) 0 (length made)
        ≡ some (moved hash 0 (of_list (length made) made) 0 (length made))
  unfolding memcpy of_list
  copy_lem h = ground (arith, sized)

  stored :
      length made ≡ 32
      → bytes (moved hash 0 (of_list (length made) made) 0 (length made)) 0 32 ≡ made
  stored h =
      ap (bytes (moved hash 0 (of_list (length made) made) 0 (length made)) 0) (sym h)
      ∙ bytes-moved hash 0 (of_list (length made) made) 0 (length made)
      ∙ bytes-of_list (length made) made (length made) (omega arith)
      ∙ take-of-le (length made) made (omega arith)

  -- For an array of 32 bytes and a TEE that allocates the operation, can free it, and whose
  -- digests have 32 bytes: `TA_HashWasmBytecode` does not fault; it returns 0 with the digest in
  -- the array, or another code with what the TEE left in the array.
  pub hash_wasm_bytecode-Hashed :
      Sha256 d
      → (d.allocate_operation uninitialized).0 ≡ 0
      → (code : ℕ) × (hash' : Buffer) × (hash_wasm_bytecode d uninitialized wasm hash
          ≡ some (code, hash'))
        × Hashed d made hash code hash'
  unfolding hash_wasm_bytecode
  hash_wasm_bytecode-Hashed sha allocated =
      let gets = ==-eq (d.allocate_operation uninitialized).0 0 allocated in
      let freed = sha.frees uninitialized allocated in
      elim (Bool-cases ((d.digest_do_final handle wasm 256).0 == 0)) [
        | inr failed ↦ (
          (d.digest_do_final handle wasm 256).0,
          d.left hash,
          rw (gets, failed, freed) refl,
          inr (==-false (d.digest_do_final handle wasm 256).0 failed, refl),
        )
        | inl digested ↦
            let long =
              sha.digest_length handle wasm 256
                (==-true (d.digest_do_final handle wasm 256).0 digested) in
            (
              0,
              moved hash 0 (of_list (length made) made) 0 (length made),
              rw (gets, digested, copy_lem long, ==-eq (length made) 32 long, freed) refl,
              inl (refl, stored long),
            )
      ]
