-- ===== src/Native/Mem.antt =====
-- `memset`, `memcpy` and `memmove`, which the compiler's code calls.
use capstone_2025_team.Base.{
  ℕ, ◌-◌, ◌%◌, not, none, some, ℤ, pos, negsuc, ◌==◌, if◌then◌else◌, ◌>>=◌,
}
use capstone_2025_team.Platform.{Platform}
use capstone_2025_team.Native.{World, Outcome, return, into, to_native}

-- (uint8_t) c
abbrev pub to_u8 : ℤ → ℕ
to_u8 (pos n) = n % 256
to_u8 (negsuc n) = 255 - n % 256

module _ (p : Platform) where
  open p use {mem_fill, mem_move}

  -- `memset`, `memcpy` and `memmove` for the WASM code. With n = 0 nothing is written.
  unfoldable pub env_memset : World → ℕ → ℤ → ℕ → Outcome
  unfolding to_native
  env_memset w dst_ptr c n = elim (to_native p w.memory dst_ptr n) [
    | none ↦ if not (n == 0) then return (pos 0) w else return (pos dst_ptr) w
    | some dst ↦
        if not (n == 0)
        then (do
          memory ← into w.memory (λ m. mem_fill m dst (to_u8 c) n)
          return (pos dst_ptr) (record w { memory = memory }))
        else return (pos dst_ptr) w
  ]

  unfoldable pub env_memmove : World → ℕ → ℕ → ℕ → Outcome
  unfolding to_native
  env_memmove w dst_ptr src_ptr n = elim (to_native p w.memory dst_ptr n) [
    | none ↦ if not (n == 0) then return (pos 0) w else return (pos dst_ptr) w
    | some dst ↦ elim (to_native p w.memory src_ptr n) [
      | none ↦ if not (n == 0) then return (pos 0) w else return (pos dst_ptr) w
      | some src ↦
          if not (n == 0)
          then (do
            memory ← into w.memory (λ m. mem_move m dst m src n)
            return (pos dst_ptr) (record w { memory = memory }))
          else return (pos dst_ptr) w
    ]
  ]

  -- The source writes the same body twice.
  unfoldable pub env_memcpy : World → ℕ → ℕ → ℕ → Outcome
  unfolding env_memmove
  env_memcpy w dst_ptr src_ptr n = env_memmove w dst_ptr src_ptr n
