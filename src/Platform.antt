-- ===== src/Platform.antt =====
-- What the TA uses of the code around it: the TEE's memory routines and WAMR's address functions.
-- Neither is in the repository, so each is a parameter with its documented behaviour. A routine
-- is only specified inside the arrays that it is given.
pub mod Strict
use capstone_2025_team.Base.{ℕ, ◌+◌, ◌≤◌, ◌<◌, ◌≡◌, Bool, true, Option, some}
use capstone_2025_team.Memory.{Buffer, filled, moved}

pub record Platform : Type 0 where
  -- TEE_MemFill(b + p, c, n)
  pub mem_fill : Buffer → ℕ → ℕ → ℕ → Option Buffer
  -- TEE_MemMove(d + p, s + q, n)
  pub mem_move : Buffer → ℕ → Buffer → ℕ → ℕ → Option Buffer
  -- wasm_runtime_validate_app_addr and wasm_runtime_addr_app_to_native, on the linear memory of
  -- the instance (`none`: the instance is NULL). A native pointer is a position in that memory.
  pub validate_app_addr : Option Buffer → ℕ → ℕ → Bool
  pub addr_app_to_native : Option Buffer → ℕ → Option ℕ
  pub mem_fill_lem :
      (b : Buffer) (p c n : ℕ) → p + n ≤ b.size → mem_fill b p c n ≡ some (filled b p c n)
  pub mem_move_lem :
      (d : Buffer) (p : ℕ) (s : Buffer) (q n : ℕ)
      → p + n ≤ d.size
      → q + n ≤ s.size
      → mem_move d p s q n ≡ some (moved d p s q n)
  pub validate_sound :
      (m : Buffer) (p n : ℕ) → validate_app_addr (some m) p n ≡ true → p + n ≤ m.size
  pub validate_complete :
      (m : Buffer) (p n : ℕ) → p + n ≤ m.size → validate_app_addr (some m) p n ≡ true
  pub native_sound :
      (m : Buffer) (p q : ℕ) → addr_app_to_native (some m) p ≡ some q → (q ≡ p) × (p < m.size)
  pub native_complete :
      (m : Buffer) (p : ℕ) → 0 < p → p < m.size → addr_app_to_native (some m) p ≡ some p
