-- ===== src/Native/Safety/Mem.antt =====
-- The memory routines are safe.
use capstone_2025_team.Base.{ℕ, some, ℤ, pos, arith, inl, inr, Option-cases}
use capstone_2025_team.Memory.{Buffer, filled, moved}
use capstone_2025_team.Platform.{Platform}
use capstone_2025_team.Session.{Mailbox, IsWellFormed}
use capstone_2025_team.Native.{world, to_native}
use capstone_2025_team.Native.Copying.{to_native_sound}
use capstone_2025_team.Native.Mem.{env_memset, env_memmove, to_u8}
use capstone_2025_team.Native.Safety.{Safe, unchanged}

module _ (p : Platform) (m : Buffer) (sess : Mailbox) (valid : IsWellFormed sess) where
  pub memset-Safe : (dst : ℕ) (c : ℤ) (n : ℕ) → Safe m sess (env_memset p (world m sess) dst c n)
  unfolding env_memset filled
  memset-Safe dst c n = elim (Option-cases (to_native p (some m) dst n)) [
    | inl null ↦ ground (arith, unchanged m sess valid (pos 0), unchanged m sess valid (pos dst))
    | inr (q, e) ↦ ground (
      arith,
      unchanged m sess valid (pos dst),
      valid,
      to_native_sound p m dst n q,
      p.mem_fill_lem m q (to_u8 c) n,
    )
  ]

  pub memmove-Safe : (dst src n : ℕ) → Safe m sess (env_memmove p (world m sess) dst src n)
  unfolding env_memmove moved
  memmove-Safe dst src n = elim (Option-cases (to_native p (some m) dst n)) [
    | inl null ↦ ground (arith, unchanged m sess valid (pos 0), unchanged m sess valid (pos dst))
    | inr (q, e) ↦ elim (Option-cases (to_native p (some m) src n)) [
      | inl null ↦ ground (arith, unchanged m sess valid (pos 0), unchanged m sess valid (pos dst))
      | inr (q', e') ↦ ground (
        arith,
        unchanged m sess valid (pos dst),
        valid,
        to_native_sound p m dst n q,
        to_native_sound p m src n q',
        p.mem_move_lem m q m q' n,
      )
    ]
  ]
