-- ===== src/Native.antt =====
-- The native functions that the WASM chaincode imports
-- (wrapper_ta/ta/chaincode_native_functions.c): what they share. The functions are in the modules
-- below. `none` is a read or write outside its array. Logging is left out but for the copies that
-- it makes; `int` is ℤ, and lengths are cast as the source casts them.
pub mod Copying
pub mod Read
pub mod State
pub mod Reply
pub mod Mem
pub mod Table
pub mod Safety
use capstone_2025_team.Base.{
  ℕ, ◌-◌, Bool, true, false, not, ◌&&◌, Option, none, some, [], ◌∷◌, ℤ, pos, le_zero, pos_part,
  cap_at, ltb, ◌==◌, if◌then◌else◌, ◌>>=◌,
}
use capstone_2025_team.Memory.{Buffer, safe_strlen, of_list}
use capstone_2025_team.Platform.{Platform}
use capstone_2025_team.Session.{Mailbox}

-- What a native function can reach: the linear memory of the calling instance
-- (`wasm_runtime_get_module_inst`, `none`: NULL) and `g_chaincode_sess` (`none`: NULL).
pub record World : Type 0 where
  pub memory : Option Buffer
  pub mailbox : Option Mailbox

-- Both are there.
abbrev pub world : Buffer → Mailbox → World
world m sess = record { memory = some m; mailbox = some sess }

-- A native function's result and what it leaves, or a fault.
abbrev pub Outcome : Type 0
Outcome = Option (ℤ × World)

abbrev pub return : ℤ → World → Outcome
return z w = some (z, w)

-- A store through a native pointer wants an instance to point into.
abbrev pub into : Option Buffer → (Buffer → Option Buffer) → Option (Option Buffer)
into none f = none
into (some m) f = elim (f m) [ none ↦ none | some m' ↦ some (some m') ]

module _ (p : Platform) where
  open p use {mem_fill, mem_move, validate_app_addr, addr_app_to_native}

  -- `to_native`: the inner `none` is NULL.
  unfoldable pub to_native : Option Buffer → ℕ → ℕ → Option ℕ
  to_native inst app_offset size =
      if not (size == 0) && not (validate_app_addr inst app_offset size)
      then none
      else addr_app_to_native inst app_offset

  -- TEE_MemFill(out, 0, size); if (len > 0) TEE_MemMove(out, s + q, len);
  unfoldable pub fill_copy : Buffer → ℕ → ℕ → Buffer → ℕ → ℕ → Option Buffer
  fill_copy d out size s q len = do
    cleared ← mem_fill d out 0 size
    if ltb 0 len then mem_move cleared out s q len else some cleared

  -- The string of `s` at q, at most out_len - 1 bytes of it, goes to `out`; its length is returned.
  unfoldable pub hand_out : World → ℕ → ℕ → Buffer → ℕ → Outcome
  unfolding fill_copy
  hand_out w out out_len s q = do
    len ← safe_strlen s q (out_len - 1)
    memory ← into w.memory (λ m. fill_copy m out out_len s q len)
    return (pos len) (record w { memory = memory })

  abbrev pub move_from : Buffer → Option Buffer → ℕ → ℕ → Option Buffer
  move_from dst none q len = none
  move_from dst (some m) q len = mem_move dst 0 m q len

  -- TEE_MemFill(dst, 0, size); if (len > 0 && src) TEE_MemMove(dst, src, len);
  unfoldable pub take_in : Buffer → ℕ → Option Buffer → Option ℕ → ℤ → Option Buffer
  take_in dst size memory src len = do
    cleared ← mem_fill dst 0 0 size
    elim src [
      | none ↦ some cleared
      | some q ↦ if le_zero len then some cleared else move_from cleared memory q (pos_part len)
    ]

  -- The local copy of a message or key for the log: `char buf[128]`, zeroed and then filled with
  -- at most 127 bytes. Only a fault of it can be seen.
  unfoldable pub log_copy : Option Buffer → Option ℕ → ℤ → Option Buffer
  unfolding take_in
  log_copy memory src len = take_in (of_list 128 []) 128 memory src (cap_at len 127)
