-- ===== src/Native/Read.antt =====
-- `cc_get_function` and `cc_get_arg`: the arguments of the invocation, for the chaincode to read.
pub mod Laws
use capstone_2025_team.Base.{
  ℕ, suc, ◌+◌, ◌*◌, ◌-◌, ◌%◌, ◌<◌, ◌≤◌, ◌≡◌, Bool, true, false, not, ◌&&◌, ◌||◌, Option, none, some,
  [], ◌∷◌, ℤ, pos, negsuc, le_zero, pos_part, to_u32, cap_at, ltb, leb, ◌==◌, if◌then◌else◌, ◌>>=◌,
}
use capstone_2025_team.Memory.{Buffer, store, safe_strlen, of_list}
use capstone_2025_team.Platform.{Platform}
use capstone_2025_team.Session.{
  Mailbox, key_size, val_size, response_size, row_at, args_number, get_state_request,
  put_state_request,
}
use capstone_2025_team.Native.{World, Outcome, return, into, to_native, hand_out, take_in, log_copy}

-- The row that `idx` selects: `arguments[idx + 1]` if 0 <= idx < ARGS_NUMBER, else "".
unfoldable pub arg_row : Option Mailbox → ℤ → Buffer × ℕ
arg_row none idx = (of_list 1 [], 0)
arg_row (some sess) (negsuc i) = (of_list 1 [], 0)
arg_row (some sess) (pos i) =
    if ltb i args_number then (sess.args, row_at (i + 1)) else (of_list 1 [], 0)

module _ (p : Platform) where
  open p use {validate_app_addr, addr_app_to_native}

  unfoldable pub cc_get_function : World → ℕ → ℤ → Outcome
  unfolding hand_out
  cc_get_function w out_ptr out_len = elim w.memory [
    | none ↦ return (pos 0) w
    | some m ↦
        if le_zero out_len
        then return (pos 0) w
        else if not (validate_app_addr (some m) out_ptr (to_u32 out_len))
        then return (pos 0) w
        else elim (addr_app_to_native (some m) out_ptr) [
          | none ↦ return (pos 0) w
          | some out ↦ elim w.mailbox [
            | none ↦ return (pos 0) w
            | some sess ↦ hand_out p w out (pos_part out_len) sess.args (row_at 0)
          ]
        ]
  ]

  unfoldable pub cc_get_arg : World → ℤ → ℕ → ℤ → Outcome
  unfolding to_native hand_out arg_row
  cc_get_arg w idx out_ptr out_len = elim (to_native p w.memory out_ptr (to_u32 out_len)) [
    | none ↦ return (pos 0) w
    | some out ↦
        if le_zero out_len
        then return (pos 0) w
        else let (row, at) = arg_row w.mailbox idx in hand_out p w out (pos_part out_len) row at
  ]
