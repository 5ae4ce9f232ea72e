-- ===== src/Native/Reply.antt =====
-- `cc_return_response`, `cc_log` and `debug_log`.
pub mod Laws
use capstone_2025_team.Base.{
  ℕ, suc, ◌+◌, ◌*◌, ◌-◌, ◌%◌, ◌<◌, ◌≤◌, ◌≡◌, Bool, true, false, not, ◌&&◌, ◌||◌, Option, none, some,
  [], ◌∷◌, ℤ, pos, negsuc, le_zero, pos_part, to_u32, cap_at, ltb, leb, ◌==◌, if◌then◌else◌, ◌>>=◌,
}
use capstone_2025_team.Memory.{Buffer, store, safe_strlen, of_list}
use capstone_2025_team.Platform.{Platform}
use capstone_2025_team.Session.{
  Mailbox, key_size, val_size, response_size, row_at, args_number, get_state_request,
  put_state_request,
}
use capstone_2025_team.Native.{World, Outcome, return, into, to_native, hand_out, take_in, log_copy}

-- response[n] = 0; a negative n points in front of the array.
unfoldable pub terminate : Buffer → ℤ → Option Buffer
terminate b (pos n) = store b n 0
terminate b (negsuc n) = none

unfoldable pub debug_log : World → ℤ → Outcome
debug_log w step_num = return (pos 0) w

module _ (p : Platform) where
  unfoldable pub cc_return_response : World → ℕ → ℤ → Outcome
  unfolding to_native take_in terminate
  cc_return_response w msg_ptr msg_len = elim w.memory [
    | none ↦ return (pos 0) w
    | some m ↦
        let msg = to_native p (some m) msg_ptr (to_u32 (pos (pos_part msg_len))) in
        elim w.mailbox [
          | none ↦ return (pos 0) w
          | some sess ↦ do
            let n = cap_at msg_len (response_size - 1)
            copied ← take_in p sess.response response_size (some m) msg n
            ended ← terminate copied n
            let sess' = record sess { response = ended; has_response = 1 }
            return n (record w { mailbox = some sess' })
        ]
  ]

  unfoldable pub cc_log : World → ℕ → ℤ → Outcome
  unfolding to_native log_copy
  cc_log w msg_ptr msg_len = elim w.memory [
    | none ↦ return (pos 0) w
    | some m ↦ elim (to_native p (some m) msg_ptr (to_u32 (pos (pos_part msg_len)))) [
      | none ↦ return (pos 0) w
      | some q ↦
          if le_zero msg_len
          then return (pos 0) w
          else (do buf ← log_copy p (some m) (some q) msg_len; return (cap_at msg_len 127) w)
    ]
  ]
