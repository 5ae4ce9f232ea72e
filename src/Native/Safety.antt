-- ===== src/Native/Safety.antt =====
-- The boundary of the sandbox: what a call from the chaincode can do to the TA.
pub mod Read
pub mod Requests
pub mod Mem
pub mod All
use capstone_2025_team.Base.{
  ℕ, Bytes, zero, suc, ◌+◌, ◌*◌, ◌-◌, ◌%◌, ◌^◌, ◌<◌, ◌≤◌, ◌≡◌, ◌≢◌, refl, Bool, true, false, not,
  ◌&&◌, ◌||◌, Option, none, some, [], ◌∷◌, ℤ, pos, negsuc, le_zero, pos_part, to_u32, cap_at, ltb,
  leb, ◌==◌, if◌then◌else◌, ◌>>=◌, arith, IsInt32, length, take, min, ◌⊎◌, inl, inr, Option-cases,
  Bool-cases, ◌∙◌, ap,
}
use capstone_2025_team.Memory.{
  Buffer, bytes, c_string, read, store, safe_strlen, of_list, filled, moved,
}
use capstone_2025_team.Memory.Copies.{Apart}
use capstone_2025_team.Memory.Strings.{c_string_prefix, length-take-c_string, safe_strlen_outside}
use capstone_2025_team.Platform.{Platform}
use capstone_2025_team.Session.{
  Mailbox, IsWellFormed, RowsEnd, key_size, val_size, response_size, row_at, args_number,
  get_state_request, put_state_request, arg_size,
}
use capstone_2025_team.Native.{
  World, Outcome, world, return, into, to_native, hand_out, take_in, log_copy,
}
use capstone_2025_team.Native.Copying.{
  copied_in, c_string-copied_in, copied_in-SameOutside, size-copied_in, size-taken, taken_ends,
  pos_part-cap_at, hand_out_lem, to_native_complete, to_native_sound, taken, c_string-taken, source,
  take_in-source,
}
use capstone_2025_team.Native.Read.{arg_row, cc_get_function, cc_get_arg}
use capstone_2025_team.Native.Read.Laws.{row_string, given, given-Holds, hand_out-row}
use capstone_2025_team.Native.State.{cc_get_state, cc_put_state}
use capstone_2025_team.Native.State.Laws.{cc_get_state_lem, cc_put_state_lem, get_left, put_left}
use capstone_2025_team.Native.Reply.{cc_return_response, cc_log, debug_log}
use capstone_2025_team.Native.Reply.Laws.{cc_return_response_lem, response_left}
use capstone_2025_team.Native.Mem.{env_memset, env_memcpy, env_memmove, to_u8}
use capstone_2025_team.Native.Table.{
  Call, get_function, get_arg, get_state, put_state, return_response, log, debug, memset, memcpy,
  memmove, dispatch,
}

-- What a call has to leave: a memory of the same size, a well-formed session, and the arguments.
abbrev pub Stays : Buffer → Mailbox → Option Buffer → Option Mailbox → Type 0
Stays m sess (some m') (some sess') =
    (m'.size ≡ m.size) × IsWellFormed sess' × (sess'.args ≡ sess.args)
Stays m sess _ _ = ⊥

-- The call returns, without a fault, and leaves that.
abbrev pub Safe : Buffer → Mailbox → Outcome → Type 0
Safe m sess none = ⊥
Safe m sess (some (z, w)) = Stays m sess w.memory w.mailbox

-- What the guards miss: index 9, and a response of negative length.
abbrev pub Allowed : Call → Type 0
Allowed (get_function out n) = IsInt32 n
Allowed (get_arg idx out n) = IsInt32 n × (idx ≢ pos 9)
Allowed (get_state key key_len out n) = IsInt32 key_len × IsInt32 n
Allowed (put_state key key_len val val_len) = IsInt32 key_len × IsInt32 val_len
Allowed (return_response msg n) = IsInt32 n × (n ≡ pos (pos_part n))
Allowed (log msg n) = IsInt32 n
Allowed _ = Unit

module _ (m : Buffer) (sess : Mailbox) where
  pub unchanged : IsWellFormed sess → (z : ℤ) → Safe m sess (return z (world m sess))
  unchanged valid z = (refl, valid, refl)
