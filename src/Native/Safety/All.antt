-- ===== src/Native/Safety/All.antt =====
-- Every call of the symbol table.
use capstone_2025_team.Base.{pos}
use capstone_2025_team.Memory.{Buffer}
use capstone_2025_team.Platform.{Platform}
use capstone_2025_team.Session.{Mailbox, IsWellFormed, RowsEnd}
use capstone_2025_team.Native.{world}
use capstone_2025_team.Native.Reply.{debug_log}
use capstone_2025_team.Native.Mem.{env_memcpy}
use capstone_2025_team.Native.Table.{
  Call, get_function, get_arg, get_state, put_state, return_response, log, debug, memset, memcpy,
  memmove, dispatch,
}
use capstone_2025_team.Native.Safety.{Safe, Allowed, unchanged}
use capstone_2025_team.Native.Safety.Read.{get_function-Safe, get_arg-Safe}
use capstone_2025_team.Native.Safety.Requests.{
  get_state-Safe, put_state-Safe, return_response-Safe, log-Safe,
}
use capstone_2025_team.Native.Safety.Mem.{memset-Safe, memmove-Safe}

module _ (p : Platform) (m : Buffer) (sess : Mailbox) (valid : IsWellFormed sess)
    (ends : RowsEnd sess) where
  -- For a well-formed session whose argument rows end in NULs: whatever the chaincode calls,
  -- with whatever pointers, and with lengths of 32 bits, the native function returns without a
  -- read or write outside its arrays and the chaincode's memory, which keeps its size; the
  -- session stays well formed and its arguments stay. Index 9 of `cc_get_arg` and a negative
  -- length of `cc_return_response` are excluded.
  pub dispatch-Safe : (c : Call) → Allowed c → Safe m sess (dispatch p (world m sess) c)
  unfolding dispatch debug_log env_memcpy
  dispatch-Safe (get_function out n) h = get_function-Safe p m sess valid ends out n h
  dispatch-Safe (get_arg idx out n) h = get_arg-Safe p m sess valid ends idx out n h.0 h.1
  dispatch-Safe (get_state key key_len out n) h =
      get_state-Safe p m sess valid key key_len out n h.0 h.1
  dispatch-Safe (put_state key key_len val val_len) h =
      put_state-Safe p m sess valid key key_len val val_len h.0 h.1
  dispatch-Safe (return_response msg n) h = return_response-Safe p m sess valid msg n h.0 h.1
  dispatch-Safe (log msg n) h = log-Safe p m sess valid msg n h
  dispatch-Safe (debug step) h = unchanged m sess valid (pos 0)
  dispatch-Safe (memset dst c n) h = memset-Safe p m sess valid dst c n
  dispatch-Safe (memcpy dst src n) h = memmove-Safe p m sess valid dst src n
  dispatch-Safe (memmove dst src n) h = memmove-Safe p m sess valid dst src n
