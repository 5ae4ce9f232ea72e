-- ===== src/Native/State.antt =====
-- `cc_get_state` and `cc_put_state`: a request to the ledger, left in the session.
pub mod Laws
use capstone_2025_team.Base.{
  ℕ, suc, ◌+◌, ◌*◌, ◌-◌, ◌%◌, ◌<◌, ◌≤◌, ◌≡◌, Bool, true, false, not, ◌&&◌, ◌||◌, Option, none, some,
  [], ◌∷◌, ℤ, pos, negsuc, le_zero, pos_part, to_u32, cap_at, ltb, leb, ◌==◌, if◌then◌else◌, ◌>>=◌,
}
use capstone_2025_team.Memory.{Buffer, store, safe_strlen, of_list}
use capstone_2025_team.Platform.{Platform}
use capstone_2025_team.Session.{
  Mailbox, key_size, val_size, response_size, row_at, args_number, get_state_request,
  put_state_request,
}
use capstone_2025_team.Native.{World, Outcome, return, into, to_native, hand_out, take_in, log_copy}

module _ (p : Platform) where
  unfoldable pub cc_get_state : World → ℕ → ℤ → ℕ → ℤ → Outcome
  unfolding to_native take_in log_copy
  cc_get_state w key_ptr key_len out_ptr out_len =
      let out = to_native p w.memory out_ptr (to_u32 out_len) in
      let key = to_native p w.memory key_ptr (to_u32 (pos (pos_part key_len))) in
      let klen = cap_at key_len (key_size - 1) in
      log_copy p w.memory key key_len >>= λ _. elim out [
        | none ↦ return (pos 0) w
        | some _ ↦ if le_zero out_len then return (pos 0) w else elim w.mailbox [
          | none ↦ return (pos 0) w
          | some sess ↦ do
            key' ← take_in p sess.key key_size w.memory key klen
            let sess' = record sess {
              key = key';
              pending_type = get_state_request;
              wasm_out_offset = out_ptr;
              wasm_out_len = out_len;
            }
            return klen (record w { mailbox = some sess' })
        ]
      ]

  unfoldable pub cc_put_state : World → ℕ → ℤ → ℕ → ℤ → Outcome
  unfolding to_native take_in
  cc_put_state w key_ptr key_len val_ptr val_len =
      let key = to_native p w.memory key_ptr (to_u32 (pos (pos_part key_len))) in
      let val = to_native p w.memory val_ptr (to_u32 (pos (pos_part val_len))) in
      elim w.mailbox [
        | none ↦ return (negsuc 0) w
        | some sess ↦ do
          key' ← take_in p sess.key key_size w.memory key (cap_at key_len (key_size - 1))
          value' ← take_in p sess.value val_size w.memory val (cap_at val_len (val_size - 1))
          let sess' = record sess {
            key = key';
            value = value';
            pending_type = put_state_request;
            wasm_out_offset = 0;
            wasm_out_len = pos 0;
          }
          return (negsuc 0) (record w { mailbox = some sess' })
      ]
