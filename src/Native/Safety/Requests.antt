-- ===== src/Native/Safety/Requests.antt =====
-- Ledger requests, responses and log lines are safe, but for a response of negative length.
use capstone_2025_team.Base.{
  ℕ, ◌≤◌, ◌≡◌, refl, false, Option, [], ℤ, pos, negsuc, le_zero, pos_part, cap_at, arith, IsInt32,
  inl, inr, Option-cases, ◌∙◌,
}
use capstone_2025_team.Memory.{Buffer, of_list}
use capstone_2025_team.Platform.{Platform}
use capstone_2025_team.Session.{Mailbox, IsWellFormed, key_size, val_size, response_size}
use capstone_2025_team.Native.{world}
use capstone_2025_team.Native.Copying.{
  size-taken, taken_ends, pos_part-cap_at, source, take_in-source,
}
use capstone_2025_team.Native.State.{cc_get_state, cc_put_state}
use capstone_2025_team.Native.State.Laws.{cc_get_state_lem, cc_put_state_lem, get_left, put_left}
use capstone_2025_team.Native.Reply.{cc_return_response, cc_log}
use capstone_2025_team.Native.Reply.Laws.{cc_return_response_lem, response_left}
use capstone_2025_team.Native.Safety.{Safe, unchanged}

module _ (p : Platform) (m : Buffer) (sess : Mailbox) (valid : IsWellFormed sess) where
  pub get-IsWellFormed :
      (src : Option ℕ) (key_len : ℤ) (out : ℕ) (n : ℤ)
      → IsInt32 n
      → le_zero n ≡ false
      → IsWellFormed (get_left m sess src key_len out n)
  get-IsWellFormed src key_len out n int h = record {
    args_sized = valid.args_sized;
    key_sized = size-taken sess.key key_size m src (cap_at key_len 63) ∙ valid.key_sized;
    value_sized = valid.value_sized;
    response_sized = valid.response_sized;
    key_ends =
        taken_ends sess.key key_size m src (cap_at key_len 63) 63 (pos_part-cap_at key_len 63)
          (omega arith);
    value_ends = valid.value_ends;
    response_ends = valid.response_ends;
    pending_known = omega arith;
    out_int = int;
    out_open = λ _. h;
  }

  pub put-IsWellFormed :
      (key : Option ℕ) (key_len : ℤ) (val : Option ℕ) (val_len : ℤ)
      → IsWellFormed (put_left m sess key key_len val val_len)
  put-IsWellFormed key key_len val val_len = record {
    args_sized = valid.args_sized;
    key_sized = size-taken sess.key key_size m key (cap_at key_len 63) ∙ valid.key_sized;
    value_sized = size-taken sess.value val_size m val (cap_at val_len 255) ∙ valid.value_sized;
    response_sized = valid.response_sized;
    key_ends =
        taken_ends sess.key key_size m key (cap_at key_len 63) 63 (pos_part-cap_at key_len 63)
          (omega arith);
    value_ends =
        taken_ends sess.value val_size m val (cap_at val_len 255) 255 (pos_part-cap_at val_len 255)
          (omega arith);
    response_ends = valid.response_ends;
    pending_known = omega arith;
    out_int = omega arith;
    out_open = λ e. absurd (omega arith);
  }

  pub response-IsWellFormed :
      (src : Option ℕ) (n : ℕ) → n ≤ 255 → IsWellFormed (response_left m sess src n)
  response-IsWellFormed src n h = record {
    args_sized = valid.args_sized;
    key_sized = valid.key_sized;
    value_sized = valid.value_sized;
    response_sized = size-taken sess.response response_size m src (pos n) ∙ valid.response_sized;
    key_ends = valid.key_ends;
    value_ends = valid.value_ends;
    response_ends =
        ground (arith, taken_ends sess.response response_size m src (pos n) 255 h (omega arith));
    pending_known = valid.pending_known;
    out_int = valid.out_int;
    out_open = valid.out_open;
  }

  pub get_state-Safe :
      (key_ptr : ℕ) (key_len : ℤ) (out : ℕ) (n : ℤ)
      → IsInt32 key_len
      → IsInt32 n
      → Safe m sess (cc_get_state p (world m sess) key_ptr key_len out n)
  get_state-Safe key_ptr key_len out n int int' =
      rw (cc_get_state_lem p m sess valid key_ptr key_len out n int) (
        ground (
          arith,
          unchanged m sess valid (pos 0),
          get-IsWellFormed (source p m key_ptr key_len) key_len out n int',
        ))

  pub put_state-Safe :
      (key_ptr : ℕ) (key_len : ℤ) (val_ptr : ℕ) (val_len : ℤ)
      → IsInt32 key_len
      → IsInt32 val_len
      → Safe m sess (cc_put_state p (world m sess) key_ptr key_len val_ptr val_len)
  put_state-Safe key_ptr key_len val_ptr val_len int int' =
      rw (cc_put_state_lem p m sess valid key_ptr key_len val_ptr val_len int int') (
        refl,
        put-IsWellFormed (source p m key_ptr key_len) key_len (source p m val_ptr val_len) val_len,
        refl,
      )

  pub return_response-Safe :
      (msg_ptr : ℕ) (n : ℤ)
      → IsInt32 n
      → n ≡ pos (pos_part n)
      → Safe m sess (cc_return_response p (world m sess) msg_ptr n)
  return_response-Safe msg_ptr (negsuc n) int e = cc
  return_response-Safe msg_ptr (pos n) int e =
      rw (cc_return_response_lem p m sess valid msg_ptr n int)
        (refl, response-IsWellFormed (source p m msg_ptr (pos n)) _ (ground arith), refl)

  pub log-Safe : (msg_ptr : ℕ) (n : ℤ) → IsInt32 n → Safe m sess (cc_log p (world m sess) msg_ptr n)
  unfolding cc_log of_list
  log-Safe msg_ptr n int = elim (Option-cases (source p m msg_ptr n)) [
    | inl null ↦ ground (arith, unchanged m sess valid (pos 0))
    | inr (q, e) ↦ ground (
      arith,
      unchanged m sess valid (pos 0),
      unchanged m sess valid (cap_at n 127),
      take_in-source p m (of_list 128 []) 128 127 msg_ptr n refl (omega arith) int,
    )
  ]
