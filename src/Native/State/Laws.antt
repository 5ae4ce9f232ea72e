-- ===== src/Native/State/Laws.antt =====
-- What a ledger request leaves in the session.
use capstone_2025_team.Base.{
  ℕ, ◌≡◌, refl, Option, none, some, [], ℤ, pos, negsuc, le_zero, to_u32, cap_at, if◌then◌else◌,
  arith, IsInt32,
}
use capstone_2025_team.Memory.{Buffer, of_list}
use capstone_2025_team.Platform.{Platform}
use capstone_2025_team.Session.{
  Mailbox, IsWellFormed, key_size, val_size, get_state_request, put_state_request,
}
use capstone_2025_team.Native.{world, return, to_native}
use capstone_2025_team.Native.Copying.{taken, source, take_in-source}
use capstone_2025_team.Native.State.{cc_get_state, cc_put_state}

module _ (m : Buffer) (sess : Mailbox) where
  -- The session after a GET for the bytes that `src` names.
  abbrev pub get_left : Option ℕ → ℤ → ℕ → ℤ → Mailbox
  get_left src key_len out_ptr out_len = record sess {
    key = taken sess.key key_size m src (cap_at key_len 63);
    pending_type = get_state_request;
    wasm_out_offset = out_ptr;
    wasm_out_len = out_len;
  }

  abbrev pub put_left : Option ℕ → ℤ → Option ℕ → ℤ → Mailbox
  put_left key key_len val val_len = record sess {
    key = taken sess.key key_size m key (cap_at key_len 63);
    value = taken sess.value val_size m val (cap_at val_len 255);
    pending_type = put_state_request;
    wasm_out_offset = 0;
    wasm_out_len = pos 0;
  }

module _ (p : Platform) (m : Buffer) (sess : Mailbox) (valid : IsWellFormed sess) where
  -- For a well-formed session and a key length of 32 bits: `cc_get_state` returns 0 and changes
  -- nothing if the output buffer has no native address or no positive length. Otherwise it
  -- returns the length of the key, at most 63, and leaves the session with that much of the key,
  -- the output buffer, and a pending GET.
  pub cc_get_state_lem :
      (key_ptr : ℕ) (key_len : ℤ) (out_ptr : ℕ) (out_len : ℤ)
      → IsInt32 key_len
      → cc_get_state p (world m sess) key_ptr key_len out_ptr out_len
        ≡ elim (to_native p (some m) out_ptr (to_u32 out_len)) [
          | none ↦ return (pos 0) (world m sess)
          | some _ ↦
              if le_zero out_len
              then return (pos 0) (world m sess)
              else return
                  (cap_at key_len 63)
                  (world m (get_left m sess (source p m key_ptr key_len) key_len out_ptr out_len))
        ]
  unfolding cc_get_state of_list
  cc_get_state_lem key_ptr key_len out_ptr out_len int = ground (
    arith,
    take_in-source p m (of_list 128 []) 128 127 key_ptr key_len refl (omega arith) int,
    take_in-source p m sess.key key_size 63 key_ptr key_len valid.key_sized (omega arith) int,
  )

  -- For a well-formed session and lengths of 32 bits: `cc_put_state` returns -1 and leaves the
  -- session with at most 63 bytes of the key, at most 255 bytes of the value, and a pending PUT
  -- without an output buffer.
  pub cc_put_state_lem :
      (key_ptr : ℕ) (key_len : ℤ) (val_ptr : ℕ) (val_len : ℤ)
      → IsInt32 key_len
      → IsInt32 val_len
      → cc_put_state p (world m sess) key_ptr key_len val_ptr val_len
        ≡ return (negsuc 0) (
            world m (
              put_left m sess
                (source p m key_ptr key_len)
                key_len
                (source p m val_ptr val_len)
                val_len))
  unfolding cc_put_state
  cc_put_state_lem key_ptr key_len val_ptr val_len int int' = ground (
    arith,
    take_in-source p m sess.key key_size 63 key_ptr key_len valid.key_sized (omega arith) int,
    take_in-source p m sess.value val_size 255 val_ptr val_len valid.value_sized (omega arith) int',
  )
