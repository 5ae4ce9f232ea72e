-- ===== src/Ta/Command/Deliver.antt =====
-- The answer to a GET reaches the buffer that the chaincode gave, and nothing else.
use capstone_2025_team.Base.{
  ℕ, zero, suc, ◌+◌, ◌-◌, ◌≤◌, ◌<◌, ◌≡◌, ◌≢◌, ◌∙◌, some, pos, arith, length, take, ◌^◌, List, ==-ne,
  ==-eq,
}
use capstone_2025_team.Memory.{Buffer, c_string, filled, moved, safe_strlen, SameOutside}
use capstone_2025_team.Memory.Copies.{size-filled, size-moved, moved-filled-SameOutside}
use capstone_2025_team.Memory.Strings.{
  safe_strlen_terminated, c_string_prefix, length-take-c_string, c_string-moved-filled,
}
use capstone_2025_team.Session.{Mailbox, value_at}
use capstone_2025_team.Ta.{Engine}
use capstone_2025_team.Ta.Command.{size_before, out_native, deliver_value}

size_before_pos : (n : ℕ) → 0 < n → size_before (pos n) ≡ n - 1
unfolding size_before
size_before_pos zero h = absurd (omega arith)
size_before_pos (suc n) h = omega arith

module _ (e : Engine) (inst : e.Instance) (sc : Mailbox) (shared : Buffer) (out n : ℕ)
    (out_is : sc.wasm_out_offset ≡ out) (len_is : sc.wasm_out_len ≡ pos n) (some_out : 0 < out)
    (some_len : 0 < n) (int : n < 2 ^ 31) (inside : out + n ≤ (e.memory inst).size)
    (shared_size : value_at + 255 < shared.size) (ends : shared.byte (value_at + 255) ≡ 0) where
  -- The value that the proxy wrote, cut to the chaincode's buffer.
  abbrev pub answer : List ℕ
  answer = take (n - 1) (c_string shared value_at 255)

  abbrev pub delivered : Buffer
  delivered = moved (filled (e.memory inst) out 0 n) out shared value_at (length answer)

  measured : safe_strlen shared value_at (n - 1) ≡ some (length answer)
  measured = safe_strlen_terminated shared value_at 255 (n - 1) shared_size ends

  fits : (length answer ≤ n) × (length answer ≤ 255)
  fits = omega (arith, length-take-c_string shared value_at 255 (n - 1))

  out_native_lem : out_native e inst sc ≡ some out
  unfolding out_native
  out_native_lem =
      ground
        (arith, e.validate_complete (e.memory inst) out n, e.native_complete (e.memory inst) out)

  measured_here : safe_strlen shared value_at (size_before sc.wasm_out_len) ≡ some (length answer)
  measured_here = rw (len_is, size_before_pos n some_len) measured

  -- A value arrives whole or cut at the buffer's size, and no other byte of the memory changes.
  pub deliver_value_lem :
      length answer ≢ 0 → deliver_value e inst sc shared ≡ some (e.with_memory inst delivered)
  unfolding deliver_value
  deliver_value_lem h =
      let some_text = ==-ne (length answer) 0 h in
      rw (
        measured_here,
        out_native_lem,
        some_text,
        len_is,
        e.mem_fill_lem (e.memory inst) out 0 n inside,
        e.mem_move_lem (filled (e.memory inst) out 0 n) out shared value_at (length answer)
            (rw size-filled (omega (arith, fits))) (omega (arith, fits)),
      )

  -- What the chaincode finds in its memory then.
  pub delivered-Holds :
      (c_string (e.memory (e.with_memory inst delivered)) out n ≡ answer)
      × SameOutside out n (e.memory (e.with_memory inst delivered)) (e.memory inst)
      × ((e.memory (e.with_memory inst delivered)).size ≡ (e.memory inst).size)
  delivered-Holds = (
    rw e.memory-with_memory (
        c_string-moved-filled (e.memory inst) out n shared value_at (length answer) fits.0
        ∙ c_string_prefix shared value_at 255 (n - 1)),
    rw e.memory-with_memory
        (moved-filled-SameOutside (e.memory inst) out n shared value_at (length answer) fits.0),
    rw e.memory-with_memory (
        size-moved (filled (e.memory inst) out 0 n) out shared value_at (length answer)
        ∙ size-filled (e.memory inst) out 0 n),
  )

  -- For a pending output buffer of n > 0 bytes, below 2 ^ 31, that lies in the chaincode's
  -- memory and not at 0, and a shared value field that ends in a NUL: a value that is not empty
  -- is delivered without a fault. The buffer then holds the string, cut to n - 1 bytes, and no
  -- other byte of the memory changed.
  pub deliver_value-Holds :
      length answer ≢ 0
      → (inst' : e.Instance) × (deliver_value e inst sc shared ≡ some inst')
        × (c_string (e.memory inst') out n ≡ answer)
        × SameOutside out n (e.memory inst') (e.memory inst)
  deliver_value-Holds h =
      let (shows, outside, size) = delivered-Holds in
      (e.with_memory inst delivered, deliver_value_lem h, shows, outside)

  -- An empty value is not written at all.
  pub deliver_value_empty : length answer ≡ 0 → deliver_value e inst sc shared ≡ some inst
  unfolding deliver_value
  deliver_value_empty h = rw (measured_here, out_native_lem, ==-eq (length answer) 0 h)
