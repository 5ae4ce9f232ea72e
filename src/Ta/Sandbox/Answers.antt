-- ===== src/Ta/Sandbox/Answers.antt =====
-- The answer of the proxy is taken in without a fault, whatever the session asked for.
use capstone_2025_team.Base.{
  ℕ, zero, suc, ◌+◌, ◌-◌, ◌^◌, ◌≤◌, ◌<◌, ◌≡◌, refl, true, false, some, length, take, arith, inl,
  inr, Bool-cases, Option-cases, ℤ, pos, negsuc, le_zero, IsInt32, ◌==◌,
}
use capstone_2025_team.Memory.{Buffer, c_string, filled, moved, safe_strlen}
use capstone_2025_team.Memory.Copies.{size-filled}
use capstone_2025_team.Memory.Strings.{safe_strlen_terminated, length-take-c_string}
use capstone_2025_team.Session.{
  Mailbox, IsWellFormed, arguments_size, value_at, get_state_request, put_state_request,
}
use capstone_2025_team.Ta.{Engine, Context}
use capstone_2025_team.Ta.Command.{size_before, out_native, deliver_value, take_answer}
use capstone_2025_team.Ta.Sandbox.{Sound}

positive :
    (z : ℤ)
    → le_zero z ≡ false
    → IsInt32 z
    → (n : ℕ) × (z ≡ pos n) × (0 < n) × (n < 2 ^ 31) × (size_before z ≡ n - 1)
unfolding size_before
positive (pos zero) h int = absurd (ground arith)
positive (pos (suc n)) h int = (suc n, refl, omega arith, int, omega arith)
positive (negsuc n) h int = absurd (ground arith)

module _ (e : Engine) (inst : e.Instance) (sc : Mailbox) where
  out_native-inside :
      (at n : ℕ)
      → out_native e inst sc ≡ some at
      → sc.wasm_out_len ≡ pos n
      → n < 2 ^ 31
      → at + n ≤ (e.memory inst).size
  unfolding out_native
  out_native-inside at n run len int = ground (
    arith,
    e.validate_sound (e.memory inst) sc.wasm_out_offset n,
    e.native_sound (e.memory inst) sc.wasm_out_offset at,
  )

  -- A value that is there ends in the shared buffer.
  abbrev pub ValueEnds : Buffer → Type 0
  ValueEnds shared = (shared.size ≡ arguments_size) × (shared.byte (value_at + 255) ≡ 0)

  deliver_value-returns :
      (shared : Buffer)
      → ValueEnds shared
      → le_zero sc.wasm_out_len ≡ false
      → IsInt32 sc.wasm_out_len
      → (inst' : e.Instance) × (deliver_value e inst sc shared ≡ some inst')
  unfolding deliver_value
  deliver_value-returns shared (size, ends) open_len int =
      let (n, len_is, some_len, small, before) = positive sc.wasm_out_len open_len int in
      let k = length (take (n - 1) (c_string shared value_at 255)) in
      let fits = length-take-c_string shared value_at 255 (n - 1) in
      let measured : safe_strlen shared value_at (size_before sc.wasm_out_len) ≡ some k =
        rw before (safe_strlen_terminated shared value_at 255 (n - 1) (omega (arith, size)) ends) in
      elim (Option-cases (out_native e inst sc)) [
        | inl closed ↦ (inst, rw (measured, closed) refl)
        | inr (at, opened) ↦ elim (Bool-cases (k == 0)) [
          | inl empty ↦ (inst, rw (measured, opened, empty) refl)
          | inr some_text ↦
              let inside = out_native-inside at n opened len_is small in
              (
                e.with_memory inst (moved (filled (e.memory inst) at 0 n) at shared value_at k),
                rw
                    (
                      measured,
                      opened,
                      some_text,
                      len_is,
                      e.mem_fill_lem (e.memory inst) at 0 n inside,
                      e.mem_move_lem (filled (e.memory inst) at 0 n) at shared value_at k
                          (rw size-filled (omega (arith, fits, inside)))
                          (omega (arith, fits, size)),
                    )
                    refl,
              )
        ]
      ]

-- Nothing is pending in a session whose answer has come.
pub settled-IsWellFormed :
    (sc : Mailbox)
    → IsWellFormed sc
    → IsWellFormed (record sc { pending_type = 0; wasm_out_offset = 0; wasm_out_len = pos 0 })
settled-IsWellFormed sc valid = record {
  args_sized = valid.args_sized;
  key_sized = valid.key_sized;
  value_sized = valid.value_sized;
  response_sized = valid.response_sized;
  key_ends = valid.key_ends;
  value_ends = valid.value_ends;
  response_ends = valid.response_ends;
  pending_known = omega arith;
  out_int = omega arith;
  out_open = λ h. absurd (omega (arith, h));
}

pub acknowledged-IsWellFormed :
    (sc : Mailbox) → IsWellFormed sc → IsWellFormed (record sc { pending_type = 0 })
acknowledged-IsWellFormed sc valid = record {
  args_sized = valid.args_sized;
  key_sized = valid.key_sized;
  value_sized = valid.value_sized;
  response_sized = valid.response_sized;
  key_ends = valid.key_ends;
  value_ends = valid.value_ends;
  response_ends = valid.response_ends;
  pending_known = omega arith;
  out_int = valid.out_int;
  out_open = λ h. absurd (omega (arith, h));
}

module _ (e : Engine) (ctx : Context e) (inst : e.Instance)
    (loaded : ctx.module_inst ≡ some inst) where
  get_answer_lem :
      (sc : Mailbox) (shared : Buffer) (inst' : e.Instance)
      → sc.pending_type ≡ get_state_request
      → deliver_value e inst sc shared ≡ some inst'
      → take_answer e ctx sc shared
        ≡ some (
          record ctx { module_inst = some inst' },
          record sc { pending_type = 0; wasm_out_offset = 0; wasm_out_len = pos 0 },
        )
  unfolding take_answer
  get_answer_lem sc shared inst' pending run = simp (take_answer, pending, loaded, run)

  pub put_answer_lem :
      (sc : Mailbox) (shared : Buffer)
      → sc.pending_type ≡ put_state_request
      → take_answer e ctx sc shared ≡ some (ctx, record sc { pending_type = 0 })
  unfolding take_answer
  put_answer_lem sc shared pending = simp (take_answer, pending)

  no_answer_lem :
      (sc : Mailbox) (shared : Buffer)
      → (sc.pending_type == get_state_request) ≡ false
      → (sc.pending_type == put_state_request) ≡ false
      → take_answer e ctx sc shared ≡ some (ctx, sc)
  unfolding take_answer
  no_answer_lem sc shared not_get not_put = simp (take_answer, not_get, not_put)

  pub take_answer-returns :
      (sc : Mailbox) (shared : Buffer)
      → Sound sc
      → ValueEnds e inst sc shared
      → (ctx' : Context e) × (sc' : Mailbox) × (inst' : e.Instance) × (take_answer e ctx sc shared
          ≡ some (ctx', sc'))
        × (ctx'.module_inst ≡ some inst')
        × Sound sc'
  take_answer-returns sc shared (valid, ends) fits =
      elim (Bool-cases (sc.pending_type == get_state_request)) [
        | inl get ↦
            let pending : sc.pending_type ≡ get_state_request = ==-is sc.pending_type 1 get in
            let (inst', run) =
              deliver_value-returns e inst sc shared fits (valid.out_open pending) valid.out_int in
            (
              record ctx { module_inst = some inst' },
              record sc { pending_type = 0; wasm_out_offset = 0; wasm_out_len = pos 0 },
              inst',
              get_answer_lem sc shared inst' pending run,
              refl,
              (settled-IsWellFormed sc valid, ends),
            )
        | inr not_get ↦ elim (Bool-cases (sc.pending_type == put_state_request)) [
          | inl put ↦ (
            ctx,
            record sc { pending_type = 0 },
            inst,
            put_answer_lem sc shared (==-is sc.pending_type 2 put),
            loaded,
            (acknowledged-IsWellFormed sc valid, ends),
          )
          | inr not_put ↦
              (ctx, sc, inst, no_answer_lem sc shared not_get not_put, loaded, (valid, ends))
        ]
      ]
    where
      ==-is : (a b : ℕ) → (a == b) ≡ true → a ≡ b
      ==-is a b h = ground arith
