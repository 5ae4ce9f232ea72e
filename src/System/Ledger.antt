-- ===== src/System/Ledger.antt =====
-- The way of a ledger value from the wrapper's message, over the proxy and the shared buffer, to
-- the chaincode's memory.
use capstone_2025_team.Base.{
  ℕ, ◌+◌, ◌-◌, ◌≤◌, ◌<◌, ◌^◌, ◌≡◌, ◌≢◌, refl, sym, ap, ◌∙◌, true, false, some, [], ◌∷◌, Bytes, pos,
  arith, length, take, ◌==◌, inl, inr, Bool-cases, ◌⊎◌,
}
use capstone_2025_team.Memory.{Buffer, c_string, SameOutside}
use capstone_2025_team.Session.{Mailbox, arguments_size, val_size, value_at, get_state_request}
use capstone_2025_team.Message.{WrapperMessage, value_of}
use capstone_2025_team.Ta.{Engine, Context}
use capstone_2025_team.Ta.Command.{deliver_value, take_answer}
use capstone_2025_team.Ta.Command.Deliver.{
  deliver_value_lem, delivered, delivered-Holds, deliver_value_empty,
}
use capstone_2025_team.Proxy.Answer.{answer_get}
use capstone_2025_team.Proxy.Answer.Laws.{fitting, Pasted, answer_get-Pasted}

nil_of_length : (s : Bytes) → length s ≡ 0 → s ≡ []
nil_of_length [] h = refl
nil_of_length (c ∷ s) h = absurd (omega (arith, h))

zero_length : (s : Bytes) → (length s == 0) ≡ true → length s ≡ 0
zero_length s h = ground arith

some_length : (s : Bytes) → (length s == 0) ≡ false → length s ≢ 0
some_length s h = ground arith

-- What the chaincode is to read: the value if it fits its field, cut to the chaincode's buffer.
abbrev pub received : WrapperMessage → ℕ → Bytes
received msg n = take (n - 1) (fitting (value_of msg) val_size)

-- The session after the answer.
abbrev pub answered_session : Mailbox → Mailbox
answered_session sc = record sc { pending_type = 0; wasm_out_offset = 0; wasm_out_len = pos 0 }

module _ (e : Engine) (inst : e.Instance) (sc : Mailbox) (out n : ℕ)
    (out_is : sc.wasm_out_offset ≡ out) (len_is : sc.wasm_out_len ≡ pos n) (some_out : 0 < out)
    (some_len : 0 < n) (int : n < 2 ^ 31) (inside : out + n ≤ (e.memory inst).size)
    (empty : c_string (e.memory inst) out n ≡ []) where
  -- At most the memory of the instance is another.
  abbrev pub Rewritten : e.Instance → Type 0
  Rewritten inst' = (inst' ≡ inst) ⊎ ((m : Buffer) × (inst' ≡ e.with_memory inst m))

  -- Delivered or, when it is empty, left: the buffer reads as the value.
  delivered_or_left :
      (shared : Buffer) (text : Bytes)
      → Pasted shared value_at text val_size
      → (inst' : e.Instance) × (deliver_value e inst sc shared ≡ some inst')
        × (c_string (e.memory inst') out n ≡ take (n - 1) (fitting text val_size))
        × SameOutside out n (e.memory inst') (e.memory inst)
        × ((e.memory inst').size ≡ (e.memory inst).size)
        × Rewritten inst'
  delivered_or_left shared text (size, shows, ends) =
      let room : value_at + 255 < shared.size = omega (arith, size) in
      let same = ap (take (n - 1)) shows in
      elim (Bool-cases (length (take (n - 1) (c_string shared value_at 255)) == 0)) [
        | inl no_text ↦
            let h : length (take (n - 1) (c_string shared value_at 255)) ≡ 0 =
              zero_length (take (n - 1) (c_string shared value_at 255)) no_text in
            (
              inst,
              deliver_value_empty e inst sc shared out n out_is len_is some_out some_len int inside
                  room ends h,
              empty ∙ sym (nil_of_length (take (n - 1) (c_string shared value_at 255)) h) ∙ same,
              (λ a. refl),
              refl,
              inl refl,
            )
        | inr some_text ↦
            let m =
              delivered e inst sc shared out n out_is len_is some_out some_len int inside room
                ends in
            let (shows, outside, sized) =
              delivered-Holds e inst sc shared out n out_is len_is some_out some_len int inside room
                ends in
            (
              e.with_memory inst m,
              deliver_value_lem e inst sc shared out n out_is len_is some_out some_len int inside
                  room ends (some_length (take (n - 1) (c_string shared value_at 255)) some_text),
              shows ∙ same,
              outside,
              sized,
              inr (m, refl),
            )
      ]

  take_answer_lem :
      (ctx : Context e) (shared : Buffer) (inst' : e.Instance)
      → ctx.module_inst ≡ some inst
      → sc.pending_type ≡ get_state_request
      → deliver_value e inst sc shared ≡ some inst'
      → take_answer e ctx sc shared
        ≡ some (record ctx { module_inst = some inst' }, answered_session sc)
  unfolding take_answer
  take_answer_lem ctx shared inst' loaded pending run = simp (pending, loaded, run)

  -- The whole way, with what becomes of the instance.
  pub answer_get-Rewritten :
      (ctx : Context e) (shared : Buffer) (msg : WrapperMessage)
      → ctx.module_inst ≡ some inst
      → sc.pending_type ≡ get_state_request
      → shared.size ≡ arguments_size
      → (written : Buffer) × (inst' : e.Instance) × (answer_get shared msg ≡ some written)
        × (written.size ≡ arguments_size)
        × (take_answer e ctx sc written
            ≡ some (record ctx { module_inst = some inst' }, answered_session sc))
        × (c_string (e.memory inst') out n ≡ received msg n)
        × SameOutside out n (e.memory inst') (e.memory inst)
        × ((e.memory inst').size ≡ (e.memory inst).size)
        × Rewritten inst'
  answer_get-Rewritten ctx shared msg loaded pending sized =
      let (written, made, pasted) = answer_get-Pasted shared msg sized in
      let (inst', run, holds, outside, size, rewritten) =
        delivered_or_left written (value_of msg) pasted in
      (
        written,
        inst',
        made,
        pasted.0,
        take_answer_lem ctx written inst' loaded pending run,
        holds,
        outside,
        size,
        rewritten,
      )

  -- For a pending GET with an output buffer of n > 0 bytes, below 2 ^ 31, that lies in the
  -- loaded instance's memory, not at 0, and reads as empty, and a shared buffer of the size of
  -- `struct arguments`: the proxy writes its answer and the TA takes it in, without a fault. The
  -- output buffer then reads as the value up to its first NUL, cut to n - 1 bytes, or as empty
  -- if the value has 256 bytes or more; no other byte of the memory changes, and nothing is
  -- pending.
  pub answer_get-taken :
      (ctx : Context e) (shared : Buffer) (msg : WrapperMessage)
      → ctx.module_inst ≡ some inst
      → sc.pending_type ≡ get_state_request
      → shared.size ≡ arguments_size
      → (written : Buffer) × (inst' : e.Instance) × (answer_get shared msg ≡ some written)
        × (take_answer e ctx sc written
            ≡ some (record ctx { module_inst = some inst' }, answered_session sc))
        × (c_string (e.memory inst') out n ≡ received msg n)
        × SameOutside out n (e.memory inst') (e.memory inst)
  answer_get-taken ctx shared msg loaded pending sized =
      let (written, inst', made, size, run, holds, outside, same, rewritten) =
        answer_get-Rewritten ctx shared msg loaded pending sized in
      (written, inst', made, run, holds, outside)
