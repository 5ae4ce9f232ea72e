-- ===== src/System/Exchange/Resume.antt =====
-- The proxy's answer to a request, and the TA's next step.
use capstone_2025_team.Base.{ℕ, ◌≡◌, ◌⊎◌, refl, ap, ◌∙◌, true, some, arith, inl, inr, length-take}
use capstone_2025_team.Memory.{Buffer, SameOutside}
use capstone_2025_team.Platform.{Platform}
use capstone_2025_team.Session.{Mailbox, arguments_size, val_size, get_state_request}
use capstone_2025_team.Message.{WrapperMessage, value_of}
use capstone_2025_team.Ta.{Context, Params, success, State, Session}
use capstone_2025_team.Ta.Flow.{process_hostcall_flow}
use capstone_2025_team.Ta.Command.{
  take_answer, resume_wasm, invoke_command, command_resume_wasm, resume_kinds,
}
use capstone_2025_team.Proxy.Answer.{answer_get}
use capstone_2025_team.Proxy.Answer.Laws.{fitting}
use capstone_2025_team.Chaincode.Text.Stands.{Stands}
use capstone_2025_team.Chaincode.Machine.{Layout}
use capstone_2025_team.Chaincode.Follows.{Open}
use capstone_2025_team.System.{coffee_engine, Coffee, invoke_device}
use capstone_2025_team.System.Ledger.{answered_session, answer_get-Rewritten, received}
use capstone_2025_team.System.Exchange.Step.{instance_of}

module _ (p : Platform) (l : Layout) where
  -- Only the memory of the chaincode was rewritten.
  rewritten_lem :
      (c : Coffee) (inst : (coffee_engine p l).Instance)
      → (inst ≡ instance_of p l c)
        ⊎ ((m : Buffer) × (inst ≡ (coffee_engine p l).with_memory (instance_of p l c) m))
      → inst ≡ instance_of p l (record c { memory = (coffee_engine p l).memory inst })
  unfolding coffee_engine instance_of
  rewritten_lem c inst (inl same) = rw same refl
  rewritten_lem c inst (inr (m, written)) = rw written refl

  -- An instance's memory.
  memory_lem : (c : Coffee) → (coffee_engine p l).memory (instance_of p l c) ≡ c.memory
  unfolding coffee_engine instance_of
  memory_lem c = refl

  -- The state of the TA with its one session.
  abbrev pub running :
      ℕ → Session → Mailbox → Context (coffee_engine p l) → State (coffee_engine p l)
  running heap sc mail ctx = record {
    heap_size = heap;
    sess = some (record sc { mailbox = mail; runtime = true });
    runtime_ctx = ctx;
  }

  -- A RESUME whose answer is taken and whose flow goes well.
  pub invoke_device_lem :
      (heap : ℕ) (sc : Session) (mail mail1 mail2 : Mailbox)
      (ctx ctx1 ctx2 : Context (coffee_engine p l)) (ps ps2 : Params)
      → take_answer (coffee_engine p l) ctx mail ps.shared ≡ some (ctx1, mail1)
      → process_hostcall_flow (coffee_engine p l) ctx1 mail1 ps ≡ some (success, ctx2, mail2, ps2)
      → invoke_device p l (running heap sc mail ctx) command_resume_wasm resume_kinds ps
        ≡ (true, running heap sc mail2 ctx2, ps2)
  unfolding invoke_device invoke_command resume_wasm
  invoke_device_lem heap sc mail mail1 mail2 ctx ctx1 ctx2 ps ps2 taken flowed =
      simp (invoke_device, invoke_command, resume_wasm, taken, flowed)

  -- A value is delivered to the chaincode that waits for it.
  pub get_taken :
      (c : Coffee) (mail : Mailbox) (out : ℕ) (ctx : Context (coffee_engine p l)) (shared : Buffer)
      (msg : WrapperMessage)
      → Open p l c.memory mail out
      → ctx.module_inst ≡ some (instance_of p l c)
      → mail.pending_type ≡ get_state_request
      → shared.size ≡ arguments_size
      → (written : Buffer) × (m : Buffer) × (answer_get shared msg ≡ some written)
        × (written.size ≡ arguments_size)
        × (take_answer (coffee_engine p l) ctx mail written
            ≡ some (
              record ctx { module_inst = some (instance_of p l (record c { memory = m })) },
              answered_session mail,
            ))
        × SameOutside out val_size m c.memory
        × Stands m out val_size (received msg val_size)
        × (m.size ≡ c.memory.size)
  get_taken c mail out ctx shared msg (at, len, some_out, (empty, short, inside)) loaded pending
        sized =
      let e = coffee_engine p l in
      let inst = instance_of p l c in
      let same = memory_lem c in
      let (written, inst', made, size, taken, holds, outside, kept, rewritten) =
        answer_get-Rewritten e inst mail out val_size at len some_out (omega arith) (omega arith)
          (rw same inside) (rw same empty) ctx shared msg loaded pending sized in
      let is = rewritten_lem c inst' rewritten in
      (
        written,
        e.memory inst',
        made,
        size,
        taken
            ∙ ap
                (λ (i : e.Instance).
                  some (record ctx { module_inst = some i }, answered_session mail))
                is,
        rw same at outside,
        (
          holds,
          omega (arith, length-take 255 (fitting (value_of msg) val_size)),
          rw (kept, same) inside,
        ),
        kept ∙ ap (λ (b : Buffer). b.size) same,
      )
