-- ===== src/Ta/Sandbox/Commands.antt =====
-- The commands of the TA return, and keep its state in order.
use capstone_2025_team.Base.{
  ℕ, ◌*◌, ◌+◌, ◌<◌, ◌≡◌, refl, true, false, not, ◌||◌, some, none, Option, codes, arith, inl, inr,
  Bool-cases, ◌==◌, length,
}
use capstone_2025_team.Memory.{of_list}
use capstone_2025_team.Session.{arguments_size, value_at}
use capstone_2025_team.Ta.{
  Engine, Context, Params, success, generic, out_of_memory, bad_parameters, State, Session, Kinds,
  same_kinds,
}
use capstone_2025_team.Ta.Runtime.{initialize_wamr_runtime}
use capstone_2025_team.Ta.Flow.{literal, respond}
use capstone_2025_team.Ta.Flow.Laws.{respond-Asks}
use capstone_2025_team.Ta.Command.{
  prepared, first_step, start_runtime, run_wasm, resume_wasm, invoke_command, command_run_wasm,
  command_configure_heap, command_resume_wasm, heap_kinds, run_kinds, resume_kinds, set_heap_size,
}
use capstone_2025_team.Ta.Sandbox.{Sandboxed, Sound}
use capstone_2025_team.Ta.Sandbox.Steps.{call_step-returns, Asks-some}
use capstone_2025_team.Ta.Sandbox.Answers.{take_answer-returns}
use capstone_2025_team.Ta.Sandbox.Kept.{
  Holds, Kept, Unstarted, Fits, Ended, initialized, received-Sound, flow-Ended,
}

module _ (e : Engine) (sandboxed : Sandboxed e) where
  first_step-Ended :
      (heap : ℕ) (ctx : Context e) (inst : e.Instance) (sc : Session) (ps : Params)
      → ctx.module_inst ≡ some inst
      → Sound sc.mailbox
      → ps.shared.size ≡ arguments_size
      → Ended e
          (first_step e (record { heap_size = heap; sess = some sc; runtime_ctx = ctx }) sc ps)
  unfolding first_step of_list
  first_step-Ended heap ctx inst sc ps loaded sound sized =
      let (ok, ctx', mail, run, (inst', loaded', sound')) =
        call_step-returns e sandboxed ctx inst (codes "step_init") sc.mailbox loaded sound in
      let text = literal (codes "STEP_INIT_FAILED") in
      let (failed, is_failed, fits) =
        Asks-some e sandboxed (respond e ps text 17) _
          (respond-Asks e ps sized text 17 (omega arith) (omega arith)) in
      elim (Bool-cases ok) [
        | inl fine ↦
            rw (run, fine) (flow-Ended e heap sc ctx' inst' mail ps loaded' sound' sized sandboxed)
        | inr not_fine ↦ (
          generic,
          record {
            heap_size = heap;
            sess = some (record sc { mailbox = mail });
            runtime_ctx = ctx';
          },
          failed,
          rw (run, not_fine, is_failed) refl,
          (sound', λ on. (inst', loaded')),
          fits,
        )
      ]

  started_lem :
      (st : State e) (sc : Session) (ps : Params) (ctx : Context e)
      → initialize_wamr_runtime e (prepared e st ps.wasm) ≡ (success, ctx)
      → start_runtime e st sc ps
        ≡ first_step e
            (record st { runtime_ctx = ctx; sess = some (record sc { runtime = true }) })
            (record sc { runtime = true })
            ps
  unfolding start_runtime
  started_lem st sc ps ctx run = simp (start_runtime, run)

  start_runtime-Ended :
      (st : State e) (sc : Session) (ps : Params)
      → sc.runtime ≡ false
      → Sound sc.mailbox
      → ps.shared.size ≡ arguments_size
      → Ended e (start_runtime e st sc ps)
  unfolding start_runtime
  start_runtime-Ended st sc ps off sound sized = elim (initialized e (prepared e st ps.wasm)) [
    | inl (ctx, inst, run, loaded) ↦ rw (started_lem st sc ps ctx run) (
        first_step-Ended st.heap_size ctx inst (record sc { runtime = true }) ps loaded sound sized)
    | inr (ctx, run) ↦ (
      generic,
      record st { runtime_ctx = ctx; sess = some sc },
      ps,
      simp (start_runtime, run),
      (sound, λ on. absurd (ground (arith, off, on))),
      sized,
    )
  ]

  resume_wasm-Ended :
      (heap : ℕ) (sess : Option Session) (ctx : Context e) (ps : Params)
      → Holds e sess ctx
      → ps.shared.size ≡ arguments_size
      → ps.shared.byte (value_at + 255) ≡ 0
      → Ended e (resume_wasm e (record { heap_size = heap; sess = sess; runtime_ctx = ctx }) ps)
  unfolding resume_wasm
  resume_wasm-Ended heap none ctx ps kept sized ends =
      (generic, record { heap_size = heap; sess = none; runtime_ctx = ctx }, ps, refl, kept, sized)
  resume_wasm-Ended heap (some sc) ctx ps (sound, on) sized ends = elim (Bool-cases sc.runtime) [
    | inr off ↦ (
      generic,
      record { heap_size = heap; sess = some sc; runtime_ctx = ctx },
      ps,
      rw off refl,
      (sound, on),
      sized,
    )
    | inl started ↦
        let (inst, loaded) = on started in
        let (ctx', mail, inst', run, loaded', sound') =
          take_answer-returns e ctx inst loaded sc.mailbox ps.shared sound (sized, ends) in
        rw (started, run)
          (flow-Ended e heap (record sc { runtime = true }) ctx' inst' mail ps loaded' sound' sized
            sandboxed)
  ]

  run_wasm-Ended :
      (heap : ℕ) (sess : Option Session) (ctx : Context e) (ps : Params)
      → Holds e sess ctx
      → ps.shared.size ≡ arguments_size
      → Unstarted sess
      → ((i : ℕ) → i < 10 → ps.shared.byte (i * 64 + 63) ≡ 0)
      → Ended e (run_wasm e (record { heap_size = heap; sess = sess; runtime_ctx = ctx }) ps)
  unfolding run_wasm
  run_wasm-Ended heap none ctx ps kept sized off rows =
      (generic, record { heap_size = heap; sess = none; runtime_ctx = ctx }, ps, refl, kept, sized)
  run_wasm-Ended heap (some sc) ctx ps (sound, on) sized off rows =
      let (args, run, sound') = received-Sound e sc.mailbox ps.shared sound sized rows in
      let sc' : Session = record sc {
        mailbox = record sc.mailbox { args = args };
        heap_buf_owned = e.malloc heap;
        trusted_wasm_owned = e.malloc (length ps.wasm);
      } in
      let st' : State e = record { heap_size = heap; sess = some sc'; runtime_ctx = ctx } in
      elim (Bool-cases (not (e.malloc heap) || not (e.malloc (length ps.wasm)))) [
        | inl full ↦ (
          out_of_memory,
          st',
          record ps { request = 0 },
          rw (run, full) refl,
          (sound', on),
          sized,
        )
        | inr room ↦
            rw (run, room)
              (start_runtime-Ended (record { heap_size = heap; sess = some sc; runtime_ctx = ctx })
                sc' (record ps { request = 0 }) off sound' sized)
      ]

  -- When a call of WAMR ends (`sandboxed`), the TA's state is in order, and the caller passes a
  -- shared buffer of the size of `struct arguments` (in which the rows or the value end, and the
  -- first command comes once): every command with every kinds of parameters returns without a
  -- fault, the state is in order again, and the shared buffer keeps its size.
  pub invoke_command-Ended :
      (st : State e) (cmd : ℕ) (kinds : Kinds) (ps : Params)
      → Kept e st
      → Fits e st cmd ps
      → Ended e (invoke_command e st cmd kinds ps)
  unfolding invoke_command set_heap_size
  invoke_command-Ended st cmd kinds ps kept (sized, first, later) =
      let refused : Ended e (some (bad_parameters, st, ps)) =
        (bad_parameters, st, ps, refl, kept, sized) in
      elim (Bool-cases (cmd == command_configure_heap)) [
        | inl heap ↦ elim (Bool-cases (same_kinds heap_kinds kinds)) [
          | inl same ↦
              rw (heap, same)
                (success, record st { heap_size = ps.size_value }, ps, refl, kept, sized)
          | inr other ↦ rw (heap, other) refused
        ]
        | inr not_heap ↦ elim (Bool-cases (cmd == command_run_wasm)) [
          | inl run ↦ elim (Bool-cases (same_kinds kinds run_kinds)) [
            | inl same ↦
                let (off, rows) = first (==-is cmd 0 run) in
                rw (not_heap, run, same)
                  (run_wasm-Ended st.heap_size st.sess st.runtime_ctx ps kept sized off rows)
            | inr other ↦ rw (not_heap, run, other) refused
          ]
          | inr not_run ↦ elim (Bool-cases (cmd == command_resume_wasm)) [
            | inl resume ↦ elim (Bool-cases (same_kinds kinds resume_kinds)) [
              | inl same ↦
                  rw (not_heap, not_run, resume, same)
                    (resume_wasm-Ended st.heap_size st.sess st.runtime_ctx ps kept sized
                      (later (==-is cmd 2 resume)))
              | inr other ↦ rw (not_heap, not_run, resume, other) refused
            ]
            | inr unknown ↦ rw (not_heap, not_run, unknown) refused
          ]
        ]
      ]
    where
      ==-is : (a b : ℕ) → (a == b) ≡ true → a ≡ b
      ==-is a b h = ground arith
