-- ===== src/Ta/Command/Stale.antt =====
-- A second RUN in a session whose first went well, with a module that cannot be started.
use capstone_2025_team.Base.{Bytes, ◌≡◌, refl, true, some, none, inl, inr, Bool-cases, ◌==◌}
use capstone_2025_team.Ta.{Engine, Context, Params, generic, State, Session}
use capstone_2025_team.Session.{Mailbox, get_state_request, put_state_request}
use capstone_2025_team.Ta.Runtime.{initialize_wamr_runtime}
use capstone_2025_team.Ta.Step.{call_step}
use capstone_2025_team.Ta.Flow.{process_hostcall_flow}
use capstone_2025_team.Ta.Command.{prepared, start_runtime, resume_wasm, take_answer}

module _ (e : Engine) where
  -- Without an instance every step faults, and so does the flow.
  flow-faults :
      (ctx : Context e) (mail : Mailbox) (ps : Params)
      → ctx.module_inst ≡ none
      → process_hostcall_flow e ctx mail ps ≡ none
  unfolding process_hostcall_flow call_step
  flow-faults ctx mail ps gone = rw gone refl

  resume-faults :
      (st : State e) (sc : Session) (ps : Params)
      → st.sess ≡ some sc
      → sc.runtime ≡ true
      → st.runtime_ctx.module_inst ≡ none
      → resume_wasm e st ps ≡ none
  unfolding resume_wasm take_answer
  resume-faults st sc ps here on gone =
      elim (Bool-cases (sc.mailbox.pending_type == get_state_request)) [
        | inl get ↦ simp (resume_wasm, take_answer, here, on, get, gone)
        | inr not_get ↦ elim (Bool-cases (sc.mailbox.pending_type == put_state_request)) [
          | inl put ↦ simp (
            resume_wasm,
            take_answer,
            here,
            on,
            not_get,
            put,
            flow-faults st.runtime_ctx _ _ gone,
          )
          | inr not_put ↦ simp (
            resume_wasm,
            take_answer,
            here,
            on,
            not_get,
            not_put,
            flow-faults st.runtime_ctx _ _ gone,
          )
        ]
      ]

  -- Bytecode that does not load leaves no instance.
  unloaded :
      (st : State e) (wasm : Bytes)
      → e.load wasm ≡ none
      → (ctx : Context e) × (initialize_wamr_runtime e (prepared e st wasm) ≡ (generic, ctx))
        × (ctx.module_inst ≡ none)
  unfolding initialize_wamr_runtime
  unloaded st wasm bad = elim (Bool-cases (e.full_init st.heap_size)) [
    | inl up ↦ (record (prepared e st wasm) { module_loaded = none }, rw (up, bad) refl, refl)
    | inr down ↦ (prepared e st wasm, rw down refl, refl)
  ]

  -- In a session that has its runtime from an earlier RUN: starting bytecode that does not load
  -- returns TEE_ERROR_GENERIC and leaves a state in which COMMAND_RESUME_WASM faults, whatever
  -- its parameters are.
  pub start_runtime-stale :
      (st : State e) (sc : Session) (ps later : Params)
      → sc.runtime ≡ true
      → e.load ps.wasm ≡ none
      → (st' : State e) × (start_runtime e st sc ps ≡ some (generic, st', ps))
        × (resume_wasm e st' later ≡ none)
  unfolding start_runtime
  start_runtime-stale st sc ps later on bad =
      let (ctx, run, gone) = unloaded st ps.wasm bad in
      let st' : State e = record st { runtime_ctx = ctx; sess = some sc } in
      (st', simp (start_runtime, run), resume-faults st' sc later refl on gone)
