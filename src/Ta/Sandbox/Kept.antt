-- ===== src/Ta/Sandbox/Kept.antt =====
-- The TA's state in order, and the parts of the commands that keep it so.
use capstone_2025_team.Base.{
  ℕ, ◌*◌, ◌+◌, ◌<◌, ◌≡◌, refl, ◌∙◌, true, false, ◌⊎◌, some, none, Option, ◌>>=◌, arith, inl, inr,
  Bool-cases, Option-cases, leb,
}
use capstone_2025_team.Memory.{Buffer, moved}
use capstone_2025_team.Memory.Copies.{size-moved}
use capstone_2025_team.Session.{Mailbox, arguments_size, value_at}
use capstone_2025_team.Ta.{Engine, Context, Params, Result, success, generic, State, Session}
use capstone_2025_team.Ta.Runtime.{initialize_wamr_runtime}
use capstone_2025_team.Ta.Flow.{process_hostcall_flow}
use capstone_2025_team.Ta.Command.{receive_arguments, command_run_wasm, command_resume_wasm}
use capstone_2025_team.Ta.Sandbox.{Sandboxed, Sound}
use capstone_2025_team.Ta.Sandbox.Steps.{process_hostcall_flow-returns}

-- No session has the runtime yet.
abbrev pub Unstarted : Option Session → Type 0
Unstarted none = Unit
Unstarted (some sc) = sc.runtime ≡ false

module _ (e : Engine) where
  -- A session is sound, and when it has the runtime, the module is instantiated.
  abbrev pub Holds : Option Session → Context e → Type 0
  Holds none ctx = Unit
  Holds (some sc) ctx =
      Sound sc.mailbox × (sc.runtime ≡ true → (inst : e.Instance) × (ctx.module_inst ≡ some inst))

  abbrev pub Kept : State e → Type 0
  Kept st = Holds st.sess st.runtime_ctx

  -- What the caller passes: a shared buffer of the size of `struct arguments`, in which the rows
  -- end for the first command, sent once, and the value ends for the others.
  abbrev pub Fits : State e → ℕ → Params → Type 0
  Fits st cmd ps =
      (ps.shared.size ≡ arguments_size)
      × (cmd ≡ command_run_wasm
          → Unstarted st.sess × ((i : ℕ) → i < 10 → ps.shared.byte (i * 64 + 63) ≡ 0))
      × (cmd ≡ command_resume_wasm → ps.shared.byte (value_at + 255) ≡ 0)

  -- A command's outcome: it returned, the state is in order, and the buffer is as large.
  abbrev pub Ended : Option (Result × State e × Params) → Type 0
  Ended o =
      (res : Result) × (st' : State e) × (ps' : Params) × (o ≡ some (res, st', ps'))
      × Kept st'
      × (ps'.shared.size ≡ arguments_size)

  pub initialized :
      (ctx : Context e)
      → ((ctx' : Context e) × (inst : e.Instance) × (initialize_wamr_runtime e ctx
            ≡ (success, ctx'))
          × (ctx'.module_inst ≡ some inst))
        ⊎ ((ctx' : Context e) × (initialize_wamr_runtime e ctx ≡ (generic, ctx')))
  unfolding initialize_wamr_runtime
  initialized ctx = elim (Bool-cases (e.full_init ctx.heap_size)) [
    | inr down ↦ inr (ctx, rw down refl)
    | inl up ↦ elim (Option-cases (e.load ctx.wasm_bytecode)) [
      | inl bad ↦ inr (record ctx { module_loaded = none }, rw (up, bad) refl)
      | inr (m, good) ↦ elim (Option-cases (e.instantiate m (256 * 1024) (64 * 1024))) [
        | inl full ↦
            inr
              (record ctx { module_loaded = some m; module_inst = none }, rw (up, good, full) refl)
        | inr (inst, made) ↦ inl (
          record ctx { module_loaded = some m; module_inst = some inst },
          inst,
          rw (up, good, made) refl,
          refl,
        )
      ]
    ]
  ]

  -- The arguments received are the rows of the shared buffer.
  pub received-Sound :
      (mail : Mailbox) (shared : Buffer)
      → Sound mail
      → shared.size ≡ arguments_size
      → ((i : ℕ) → i < 10 → shared.byte (i * 64 + 63) ≡ 0)
      → (args : Buffer) × (receive_arguments e mail.args shared ≡ some args)
        × Sound (record mail { args = args })
  unfolding receive_arguments
  received-Sound mail shared (valid, ends) sized rows =
      let args = moved mail.args 0 shared 0 arguments_size in
      let enough : leb arguments_size shared.size ≡ true = ground (arith, sized) in
      (
        args,
        rw enough (
            e.mem_move_lem mail.args 0 shared 0 arguments_size (omega (arith, valid.args_sized))
              (omega (arith, sized))),
        (
          record {
            args_sized = size-moved mail.args 0 shared 0 arguments_size ∙ valid.args_sized;
            key_sized = valid.key_sized;
            value_sized = valid.value_sized;
            response_sized = valid.response_sized;
            key_ends = valid.key_ends;
            value_ends = valid.value_ends;
            response_ends = valid.response_ends;
            pending_known = valid.pending_known;
            out_int = valid.out_int;
            out_open = valid.out_open;
          },
          λ i h. unfold moved in ground (arith, rows i h),
        ),
      )

  -- The state after a flow.
  pub flow-Ended :
      (heap : ℕ) (sc : Session) (ctx : Context e) (inst : e.Instance) (mail : Mailbox) (ps : Params)
      → ctx.module_inst ≡ some inst
      → Sound mail
      → ps.shared.size ≡ arguments_size
      → Sandboxed e
      → Ended (do
        (res, ctx', mail', ps') ← process_hostcall_flow e ctx mail ps
        let sc' = record sc { mailbox = mail' }
        some (res, record { heap_size = heap; sess = some sc'; runtime_ctx = ctx' }, ps'))
  flow-Ended heap sc ctx inst mail ps loaded sound sized sandboxed =
      let (res, ctx', mail', ps', run, (good, (inst', loaded', sound'), sized')) =
        process_hostcall_flow-returns e sandboxed ctx inst mail ps loaded sound sized in
      (
        res,
        record {
          heap_size = heap;
          sess = some (record sc { mailbox = mail' });
          runtime_ctx = ctx';
        },
        ps',
        rw run refl,
        (sound', λ on. (inst', loaded')),
        sized',
      )
