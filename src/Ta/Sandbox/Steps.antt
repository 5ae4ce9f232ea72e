-- ===== src/Ta/Sandbox/Steps.antt =====
-- A step of the chaincode returns, and so does the flow around it.
use capstone_2025_team.Base.{
  ◌*◌, ◌≡◌, refl, Bool, false, not, ◌&&◌, some, none, Option, Bytes, codes, arith, inl, inr,
  Bool-cases,
}
use capstone_2025_team.Memory.{of_list}
use capstone_2025_team.Session.{Mailbox, arguments_size}
use capstone_2025_team.Message.{ProxyMessage}
use capstone_2025_team.Ta.{Engine, Context, Params, Result, success}
use capstone_2025_team.Ta.Step.{outcome, cleared, run_step, call_step}
use capstone_2025_team.Ta.Flow.{literal, respond, forward, process_hostcall_flow}
use capstone_2025_team.Ta.Flow.Laws.{Asks, asked, respond-Asks, forward-Asks}
use capstone_2025_team.Ta.Sandbox.{Sandboxed, Sound, Reaches-Sound}

module _ (e : Engine) (sandboxed : Sandboxed e) where
  open e use {memory-clear_exception}

  -- What a step leaves: a context with an instance, and a sound session.
  abbrev pub Stepped : Context e → Mailbox → Type 0
  Stepped ctx mail = (inst : e.Instance) × (ctx.module_inst ≡ some inst) × Sound mail

  run_step-returns :
      (ctx : Context e) (inst : e.Instance) (name : Bytes) (mail : Mailbox)
      → Sound mail
      → (ok : Bool) × (ctx' : Context e) × (mail' : Mailbox) × (run_step e ctx inst name mail
          ≡ some (ok, ctx', mail'))
        × Stepped ctx' mail'
  unfolding run_step
  run_step-returns ctx inst name mail sound =
      let (called, inst', mail', run, reached) = sandboxed inst name mail sound in
      (
        outcome e called (e.get_exception inst'),
        record ctx {
          module_inst = some (cleared e inst');
          exec_env = not (outcome e called (e.get_exception inst'));
        },
        mail',
        rw (run_step, run) refl,
        (
          cleared e inst',
          refl,
          Reaches-Sound e.platform (e.memory inst) mail (e.memory inst') mail' reached sound,
        ),
      )

  pub call_step-returns :
      (ctx : Context e) (inst : e.Instance) (name : Bytes) (mail : Mailbox)
      → ctx.module_inst ≡ some inst
      → Sound mail
      → (ok : Bool) × (ctx' : Context e) × (mail' : Mailbox) × (call_step e ctx name mail
          ≡ some (ok, ctx', mail'))
        × Stepped ctx' mail'
  unfolding call_step
  call_step-returns ctx inst name mail loaded sound =
      let ready = cleared e inst in
      elim (Bool-cases (e.lookup_function inst name)) [
        | inr missing ↦ (false, ctx, mail, simp (call_step, loaded, missing), (inst, loaded, sound))
        | inl found ↦
            elim (Bool-cases (not ctx.exec_env && not (e.create_exec_env ready (256 * 1024)))) [
              | inl no_env ↦ (
                false,
                record ctx { module_inst = some ready },
                mail,
                simp (call_step, loaded, found, no_env),
                (ready, refl, sound),
              )
              | inr some_env ↦
                  let (ok, ctx', mail', run, stepped) =
                    run_step-returns ctx (e.clear_exception ready) name mail sound in
                  (ok, ctx', mail', simp (call_step, loaded, found, some_env, run), stepped)
            ]
      ]

  -- What the flow leaves: a success, and a shared buffer of the same size.
  abbrev pub Flowed : Result → Context e → Mailbox → Params → Type 0
  Flowed res ctx mail ps = (res ≡ success) × Stepped ctx mail × (ps.shared.size ≡ arguments_size)

  pub Asks-some :
      (o : Option Params) (msg : ProxyMessage)
      → Asks o msg
      → (ps : Params) × (o ≡ some ps) × (ps.shared.size ≡ arguments_size)
  Asks-some none msg is = absurd is
  Asks-some (some ps) msg (asks, size) = (ps, refl, size)

  pub process_hostcall_flow-returns :
      (ctx : Context e) (inst : e.Instance) (mail : Mailbox) (ps : Params)
      → ctx.module_inst ≡ some inst
      → Sound mail
      → ps.shared.size ≡ arguments_size
      → (res : Result) × (ctx' : Context e) × (mail' : Mailbox) × (ps' : Params)
        × (process_hostcall_flow e ctx mail ps ≡ some (res, ctx', mail', ps'))
        × Flowed res ctx' mail' ps'
  unfolding process_hostcall_flow of_list
  process_hostcall_flow-returns ctx inst mail ps loaded sound sized =
      let (ok, ctx', mail', run, stepped) =
        call_step-returns ctx inst (codes "step_resume") mail loaded sound in
      let (forwarded, is_forwarded, fits) =
        Asks-some (forward e mail' ps) (asked mail') (forward-Asks e ps sized mail' stepped.2.0) in
      let text = literal (codes "RUNTIME_ERROR") in
      let (failed, is_failed, fits') =
        Asks-some (respond e ps text 13) _
          (respond-Asks e ps sized text 13 (omega arith) (omega arith)) in
      elim (Bool-cases ok) [
        | inl fine ↦ (
          success,
          ctx',
          mail',
          forwarded,
          rw (process_hostcall_flow, run, fine, is_forwarded) refl,
          (refl, stepped, fits),
        )
        | inr not_fine ↦ (
          success,
          ctx',
          mail',
          failed,
          rw (process_hostcall_flow, run, not_fine, is_failed) refl,
          (refl, stepped, fits'),
        )
      ]
