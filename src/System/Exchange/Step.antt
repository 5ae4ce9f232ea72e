-- ===== src/System/Exchange/Step.antt =====
-- A step of the coffee chaincode in the TA.
use capstone_2025_team.Base.{
  ℕ, ◌≡◌, refl, ap, ◌∙◌, true, false, some, none, Option, codes, inl, inr, ◌>>=◌, Bool-cases,
}
use capstone_2025_team.Memory.{Buffer}
use capstone_2025_team.Platform.{Platform}
use capstone_2025_team.Session.{Mailbox, arguments_size}
use capstone_2025_team.Message.{ProxyMessage, request_message}
use capstone_2025_team.Native.{world}
use capstone_2025_team.Ta.{Context, Params, success}
use capstone_2025_team.Ta.Step.{call_step, run_step, outcome, cleared}
use capstone_2025_team.Ta.Flow.{forward, process_hostcall_flow}
use capstone_2025_team.Ta.Flow.Laws.{Asks, asked, forward-Asks}
use capstone_2025_team.Chaincode.Machine.{Layout, Chain}
use capstone_2025_team.Chaincode.Follows.{Stepped}
use capstone_2025_team.System.{coffee_engine, Coffee, enter, leave, coffee_of, call_coffee}

module _ (p : Platform) (l : Layout) where
  leave_lem :
      (ch : Chain) (m : Buffer) (mail : Mailbox)
      → ch.world ≡ world m mail
      → leave p l ch ≡ some (true, coffee_of p l m ch, mail)
  leave_lem ch m mail is = rw is refl

  called :
      (c : Coffee) (mail : Mailbox) (step : Stepped p l (enter p l c mail))
      → call_coffee p l c (codes "step_resume") mail
        ≡ some (true, coffee_of p l step.memory step.chain, step.session)
  unfolding call_coffee
  called c mail step =
      ap (λ (r : Option Chain). r >>= leave p l) step.run
      ∙ leave_lem step.chain step.memory step.session step.world_is

  -- The chaincode as an instance of its engine.
  unfoldable pub instance_of : Coffee → (coffee_engine p l).Instance
  unfolding coffee_engine
  instance_of c = c

  -- The context after a step.
  abbrev pub stepped_context :
      (c : Coffee) (mail : Mailbox)
      → Stepped p l (enter p l c mail)
      → Context (coffee_engine p l)
      → Context (coffee_engine p l)
  stepped_context c mail step ctx = record ctx {
    module_inst = some (instance_of (coffee_of p l step.memory step.chain));
    exec_env = false;
  }

  call_step_lem :
      (room : (n : ℕ) → l.runtime.allocates n ≡ true) (ctx : Context (coffee_engine p l))
      (c : Coffee) (mail : Mailbox) (step : Stepped p l (enter p l c mail))
      → ctx.module_inst ≡ some (instance_of c)
      → call_step (coffee_engine p l) ctx (codes "step_resume") mail
        ≡ some (true, stepped_context c mail step ctx, step.session)
  unfolding call_step run_step outcome cleared coffee_engine instance_of
  call_step_lem room ctx c mail step loaded = elim (Bool-cases ctx.exec_env) [
    | inl kept ↦ simp (call_step, loaded, kept, called c mail step)
    | inr none_yet ↦ simp (call_step, loaded, none_yet, room, called c mail step)
  ]

  -- A step of the flow: the context and the session after it, and what the proxy is asked.
  pub flow_lem :
      (room : (n : ℕ) → l.runtime.allocates n ≡ true) (ctx : Context (coffee_engine p l))
      (c : Coffee) (mail : Mailbox) (ps : Params) (step : Stepped p l (enter p l c mail))
      → ctx.module_inst ≡ some (instance_of c)
      → ps.shared.size ≡ arguments_size
      → (ps' : Params) × (process_hostcall_flow (coffee_engine p l) ctx mail ps
          ≡ some (success, stepped_context c mail step ctx, step.session, ps'))
        × (request_message ps'.request ps'.shared ≡ some (asked step.session))
        × (ps'.shared.size ≡ arguments_size)
  unfolding process_hostcall_flow
  flow_lem room ctx c mail ps step loaded sized =
      let (ps', made, asks, size) =
        Asks-request (forward (coffee_engine p l) step.session ps) (asked step.session)
          (forward-Asks (coffee_engine p l) ps sized step.session step.sound.0) in
      (ps', rw (call_step_lem room ctx c mail step loaded, made) refl, asks, size)
    where
      Asks-request :
          (o : Option Params) (msg : ProxyMessage)
          → Asks o msg
          → (ps : Params) × (o ≡ some ps)
            × (request_message ps.request ps.shared ≡ some msg)
            × (ps.shared.size ≡ arguments_size)
      Asks-request none msg is = absurd is
      Asks-request (some ps) msg is = (ps, refl, is.0, is.1)
