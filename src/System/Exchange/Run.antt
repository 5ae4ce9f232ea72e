-- ===== src/System/Exchange/Run.antt =====
-- The first command of a transaction on the board.
use capstone_2025_team.Base.{
  ◌*◌, ◌+◌, >>=-some, ℕ, ◌≡◌, refl, ◌∙◌, true, false, some, Bytes, arith, codes, leb, length, Bool,
  not, ◌||◌, if◌then◌else◌,
}
use capstone_2025_team.Memory.{Buffer, of_list}
use capstone_2025_team.Platform.{Platform}
use capstone_2025_team.Session.{Mailbox, arguments_size, zeroed}
use capstone_2025_team.Native.{world}
use capstone_2025_team.Ta.{
  Context, Params, success, State, Session, blank, zeroed_session, same_kinds,
}
use capstone_2025_team.Ta.Runtime.{initialize_wamr_runtime}
use capstone_2025_team.Ta.Step.{call_step, run_step, outcome, cleared}
use capstone_2025_team.Ta.Flow.{process_hostcall_flow}
use capstone_2025_team.Ta.Command.{
  receive_arguments, first_step, start_runtime, run_wasm, invoke_command, command_run_wasm,
  run_kinds,
}
use capstone_2025_team.Chaincode.Machine.{Layout, initial}
use capstone_2025_team.System.{coffee_engine, Coffee, coffee_of, call_coffee, invoke_device}
use capstone_2025_team.System.Invocation.{called_with}
use capstone_2025_team.System.Exchange.Step.{instance_of}
use capstone_2025_team.System.Exchange.Resume.{running}

both-true :
    {A : Type 0} (a b : Bool) (x y : A)
    → a ≡ true
    → b ≡ true
    → (if not a || not b then x else y) ≡ y
both-true a b x y is_a is_b = rw (is_a, is_b) refl

module _ (p : Platform) (l : Layout) where
  -- A session that was just opened, with its heap configured.
  abbrev pub opened : ℕ → State (coffee_engine p l)
  opened heap = record {
    heap_size = heap;
    sess = some zeroed_session;
    runtime_ctx = blank (coffee_engine p l);
  }

  -- The chaincode as it is loaded.
  abbrev pub fresh : Buffer → Coffee
  fresh m = coffee_of p l m (initial (world m zeroed))

  -- The context with the chaincode in it.
  unfoldable pub loaded_context : ℕ → Bytes → Buffer → Context (coffee_engine p l)
  unfolding coffee_engine
  loaded_context heap wasm m = record {
    wasm_bytecode = wasm;
    heap_size = heap;
    module_loaded = some m;
    module_inst = some (fresh m);
    exec_env = false;
  }

  pub loaded_context_lem :
      (heap : ℕ) (wasm : Bytes) (m : Buffer)
      → (loaded_context heap wasm m).module_inst ≡ some (instance_of p l (fresh m))
  unfolding loaded_context coffee_engine instance_of
  loaded_context_lem heap wasm m = refl

  -- The session that runs.
  abbrev pub started : ℕ → Bytes → Session
  started heap wasm = record zeroed_session {
    heap_buf_owned = l.runtime.allocates heap;
    trusted_wasm_owned = l.runtime.allocates (length wasm);
  }

  received :
      (written : Buffer)
      → written.size ≡ arguments_size
      → receive_arguments (coffee_engine p l) zeroed.args written
        ≡ some (called_with zeroed written).args
  unfolding receive_arguments of_list
  received written size =
      let enough : leb arguments_size written.size ≡ true = ground (arith, size) in
      rw enough (
        (coffee_engine p l).mem_move_lem zeroed.args 0 written 0 arguments_size (omega arith)
          (omega (arith, size)))

  initialized :
      (heap : ℕ) (wasm : Bytes) (m : Buffer)
      → ((n : ℕ) → l.runtime.allocates n ≡ true)
      → l.runtime.first_memory wasm ≡ some m
      → initialize_wamr_runtime
          (coffee_engine p l)
          (record (blank (coffee_engine p l)) { wasm_bytecode = wasm; heap_size = heap })
        ≡ (success, loaded_context heap wasm m)
  unfolding initialize_wamr_runtime coffee_engine loaded_context
  initialized heap wasm m room loads = rw (room heap, loads, room (256 * 1024 + 64 * 1024)) refl

  step_init_lem :
      (heap : ℕ) (wasm : Bytes) (m : Buffer) (mail : Mailbox)
      → ((n : ℕ) → l.runtime.allocates n ≡ true)
      → call_step (coffee_engine p l) (loaded_context heap wasm m) (codes "step_init") mail
        ≡ some (true, loaded_context heap wasm m, mail)
  unfolding call_step run_step outcome cleared coffee_engine loaded_context call_coffee
  step_init_lem heap wasm m mail room = simp (call_step, room) refl

  module _ (heap : ℕ) (m : Buffer) (room : (n : ℕ) → l.runtime.allocates n ≡ true) (ps ps2 : Params)
      (mail2 : Mailbox) (ctx2 : Context (coffee_engine p l))
      (loads : l.runtime.first_memory ps.wasm ≡ some m) (size : ps.shared.size ≡ arguments_size)
      (flowed : process_hostcall_flow
          (coffee_engine p l)
          (loaded_context heap ps.wasm m)
          (called_with zeroed ps.shared)
          (record ps { request = 0 })
        ≡ some (success, ctx2, mail2, ps2)) where
    session : Session
    session = record (started heap ps.wasm) { mailbox = called_with zeroed ps.shared }

    first_step_lem :
        first_step
          (coffee_engine p l)
          (record {
            heap_size = heap;
            sess = some (record session { runtime = true });
            runtime_ctx = loaded_context heap ps.wasm m;
          })
          (record session { runtime = true })
          (record ps { request = 0 })
        ≡ some (success, running p l heap (started heap ps.wasm) mail2 ctx2, ps2)
    unfolding first_step session
    first_step_lem =
        simp (first_step, step_init_lem heap ps.wasm m (called_with zeroed ps.shared) room, flowed)

    start_runtime_lem :
        start_runtime (coffee_engine p l) (opened heap) session (record ps { request = 0 })
        ≡ some (success, running p l heap (started heap ps.wasm) mail2 ctx2, ps2)
    unfolding start_runtime
    start_runtime_lem = simp (start_runtime, initialized heap ps.wasm m room loads, first_step_lem)

    run_wasm_lem :
        run_wasm (coffee_engine p l) (opened heap) ps
        ≡ some (success, running p l heap (started heap ps.wasm) mail2 ctx2, ps2)
    unfolding run_wasm coffee_engine session
    run_wasm_lem =
        >>=-some _ _ _ (received ps.shared size)
        ∙ both-true _ _ _ _ (room heap) (room (length ps.wasm))
        ∙ start_runtime_lem

    pub run_lem :
        invoke_device p l (opened heap) command_run_wasm run_kinds ps
        ≡ (true, running p l heap (started heap ps.wasm) mail2 ctx2, ps2)
    unfolding invoke_device invoke_command same_kinds
    run_lem = simp (invoke_device, invoke_command, run_wasm_lem)
