-- ===== src/Ta/Command.antt =====
-- The entry points of the TA: sessions, and the commands of wamr_ta.h.
pub mod Deliver
pub mod Stale
use capstone_2025_team.Base.{
  ℕ, zero, suc, ◌-◌, ◌^◌, Bool, true, false, not, ◌&&◌, ◌||◌, Option, none, some, [], ◌∷◌, Bytes,
  codes, length, ltb, leb, ◌==◌, if◌then◌else◌, ◌>>=◌, ℤ, pos, negsuc, le_zero, to_u32, pos_part,
}
use capstone_2025_team.Memory.{Buffer, of_list}
use capstone_2025_team.Ta.Strlen.{safe_strlen}
use capstone_2025_team.Session.{
  Mailbox, arguments_size, response_size, value_at, invocation_response, get_state_request,
  put_state_request,
}
use capstone_2025_team.Ta.{
  Engine, Context, State, Params, Kind, no_param, value_input, value_inout, memref_input,
  memref_inout, Kinds, same_kinds, Result, success, bad_parameters, out_of_memory, generic, Session,
  blank, zeroed_session,
}
use capstone_2025_team.Ta.Runtime.{initialize_wamr_runtime}
use capstone_2025_team.Ta.Step.{call_step}
use capstone_2025_team.Ta.Flow.{process_hostcall_flow, respond, literal}

-- The command numbers of wamr_ta.h.
abbrev pub command_run_wasm : ℕ
command_run_wasm = 0

abbrev pub command_configure_heap : ℕ
command_configure_heap = 1

abbrev pub command_resume_wasm : ℕ
command_resume_wasm = 2

abbrev pub open_kinds : Kinds
open_kinds = record { first = no_param; second = no_param; third = no_param; fourth = no_param }

abbrev pub heap_kinds : Kinds
heap_kinds = record { first = value_input; second = no_param; third = no_param; fourth = no_param }

abbrev pub run_kinds : Kinds
run_kinds = record {
  first = memref_input;
  second = value_inout;
  third = memref_inout;
  fourth = memref_inout;
}

abbrev pub resume_kinds : Kinds
resume_kinds = record {
  first = no_param;
  second = value_inout;
  third = memref_inout;
  fourth = memref_inout;
}

-- sizeof(chaincode_session_ctx), on a 64-bit target.
abbrev pub session_size : ℕ
session_size = 1256

-- (size_t) len - 1
unfoldable pub size_before : ℤ → ℕ
size_before (pos zero) = 2 ^ 64 - 1
size_before (pos (suc n)) = n
size_before (negsuc n) = 2 ^ 64 - 2 - n

module _ (e : Engine) where
  open e use {mem_fill, mem_move}

  -- `TA_OpenSessionEntryPoint`: the session is allocated and zeroed once.
  unfoldable pub open_session : Kinds → State e → Result × State e
  unfolding same_kinds
  open_session kinds st =
      if not (same_kinds kinds open_kinds) then (bad_parameters, st) else elim st.sess [
        | some sc ↦ (success, st)
        | none ↦
            if e.malloc session_size
            then (success, record st { sess = some zeroed_session })
            else (out_of_memory, st)
      ]

  -- `TA_SetHeapSize`
  unfoldable pub set_heap_size : ℕ → State e → Result × State e
  set_heap_size size st = (success, record st { heap_size = size })

  -- The arguments are copied from the shared buffer, or zeroed if it is too small.
  unfoldable pub receive_arguments : Buffer → Buffer → Option Buffer
  receive_arguments args shared =
      if leb arguments_size shared.size
      then mem_move args 0 shared 0 arguments_size
      else mem_fill args 0 0 arguments_size

  -- The static context for this bytecode.
  abbrev pub prepared : State e → Bytes → Context e
  prepared st wasm = record (blank e) { wasm_bytecode = wasm; heap_size = st.heap_size }

  -- `step_init`, and then the first step.
  unfoldable pub first_step : State e → Session → Params → Option (Result × State e × Params)
  unfolding respond process_hostcall_flow
  first_step st sc ps = do
    (ok, ctx, mail) ← call_step e st.runtime_ctx (codes "step_init") sc.mailbox
    if ok
        then (do
          (res, ctx', mail', ps') ← process_hostcall_flow e ctx mail ps
          let sc' = record sc { mailbox = mail' }
          some (res, record st { runtime_ctx = ctx'; sess = some sc' }, ps'))
        else (do
          ps' ← respond e ps (literal (codes "STEP_INIT_FAILED")) 17
          let sc' = record sc { mailbox = mail }
          some (generic, record st { runtime_ctx = ctx; sess = some sc' }, ps'))

  -- The runtime is made from the bytecode; if that fails, the session's pointer stays as it was.
  unfoldable pub start_runtime : State e → Session → Params → Option (Result × State e × Params)
  unfolding first_step initialize_wamr_runtime
  start_runtime st sc ps =
      let (res, ctx) = initialize_wamr_runtime e (prepared st ps.wasm) in
      let failed = record st { runtime_ctx = ctx; sess = some sc } in
      let sc' = record sc { runtime = true } in
      elim res [
        | success ↦ first_step (record st { runtime_ctx = ctx; sess = some sc' }) sc' ps
        | other ↦ some (other, failed, ps)
      ]

  -- COMMAND_RUN_WASM
  unfoldable pub run_wasm : State e → Params → Option (Result × State e × Params)
  unfolding start_runtime receive_arguments
  run_wasm st ps = elim st.sess [
    | none ↦ some (generic, st, ps)
    | some sc ↦ do
      args ← receive_arguments sc.mailbox.args ps.shared
      let heap = e.malloc st.heap_size
      let wasm = e.malloc (length ps.wasm)
      let sc' = record sc {
        mailbox = record sc.mailbox { args = args };
        heap_buf_owned = heap;
        trusted_wasm_owned = wasm;
      }
      let ps' = record ps { request = 0 }
      if not heap || not wasm
          then some (out_of_memory, record st { sess = some sc' }, ps')
          else start_runtime st sc' ps'
  ]

  -- The native address of the output buffer, if there is one and it is still valid.
  unfoldable pub out_native : e.Instance → Mailbox → Option ℕ
  out_native inst sc =
      let n = to_u32 sc.wasm_out_len in
      if not (sc.wasm_out_offset == 0)
        && not (le_zero sc.wasm_out_len)
        && e.validate_app_addr (some (e.memory inst)) sc.wasm_out_offset n
      then e.addr_app_to_native (some (e.memory inst)) sc.wasm_out_offset
      else none

  -- The value of a GET is copied to the output buffer of the chaincode, if it is not empty.
  unfoldable pub deliver_value : e.Instance → Mailbox → Buffer → Option e.Instance
  unfolding size_before out_native
  deliver_value inst sc shared = do
    len ← safe_strlen shared (some value_at) (size_before sc.wasm_out_len)
    elim (out_native inst sc) [
      | none ↦ some inst
      | some at ↦ if len == 0 then some inst else (do
        cleared ← mem_fill (e.memory inst) at 0 (pos_part sc.wasm_out_len)
        pasted ← mem_move cleared at shared value_at len
        some (e.with_memory inst pasted))
    ]

  -- The answer of the proxy is taken in, and nothing is pending any more.
  unfoldable pub take_answer : Context e → Mailbox → Buffer → Option (Context e × Mailbox)
  unfolding deliver_value
  take_answer ctx sc shared =
      if sc.pending_type == get_state_request
      then elim ctx.module_inst [
        | none ↦ none
        | some inst ↦ do
          inst' ← deliver_value inst sc shared
          some (
            record ctx { module_inst = some inst' },
            record sc { pending_type = 0; wasm_out_offset = 0; wasm_out_len = pos 0 },
          )
      ]
      else if sc.pending_type == put_state_request
      then some (ctx, record sc { pending_type = 0 })
      else some (ctx, sc)

  -- COMMAND_RESUME_WASM
  unfoldable pub resume_wasm : State e → Params → Option (Result × State e × Params)
  unfolding take_answer process_hostcall_flow
  resume_wasm st ps = elim st.sess [
    | none ↦ some (generic, st, ps)
    | some sc ↦ if not sc.runtime then some (generic, st, ps) else (do
      (ctx, mail) ← take_answer st.runtime_ctx sc.mailbox ps.shared
      (res, ctx', mail', ps') ← process_hostcall_flow e ctx mail ps
      let sc' = record sc { mailbox = mail' }
      some (res, record st { runtime_ctx = ctx'; sess = some sc' }, ps'))
  ]

  -- `TA_InvokeCommandEntryPoint`
  unfoldable pub invoke_command : State e → ℕ → Kinds → Params → Option (Result × State e × Params)
  unfolding run_wasm resume_wasm set_heap_size same_kinds
  invoke_command st cmd kinds ps =
      let refused = some (bad_parameters, st, ps) in
      if cmd == command_configure_heap
      then (if not (same_kinds heap_kinds kinds)
          then refused
          else let (res, st') = set_heap_size ps.size_value st in some (res, st', ps))
      else if cmd == command_run_wasm
      then (if same_kinds kinds run_kinds then run_wasm st ps else refused)
      else if cmd == command_resume_wasm
      then (if same_kinds kinds resume_kinds then resume_wasm st ps else refused)
      else refused
