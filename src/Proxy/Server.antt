-- ===== src/Proxy/Server.antt =====
-- One transaction: the chaincode is loaded and run, and the session is made anew afterwards.
pub mod Ends
use capstone_2025_team.Base.{
  ◌*◌, false, not, Option, none, some, [], ◌∷◌, ◌++◌, Bytes, codes, if◌then◌else◌, ◌>>=◌,
}
use capstone_2025_team.Memory.{of_list}
use capstone_2025_team.Message.{WrapperMessage, InvocationRequest, invocation_request}
use capstone_2025_team.Proxy.{Board, Stream}
use capstone_2025_team.Proxy.Context.{
  TeeCtx, prepare_tee_session, configure_heap_size, allocate_buffers, terminate_tee_session,
  free_buffers,
}
use capstone_2025_team.Proxy.Arguments.{write_arguments}
use capstone_2025_team.Proxy.Loop.{Ending, loop}
use capstone_2025_team.Session.{arguments_size}
use capstone_2025_team.Ta.{Params}
use capstone_2025_team.Ta.Command.{command_run_wasm, run_kinds}

pub data Status : Type 0 where
  ok unknown : Status

-- The members of an invocation request that is not set are empty.
abbrev pub request_of : WrapperMessage → InvocationRequest
request_of (invocation_request r) = r
request_of _ = record { chaincode_uuid = []; function_name = []; arguments = []; aot_file = [] }

module _ (b : Board) where
  abbrev run_params : Bytes → Params
  run_params wasm = record {
    size_value = 0;
    wasm = wasm;
    request = 0;
    shared = of_list arguments_size [];
  }

  -- `execute_wasm_with_grpc_proxy`. The largest of the four structs is `arguments`, so that is the
  -- size of the shared buffer.
  unfoldable pub execute_wasm_with_grpc_proxy :
      b.Device → InvocationRequest → Stream → Option (Ending b)
  unfolding write_arguments loop
  execute_wasm_with_grpc_proxy device req stream =
      let failed : Ending b = record { ok = false; device = device; stream = stream } in
      elim (b.open_file (codes "./chaincode/" ++ req.aot_file)) [
        | none ↦ some failed
        | some wasm ↦ if not (b.calloc arguments_size) then some failed else (do
          let ps = run_params wasm
          shared ← write_arguments ps.shared req.function_name req.arguments
          let (started, device', ps') =
              b.invoke device command_run_wasm run_kinds (record ps { shared = shared })
          if started
              then loop b device' ps' stream.writable stream.sent stream.incoming
              else some (record failed { device = device' }))
      ]

  -- `initialize_session`, which is all that the constructor does.
  unfoldable pub initialize_session : TeeCtx b → Option (TeeCtx b)
  unfolding allocate_buffers prepare_tee_session configure_heap_size
  initialize_session ctx = do
    prepared ← prepare_tee_session b (allocate_buffers b ctx (5 * 1024))
    some (configure_heap_size b prepared (10 * 1024 * 1024))

  -- `cleanup_session`, which is all that the destructor does.
  unfoldable pub cleanup_session : TeeCtx b → TeeCtx b
  unfolding terminate_tee_session free_buffers
  cleanup_session ctx = free_buffers b (terminate_tee_session b ctx)

  unfoldable pub restart_session : TeeCtx b → Option (TeeCtx b)
  unfolding initialize_session cleanup_session
  restart_session ctx = initialize_session (cleanup_session ctx)

  -- `TransactionInvocation`. The session is restarted after every execution, failed or not.
  unfoldable pub transaction_invocation : TeeCtx b → Stream → Option (Status × TeeCtx b × Stream)
  unfolding execute_wasm_with_grpc_proxy restart_session
  transaction_invocation ctx stream = elim stream.incoming [
    | [] ↦ some (unknown, ctx, stream)
    | first ∷ rest ↦ do
      ended ←
          execute_wasm_with_grpc_proxy ctx.device (request_of first)
            (record stream { incoming = rest })
      ctx' ← restart_session (record ctx { device = ended.device })
      some (if ended.ok then ok else unknown, ctx', ended.stream)
  ]
