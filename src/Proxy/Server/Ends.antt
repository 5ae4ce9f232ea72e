-- ===== src/Proxy/Server/Ends.antt =====
-- Every transaction comes to an end, and the session is made anew after it.
use capstone_2025_team.Base.{
  ◌≡◌, ◌*◌, refl, false, some, List, [], ◌∷◌, ◌++◌, codes, Bool-cases, inl, inr, if◌then◌else◌,
  Option-cases,
}
use capstone_2025_team.Memory.{of_list}
use capstone_2025_team.Session.{arguments_size}
use capstone_2025_team.Message.{WrapperMessage, InvocationRequest}
use capstone_2025_team.Ta.{Params}
use capstone_2025_team.Ta.Command.{command_run_wasm, run_kinds}
use capstone_2025_team.Proxy.{Board, Stream}
use capstone_2025_team.Proxy.Arguments.Laws.{write_arguments_lem}
use capstone_2025_team.Proxy.Context.{
  TeeCtx, prepare_tee_session, allocate_buffers, configure_heap_size,
}
use capstone_2025_team.Proxy.Loop.{Ending}
use capstone_2025_team.Proxy.Loop.Ends.{KeepsSize, loop-returns}
use capstone_2025_team.Proxy.Server.{
  Status, ok, cleanup_session, unknown, request_of, execute_wasm_with_grpc_proxy,
  initialize_session, restart_session, transaction_invocation,
}

-- A context can always be made, and a session opened.
abbrev pub Connects : Board → Type 0
Connects b =
    ((device : b.Device) → (device' : b.Device) × (b.initialize_context device ≡ some device'))
    × ((device : b.Device) → (device' : b.Device) × (b.open_session device ≡ some device'))

module _ (b : Board) (keeps : KeepsSize b) where
  execute-returns :
      (device : b.Device) (req : InvocationRequest) (stream : Stream)
      → (e : Ending b) × (execute_wasm_with_grpc_proxy b device req stream ≡ some e)
  unfolding execute_wasm_with_grpc_proxy of_list
  execute-returns device req stream =
      let (written, made, (size, _, _)) =
        write_arguments_lem (of_list arguments_size []) req.function_name req.arguments refl in
      let failed : Ending b = record { ok = false; device = device; stream = stream } in
      elim (Option-cases (b.open_file (codes "./chaincode/" ++ req.aot_file))) [
        | inl absent ↦ (failed, rw (execute_wasm_with_grpc_proxy, absent) refl)
        | inr (wasm, opened) ↦ elim (Bool-cases (b.calloc arguments_size)) [
          | inr no_room ↦ (failed, rw (execute_wasm_with_grpc_proxy, opened, no_room) refl)
          | inl room ↦
              let ps : Params = record {
                size_value = 0;
                wasm = wasm;
                request = 0;
                shared = written;
              } in
              let r = b.invoke device command_run_wasm run_kinds ps in
              let kept = keeps device command_run_wasm run_kinds ps size in
              let (e, run) =
                loop-returns b keeps r.1 r.2 stream.writable stream.sent stream.incoming kept in
              elim (Bool-cases r.0) [
                | inl started ↦
                    (e, rw (execute_wasm_with_grpc_proxy, opened, room, made, started) run)
                | inr refused ↦ (
                  record failed { device = r.1 },
                  rw (execute_wasm_with_grpc_proxy, opened, room, made, refused) refl,
                )
              ]
        ]
      ]

  module _ (connects : Connects b) where
    prepare-returns : (ctx : TeeCtx b) → (ctx' : TeeCtx b) × (prepare_tee_session b ctx ≡ some ctx')
    unfolding prepare_tee_session
    prepare-returns ctx =
        let (made, is_made) = connects.0 ctx.device in
        let (opened, is_open) = connects.1 made in
        (record ctx { device = opened }, rw (prepare_tee_session, is_made, is_open) refl)

    pub initialize-returns :
        (ctx : TeeCtx b) → (ctx' : TeeCtx b) × (initialize_session b ctx ≡ some ctx')
    unfolding initialize_session
    initialize-returns ctx =
        let (prepared, run) = prepare-returns (allocate_buffers b ctx (5 * 1024)) in
        (configure_heap_size b prepared (10 * 1024 * 1024), rw (initialize_session, run) refl)

    restart-returns : (ctx : TeeCtx b) → (ctx' : TeeCtx b) × (restart_session b ctx ≡ some ctx')
    unfolding restart_session
    restart-returns ctx = initialize-returns (cleanup_session b ctx)

    pub transaction-returns :
        (ctx : TeeCtx b) (stream : Stream)
        → (status : Status) × (ctx' : TeeCtx b) × (stream' : Stream) × (transaction_invocation b ctx
              stream
            ≡ some (status, ctx', stream'))
    unfolding transaction_invocation
    transaction-returns ctx stream = on_messages stream.incoming refl
      where
        on_messages :
            (incoming : List WrapperMessage)
            → stream.incoming ≡ incoming
            → (status : Status) × (ctx' : TeeCtx b) × (stream' : Stream) × (transaction_invocation b
                  ctx stream
                ≡ some (status, ctx', stream'))
        on_messages [] h = (unknown, ctx, stream, simp (transaction_invocation, h))
        on_messages (first ∷ rest) h =
            let (e, run) =
              execute-returns ctx.device (request_of first) (record stream { incoming = rest }) in
            let (ctx', restarted) = restart-returns (record ctx { device = e.device }) in
            (
              if e.ok then ok else unknown,
              ctx',
              e.stream,
              rw (transaction_invocation, h, run, restarted) refl,
            )
