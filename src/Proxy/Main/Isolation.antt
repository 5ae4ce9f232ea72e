-- ===== src/Proxy/Main/Isolation.antt =====
-- What one transaction leaves does not reach the next.
use capstone_2025_team.Base.{
  ◌≡◌, refl, sym, ap, ◌∙◌, Bool, Option, none, some, List, [], ◌∷◌, ◌*◌, inl, inr, Option-cases,
  ◌>>=◌, if◌then◌else◌,
}
use capstone_2025_team.Proxy.{Board, Stream}
use capstone_2025_team.Message.{WrapperMessage}
use capstone_2025_team.Proxy.Context.{
  TeeCtx, allocate_buffers, prepare_tee_session, configure_heap_size,
}
use capstone_2025_team.Proxy.Server.{
  Status, request_of, initialize_session, cleanup_session, restart_session,
  execute_wasm_with_grpc_proxy, transaction_invocation,
}
use capstone_2025_team.Proxy.Main.{
  uninitialized, Event, transaction, interrupt, construct, destruct, serve, run_server,
}

-- A new session of the TA does not depend on an earlier one.
abbrev pub Forgets : Board → Type 0
Forgets b =
    (d d' : b.Device)
    → (b.initialize_context d >>= b.open_session) ≡ (b.initialize_context d' >>= b.open_session)

module _ (b : Board) where
  -- A transaction of a service that has just started.
  unfoldable pub alone : b.Device → Stream → Option Status
  alone device stream = do
    ctx ← construct b device
    (status, ctx', stream') ← transaction_invocation b ctx stream
    some status

  -- Each transaction up to the interrupt on its own.
  unfoldable pub each : b.Device → List (Event b) → Option (List Status)
  unfolding alone
  each device [] = some []
  each device (interrupt ∷ events) = some []
  each device (transaction stream ∷ events) = do
    status ← alone device stream
    statuses ← each device events
    some (status ∷ statuses)

  abbrev pub statuses_of : Option (List Status × TeeCtx b) → Option (List Status)
  statuses_of none = none
  statuses_of (some (statuses, ctx)) = some statuses

  through-some :
      {A B C : Type 0} (o : Option A) (g : A → B) (h : B → C)
      → ((o >>= λ x. some (g x)) >>= λ y. some (h y)) ≡ (o >>= λ x. some (h (g x)))
  through-some none g h = refl
  through-some (some x) g h = refl

  through :
      {A B C D : Type 0} (o : Option A) (f : A → Option B) (g : B → C) (h : C → D)
      → ((o >>= λ x. (f x >>= λ y. some (g y))) >>= λ z. some (h z))
        ≡ ((o >>= f) >>= λ y. some (h (g y)))
  through none f g h = refl
  through (some x) f g h = through-some (f x) g h

  -- The service on a new session.
  started : b.Device → TeeCtx b
  started device =
      configure_heap_size b
        (record {
          device = device;
          output_buffer = b.malloc (5 * 1024);
          output_buffer_size = 5 * 1024;
          benchmark_buffer = b.malloc (5 * 1024);
          benchmark_buffer_size = 5 * 1024;
        })
        (10 * 1024 * 1024)

  initialize_session_lem :
      (ctx : TeeCtx b)
      → initialize_session b ctx
        ≡ ((b.initialize_context ctx.device >>= b.open_session) >>= λ d. some (started d))
  unfolding initialize_session allocate_buffers prepare_tee_session started
  initialize_session_lem ctx =
      through (b.initialize_context ctx.device) b.open_session
        (λ d. (record {
          device = d;
          output_buffer = b.malloc (5 * 1024);
          output_buffer_size = 5 * 1024;
          benchmark_buffer = b.malloc (5 * 1024);
          benchmark_buffer_size = 5 * 1024;
        }))
        (λ c. configure_heap_size b c (10 * 1024 * 1024))

  module _ (forgets : Forgets b) where
    -- A service that starts overwrites all that was there.
    initialize-same : (ctx ctx' : TeeCtx b) → initialize_session b ctx ≡ initialize_session b ctx'
    initialize-same ctx ctx' =
        initialize_session_lem ctx
        ∙ ap (λ o. o >>= λ d. some (started d)) (forgets ctx.device ctx'.device)
        ∙ sym (initialize_session_lem ctx')

    restart_session_lem : (ctx ctx0 : TeeCtx b) → restart_session b ctx ≡ initialize_session b ctx0
    unfolding restart_session
    restart_session_lem ctx ctx0 = initialize-same (cleanup_session b ctx) ctx0

    -- A transaction on a service that has just started leaves one that has just started.
    restarted :
        (ctx0 ctx : TeeCtx b) (stream : Stream)
        → initialize_session b ctx0 ≡ some ctx
        → (transaction_invocation b ctx stream >>= λ r. some r.1)
          ≡ (transaction_invocation b ctx stream >>= λ r. some ctx)
    unfolding transaction_invocation
    restarted ctx0 ctx stream fresh = on_messages stream.incoming refl
      where
        on_messages :
            (incoming : List WrapperMessage)
            → stream.incoming ≡ incoming
            → (transaction_invocation b ctx stream >>= λ r. some r.1)
              ≡ (transaction_invocation b ctx stream >>= λ r. some ctx)
        on_messages [] h = simp (transaction_invocation, h)
        on_messages (first ∷ rest) h =
            elim (Option-cases (
              execute_wasm_with_grpc_proxy b ctx.device (request_of first)
                (record stream { incoming = rest }))) [
                  | inl faulted ↦ simp (transaction_invocation, h, faulted)
                  | inr (e, run) ↦
                      let again : restart_session b (record ctx { device = e.device }) ≡ some ctx =
                        restart_session_lem (record ctx { device = e.device }) ctx0 ∙ fresh in
                      simp (transaction_invocation, h, run, again)
                ]

    alone_lem :
        (device : b.Device) (ctx : TeeCtx b) (stream : Stream)
        → construct b device ≡ some ctx
        → alone device stream ≡ (transaction_invocation b ctx stream >>= λ r. some r.0)
    unfolding alone construct
    alone_lem device ctx stream fresh = simp (alone, fresh)

    serve-each :
        (device : b.Device) (ctx : TeeCtx b) (events : List (Event b))
        → construct b device ≡ some ctx
        → (serve b ctx events >>= λ r. some r.0) ≡ each device events
    unfolding serve each
    serve-each device ctx [] fresh = refl
    serve-each device ctx (interrupt ∷ events) fresh = refl
    serve-each device ctx (transaction stream ∷ events) fresh =
        elim (Option-cases (transaction_invocation b ctx stream)) [
          | inl faulted ↦ rw (alone_lem device ctx stream fresh, faulted) refl
          | inr ((status, ctx', stream'), run) ↦
              let same : some ctx' ≡ some ctx =
                rw run at
                  (restarted (uninitialized b device) ctx stream (unfold construct in fresh)) in
              let next = serve-each device ctx' events (fresh ∙ sym same) in
              rw (alone_lem device ctx stream fresh, run)
                (through-some (serve b ctx' events) (λ x. (status ∷ x.0, x.1, x.2)) (λ r. r.0)
                  ∙ sym (
                      through-some (serve b ctx' events) (λ r. r.0) (λ statuses. status ∷ statuses))
                  ∙ ap (λ o. o >>= λ statuses. some (status ∷ statuses)) next)
        ]

    -- If the result of making a context and opening a session does not depend on the device
    -- before, and the service can be constructed, then the statuses that `run_server` returns
    -- are those that each call up to the first interrupt would get as the first call of a new
    -- service; and it fails if one of these does.
    pub run_server-each :
        (device : b.Device) (events : List (Event b)) (ctx : TeeCtx b)
        → construct b device ≡ some ctx
        → statuses_of (run_server b device events) ≡ each device events
    unfolding run_server
    run_server-each device events ctx fresh =
        rw fresh (closed (serve b ctx events)) ∙ serve-each device ctx events fresh
      where
        closed :
            (o : Option (List Status × Bool × TeeCtx b))
            → statuses_of (o >>= λ r. some (r.0, if r.1 then r.2 else destruct b r.2))
              ≡ (o >>= λ r. some r.0)
        closed none = refl
        closed (some r) = refl
