-- ===== src/Proxy/Main.antt =====
-- The proxy's process: the service object, the signal handler, `run_server` and `main`.
pub mod Ends
pub mod Isolation
use capstone_2025_team.Base.{
  ℕ, zero, suc, ◌+◌, ◌/◌, ◌%◌, Bool, true, false, Option, none, some, List, [], ◌∷◌, ◌++◌, Bytes,
  codes, same_bytes, ◌==◌, if◌then◌else◌, ◌>>=◌,
}
use capstone_2025_team.Proxy.{Board, Stream}
use capstone_2025_team.Proxy.Context.{TeeCtx}
use capstone_2025_team.Proxy.Server.{
  Status, initialize_session, cleanup_session, transaction_invocation,
}

-- std::to_string, with fuel.
unfoldable pub to_string : ℕ → ℕ → Bytes → Bytes
to_string zero n text = text
to_string (suc fuel) n text =
    let more = to_string fuel (n / 10) ((b'0' + n % 10) ∷ text) in
    if n / 10 == 0 then (b'0' + n % 10) ∷ text else more

-- `get_timestamp`, from the steady clock's milliseconds, which have 64 bits.
unfoldable pub get_timestamp : ℕ → Bytes
unfolding to_string
get_timestamp millis = codes "[" ++ (to_string 20 millis [] ++ codes "ms]")

module _ (b : Board) where
  -- The service's `ctx` before its constructor has run.
  abbrev pub uninitialized : b.Device → TeeCtx b
  uninitialized device = record {
    device = device;
    output_buffer = false;
    output_buffer_size = 0;
    benchmark_buffer = false;
    benchmark_buffer_size = 0;
  }

  -- The service's constructor and destructor.
  unfoldable pub construct : b.Device → Option (TeeCtx b)
  unfolding initialize_session
  construct device = initialize_session b (uninitialized device)

  unfoldable pub destruct : TeeCtx b → TeeCtx b
  unfolding cleanup_session
  destruct ctx = cleanup_session b ctx

  -- What the waiting server meets: a call of the service, or Ctrl+C.
  pub data Event : Type 0 where
    transaction : Stream → Event
    interrupt : Event

  -- `cleanup`, the handler: the process ends with code 0, and the session is left as it is.
  abbrev pub cleanup : TeeCtx b → List Status × Bool × TeeCtx b
  cleanup ctx = ([], true, ctx)

  -- `server->Wait()`: the calls are served one after another. It returns their statuses and
  -- whether the handler has ended the process.
  unfoldable pub serve : TeeCtx b → List Event → Option (List Status × Bool × TeeCtx b)
  unfolding transaction_invocation
  serve ctx [] = some ([], false, ctx)
  serve ctx (interrupt ∷ events) = some (cleanup ctx)
  serve ctx (transaction stream ∷ events) = do
    (status, ctx', stream') ← transaction_invocation b ctx stream
    (statuses, stopped, ctx'') ← serve ctx' events
    some (status ∷ statuses, stopped, ctx'')

  -- `run_server`: the service is made, serves, and is destroyed when the server was shut down.
  unfoldable pub run_server : b.Device → List Event → Option (List Status × TeeCtx b)
  unfolding serve construct destruct
  run_server device events = do
    ctx ← construct device
    (statuses, stopped, ctx') ← serve ctx events
    some (statuses, if stopped then ctx' else destruct ctx')

  -- `main`, with argv[1], argv[2] and so on: the exit code, and the statuses that were returned.
  unfoldable pub main : List Bytes → b.Device → List Event → Option (ℕ × List Status)
  unfolding run_server
  main [] device events = do (statuses, ctx) ← run_server device events; some (0, statuses)
  main (arg ∷ args) device events =
      if same_bytes arg (codes "--help")
      then some (0, [])
      else (do (statuses, ctx) ← run_server device events; some (0, statuses))
