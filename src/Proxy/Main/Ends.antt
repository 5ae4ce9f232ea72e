-- ===== src/Proxy/Main/Ends.antt =====
-- The process ends when the server is shut down or interrupted.
use capstone_2025_team.Base.{
  ℕ, suc, ap, false, length, ◌≡◌, refl, some, List, [], ◌∷◌, Bytes, Bool, same_bytes, codes,
  if◌then◌else◌,
}
use capstone_2025_team.Proxy.{Board}
use capstone_2025_team.Proxy.Context.{TeeCtx}
use capstone_2025_team.Proxy.Server.{Status}
use capstone_2025_team.Proxy.Loop.Ends.{KeepsSize}
use capstone_2025_team.Proxy.Server.Ends.{Connects, initialize-returns, transaction-returns}
use capstone_2025_team.Proxy.Main.{
  uninitialized, Event, transaction, interrupt, construct, destruct, serve, run_server,
}

-- The calls before the first interrupt.
abbrev pub calls_before : {b : Board} → List (Event b) → ℕ
calls_before [] = 0
calls_before (interrupt ∷ events) = 0
calls_before (transaction stream ∷ events) = suc (calls_before events)

-- The first argument asks for help, in front of everything else.
abbrev pub wants_help : List Bytes → Bool
wants_help [] = false
wants_help (arg ∷ args) = same_bytes arg (codes "--help")

module _ (b : Board) (keeps : KeepsSize b) (connects : Connects b) where
  serve-returns :
      (ctx : TeeCtx b) (events : List (Event b))
      → (statuses : List Status) × (stopped : Bool) × (ctx' : TeeCtx b) × (serve b ctx events
          ≡ some (statuses, stopped, ctx'))
        × (length statuses ≡ calls_before events)
  unfolding serve
  serve-returns ctx [] = ([], _, ctx, refl, refl)
  serve-returns ctx (interrupt ∷ events) = ([], _, ctx, refl, refl)
  serve-returns ctx (transaction stream ∷ events) =
      let (status, ctx1, stream', run) = transaction-returns b keeps connects ctx stream in
      let (statuses, stopped, ctx2, rest, count) = serve-returns ctx1 events in
      (status ∷ statuses, stopped, ctx2, rw (run, rest) refl, ap suc count)

  pub construct-returns : (device : b.Device) → (ctx : TeeCtx b) × (construct b device ≡ some ctx)
  unfolding construct
  construct-returns device = initialize-returns b keeps connects (uninitialized b device)

  pub run_server-returns :
      (device : b.Device) (events : List (Event b))
      → (statuses : List Status) × (ctx : TeeCtx b) × (run_server b device events
          ≡ some (statuses, ctx))
        × (length statuses ≡ calls_before events)
  unfolding run_server
  run_server-returns device events =
      let (ctx, made) = construct-returns device in
      let (statuses, stopped, ctx', run, count) = serve-returns ctx events in
      (statuses, if stopped then ctx' else destruct b ctx', rw (made, run) refl, count)
