-- ===== src/Ta/Entry.antt =====
-- The life of the TA between the TEE's calls: all entry points on one state.
use capstone_2025_team.Base.{ℕ, Option, none, some, List, [], ◌∷◌, ◌>>=◌}
use capstone_2025_team.Ta.{Engine, State, Kinds, Params, Result, success, blank}
use capstone_2025_team.Ta.Command.{open_session, invoke_command}

-- A call of the TEE.
pub data Entry : Type 0 where
  create : Entry
  destroy : Entry
  open_with : Kinds → Entry
  close : Entry
  invoke_with : ℕ → Kinds → Params → Entry

module _ (e : Engine) where
  -- The globals before the first call, zeroed by the loader.
  abbrev pub loaded : State e
  loaded = record { heap_size = 0; sess = none; runtime_ctx = blank e }

  -- `TA_CreateEntryPoint`
  abbrev pub create_entry_point : State e → Result × State e
  create_entry_point st = (success, st)

  -- `TA_DestroyEntryPoint`
  abbrev pub destroy_entry_point : State e → State e
  destroy_entry_point st = st

  -- `TA_CloseSessionEntryPoint`: the session context stays for the next session.
  abbrev pub close_session : State e → State e
  close_session st = st

  -- The state after a call; `none` is a fault.
  unfoldable pub enter : State e → Entry → Option (State e)
  unfolding open_session invoke_command
  enter st create = some (create_entry_point st).1
  enter st destroy = some (destroy_entry_point st)
  enter st (open_with kinds) = some (open_session e kinds st).1
  enter st close = some (close_session st)
  enter st (invoke_with cmd kinds ps) = do
    (res, st', ps') ← invoke_command e st cmd kinds ps
    some st'

  unfoldable pub enter_all : State e → List Entry → Option (State e)
  unfolding enter
  enter_all st [] = some st
  enter_all st (c ∷ cs) = do st' ← enter st c; enter_all st' cs
