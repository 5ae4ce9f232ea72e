-- ===== src/Tests/Sandbox.antt =====
-- The life of a TA whose module makes one call in every step.
use capstone_2025_team.Tests.Layouts.{layout}
use capstone_2025_team.Base.{
  ◌≡◌, refl, Bool, true, false, some, none, Option, [], ◌∷◌, List, codes, pos, ℤ,
}
use capstone_2025_team.Memory.{Buffer, of_list}
use capstone_2025_team.Session.{Mailbox, arguments_size}
use capstone_2025_team.Platform.Strict.{strict}
use capstone_2025_team.Native.{World, world}
use capstone_2025_team.Native.Table.{dispatch, Call, get_state}
use capstone_2025_team.System.{coffee_engine, Coffee}
use capstone_2025_team.Ta.{Engine, State, Params, Session, zeroed_session, generic}
use capstone_2025_team.Ta.Command.{
  open_kinds, heap_kinds, run_kinds, resume_kinds, command_run_wasm, command_configure_heap,
  command_resume_wasm, start_runtime, resume_wasm,
}
use capstone_2025_team.Ta.Command.Stale.{start_runtime-stale}
use capstone_2025_team.Ta.Entry.{Entry, create, destroy, open_with, close, invoke_with, loaded}
use capstone_2025_team.Ta.Sandbox.Kept.{Kept}

-- Every step asks for the state of the key of four bytes at 8, with room for twenty at 16.
abbrev ask : Call
ask = get_state 8 (pos 4) 16 (pos 20)

abbrev arrive : Coffee → Option Buffer → Option Mailbox → Mailbox → Bool × Coffee × Mailbox
arrive c (some m) (some mail') mail = (true, record c { memory = m }, mail')
arrive c none o mail = (false, c, mail)
arrive c (some m) none mail = (false, c, mail)

abbrev asks : Coffee → Mailbox → Option (ℤ × World) → Bool × Coffee × Mailbox
asks c mail none = (false, c, mail)
asks c mail (some (z, w)) = arrive c w.memory w.mailbox mail

abbrev asking : Engine
unfolding coffee_engine
asking = record (coffee_engine strict layout) {
  call_wasm = λ c name mail. some (asks c mail (dispatch strict (world c.memory mail) ask));
}

module _ (c : Coffee) (mail : Mailbox) where
  outcome : Option (ℤ × World)
  unfolding coffee_engine
  outcome = dispatch strict (world c.memory mail) ask

abbrev params : Params
params = record {
  size_value = 4096;
  wasm = codes "wasm";
  request = 0;
  shared = of_list arguments_size (codes "query");
}

abbrev life : List Entry
life =
    create
    ∷ open_with open_kinds
    ∷ invoke_with command_configure_heap heap_kinds params
    ∷ invoke_with command_run_wasm run_kinds params
    ∷ invoke_with command_resume_wasm resume_kinds params
    ∷ close
    ∷ destroy
    ∷ []

-- An engine that loads no module, and a session that is used.
abbrev refusing : Engine
unfolding coffee_engine
refusing = record (coffee_engine strict layout) { load = λ wasm. none }

abbrev used : Session
used = record zeroed_session { runtime = true }

start_runtime-stale_example :
    (st : State refusing) × (start_runtime refusing (loaded refusing) used params
      ≡ some (generic, st, params))
    × (resume_wasm refusing st params ≡ none)
unfolding refusing
start_runtime-stale_example =
    start_runtime-stale refusing (loaded refusing) used params params refl refl
