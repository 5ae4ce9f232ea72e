-- ===== src/Ta/Runtime.antt =====
-- wasm.c: loading and instantiating the chaincode, and running its main function.
use capstone_2025_team.Base.{
  Bool, true, false, not, Option, none, some, [], ◌∷◌, List, Bytes, codes, if◌then◌else◌, ◌>>=◌,
  ◌*◌, ℕ,
}
use capstone_2025_team.Session.{Mailbox}
use capstone_2025_team.Ta.{Engine, Context, Result, success, generic}
use capstone_2025_team.Ta.Step.{strstr}

-- `TA_SetOutputBuffer`, on what the WAMR port keeps for the chaincode's output.
abbrev set_output_buffer :
    {Port : Type 0} (vedliot_set_output_buffer : ℕ → ℕ → Port → Port)
    (output_buffer output_buffer_size : ℕ)
    → Port
    → Port
set_output_buffer vedliot_set_output_buffer output_buffer output_buffer_size =
    vedliot_set_output_buffer output_buffer output_buffer_size

abbrev pub start_names : List Bytes
start_names = codes "_start" ∷ codes "_main" ∷ codes "start" ∷ []

module _ (e : Engine) where
  -- `TA_InitializeWamrRuntime`: a loaded module stays in the context when its instance fails.
  unfoldable pub initialize_wamr_runtime : Context e → Result × Context e
  initialize_wamr_runtime ctx =
      if not (e.full_init ctx.heap_size) then (generic, ctx) else elim (e.load ctx.wasm_bytecode) [
        | none ↦ (generic, record ctx { module_loaded = none })
        | some loaded ↦ elim (e.instantiate loaded (256 * 1024) (64 * 1024)) [
          | none ↦ (generic, record ctx { module_loaded = some loaded; module_inst = none })
          | some inst ↦
              (success, record ctx { module_loaded = some loaded; module_inst = some inst })
        ]
      ]

  -- wasm_runtime_call_wasm(context->exec_env, ...): without an exec env it is a fault.
  abbrev pub call_in : Bool → e.Instance → Bytes → Mailbox → Option (Bool × e.Instance × Mailbox)
  call_in exec_env inst name mail = if exec_env then e.call_wasm inst name mail else none

  -- The functions `_start`, `_main` and `start` in turn: the first that runs without failing.
  unfoldable pub try_names :
      Bool → List Bytes → e.Instance → Mailbox → Option (Bool × e.Instance × Mailbox)
  try_names exec_env [] inst mail = some (false, inst, mail)
  try_names exec_env (name ∷ names) inst mail =
      let next = try_names exec_env names inst mail in
      if not (e.lookup_function inst name) then next else (do
        (ok, inst', mail') ← call_in exec_env inst name mail
        elim ok [ true ↦ some (true, inst', mail') | false ↦ try_names exec_env names inst' mail' ])

  -- The last resort: an out-of-bounds exception of the main function counts as success.
  unfoldable pub fall_back : e.Instance → Result × e.Instance
  unfolding strstr
  fall_back inst =
      let (ok, inst') = e.application_execute_main inst in
      if ok then (success, inst') else elim (e.get_exception inst') [
        | none ↦ (generic, inst')
        | some ex ↦ if strstr ex (codes "out of bounds") then (success, inst') else (generic, inst')
      ]

  unfoldable pub last_resort : Bool → e.Instance → Mailbox → Result × e.Instance × Mailbox
  last_resort true inst mail = (success, inst, mail)
  last_resort false inst mail = let (res, inst') = fall_back inst in (res, inst', mail)

  -- `TA_ExecuteWamrRuntime`, on the context's instance and exec env. TA_InitializeWamrRuntime does
  -- not make the exec env.
  unfoldable pub execute_wamr_runtime : Context e → Mailbox → Option (Result × Context e × Mailbox)
  unfolding try_names fall_back last_resort
  execute_wamr_runtime ctx mail = do
    inst ← ctx.module_inst
    if e.lookup_function inst (codes "main")
        then (do
          (ok, inst', mail') ← call_in ctx.exec_env inst (codes "main") mail
          some (if ok then success else generic, record ctx { module_inst = some inst' }, mail'))
        else (do
          (ok, inst', mail') ← try_names ctx.exec_env start_names inst mail
          let (res, inst2, mail2) = last_resort ok inst' mail'
          some (res, record ctx { module_inst = some inst2 }, mail2))

  -- `TA_TearDownWamrRuntime`: the exec env goes; the pointers to instance and module stay.
  unfoldable pub tear_down_wamr_runtime : Context e → Context e
  tear_down_wamr_runtime ctx = record ctx { exec_env = false }
