-- ===== src/System.antt =====
-- The whole board: the coffee chaincode as the module that the TA runs, and the TA as the device
-- that the proxy drives. The platform and the chaincode's layout stay parameters.
pub mod Ledger
pub mod Invocation
pub mod Exchange
use capstone_2025_team.Base.{
  same_bytes, ℕ, Bool, true, false, ◌||◌, ◌+◌, ◌*◌, Option, none, some, [], ◌∷◌, Bytes, codes, ◌==◌,
  if◌then◌else◌, ◌>>=◌, refl,
}
use capstone_2025_team.Memory.{Buffer}
use capstone_2025_team.Platform.{Platform}
use capstone_2025_team.Session.{Mailbox, zeroed}
use capstone_2025_team.Native.{world}
use capstone_2025_team.Chaincode.Machine.{Op, initial, Layout, Chain, step_resume, step_init, main}
use capstone_2025_team.Ta.{Result, Engine, State, Kinds, Params, success, blank}
use capstone_2025_team.Ta.Command.{open_session, invoke_command, open_kinds}
use capstone_2025_team.Proxy.{Board}

-- The proxy's host: its files, whether the TEE client makes a context and opens a session, and
-- whether an allocation succeeds.
pub record Host : Type 0 where
  pub files : Bytes → Option Bytes
  pub makes_context : Bool
  pub opens_session : Bool
  pub allocates : ℕ → Bool

-- An instance of the chaincode between two steps.
pub record Coffee : Type 0 where
  pub memory : Buffer
  pub fsm_state : ℕ
  pub current_op : Op
  pub should_exit : ℕ

module _ (p : Platform) (l : Layout) where
  -- The chaincode on an instance and a session, and back.
  abbrev pub enter : Coffee → Mailbox → Chain
  enter c mail = record {
    world = world c.memory mail;
    fsm_state = c.fsm_state;
    current_op = c.current_op;
    should_exit = c.should_exit;
  }

  abbrev pub coffee_of : Buffer → Chain → Coffee
  coffee_of m ch = record {
    memory = m;
    fsm_state = ch.fsm_state;
    current_op = ch.current_op;
    should_exit = ch.should_exit;
  }

  abbrev pub leave : Chain → Option (Bool × Coffee × Mailbox)
  leave ch = do m ← ch.world.memory; mail ← ch.world.mailbox; some (true, coffee_of m ch, mail)

  -- A call of an exported function: `step_init`, `step_resume` or `main`.
  unfoldable pub call_coffee : Coffee → Bytes → Mailbox → Option (Bool × Coffee × Mailbox)
  unfolding step_resume
  call_coffee c name mail =
      if same_bytes name (codes "step_resume")
      then step_resume p l (enter c mail) >>= leave
      else if same_bytes name (codes "step_init")
      then leave (step_init p l (enter c mail))
      else leave (main p l (enter c mail)).1

  -- The names that wrapper_ta/chaincode/Makefile exports.
  abbrev pub is_exported : Bytes → Bool
  is_exported name =
      same_bytes name (codes "main")
      || same_bytes name (codes "step_init")
      || same_bytes name (codes "step_resume")

  unfoldable pub coffee_engine : Engine
  unfolding call_coffee
  coffee_engine = record {
    platform = p;
    Module = Buffer;
    Instance = Coffee;
    malloc = l.runtime.allocates;
    full_init = l.runtime.allocates;
    load = l.runtime.first_memory;
    instantiate = λ m stack heap.
        if l.runtime.allocates (stack + heap)
        then some (coffee_of m (initial (world m zeroed)))
        else none;
    memory = λ c. c.memory;
    with_memory = λ c m. record c { memory = m };
    lookup_function = λ c name. is_exported name;
    get_exception = λ c. none;
    clear_exception = λ c. c;
    create_exec_env = λ c n. l.runtime.allocates n;
    call_wasm = call_coffee;
    application_execute_main = λ c. (true, c);
    memory-with_memory = λ c m. refl;
    memory-clear_exception = λ c. refl;
    get_exception-clear_exception = λ c. refl;
  }

  abbrev pub Device : Type 0
  Device = State coffee_engine

  -- TEEC_SUCCESS; a fault of the TA is an error at the proxy.
  unfoldable pub invoke_device : Device → ℕ → Kinds → Params → Bool × Device × Params
  unfolding invoke_command
  invoke_device device cmd kinds ps = elim (invoke_command coffee_engine device cmd kinds ps) [
    | none ↦ (false, device, ps)
    | some (res, device', ps') ↦ elim res [
      | success ↦ (true, device', ps')
      | _ ↦ (false, device', ps')
    ]
  ]

  abbrev pub fresh_device : Device
  fresh_device = record { heap_size = 0; sess = none; runtime_ctx = blank coffee_engine }

  abbrev pub session_device : Result × Device → Option Device
  session_device (success, st) = some st
  session_device (_, st) = none

  -- A session's globals are new: the TA is loaded for each session (user_ta_header_defines.h).
  unfoldable pub open_device : Device → Option Device
  unfolding open_session
  open_device device = session_device (open_session coffee_engine open_kinds fresh_device)

  unfoldable pub board : Host → Board
  unfolding invoke_device open_device
  board host = record {
    Device = Device;
    invoke = invoke_device;
    initialize_context = λ device. if host.makes_context then some device else none;
    open_session = λ device. if host.opens_session then open_device device else none;
    close_session = λ device. device;
    finalize_context = λ device. device;
    open_file = host.files;
    malloc = host.allocates;
    calloc = host.allocates;
  }
