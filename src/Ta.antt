-- ===== src/Ta.antt =====
-- The trusted application (wrapper_ta/ta/main.c and wasm.c): its state, its parameters, and the
-- WebAssembly runtime that it drives. The entry points are in the modules below.
pub mod Strlen
pub mod Runtime
pub mod Hash
pub mod Debug
pub mod Step
pub mod Flow
pub mod Command
pub mod Entry
pub mod Sandbox
use capstone_2025_team.Base.{
  ℕ, ◌≡◌, Bool, false, true, Option, none, some, [], ◌∷◌, Bytes, ◌&&◌, ◌==◌, ◌<◌,
}
use capstone_2025_team.Memory.{Buffer}
use capstone_2025_team.Platform.{Platform}
use capstone_2025_team.Session.{Mailbox, zeroed}

-- WAMR and the TEE, which are not in the repository. A module instance has a linear memory and may
-- hold an exception's text. `call_wasm` runs an exported function, which reads and changes the
-- session by the native functions that it calls; the outer `none` is a fault of one of those.
pub record Engine : Type 1 where
  pub platform : Platform
  pub open platform use *
  pub Module : Type 0
  pub Instance : Type 0
  -- TEE_Malloc(size, 0) != NULL
  pub malloc : ℕ → Bool
  pub full_init : ℕ → Bool
  pub load : Bytes → Option Module
  pub instantiate : Module → ℕ → ℕ → Option Instance
  pub memory : Instance → Buffer
  pub with_memory : Instance → Buffer → Instance
  pub lookup_function : Instance → Bytes → Bool
  pub get_exception : Instance → Option Bytes
  pub clear_exception : Instance → Instance
  pub create_exec_env : Instance → ℕ → Bool
  pub call_wasm : Instance → Bytes → Mailbox → Option (Bool × Instance × Mailbox)
  pub application_execute_main : Instance → Bool × Instance
  pub memory-with_memory : (i : Instance) (b : Buffer) → memory (with_memory i b) ≡ b
  pub memory-clear_exception : (i : Instance) → memory (clear_exception i) ≡ memory i
  pub get_exception-clear_exception : (i : Instance) → get_exception (clear_exception i) ≡ none

pub data Result : Type 0 where
  success bad_parameters out_of_memory generic : Result

-- The kinds of a parameter, and the four that a call has.
pub data Kind : Type 0 where
  no_param value_input value_inout memref_input memref_inout : Kind

abbrev pub kind_code : Kind → ℕ
kind_code no_param = 0
kind_code value_input = 1
kind_code value_inout = 2
kind_code memref_input = 3
kind_code memref_inout = 4

pub record Kinds : Type 0 where
  pub first : Kind
  pub second : Kind
  pub third : Kind
  pub fourth : Kind

-- exp_param_types == param_types
unfoldable pub same_kinds : Kinds → Kinds → Bool
same_kinds a b =
    kind_code a.first == kind_code b.first
    && kind_code a.second == kind_code b.second
    && kind_code a.third == kind_code b.third
    && kind_code a.fourth == kind_code b.fourth

-- `TEE_Param params[4]`: params[0] as a value and as the bytecode, params[1].value.a, and
-- params[2].memref, the shared buffer. params[3], the output buffer, is only handed to WAMR.
pub record Params : Type 0 where
  pub size_value : ℕ
  pub wasm : Bytes
  pub request : ℕ
  pub shared : Buffer

-- `chaincode_session_ctx`. `runtime` is whether the pointer is `&runtime_ctx` or NULL; the two
-- buffers are only ever tested for NULL.
pub record Session : Type 0 where
  pub mailbox : Mailbox
  pub runtime : Bool
  pub heap_buf_owned : Bool
  pub trusted_wasm_owned : Bool

module _ (e : Engine) where
  open e use {Module, Instance}

  -- `wamr_context`, less the symbol table, which is always the same.
  pub record Context : Type 0 where
    pub wasm_bytecode : Bytes
    pub heap_size : ℕ
    pub module_loaded : Option Module
    pub module_inst : Option Instance
    pub exec_env : Bool

  -- The TA's globals: `heap_size`, `g_chaincode_sess` and the static `runtime_ctx`.
  pub record State : Type 0 where
    pub heap_size : ℕ
    pub sess : Option Session
    pub runtime_ctx : Context

  -- TEE_MemFill(&runtime_ctx, 0, sizeof(runtime_ctx))
  abbrev pub blank : Context
  blank = record {
    wasm_bytecode = [];
    heap_size = 0;
    module_loaded = none;
    module_inst = none;
    exec_env = false;
  }

abbrev pub zeroed_session : Session
zeroed_session = record {
  mailbox = zeroed;
  runtime = false;
  heap_buf_owned = false;
  trusted_wasm_owned = false;
}
