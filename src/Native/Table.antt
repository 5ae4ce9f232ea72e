-- ===== src/Native/Table.antt =====
-- The table of native symbols: what the chaincode can call, and with which arguments.
use capstone_2025_team.Base.{ℕ, ◌*◌, ℤ, List, [], ◌∷◌, Bytes, codes, length}
use capstone_2025_team.Platform.{Platform}
use capstone_2025_team.Native.{World, Outcome}
use capstone_2025_team.Native.Read.{cc_get_function, cc_get_arg}
use capstone_2025_team.Native.State.{cc_get_state, cc_put_state}
use capstone_2025_team.Native.Reply.{cc_return_response, cc_log, debug_log}
use capstone_2025_team.Native.Mem.{env_memset, env_memcpy, env_memmove}

-- A `NativeSymbol`: a name, and the types of the function's parameters and result.
pub record NativeSymbol : Type 0 where
  pub name : Bytes
  pub signature : Bytes

abbrev symbol : Bytes → Bytes → NativeSymbol
symbol name signature = record { name = name; signature = signature }

abbrev pub chaincode_native_symbols : List NativeSymbol
chaincode_native_symbols =
    symbol (codes "cc_get_function") (codes "(ii)i")
    ∷ symbol (codes "cc_get_arg") (codes "(iii)i")
    ∷ symbol (codes "cc_get_state") (codes "(iiii)i")
    ∷ symbol (codes "cc_put_state") (codes "(iiii)i")
    ∷ symbol (codes "cc_return_response") (codes "(ii)i")
    ∷ symbol (codes "cc_log") (codes "(ii)i")
    ∷ symbol (codes "debug_log") (codes "(i)i")
    ∷ symbol (codes "memset") (codes "(iii)i")
    ∷ symbol (codes "memcpy") (codes "(iii)i")
    ∷ symbol (codes "memmove") (codes "(iii)i")
    ∷ []

-- sizeof(chaincode_native_symbols), with three pointers and an attachment of 8 bytes each, and
-- n_native_symbols = native_symbols_size / sizeof(NativeSymbol).
abbrev pub chaincode_native_symbols_size : ℕ
chaincode_native_symbols_size = 32 * length chaincode_native_symbols

-- A call of an imported function.
pub data Call : Type 0 where
  get_function : ℕ → ℤ → Call
  get_arg : ℤ → ℕ → ℤ → Call
  get_state : ℕ → ℤ → ℕ → ℤ → Call
  put_state : ℕ → ℤ → ℕ → ℤ → Call
  return_response : ℕ → ℤ → Call
  log : ℕ → ℤ → Call
  debug : ℤ → Call
  memset : ℕ → ℤ → ℕ → Call
  memcpy : ℕ → ℕ → ℕ → Call
  memmove : ℕ → ℕ → ℕ → Call

unfoldable pub dispatch : Platform → World → Call → Outcome
dispatch p w (get_function out len) = cc_get_function p w out len
dispatch p w (get_arg idx out len) = cc_get_arg p w idx out len
dispatch p w (get_state key key_len out len) = cc_get_state p w key key_len out len
dispatch p w (put_state key key_len val val_len) = cc_put_state p w key key_len val val_len
dispatch p w (return_response msg len) = cc_return_response p w msg len
dispatch p w (log msg len) = cc_log p w msg len
dispatch p w (debug step) = debug_log w step
dispatch p w (memset dst c n) = env_memset p w dst c n
dispatch p w (memcpy dst src n) = env_memcpy p w dst src n
dispatch p w (memmove dst src n) = env_memmove p w dst src n
