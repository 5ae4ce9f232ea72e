-- ===== src/System/Exchange/Whole.antt =====
-- Whole transactions of the coffee chaincode on the board, against the ledger.
use capstone_2025_team.Base.{ℕ, ◌*◌, ◌≡◌, ◌≢◌, true, some, Bytes, [], ◌++◌, codes, same_bytes, take}
use capstone_2025_team.Memory.{Buffer}
use capstone_2025_team.Platform.{Platform}
use capstone_2025_team.Message.{InvocationRequest}
use capstone_2025_team.Proxy.{Board}
use capstone_2025_team.Proxy.Context.{TeeCtx, configure_heap_size}
use capstone_2025_team.Proxy.Arguments.Laws.{meant}
use capstone_2025_team.Chaincode.Text.Stands.{Stands}
use capstone_2025_team.Chaincode.Machine.{Layout}
use capstone_2025_team.Chaincode.Plan.{Plan, coffee_plan}
use capstone_2025_team.Chaincode.Follows.{Placed, Image, Follows}
use capstone_2025_team.System.{Device, Host}

-- What the chaincode takes for row i of a request.
abbrev pub row_of : InvocationRequest → ℕ → Bytes
row_of req i = take 63 (meant req.function_name req.arguments i)

-- The plan that a request stands for.
abbrev pub plan_of : InvocationRequest → Plan
plan_of req = coffee_plan (row_of req 0) (row_of req 1) (row_of req 2)

-- A create names a person.
abbrev pub NamesPerson : InvocationRequest → Type 0
NamesPerson req = same_bytes (row_of req 0) (codes "create") ≡ true → row_of req 1 ≢ []

-- The board at hand: the memory of a new instance of the bytecode, where the literals stand and no
-- function's name does, and that no allocation, context or session fails.
pub record Works (l : Layout) (host : Host) (wasm : Bytes) (size : ℕ) (m : Buffer) : Type 0 where
  pub placed : Placed l size
  pub image : Image l size m
  pub unnamed : Stands m l.g_function 64 []
  pub loads : l.runtime.first_memory wasm ≡ some m
  pub room : (n : ℕ) → l.runtime.allocates n ≡ true
  pub buffers : (n : ℕ) → host.allocates n ≡ true
  pub makes_context : host.makes_context ≡ true
  pub opens_session : host.opens_session ≡ true

-- The file of the request is the bytecode.
abbrev pub Finds : Host → Bytes → InvocationRequest → Type 0
Finds host wasm req = host.files (codes "./chaincode/" ++ req.aot_file) ≡ some wasm

-- The context of a new session, after the heap is configured.
unfoldable renewed : (b : Board) → TeeCtx b → b.Device → TeeCtx b
unfolding configure_heap_size
renewed b ctx device =
    configure_heap_size b
      (record {
        device = device;
        output_buffer = b.malloc (5 * 1024);
        output_buffer_size = 5 * 1024;
        benchmark_buffer = b.malloc (5 * 1024);
        benchmark_buffer_size = 5 * 1024;
      })
      (10 * 1024 * 1024)
