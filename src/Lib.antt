-- ===== src/Lib.antt =====
-- A chaincode that runs in a trusted execution environment, and its way to the ledger.
--
-- The program has three parts. The coffee chaincode (wrapper_ta/chaincode) is a WebAssembly module
-- that creates, adds to and queries a count per person. The trusted application (wrapper_ta/ta)
-- runs it with WAMR: the chaincode calls native functions, which leave a request to the ledger or a
-- response in the session; after each step the application hands the request to the normal world
-- in a shared buffer and waits to be resumed with the answer. The proxy (fixed-proxy) invokes the
-- application, forwards its requests over a gRPC stream, and writes the answers back.
--
-- Base: names of the libraries, C's `int`, Boolean tests, `bit_or`, lemmas on lists.
-- Memory: arrays of bytes, C strings, and what memset, memmove and strncpy do to them. A read or
--   write outside an array is `none`.
-- Platform: TEE_MemFill, TEE_MemMove and WAMR's address functions, as a record of parameters with
--   their documented behaviour. Platform.Strict is one that faults outside the arrays.
-- Session: the sizes and message types of chaincode_tee_ree_communication.h, where the structs lie
--   in the shared buffer, and the fields of chaincode_session_ctx that carry messages.
-- Headers: the two copies of that header side by side, the TA's UUID and properties, and the loop
--   by which the proxy finds the size of the shared buffer.
-- Native: wrapper_ta/ta/chaincode_native_functions.c, one definition per function with the
--   function's name (Read, State, Reply, Mem), and the symbol table (Table).
-- Ta: wrapper_ta/ta/main.c, wasm.c and logging.h. Engine is WAMR and the TEE. Runtime, Hash and
--   Debug are wasm.c; Step is `call_step`, Flow is `process_hostcall_flow`, Command is the
--   session and the commands, with a definition for each block of `TA_InvokeCommandEntryPoint`,
--   and Entry is the other entry points. Sandbox says what WAMR promises of a run, and follows the
--   state through the commands.
-- Message: the messages of fixed-proxy/invocation.proto, and how the proxy reads a request.
-- Proxy: fixed-proxy/main.cpp. Context is `tee_ctx` and its functions. Arguments, Answer and Loop
--   are the parts of `execute_wasm_with_grpc_proxy`; Server is the method itself and the
--   transaction, Main the process around it, and Uuid `set_uuid`.
-- Wrapper: chaincode.go, the Fabric side of the stream. Shim is what Fabric, gRPC and the hex decoder
--   do, and Fabric in Laws is what Fabric's documentation promises of reads and writes.
-- Chaincode: wrapper_ta/chaincode/coffee_chaincode_wasm.c. Imports is what it declares of the TA,
--   Text and Decimal are its helpers, and Machine is its state machine over the linear memory.
--   Plan says without memories and steps which requests to the ledger an operation makes and what
--   it answers, and Follows relates the state machine to it.
-- System: the parts put together to one board, and the way of an argument (Invocation) and of a
--   ledger value (Ledger) across it. What loads, what an import is linked to, and what can be
--   allocated or opened are parameters there. Exchange follows a plan through the TA, the proxy
--   and the wrapper, and several transactions with the ledger that is committed in between. It
--   takes WAMR's linker to resolve every import; cc_return_response and cc_log are declared
--   without the result that the symbol table gives them, so a linker that compares the types does
--   not, and then the chaincode traps when it responds. Tests runs whole transactions on it, with
--   the linear memory of 524288 bytes that wrapper_ta/chaincode/Makefile asks for.
--
-- Bounds and fuel. An `int` is an integer with 32 bits where a theorem says so; lengths are cast
-- with their wrap-around. `unsigned long` has 32 bits in WebAssembly. The proxy's loop recurs on
-- the messages that will still arrive, since every round that goes on reads one. `safe_strlen`
-- recurs on its bound, and `s_streq` on the literal that it compares with. `s_strlen` and
-- `s_atoul_at` have fuel, in the state machine one more than the size of the memory: a string
-- that is longer leaves the memory. `digits` has the 32 rounds that the source's buffer allows, and
-- `to_string` the 20 digits of a 64-bit number. The hex dump is modelled for arrays whose dump has
-- a length that is an `int`.
--
-- Not modelled: printing, the time limit of chaincode.go, which ends a stream as a broken
-- connection does, the vendored gRPC and protobuf headers, and calls that the gRPC server may make
-- at the same time: they are taken one after another. WAMR, the TEE, Fabric and the stream are parameters.
pub mod Base
pub mod Memory
pub mod Platform
pub mod Session
pub mod Headers
pub mod Native
pub mod Message
pub mod Ta
pub mod Proxy
pub mod Wrapper
pub mod Chaincode
pub mod System
mod Tests
