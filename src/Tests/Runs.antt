-- ===== src/Tests/Runs.antt =====
-- Whole transactions of the coffee chaincode, from the first message to the status.
use capstone_2025_team.Tests.Layouts.{layout, host}
use capstone_2025_team.Base.{◌≡◌, refl, Option, some, List, [], ◌∷◌, Bytes, codes, replicate, ◌>>=◌}
use capstone_2025_team.Platform.Strict.{strict}
use capstone_2025_team.Message.{
  WrapperMessage, ProxyMessage, invocation_request, get_state_response, put_state_response,
  response, get_state, put_state,
}
use capstone_2025_team.Proxy.Main.{uninitialized}
use capstone_2025_team.Proxy.Server.{Status, ok, initialize_session, transaction_invocation}
use capstone_2025_team.Chaincode.Decimal.{digits}
use capstone_2025_team.Memory.{safe_strlen}
use capstone_2025_team.Message.{request_message}
use capstone_2025_team.Native.Read.{cc_get_function, cc_get_arg}
use capstone_2025_team.Native.Reply.{cc_return_response}
use capstone_2025_team.Native.State.{cc_get_state, cc_put_state}
use capstone_2025_team.System.{fresh_device, board, coffee_engine}
use capstone_2025_team.Ta.Step.{call_step}

abbrev invoke : Bytes → List Bytes → WrapperMessage
invoke function args = invocation_request (record {
  chaincode_uuid = [];
  function_name = function;
  arguments = args;
  aot_file = codes "c.aot";
})

-- A server starts with a session; what its transaction sends, newest first, with the status.
transact : List WrapperMessage → Option (Status × List ProxyMessage)
unfolding initialize_session transaction_invocation board strict coffee_engine call_step
    cc_get_function safe_strlen cc_get_arg cc_get_state request_message cc_put_state
    cc_return_response digits
transact messages = do
  let b = board strict layout host
  device ← initialize_session b (uninitialized b (fresh_device strict layout))
  (status, device', stream) ←
      transaction_invocation b device (record { incoming = messages; writable = 10; sent = [] })
  some (status, stream.sent)

create_absent :
    transact (
      invoke (codes "create") (codes "kim" ∷ codes "5" ∷ [])
      ∷ get_state_response []
      ∷ put_state_response (codes "OK")
      ∷ [])
    ≡ some (
      ok,
      response (codes "OK") ∷ put_state (codes "kim") (codes "5") ∷ get_state (codes "kim") ∷ [],
    )
unfolding transact
create_absent = refl

create_present :
    transact
      (invoke (codes "create") (codes "kim" ∷ codes "5" ∷ []) ∷ get_state_response (codes "2") ∷ [])
    ≡ some (ok, response (codes "EXIST") ∷ get_state (codes "kim") ∷ [])
unfolding transact
create_present = refl

add_present :
    transact (
      invoke (codes "add") (codes "kim" ∷ codes "5" ∷ [])
      ∷ get_state_response (codes "37")
      ∷ put_state_response (codes "OK")
      ∷ [])
    ≡ some (
      ok,
      response (codes "OK") ∷ put_state (codes "kim") (codes "42") ∷ get_state (codes "kim") ∷ [],
    )
unfolding transact
add_present = refl

query_absent :
    transact (invoke (codes "query") (codes "kim" ∷ []) ∷ get_state_response [] ∷ [])
    ≡ some (ok, response (codes "NOTFOUND") ∷ get_state (codes "kim") ∷ [])
unfolding transact
query_absent = refl

-- A value of 256 bytes is left out by the proxy, and looks absent.
query_too_long :
    transact
      (invoke (codes "query") (codes "kim" ∷ []) ∷ get_state_response (replicate 256 b'7') ∷ [])
    ≡ some (ok, response (codes "NOTFOUND") ∷ get_state (codes "kim") ∷ [])
unfolding transact
query_too_long = refl

-- The sum wraps around at 2 ^ 32.
add_wraps :
    transact (
      invoke (codes "add") (codes "kim" ∷ codes "1" ∷ [])
      ∷ get_state_response (codes "4294967295")
      ∷ put_state_response (codes "OK")
      ∷ [])
    ≡ some (
      ok,
      response (codes "OK") ∷ put_state (codes "kim") (codes "0") ∷ get_state (codes "kim") ∷ [],
    )
unfolding transact
add_wraps = refl

unknown_function :
    transact (invoke (codes "drop") [] ∷ []) ≡ some (ok, response (codes "ERROR") ∷ [])
unfolding transact
unknown_function = refl

-- A create without a person asks for nothing: an empty key is no success to it, and it stalls.
create_nobody :
    transact (invoke (codes "create") [] ∷ get_state_response [] ∷ [])
    ≡ some (ok, response (codes "NO_RESPONSE") ∷ get_state [] ∷ [])
unfolding transact
create_nobody = refl
