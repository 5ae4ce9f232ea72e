-- ===== src/Proxy/Loop.antt =====
-- The loop of `execute_wasm_with_grpc_proxy`: each round forwards one request of the TA and brings
-- back its answer, until the final response, an error, or a broken stream. Every round that goes
-- on has read a message, so the loop recurs on the messages that will arrive.
pub mod Laws
pub mod Ends
use capstone_2025_team.Base.{
  ℕ, zero, suc, ◌-◌, Bool, true, false, Option, none, some, List, [], ◌∷◌,
}
use capstone_2025_team.Memory.{Buffer}
use capstone_2025_team.Message.{
  WrapperMessage, ProxyMessage, response, get_state, put_state, request_message,
}
use capstone_2025_team.Proxy.{Board, Stream}
use capstone_2025_team.Proxy.Answer.{answer_get, answer_put}
use capstone_2025_team.Ta.{Params}
use capstone_2025_team.Ta.Command.{command_resume_wasm, resume_kinds}

-- `stream->Write`: whether it succeeded.
unfoldable pub write : ProxyMessage → ℕ → List ProxyMessage → Bool × ℕ × List ProxyMessage
write msg zero sent = (false, zero, sent)
write msg (suc n) sent = (true, n, msg ∷ sent)

-- How the answer to a request is written (`none`: the request has no answer).
unfoldable pub answered : ProxyMessage → WrapperMessage → Buffer → Option Buffer
unfolding answer_get answer_put
answered (response text) msg shared = none
answered (get_state key) msg shared = answer_get shared msg
answered (put_state key value) msg shared = answer_put shared msg

module _ (b : Board) where
  -- How the loop ends: `ok`, the device, and the stream.
  pub record Ending : Type 0 where
    pub ok : Bool
    pub device : b.Device
    pub stream : Stream

  abbrev pub ending : Bool → b.Device → List WrapperMessage → ℕ → List ProxyMessage → Ending
  ending ok device incoming writable sent = record {
    ok = ok;
    device = device;
    stream = record { incoming = incoming; writable = writable; sent = sent };
  }

  -- A round: the request is forwarded. The final response ends the loop.
  pub data Turn : Type 0 where
    stops : Bool → ℕ → List ProxyMessage → Turn
    waits : ProxyMessage → ℕ → List ProxyMessage → Turn

  unfoldable pub forwarded : ProxyMessage → Bool × ℕ × List ProxyMessage → Turn
  forwarded (response text) (ok, n, sent) = stops ok n sent
  forwarded msg (true, n, sent) = waits msg n sent
  forwarded msg (false, n, sent) = stops false n sent

  unfoldable pub turn_of : Option ProxyMessage → ℕ → List ProxyMessage → Turn
  unfolding write forwarded
  turn_of none n sent = stops false n sent
  turn_of (some msg) n sent = forwarded msg (write msg n sent)

  unfoldable pub turn : Params → ℕ → List ProxyMessage → Turn
  unfolding turn_of
  turn ps n sent = turn_of (request_message ps.request ps.shared) n sent

  -- The answer goes to the shared buffer and the chaincode is resumed.
  unfoldable pub resume :
      b.Device → Params → ProxyMessage → WrapperMessage → Option (Bool × b.Device × Params)
  unfolding answered
  resume device ps request msg = elim (answered request msg ps.shared) [
    | none ↦ none
    | some shared ↦
        some (b.invoke device command_resume_wasm resume_kinds (record ps { shared = shared }))
  ]

  -- `none` is a write outside the shared buffer.
  unfoldable pub loop :
      b.Device → Params → ℕ → List ProxyMessage → List WrapperMessage → Option Ending
  unfolding turn resume
  loop device ps n sent [] = elim (turn ps n sent) [
    | stops ok n' sent' ↦ some (ending ok device [] n' sent')
    | waits request n' sent' ↦ some (ending false device [] n' sent')
  ]
  loop device ps n sent (msg ∷ rest) = elim (turn ps n sent) [
    | stops ok n' sent' ↦ some (ending ok device (msg ∷ rest) n' sent')
    | waits request n' sent' ↦ elim (resume device ps request msg) [
      | none ↦ none
      | some (ok, device', ps') ↦ elim ok [
        | false ↦ some (ending false device' rest n' sent')
        | true ↦ loop device' ps' n' sent' rest
      ]
    ]
  ]
