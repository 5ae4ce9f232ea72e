-- ===== src/Wrapper.antt =====
-- The chaincode wrapper (chaincode.go): the Hyperledger Fabric side of the stream, which invokes the
-- proxy and serves its requests from the ledger.
pub mod Laws
use capstone_2025_team.Base.{
  ℕ, zero, suc, ◌*◌, Option, none, some, Bytes, List, [], ◌∷◌, ◌++◌, codes, length, same_bytes, ltb,
  ◌==◌, not, if◌then◌else◌,
}
use capstone_2025_team.Message.{
  WrapperMessage, ProxyMessage, invocation_request, get_state_response, put_state_response,
  response, get_state, put_state,
}

-- A result of Go, or the text of its error instead.
pub data Try (A : Type 0) : Type 0 where
  failed : Bytes → Try A
  fine : A → Try A

-- Fabric's shim, gRPC and the hex decoder, which are not in the repository. `stub_get_state` gives
-- nil (`none`) for a key that is absent; a put returns the stub after it.
pub record Shim : Type 1 where
  pub Stub : Type 0
  pub get_function_and_parameters : Stub → Bytes × List Bytes
  pub stub_get_state : Stub → Bytes → Try (Option Bytes)
  pub stub_put_state : Stub → Bytes → Bytes → Try Stub
  -- hex.DecodeString: the bytes that it decoded, and the text of its error if it met one.
  pub decode_string : Bytes → Bytes × Option Bytes
  -- The texts of the errors of grpc.Dial and client.TransactionInvocation, if they fail.
  pub dial : Option Bytes
  pub open_stream : Option Bytes
  -- The texts of the errors of a broken stream.
  pub send_error : Bytes
  pub recv_error : Bytes

-- shim.Success and shim.Error
pub data Response : Type 0 where
  success : Bytes → Response
  error : Bytes → Response

-- `ChaincodeWrapper`
pub record ChaincodeWrapper : Type 0 where
  pub uuid : Bytes

abbrev too_few : Bytes
too_few =
    codes
      "Failed to invoke chaincode_wrapper with error: incorrect number of args, expecting at least name of function to execute"

abbrev wrong_args : Bytes
wrong_args =
    codes
      "Failed to invoke setup function of chaincode_wrapper with error: incorrect number of args, expecting 1 arg (uuid)."

abbrev setup_error : Bytes
setup_error = codes "Failed to invoke setup function of chaincode_wrapper with error: "

-- The value of a GetStateResponse: nil is passed on as an empty string.
abbrev pub value_string : Option Bytes → Bytes
value_string none = []
value_string (some value) = value

-- The proxy's messages as they arrive.
abbrev pub arrived : List ProxyMessage → List (Option ProxyMessage)
arrived [] = []
arrived (msg ∷ msgs) = some msg ∷ arrived msgs

module _ (s : Shim) where
  -- What an invocation ends with: the response, the stub, and the messages that were sent, newest
  -- first.
  abbrev pub Ended : Type 0
  Ended = Response × s.Stub × List WrapperMessage

  -- A `stream.Send`, with n sends left until the stream breaks, and what comes after it.
  abbrev pub send :
      s.Stub → ℕ → List WrapperMessage → WrapperMessage → (List WrapperMessage → Ended) → Ended
  send stub zero sent msg next = (error s.send_error, stub, sent)
  send stub (suc n) sent msg next = next (msg ∷ sent)

  abbrev pub pred : ℕ → ℕ
  pred zero = zero
  pred (suc n) = n

  -- The loop over the messages of the proxy, of which one without a member (`none`) is skipped.
  unfoldable pub serve_requests :
      s.Stub → ℕ → List WrapperMessage → List (Option ProxyMessage) → Ended
  serve_requests stub n sent [] = (error s.recv_error, stub, sent)
  serve_requests stub n sent (none ∷ rest) = serve_requests stub n sent rest
  serve_requests stub n sent (some (response text) ∷ rest) = (success text, stub, sent)
  serve_requests stub n sent (some (get_state key) ∷ rest) = elim (s.stub_get_state stub key) [
    | failed text ↦ (error text, stub, sent)
    | fine value ↦
        send stub n sent (get_state_response (value_string value))
          (λ sent'. serve_requests stub (pred n) sent' rest)
  ]
  serve_requests stub n sent (some (put_state key value) ∷ rest) =
      elim (s.stub_put_state stub key value) [
        | failed text ↦ (error text, stub, sent)
        | fine stub' ↦
            send stub' n sent (put_state_response (codes "OK"))
              (λ sent'. serve_requests stub' (pred n) sent' rest)
      ]

  -- `invoke`, with the sends that will succeed and the messages that will arrive.
  unfoldable pub invoke : ChaincodeWrapper → s.Stub → ℕ → List (Option ProxyMessage) → Ended
  unfolding serve_requests
  invoke t stub n incoming =
      let (ccfile, args) = s.get_function_and_parameters stub in
      elim args [
        | [] ↦ (error too_few, stub, [])
        | function ∷ arguments ↦ elim arguments [
          | [] ↦ (error too_few, stub, [])
          | first ∷ others ↦ elim s.dial [
            | some text ↦ (error text, stub, [])
            | none ↦ elim s.open_stream [
              | some text ↦ (error text, stub, [])
              | none ↦
                  send stub n []
                    (invocation_request (record {
                      chaincode_uuid = t.uuid;
                      function_name = function;
                      arguments = first ∷ others;
                      aot_file = ccfile;
                    }))
                    (λ sent. serve_requests stub (pred n) sent incoming)
            ]
          ]
        ]
      ]

  -- `setup`: the uuid is overwritten, also by the part that was decoded in front of an error.
  unfoldable pub setup : ChaincodeWrapper → s.Stub → Response × ChaincodeWrapper
  setup t stub = elim (s.get_function_and_parameters stub).1 [
    | [] ↦ (error wrong_args, t)
    | uuid_input ∷ others ↦ elim others [
      | other ∷ more ↦ (error wrong_args, t)
      | [] ↦
          let (uuid, err) = s.decode_string uuid_input in
          let t' = record t { uuid = uuid } in
          elim err [ some text ↦ (error (setup_error ++ text), t') | none ↦ (success [], t') ]
    ]
  ]

  -- `Init`
  abbrev pub init : s.Stub → Response
  init stub = success []

  -- `Invoke`
  unfoldable pub invoke_function :
      ChaincodeWrapper → s.Stub → ℕ → List (Option ProxyMessage) → Ended × ChaincodeWrapper
  unfolding setup invoke
  invoke_function t stub n incoming =
      if same_bytes (s.get_function_and_parameters stub).0 (codes "setup")
      then (let (res, t') = setup t stub in ((res, stub, []), t'))
      else (invoke t stub n incoming, t)
