-- ===== src/Message.antt =====
-- The gRPC messages of fixed-proxy/invocation.proto, and how fixed-proxy/main.cpp reads a request
-- of the TA from the shared buffer.
use capstone_2025_team.Base.{ℕ, ◌-◌, Option, none, some, List, [], Bytes, ◌==◌, if◌then◌else◌}
use capstone_2025_team.Memory.{Buffer, c_string}
use capstone_2025_team.Session.{
  invocation_response, get_state_request, put_state_request, key_at, value_at,
}

-- `InvocationRequest`
pub record InvocationRequest : Type 0 where
  pub chaincode_uuid : Bytes
  pub function_name : Bytes
  pub arguments : List Bytes
  pub aot_file : Bytes

-- `ChaincodeWrapperMessage`: a `oneof`.
pub data WrapperMessage : Type 0 where
  invocation_request : InvocationRequest → WrapperMessage
  get_state_response : Bytes → WrapperMessage
  put_state_response : Bytes → WrapperMessage

-- `ChaincodeProxyMessage`
pub data ProxyMessage : Type 0 where
  response : Bytes → ProxyMessage
  get_state : Bytes → ProxyMessage
  put_state : Bytes → Bytes → ProxyMessage

-- An accessor of another member of the `oneof` than the one that is set gives the default.
abbrev pub value_of : WrapperMessage → Bytes
value_of (get_state_response v) = v
value_of _ = []

abbrev pub acknowledgement_of : WrapperMessage → Bytes
acknowledgement_of (put_state_response a) = a
acknowledgement_of _ = []

-- A `char *` into the buffer is read up to its NUL, wherever that is.
abbrev pub text_at : Buffer → ℕ → Bytes
text_at b p = c_string b p (b.size - p)

-- The message that the proxy makes of a request type and the shared buffer (`none`: ERROR or a
-- type that it does not know).
unfoldable pub request_message : ℕ → Buffer → Option ProxyMessage
request_message request shared =
    if request == invocation_response
    then some (response (text_at shared 0))
    else if request == get_state_request
    then some (get_state (text_at shared key_at))
    else if request == put_state_request
    then some (put_state (text_at shared key_at) (text_at shared value_at))
    else none
