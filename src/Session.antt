-- ===== src/Session.antt =====
-- The messages of the proxy and the TA (chaincode_tee_ree_communication.h, one copy in
-- fixed-proxy and one in wrapper_ta/ta/include) and the TA's session (session.h).
use capstone_2025_team.Base.{ℕ, ◌+◌, ◌*◌, ◌≤◌, ◌<◌, ◌≡◌, ℤ, pos, [], le_zero, IsInt32, false}
use capstone_2025_team.Memory.{Buffer, of_list}

abbrev pub key_size : ℕ
key_size = 64

abbrev pub val_size : ℕ
val_size = 256

abbrev pub arg_size : ℕ
arg_size = 64

abbrev pub args_number : ℕ
args_number = 10

abbrev pub response_size : ℕ
response_size = 256

abbrev pub ack_size : ℕ
ack_size = 20

-- The message types.
abbrev pub invocation_response : ℕ
invocation_response = 0

abbrev pub get_state_request : ℕ
get_state_request = 1

abbrev pub put_state_request : ℕ
put_state_request = 2

abbrev pub error : ℕ
error = 100

-- The structs lie one over the other in the shared buffer. Their sizes, and where a field lies:
-- `key_value` is the key, then the value; `arguments` is ten rows of 64 bytes; the response and
-- the acknowledgement lie at 0.
abbrev pub key_value_size : ℕ
key_value_size = key_size + val_size

abbrev pub key_at : ℕ
key_at = 0

abbrev pub value_at : ℕ
value_at = key_size

abbrev pub arguments_size : ℕ
arguments_size = args_number * arg_size

abbrev pub row_at : ℕ → ℕ
row_at i = i * arg_size

-- The fields of `chaincode_session_ctx` that the native functions read and write.
pub record Mailbox : Type 0 where
  pub args : Buffer
  pub pending_type : ℕ
  pub key : Buffer
  pub value : Buffer
  pub wasm_out_offset : ℕ
  pub wasm_out_len : ℤ
  pub response : Buffer
  pub has_response : ℕ

-- `TEE_MemFill(g_chaincode_sess, 0, sizeof(*g_chaincode_sess))`
abbrev pub zeroed : Mailbox
zeroed = record {
  args = of_list arguments_size [];
  pending_type = 0;
  key = of_list key_size [];
  value = of_list val_size [];
  wasm_out_offset = 0;
  wasm_out_len = pos 0;
  response = of_list response_size [];
  has_response = 0;
}

-- The arrays have their declared sizes, and each that holds a string ends in a NUL. A pending
-- GET has an output buffer, whose length is an `int`; a pending type is one of the three.
pub record IsWellFormed (m : Mailbox) : Type 0 where
  pub args_sized : m.args.size ≡ arguments_size
  pub key_sized : m.key.size ≡ key_size
  pub value_sized : m.value.size ≡ val_size
  pub response_sized : m.response.size ≡ response_size
  pub key_ends : m.key.byte 63 ≡ 0
  pub value_ends : m.value.byte 255 ≡ 0
  pub response_ends : m.response.byte 255 ≡ 0
  pub pending_known : m.pending_type ≤ put_state_request
  pub out_int : IsInt32 m.wasm_out_len
  pub out_open : m.pending_type ≡ get_state_request → le_zero m.wasm_out_len ≡ false

-- Every row of the arguments ends in a NUL within its 64 bytes.
abbrev pub RowsEnd : Mailbox → Type 0
RowsEnd m = (i : ℕ) → i < args_number → m.args.byte (row_at i + 63) ≡ 0
