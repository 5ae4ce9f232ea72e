-- ===== src/Headers.antt =====
-- The headers as they stand: the constants and structs of the two copies of
-- chaincode_tee_ree_communication.h (fixed-proxy and wrapper_ta/ta/include), the structs of an
-- older protocol in wrapper_ta/ta/main.c, and the properties of the TA
-- (wrapper_ta/ta/user_ta_header_defines.h). A struct of `char` arrays has no padding.
use capstone_2025_team.Base.{
  ℕ, ◌+◌, ◌*◌, Option, none, some, List, [], ◌∷◌, Bytes, codes, same_bytes, ltb, if◌then◌else◌,
}

-- A field of a struct: its name and its size.
pub record Field : Type 0 where
  pub name : Bytes
  pub width : ℕ

abbrev pub Struct : Type 0
Struct = List Field

abbrev field : Bytes → ℕ → Field
field name width = record { name = name; width = width }

-- sizeof
unfoldable pub size_of : Struct → ℕ
size_of [] = 0
size_of (f ∷ fs) = f.width + size_of fs

-- Where a field starts, with its width.
unfoldable pub find_from : ℕ → Bytes → Struct → Option (ℕ × ℕ)
find_from o name [] = none
find_from o name (f ∷ fs) =
    let rest = find_from (o + f.width) name fs in
    if same_bytes name f.name then some (o, f.width) else rest

unfoldable pub find : Bytes → Struct → Option (ℕ × ℕ)
unfolding find_from
find name s = find_from 0 name s

-- A copy of chaincode_tee_ree_communication.h.
pub record Communication : Type 0 where
  pub fct_size : ℕ
  pub key_size : ℕ
  pub val_size : ℕ
  pub arg_size : ℕ
  pub args_number : ℕ
  pub response_size : ℕ
  pub ack_size : ℕ
  pub invocation_response : ℕ
  pub get_state_request : ℕ
  pub put_state_request : ℕ
  pub error : ℕ
  pub key_value : Struct
  pub arguments : Struct
  pub response : Struct
  pub acknowledgement : Struct

abbrev pub ta_communication : Communication
ta_communication = record {
  fct_size = 20;
  key_size = 64;
  val_size = 256;
  arg_size = 64;
  args_number = 10;
  response_size = 256;
  ack_size = 20;
  invocation_response = 0;
  get_state_request = 1;
  put_state_request = 2;
  error = 100;
  key_value = field (codes "key") 64 ∷ field (codes "value") 256 ∷ [];
  arguments = field (codes "arguments") (10 * 64) ∷ [];
  response = field (codes "execution_response") 256 ∷ [];
  acknowledgement = field (codes "acknowledgement") 20 ∷ [];
}

abbrev pub proxy_communication : Communication
proxy_communication = record {
  fct_size = 20;
  key_size = 64;
  val_size = 256;
  arg_size = 64;
  args_number = 10;
  response_size = 256;
  ack_size = 20;
  invocation_response = 0;
  get_state_request = 1;
  put_state_request = 2;
  error = 100;
  key_value = field (codes "key") 64 ∷ field (codes "value") 256 ∷ [];
  arguments = field (codes "arguments") (10 * 64) ∷ [];
  response = field (codes "execution_response") 256 ∷ [];
  acknowledgement = field (codes "acknowledgement") 20 ∷ [];
}

-- Two commands that only the proxy's copy declares and nothing uses.
abbrev pub cmd_init_invoke : ℕ
cmd_init_invoke = 0

abbrev pub cmd_resume_invoke : ℕ
cmd_resume_invoke = 1

-- `structure_sizes` of the proxy, and the loop that takes the largest.
unfoldable pub max_size : ℕ → List ℕ → ℕ
max_size m [] = m
max_size m (n ∷ ns) = max_size (if ltb m n then n else m) ns

abbrev pub structures : Communication → List Struct
structures c = c.key_value ∷ c.acknowledgement ∷ c.response ∷ c.arguments ∷ []

abbrev pub sizes_of : List Struct → List ℕ
sizes_of [] = []
sizes_of (s ∷ ss) = size_of s ∷ sizes_of ss

-- `chaincode_request` and `chaincode_response` of main.c, which nothing uses; an `int` has 4 bytes.
abbrev pub chaincode_request : Struct
chaincode_request =
    field (codes "type") 4
    ∷ field (codes "arg_idx") 4
    ∷ field (codes "key_len") 4
    ∷ field (codes "val_len") 4
    ∷ field (codes "key") 64
    ∷ field (codes "val") 256
    ∷ []

abbrev pub chaincode_response : Struct
chaincode_response =
    field (codes "result") 4 ∷ field (codes "data_len") 4 ∷ field (codes "data") 256 ∷ []

-- TEEC_UUID
pub record Uuid : Type 0 where
  pub time_low : ℕ
  pub time_mid : ℕ
  pub time_hi_and_version : ℕ
  pub clock_seq_and_node : Bytes

abbrev pub ta_wamr_uuid : Uuid
ta_wamr_uuid = record {
  time_low = 0xb4c5d6e7;
  time_mid = 0xf8a9;
  time_hi_and_version = 0x4321;
  clock_seq_and_node = 0x87 ∷ 0x65 ∷ 0x12 ∷ 0x34 ∷ 0x56 ∷ 0x78 ∷ 0x9a ∷ 0xbc ∷ [];
}

-- A property that the TA declares for itself.
pub data Property : Type 0 where
  text_property : Bytes → Bytes → Property
  u32_property : Bytes → ℕ → Property

-- TA_FLAG_...
pub data Flag : Type 0 where
  exec_ddr user_mode single_instance multi_session instance_keep_alive : Flag

pub record TaProperties : Type 0 where
  pub uuid : Uuid
  pub flags : List Flag
  pub stack_size : ℕ
  pub data_size : ℕ
  pub version : Bytes
  pub description : Bytes
  pub ext_properties : List Property

abbrev pub ta_properties : TaProperties
ta_properties = record {
  uuid = ta_wamr_uuid;
  flags = exec_ddr ∷ [];
  stack_size = 3 * 1024;
  data_size = 12 * 1024 * 1024;
  version = codes "1.0";
  description = codes "Wasm Micro Runtime TrustZone implementation.";
  ext_properties =
      text_property (codes "ch.unine.optee.wamr.property1") (codes "Foo bar")
      ∷ u32_property (codes "ch.unine.optee.wamr.property2") 0x0010
      ∷ [];
}
