-- ===== src/Tests/Layouts.antt =====
-- Where the chaincode's buffers lie in the runs: the literals from 16 on, the buffers behind them.
use capstone_2025_team.Base.{
  Bytes, ◌++◌, ◌∷◌, codes, replicate, true, some, none, same_bytes, if◌then◌else◌,
}
use capstone_2025_team.System.{Host}
use capstone_2025_team.Memory.{of_list}
use capstone_2025_team.Chaincode.Machine.{Layout}

abbrev pub layout : Layout
layout = record {
  g_function = 64;
  g_arg1 = 128;
  g_person = 192;
  g_cur_val = 256;
  g_tmp = 512;
  exist_text = 16;
  ok_text = 22;
  empty_text = 25;
  notfound_text = 31;
  error_text = 40;
  runtime = record {
    linked = λ c. true;
    first_memory = λ wasm. some (of_list 524288 wasm);
    allocates = λ n. true;
  };
}

-- The first memory: the literals.
abbrev pub image : Bytes
image =
    replicate 16 0
    ++ (codes "EXIST"
        ++ 0 ∷ (codes "OK" ++ 0 ∷ (codes "EMPTY" ++ 0 ∷ (codes "NOTFOUND" ++ 0 ∷ codes "ERROR"))))

-- A host that has the chaincode's file and no other.
abbrev pub host : Host
host = record {
  files = λ path. if same_bytes path (codes "./chaincode/c.aot") then some image else none;
  makes_context = true;
  opens_session = true;
  allocates = λ n. true;
}
