-- ===== src/Tests/Exchanges.antt =====
-- The theorems on the exchange between the TA and the proxy, at concrete inputs.
use capstone_2025_team.Tests.Layouts.{layout}
use capstone_2025_team.Base.{
  ◌<◌, ℕ, ◌≡◌, refl, true, some, [], ◌∷◌, codes, pos, arith, take, ◌++◌, replicate,
}
use capstone_2025_team.Memory.{Buffer, c_string, of_list, SameOutside}
use capstone_2025_team.Session.{
  Mailbox, zeroed, IsWellFormed, val_size, value_at, arguments_size, get_state_request,
  put_state_request, invocation_response,
}
use capstone_2025_team.Platform.Strict.{strict}
use capstone_2025_team.Message.{
  get_state_response, invocation_request, response, get_state, request_message,
}
use capstone_2025_team.Ta.{Engine, Params}
use capstone_2025_team.Ta.Flow.{forward}
use capstone_2025_team.Ta.Flow.Laws.{Asks, asked, forward-Asks}
use capstone_2025_team.Ta.Command.{deliver_value}
use capstone_2025_team.Ta.Command.Deliver.{deliver_value-Holds}
use capstone_2025_team.Proxy.{Board, Stream}
use capstone_2025_team.Proxy.Main.{construct, transaction, interrupt, run_server}
use capstone_2025_team.Proxy.Main.Isolation.{Forgets, each, statuses_of, run_server-each}
use capstone_2025_team.Proxy.Arguments.{write_arguments}
use capstone_2025_team.Proxy.Arguments.Laws.{Written, meant, write_arguments_lem}
use capstone_2025_team.Proxy.Answer.{answer_get}
use capstone_2025_team.Proxy.Answer.Laws.{Pasted, answer_get-Pasted}
use capstone_2025_team.Proxy.Loop.{Ending, loop}
use capstone_2025_team.Proxy.Loop.Laws.{Exchanged, loop-Exchanged}
use capstone_2025_team.Chaincode.Machine.{op_none}
use capstone_2025_team.Chaincode.Decimal.{s_ultoa, s_atoul_at}
use capstone_2025_team.Chaincode.Decimal.Stored.{atoul_at-ultoa}
use capstone_2025_team.System.{coffee_engine}

abbrev engine : Engine
unfolding coffee_engine
engine = coffee_engine strict layout

-- A session that asks to write 42 for kim.
abbrev asking : Mailbox
asking = record zeroed {
  pending_type = put_state_request;
  key = of_list 64 (codes "kim");
  value = of_list 256 (codes "42");
}

asking-IsWellFormed : IsWellFormed asking
unfolding of_list
asking-IsWellFormed = record {
  args_sized = refl;
  key_sized = refl;
  value_sized = refl;
  response_sized = refl;
  key_ends = refl;
  value_ends = refl;
  response_ends = refl;
  pending_known = omega arith;
  out_int = omega arith;
  out_open = λ h. absurd (omega (arith, h));
}

abbrev shared : Buffer
shared = of_list arguments_size (codes "kim")

abbrev params : Params
params = record { size_value = 0; wasm = []; request = get_state_request; shared = shared }

forward-Asks_example : Asks (forward engine asking params) (asked asking)
unfolding of_list
forward-Asks_example = forward-Asks engine params refl asking asking-IsWellFormed

-- A session that waits for a value at 8, of at most 19 bytes, in a memory of 64.
abbrev waiting : Mailbox
waiting = record zeroed {
  pending_type = get_state_request;
  wasm_out_offset = 8;
  wasm_out_len = pos 20;
}

abbrev instance_waiting : engine.Instance
unfolding engine coffee_engine
instance_waiting = record {
  memory = of_list 64 [];
  fsm_state = 0;
  current_op = op_none;
  should_exit = 0;
}

abbrev answering : Buffer
answering = of_list arguments_size (replicate 64 0 ++ codes "42")

deliver_value-Holds_example :
    (inst' : engine.Instance) × (deliver_value engine instance_waiting waiting answering
      ≡ some inst')
    × (c_string (engine.memory inst') 8 20 ≡ take 19 (c_string answering value_at 255))
    × SameOutside 8 20 (engine.memory inst') (engine.memory instance_waiting)
unfolding of_list engine coffee_engine
deliver_value-Holds_example =
    deliver_value-Holds engine instance_waiting waiting answering 8 20 refl refl (omega arith)
      (omega arith) (omega arith) (omega arith) (omega arith) refl (omega arith)

write_arguments_lem_example :
    (b' : Buffer) × (write_arguments shared (codes "create") (codes "kim" ∷ codes "5" ∷ [])
      ≡ some b')
    × Written b' (meant (codes "create") (codes "kim" ∷ codes "5" ∷ []))
unfolding of_list
write_arguments_lem_example =
    write_arguments_lem shared (codes "create") (codes "kim" ∷ codes "5" ∷ []) refl

answer_get-Pasted_example :
    (b : Buffer) × (answer_get shared (get_state_response (codes "42")) ≡ some b)
    × Pasted b value_at (codes "42") val_size
unfolding of_list
answer_get-Pasted_example = answer_get-Pasted shared (get_state_response (codes "42")) refl

atoul_at-ultoa_example :
    (m' : Buffer) × (s_ultoa (of_list 64 []) 4294967295 16 32 ≡ some m')
    × (m'.size ≡ 64)
    × ((a : ℕ) → a < 16 → m'.byte a ≡ (of_list 64 []).byte a)
    × (s_atoul_at 64 m' 16 0 ≡ some 4294967295)
unfolding of_list
atoul_at-ultoa_example =
    atoul_at-ultoa (of_list 64 []) 4294967295 16 32 64 (omega arith) (omega arith) (omega arith)
      (omega arith) (omega arith)

-- A device that ends each call with a final response.
abbrev ready : Board
ready = record {
  Device = ℕ;
  invoke = λ d command kinds ps. (true, d, record ps { request = invocation_response });
  initialize_context = λ d. some d;
  open_session = λ d. some 0;
  close_session = λ d. d;
  finalize_context = λ d. d;
  open_file = λ path. some path;
  malloc = λ n. true;
  calloc = λ n. true;
}

-- One read, for the key kim, and the response, which is the last answer's key.
abbrev finished : Ending ready
finished = record {
  ok = true;
  device = 0;
  stream = record {
    incoming = [];
    writable = 1;
    sent = response [] ∷ get_state (codes "kim") ∷ [];
  };
}

loop-Exchanged_example : Exchanged ready [] (get_state_response (codes "42") ∷ []) finished
unfolding loop request_message answer_get
loop-Exchanged_example =
    loop-Exchanged ready 0 params 3 [] (get_state_response (codes "42") ∷ []) finished refl refl

abbrev querying : Stream
querying = record {
  incoming =
      invocation_request (record {
        chaincode_uuid = [];
        function_name = codes "query";
        arguments = codes "kim" ∷ [];
        aot_file = codes "c.aot";
      })
      ∷ [];
  writable = 3;
  sent = [];
}

ready-Forgets : Forgets ready
ready-Forgets d d' = refl

run_server-each_example :
    statuses_of ready
      (run_server ready 7 (transaction querying ∷ transaction querying ∷ interrupt ∷ []))
    ≡ each ready 7 (transaction querying ∷ transaction querying ∷ interrupt ∷ [])
unfolding construct
run_server-each_example =
    run_server-each ready ready-Forgets 7
      (transaction querying ∷ transaction querying ∷ interrupt ∷ [])
      (record {
        device = 0;
        output_buffer = true;
        output_buffer_size = 5120;
        benchmark_buffer = true;
        benchmark_buffer_size = 5120;
      })
      refl
