-- ===== src/Tests/Journeys.antt =====
-- The way of an argument and of a value over the whole board, at concrete inputs.
use capstone_2025_team.Tests.Layouts.{layout}
use capstone_2025_team.Base.{◌≡◌, refl, some, [], ◌∷◌, codes, pos, arith, length, take}
use capstone_2025_team.Memory.{Buffer, c_string, of_list, SameOutside}
use capstone_2025_team.Session.{Mailbox, zeroed, IsWellFormed, arguments_size, get_state_request}
use capstone_2025_team.Platform.Strict.{strict}
use capstone_2025_team.Message.{get_state_response}
use capstone_2025_team.Native.{world}
use capstone_2025_team.Native.Read.{cc_get_arg}
use capstone_2025_team.Native.Read.Laws.{Holds}
use capstone_2025_team.Ta.{Engine, Context, blank}
use capstone_2025_team.Ta.Command.{receive_arguments, take_answer}
use capstone_2025_team.Proxy.Arguments.{write_arguments}
use capstone_2025_team.Proxy.Arguments.Laws.{meant}
use capstone_2025_team.Proxy.Answer.{answer_get}
use capstone_2025_team.Chaincode.Machine.{op_none}
use capstone_2025_team.System.{coffee_engine}
use capstone_2025_team.System.Invocation.{write_arguments-taken}
use capstone_2025_team.System.Ledger.{received, answered_session, answer_get-taken}

abbrev engine : Engine
unfolding coffee_engine
engine = coffee_engine strict layout

abbrev memory : Buffer
memory = of_list 64 []

abbrev shared : Buffer
shared = of_list arguments_size []

zeroed-IsWellFormed : IsWellFormed zeroed
unfolding of_list
zeroed-IsWellFormed = record {
  args_sized = refl;
  key_sized = refl;
  value_sized = refl;
  response_sized = refl;
  key_ends = refl;
  value_ends = refl;
  response_ends = refl;
  pending_known = omega arith;
  out_int = omega arith;
  out_open = λ h. absurd (omega (arith, h));
}

write_arguments-taken_example :
    (written : Buffer) × (args : Buffer) × (m' : Buffer) × (write_arguments shared
        (codes "create")
        (codes "kim" ∷ codes "5" ∷ [])
      ≡ some written)
    × (receive_arguments engine (of_list arguments_size []) written ≡ some args)
    × (cc_get_arg engine.platform (world memory (record zeroed { args = args })) (pos 1) 8 (pos 20)
        ≡ some (
          pos (length (take 19 (meant (codes "create") (codes "kim" ∷ codes "5" ∷ []) 2))),
          world m' (record zeroed { args = args }),
        ))
    × Holds memory 8 20 m' (take 19 (meant (codes "create") (codes "kim" ∷ codes "5" ∷ []) 2))
unfolding of_list
write_arguments-taken_example =
    write_arguments-taken engine zeroed zeroed-IsWellFormed shared refl (codes "create")
      (codes "kim" ∷ codes "5" ∷ []) memory 8 20 (omega arith) (omega arith) (omega arith)
      (omega arith) 1 (omega arith)

abbrev waiting : Mailbox
waiting = record zeroed {
  pending_type = get_state_request;
  wasm_out_offset = 8;
  wasm_out_len = pos 20;
}

abbrev instance_waiting : engine.Instance
unfolding engine coffee_engine
instance_waiting = record {
  memory = of_list 64 [];
  fsm_state = 0;
  current_op = op_none;
  should_exit = 0;
}

abbrev context : Context engine
context = record (blank engine) { module_inst = some instance_waiting }

answer_get-taken_example :
    (written : Buffer) × (inst' : engine.Instance) × (answer_get shared
        (get_state_response (codes "42"))
      ≡ some written)
    × (take_answer engine context waiting written
        ≡ some (record context { module_inst = some inst' }, answered_session waiting))
    × (c_string (engine.memory inst') 8 20 ≡ received (get_state_response (codes "42")) 20)
    × SameOutside 8 20 (engine.memory inst') (engine.memory instance_waiting)
unfolding of_list engine coffee_engine
answer_get-taken_example =
    answer_get-taken engine instance_waiting waiting 8 20 refl refl (omega arith) (omega arith)
      (omega arith) (omega arith) refl context shared (get_state_response (codes "42")) refl refl
      refl
