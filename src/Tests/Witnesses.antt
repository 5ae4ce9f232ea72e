-- ===== src/Tests/Witnesses.antt =====
-- The theorems at concrete inputs: an empty session, a small memory, a strict platform.
use capstone_2025_team.Base.{
  ◌+◌, ◌≡◌, refl, none, some, ◌∷◌, codes, pos, negsuc, arith, length, to_u32, cap_at, le_zero,
  if◌then◌else◌, get_or-beyond,
}
use capstone_2025_team.Memory.{Buffer, of_list}
use capstone_2025_team.Session.{Mailbox, zeroed, IsWellFormed, RowsEnd, row_at, arguments_size}
use capstone_2025_team.Platform.Strict.{strict}
use capstone_2025_team.Native.{world, return, to_native}
use capstone_2025_team.Native.Copying.{source}
use capstone_2025_team.Native.Table.{put_state, dispatch}
use capstone_2025_team.Native.Safety.{Safe}
use capstone_2025_team.Native.Safety.All.{dispatch-Safe}
use capstone_2025_team.Native.Read.{cc_get_function, cc_get_arg}
use capstone_2025_team.Native.Read.Laws.{
  Holds, row_string, cc_get_function-Holds, cc_get_arg-Holds, cc_get_arg_overrun,
}
use capstone_2025_team.Native.State.{cc_get_state, cc_put_state}
use capstone_2025_team.Native.State.Laws.{get_left, put_left, cc_get_state_lem, cc_put_state_lem}
use capstone_2025_team.Native.Reply.{cc_return_response}
use capstone_2025_team.Native.Reply.Laws.{cc_return_response_underrun}

abbrev memory : Buffer
memory = of_list 64 (0 ∷ codes "kim")

-- The session of a call `create(kim)`.
abbrev called : Mailbox
called = record zeroed { args = of_list arguments_size (codes "create") }

called-IsWellFormed : IsWellFormed called
unfolding of_list
called-IsWellFormed = record {
  args_sized = refl;
  key_sized = refl;
  value_sized = refl;
  response_sized = refl;
  key_ends = refl;
  value_ends = refl;
  response_ends = refl;
  pending_known = omega arith;
  out_int = omega arith;
  out_open = λ h. absurd (omega (arith, h));
}

called-RowsEnd : RowsEnd called
unfolding of_list
called-RowsEnd i h = get_or-beyond (codes "create") (row_at i + 63) 0 (omega arith)

dispatch-Safe_example :
    Safe memory called (dispatch strict (world memory called) (put_state 1 (pos 3) 60 (pos 100)))
unfolding of_list
dispatch-Safe_example =
    dispatch-Safe strict memory called called-IsWellFormed called-RowsEnd
      (put_state 1 (pos 3) 60 (pos 100)) (omega arith, omega arith)

cc_get_function-Holds_example :
    (m' : Buffer) × (cc_get_function strict (world memory called) 8 (pos 20)
      ≡ some (pos (length (row_string called 0 20)), world m' called))
    × Holds memory 8 20 m' (row_string called 0 20)
unfolding of_list
cc_get_function-Holds_example =
    cc_get_function-Holds strict memory called called-IsWellFormed called-RowsEnd 8 20 (omega arith)
      (omega arith) (omega arith) (omega arith)

cc_get_arg-Holds_example :
    (m' : Buffer) × (cc_get_arg strict (world memory called) (pos 2) 8 (pos 20)
      ≡ some (pos (length (row_string called 3 20)), world m' called))
    × Holds memory 8 20 m' (row_string called 3 20)
unfolding of_list
cc_get_arg-Holds_example =
    cc_get_arg-Holds strict memory called called-IsWellFormed called-RowsEnd 8 20 2 (omega arith)
      (omega arith) (omega arith) (omega arith) (omega arith)

cc_get_arg_overrun_example : cc_get_arg strict (world memory called) (pos 9) 8 (pos 20) ≡ none
unfolding of_list
cc_get_arg_overrun_example =
    cc_get_arg_overrun strict memory called called-IsWellFormed called-RowsEnd 8 20 (omega arith)
      (omega arith) (omega arith) (omega arith)

cc_get_state_lem_example :
    cc_get_state strict (world memory called) 1 (pos 3) 40 (pos 20)
    ≡ elim (to_native strict (some memory) 40 (to_u32 (pos 20))) [
      | none ↦ return (pos 0) (world memory called)
      | some _ ↦
          if le_zero (pos 20)
          then return (pos 0) (world memory called)
          else return (cap_at (pos 3) 63) (
              world memory
                (get_left memory called (source strict memory 1 (pos 3)) (pos 3) 40 (pos 20)))
    ]
cc_get_state_lem_example =
    cc_get_state_lem strict memory called called-IsWellFormed 1 (pos 3) 40 (pos 20) (omega arith)

cc_put_state_lem_example :
    cc_put_state strict (world memory called) 1 (pos 3) 60 (pos 100)
    ≡ return (negsuc 0) (
        world memory (
          put_left memory called
            (source strict memory 1 (pos 3))
            (pos 3)
            (source strict memory 60 (pos 100))
            (pos 100)))
cc_put_state_lem_example =
    cc_put_state_lem strict memory called called-IsWellFormed 1 (pos 3) 60 (pos 100) (omega arith)
      (omega arith)

cc_return_response_underrun_example :
    cc_return_response strict (world memory called) 1 (negsuc 0) ≡ none
cc_return_response_underrun_example =
    cc_return_response_underrun strict memory called called-IsWellFormed 1 0 (omega arith)
