-- ===== src/Ta/Flow.antt =====
-- `process_hostcall_flow`: one step of the chaincode, and what the TA hands to the proxy for it.
pub mod Laws
use capstone_2025_team.Base.{
  ℕ, suc, ◌+◌, ◌-◌, Bool, true, false, Option, none, some, [], ◌∷◌, Bytes, codes, length, ltb, ◌==◌,
  if◌then◌else◌, ◌>>=◌,
}
use capstone_2025_team.Memory.{Buffer, of_list}
use capstone_2025_team.Ta.Strlen.{safe_strlen}
use capstone_2025_team.Session.{
  Mailbox, key_size, val_size, response_size, key_value_size, key_at, value_at, invocation_response,
  get_state_request, put_state_request,
}
use capstone_2025_team.Ta.{Engine, Context, Params, Result, success}
use capstone_2025_team.Ta.Step.{call_step}

-- A string literal, with its NUL.
abbrev pub literal : Bytes → Buffer
literal s = of_list (suc (length s)) s

module _ (e : Engine) where
  open e use {mem_fill, mem_move}

  -- The response struct zeroed, and n bytes of `text` copied in.
  unfoldable pub respond : Params → Buffer → ℕ → Option Params
  respond ps text n = do
    cleared ← mem_fill ps.shared 0 0 response_size
    shared ← mem_move cleared 0 text 0 n
    some (record ps { request = invocation_response; shared = shared })

  -- The key of a GET goes to the key_value struct.
  unfoldable pub ask_get : Mailbox → Params → Option Params
  ask_get sc ps = do
    cleared ← mem_fill ps.shared 0 0 key_value_size
    n ← safe_strlen sc.key (some 0) (key_size - 1)
    shared ← mem_move cleared key_at sc.key 0 n
    some (record ps { request = get_state_request; shared = shared })

  unfoldable pub ask_put : Mailbox → Params → Option Params
  ask_put sc ps = do
    cleared ← mem_fill ps.shared 0 0 key_value_size
    n ← safe_strlen sc.key (some 0) (key_size - 1)
    keyed ← mem_move cleared key_at sc.key 0 n
    k ← safe_strlen sc.value (some 0) (val_size - 1)
    shared ← mem_move keyed value_at sc.value 0 k
    some (record ps { request = put_state_request; shared = shared })

  -- The final response: the chaincode's, or a word for an empty or a missing one.
  unfoldable pub finish : Mailbox → Params → Option Params
  unfolding respond
  finish sc ps = if sc.has_response == 0 then respond ps (literal (codes "NO_RESPONSE")) 11 else (do
    n ← safe_strlen sc.response (some 0) (response_size - 1)
    if ltb 0 n then respond ps sc.response n else respond ps (literal (codes "EMPTY_RESPONSE")) 14)

  -- What the pending type asks for.
  unfoldable pub forward : Mailbox → Params → Option Params
  unfolding ask_get ask_put finish
  forward sc ps =
      if sc.pending_type == get_state_request
      then ask_get sc ps
      else if sc.pending_type == put_state_request
      then ask_put sc ps
      else finish sc ps

  unfoldable pub process_hostcall_flow :
      Context e → Mailbox → Params → Option (Result × Context e × Mailbox × Params)
  unfolding respond forward
  process_hostcall_flow ctx sc ps = do
    (ok, ctx', sc') ← call_step e ctx (codes "step_resume") sc
    ps' ← (if ok then forward sc' ps else respond ps (literal (codes "RUNTIME_ERROR")) 13)
    some (success, ctx', sc', ps')
