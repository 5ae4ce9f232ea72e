-- ===== src/Chaincode/Machine.antt =====
-- The state machine of the chaincode: `step_resume` and the flows of create, add and query.
-- Its buffers and literals lie in the linear memory, where the linker puts them.
use capstone_2025_team.Base.{
  ℕ, suc, ◌+◌, ◌%◌, not, Bool, Bytes, Option, none, some, codes, ◌==◌, if◌then◌else◌, ◌>>=◌, ℤ, pos,
  le_zero,
}
use capstone_2025_team.Memory.{Buffer, read}
use capstone_2025_team.Platform.{Platform}
use capstone_2025_team.Native.{World}
use capstone_2025_team.Native.Table.{
  Call, dispatch, get_function, get_arg, get_state, put_state, return_response,
}
use capstone_2025_team.Chaincode.Text.{s_strlen, s_memset, s_streq}
use capstone_2025_team.Chaincode.Decimal.{ulong_mod, s_atoul_at, s_ultoa}

pub data Op : Type 0 where
  op_none op_create op_add op_query : Op

abbrev pub key_max : ℕ
key_max = 64

abbrev pub arg_max : ℕ
arg_max = 64

abbrev pub val_max : ℕ
val_max = 256

-- The states of the machine.
abbrev pub idle : ℕ
idle = 0

abbrev pub create_after_get : ℕ
create_after_get = 11

abbrev pub create_after_put : ℕ
create_after_put = 12

abbrev pub add_after_get : ℕ
add_after_get = 21

abbrev pub add_after_put : ℕ
add_after_put = 22

abbrev pub query_after_get : ℕ
query_after_get = 31

-- WAMR and the TEE under the module, which are not in the repository: whether the linker resolved
-- the import of a call, the memory of a new instance of a bytecode, if that loads, and whether an
-- allocation succeeds.
pub record Runtime : Type 0 where
  pub linked : Call → Bool
  pub first_memory : Bytes → Option Buffer
  pub allocates : ℕ → Bool

-- Where the linker puts the static buffers and the string literals.
pub record Layout : Type 0 where
  pub g_function : ℕ
  pub g_arg1 : ℕ
  pub g_person : ℕ
  pub g_cur_val : ℕ
  pub g_tmp : ℕ
  pub exist_text : ℕ
  pub ok_text : ℕ
  pub empty_text : ℕ
  pub notfound_text : ℕ
  pub error_text : ℕ
  pub runtime : Runtime

-- What the chaincode sees and keeps: its memory and the session behind the imports, and its
-- `static` variables. `should_exit` is written and never read.
pub record Chain : Type 0 where
  pub world : World
  pub fsm_state : ℕ
  pub current_op : Op
  pub should_exit : ℕ

-- The variables as they are initialized.
abbrev pub initial : World → Chain
initial w = record { world = w; fsm_state = 0; current_op = op_none; should_exit = 0 }

-- `log_str`, which drops its text.
abbrev pub log_str : Bytes → Chain → Chain
log_str s ch = ch

module _ (p : Platform) (l : Layout) where
  open l use {
    g_function, g_arg1, g_person, g_cur_val, g_tmp, exist_text, ok_text, empty_text, notfound_text,
    error_text,
  }

  -- A call of an imported function, which traps (`none`) if the linker did not resolve it.
  unfoldable pub import : Call → Chain → Option (ℤ × Chain)
  unfolding dispatch
  import c ch =
      if l.runtime.linked c
      then (do (z, w) ← dispatch p ch.world c; some (z, record ch { world = w }))
      else none

  abbrev pub memory_of : Chain → Option Buffer
  memory_of ch = ch.world.memory

  -- s_memset(ptr, 0, n)
  unfoldable pub clear : ℕ → ℕ → Chain → Option Chain
  unfolding s_memset
  clear ptr n ch = do
    m ← memory_of ch
    m' ← s_memset m ptr 0 n
    some (record ch { world = record ch.world { memory = some m' } })

  -- A string's length, with fuel for the whole memory.
  unfoldable pub strlen : ℕ → Chain → Option ℕ
  unfolding s_strlen
  strlen ptr ch = do m ← memory_of ch; s_strlen (suc m.size) m ptr

  unfoldable pub first_byte : ℕ → Chain → Option ℕ
  unfolding read
  first_byte ptr ch = do m ← memory_of ch; read m ptr

  unfoldable pub get_arg_into : ℕ → ℕ → ℕ → Chain → Option Chain
  unfolding import
  get_arg_into idx ptr n ch = do (z, ch') ← import (get_arg (pos idx) ptr (pos n)) ch; some ch'

  -- cc_get_state(g_person, s_strlen(g_person), g_cur_val, VAL_MAX)
  unfoldable pub ask_state : Chain → Option (ℤ × Chain)
  unfolding import strlen
  ask_state ch = do
    n ← strlen g_person ch
    import (get_state g_person (pos n) g_cur_val (pos val_max)) ch

  -- cc_put_state(g_person, s_strlen(g_person), val, s_strlen(val))
  unfoldable pub store_state : ℕ → Chain → Option Chain
  unfolding import strlen
  store_state val ch = do
    n ← strlen g_person ch
    k ← strlen val ch
    (z, ch') ← import (put_state g_person (pos n) val (pos k)) ch
    some ch'

  -- cc_return_response(msg, len); fsm_state = 0; current_op = OP_NONE;
  unfoldable pub reply : ℕ → ℕ → Chain → Option Chain
  unfolding import
  reply msg len ch = do
    (z, ch') ← import (return_response msg (pos len)) ch
    some (record ch' { fsm_state = idle; current_op = op_none })

  unfoldable pub cc_do_create_init : Chain → Option Chain
  unfolding clear get_arg_into ask_state
  cc_do_create_init ch = do
    ch1 ← clear g_person key_max ch
    ch2 ← clear g_arg1 arg_max ch1
    ch3 ← clear g_cur_val val_max ch2
    ch4 ← get_arg_into 0 g_person key_max ch3
    ch5 ← get_arg_into 1 g_arg1 arg_max ch4
    (z, ch6) ← ask_state ch5
    some (if le_zero z then ch6 else record ch6 { fsm_state = create_after_get; should_exit = 1 })

  unfoldable pub cc_do_create_resume : Chain → Option Chain
  unfolding first_byte store_state reply
  cc_do_create_resume ch =
      if ch.fsm_state == create_after_get
      then (do
        c ← first_byte g_cur_val ch
        if not (c == 0) then reply exist_text 5 ch else (do
          ch' ← store_state g_arg1 ch
          some (record ch' { fsm_state = create_after_put })))
      else if ch.fsm_state == create_after_put
      then reply ok_text 2 ch
      else some ch

  unfoldable pub cc_do_add_init : Chain → Option Chain
  unfolding clear get_arg_into ask_state
  cc_do_add_init ch = do
    ch1 ← clear g_person key_max ch
    ch2 ← clear g_arg1 arg_max ch1
    ch3 ← clear g_cur_val val_max ch2
    ch4 ← get_arg_into 0 g_person key_max ch3
    ch5 ← get_arg_into 1 g_arg1 arg_max ch4
    (z, ch6) ← ask_state ch5
    some (record ch6 { fsm_state = add_after_get })

  -- nv = cur + add, printed to g_tmp.
  unfoldable pub add_up : Chain → Option Chain
  unfolding s_memset s_atoul_at s_ultoa
  add_up ch = do
    m ← memory_of ch
    cur ← s_atoul_at (suc m.size) m g_cur_val 0
    add ← s_atoul_at (suc m.size) m g_arg1 0
    m1 ← s_memset m g_tmp 0 val_max
    m2 ← s_ultoa m1 ((cur + add) % ulong_mod) g_tmp val_max
    some (record ch { world = record ch.world { memory = some m2 } })

  unfoldable pub cc_do_add_resume : Chain → Option Chain
  unfolding first_byte add_up store_state reply
  cc_do_add_resume ch =
      if ch.fsm_state == add_after_get
      then (do
        c ← first_byte g_cur_val ch
        if c == 0 then reply empty_text 5 ch else (do
          ch1 ← add_up ch
          ch2 ← store_state g_tmp ch1
          some (record ch2 { fsm_state = add_after_put })))
      else if ch.fsm_state == add_after_put
      then reply ok_text 2 ch
      else some ch

  unfoldable pub cc_do_query_init : Chain → Option Chain
  unfolding clear get_arg_into ask_state
  cc_do_query_init ch = do
    ch1 ← clear g_person key_max ch
    ch2 ← clear g_cur_val val_max ch1
    ch3 ← get_arg_into 0 g_person key_max ch2
    (z, ch4) ← ask_state ch3
    some (record ch4 { fsm_state = query_after_get })

  unfoldable pub cc_do_query_resume : Chain → Option Chain
  unfolding first_byte strlen reply
  cc_do_query_resume ch =
      if ch.fsm_state == query_after_get
      then (do
        c ← first_byte g_cur_val ch
        if c == 0
            then reply notfound_text 8 ch
            else (do n ← strlen g_cur_val ch; reply g_cur_val n ch))
      else some ch

  -- The response "ERROR" leaves the machine as it is.
  unfoldable pub fail : Chain → Option Chain
  unfolding import
  fail ch = do (z, ch') ← import (return_response error_text (pos 5)) ch; some ch'

  -- The resume of the current operation.
  unfoldable pub go_on : Op → Chain → Option Chain
  unfolding cc_do_create_resume cc_do_add_resume cc_do_query_resume fail
  go_on op_create ch = cc_do_create_resume ch
  go_on op_add ch = cc_do_add_resume ch
  go_on op_query ch = cc_do_query_resume ch
  go_on op_none ch = fail ch

  -- The operation that the function's name selects.
  unfoldable pub begin : Chain → Option Chain
  unfolding s_streq cc_do_create_init cc_do_add_init cc_do_query_init fail
  begin ch = do
    m ← memory_of ch
    create ← s_streq m g_function (codes "create")
    if create then cc_do_create_init (record ch { current_op = op_create }) else (do
      add ← s_streq m g_function (codes "add")
      if add then cc_do_add_init (record ch { current_op = op_add }) else (do
        query ← s_streq m g_function (codes "query")
        if query then cc_do_query_init (record ch { current_op = op_query }) else fail ch))

  -- The function's name is fetched if it is not there yet.
  unfoldable pub fetch_function : Chain → Option Chain
  unfolding import first_byte
  fetch_function ch = do
    c ← first_byte g_function ch
    if c == 0
        then (do (z, ch') ← import (get_function g_function (pos key_max)) ch; some ch')
        else some ch

  -- The operation goes on, or a new one begins.
  unfoldable pub select : Chain → Option Chain
  unfolding go_on begin fetch_function
  select ch = elim ch.current_op [
    | op_none ↦ do
      ch' ← fetch_function ch
      c ← first_byte g_function ch'
      if not (c == 0) then begin ch' else fail ch'
    | other ↦ go_on other ch
  ]

  unfoldable pub step_resume : Chain → Option Chain
  unfolding select
  step_resume ch =
      select (record (log_str (codes "WASM: step_resume called") ch) { should_exit = 0 })

  -- `step_init` and `main`, which returns 0.
  abbrev pub step_init : Chain → Chain
  step_init ch = ch

  abbrev pub main : Chain → ℕ × Chain
  main ch = (0, step_init ch)
