-- ===== src/Chaincode/Follows.antt =====
-- What it is for the chaincode to follow a plan, step by step over its memory and its session.
pub mod Taken
pub mod Calls
pub mod Begin
pub mod Gather
pub mod Pauses
pub mod Query
pub mod Create
pub mod Sum
pub mod Add
pub mod All
use capstone_2025_team.Base.{
  ℕ, ◌*◌, ◌+◌, ◌-◌, ◌^◌, ◌<◌, ◌≤◌, ◌≡◌, true, Bytes, Option, some, [], codes, length, pos, ◌⊎◌,
}
use capstone_2025_team.Memory.{Buffer, c_string, SameOutside}
use capstone_2025_team.Memory.Copies.{Apart}
use capstone_2025_team.Platform.{Platform}
use capstone_2025_team.Session.{Mailbox, val_size, get_state_request, put_state_request}
use capstone_2025_team.Message.{ProxyMessage, response, get_state, put_state}
use capstone_2025_team.Native.{world}
use capstone_2025_team.Ta.Flow.Laws.{asked}
use capstone_2025_team.Ta.Sandbox.{Sound}
use capstone_2025_team.System.Ledger.{answered_session}
use capstone_2025_team.Chaincode.Text.Stands.{Stands}
use capstone_2025_team.Native.Table.{Call}
use capstone_2025_team.Chaincode.Machine.{Layout, Chain, step_resume}
use capstone_2025_team.Chaincode.Plan.{Plan, answer, ask, put}

-- The linkers' promise for a memory of the given size: WAMR's resolves every import, the literals lie together, the buffers
-- that the machine keeps lie apart from them and from one another, and none lies at 0.
pub record Placed (l : Layout) (size : ℕ) : Type 0 where
  pub linked : (c : Call) → l.runtime.linked c ≡ true
  pub small : size < 2 ^ 31
  pub texts : ℕ
  pub texts_size : ℕ
  pub exist_in : (texts ≤ l.exist_text) × (l.exist_text + 6 ≤ texts + texts_size)
  pub ok_in : (texts ≤ l.ok_text) × (l.ok_text + 3 ≤ texts + texts_size)
  pub empty_in : (texts ≤ l.empty_text) × (l.empty_text + 6 ≤ texts + texts_size)
  pub notfound_in : (texts ≤ l.notfound_text) × (l.notfound_text + 9 ≤ texts + texts_size)
  pub error_in : (texts ≤ l.error_text) × (l.error_text + 6 ≤ texts + texts_size)
  pub some_texts : 0 < texts
  pub function_inside : (0 < l.g_function) × (l.g_function + 64 ≤ size)
  pub arg1_inside : (0 < l.g_arg1) × (l.g_arg1 + 64 ≤ size)
  pub person_inside : (0 < l.g_person) × (l.g_person + 64 ≤ size)
  pub cur_val_inside : (0 < l.g_cur_val) × (l.g_cur_val + 256 ≤ size)
  pub tmp_inside : (0 < l.g_tmp) × (l.g_tmp + 256 ≤ size)
  pub function_texts : Apart l.g_function 64 texts texts_size
  pub arg1_texts : Apart l.g_arg1 64 texts texts_size
  pub person_texts : Apart l.g_person 64 texts texts_size
  pub cur_val_texts : Apart l.g_cur_val 256 texts texts_size
  pub tmp_texts : Apart l.g_tmp 256 texts texts_size
  pub person_arg1 : Apart l.g_person 64 l.g_arg1 64
  pub person_cur_val : Apart l.g_person 64 l.g_cur_val 256
  pub arg1_cur_val : Apart l.g_arg1 64 l.g_cur_val 256
  pub tmp_person : Apart l.g_tmp 256 l.g_person 64

-- The literals stand in a memory of the size.
pub record Image (l : Layout) (size : ℕ) (m : Buffer) : Type 0 where
  pub sized : m.size ≡ size
  pub exist : Stands m l.exist_text 6 (codes "EXIST")
  pub ok : Stands m l.ok_text 3 (codes "OK")
  pub empty : Stands m l.empty_text 6 (codes "EMPTY")
  pub notfound : Stands m l.notfound_text 9 (codes "NOTFOUND")
  pub error : Stands m l.error_text 6 (codes "ERROR")

module _ (p : Platform) (l : Layout) where
  -- The next step of the chaincode returns, and leaves this memory, session and machine.
  pub record Stepped (ch : Chain) : Type 0 where
    pub memory : Buffer
    pub session : Mailbox
    pub chain : Chain
    pub run : step_resume p l ch ≡ some chain
    pub world_is : chain.world ≡ world memory session
    pub sound : Sound session

  -- The output buffer of a pending GET: it lies in the memory and reads as empty.
  abbrev pub Open : Buffer → Mailbox → ℕ → Type 0
  Open m sess out =
      (sess.wasm_out_offset ≡ out)
      × (sess.wasm_out_len ≡ pos val_size)
      × (0 < out)
      × Stands m out val_size []

  -- Each step asks for what is next in the plan, and goes on with whatever text the ledger's
  -- value is delivered as.
  abbrev pub Follows : Plan → Chain → Type 0
  Follows (answer text) ch =
      (step : Stepped ch) × (step.session.pending_type ≡ 0) × (asked step.session ≡ response text)
  Follows (ask key next) ch =
      (step : Stepped ch) × (step.session.pending_type ≡ get_state_request)
      × (asked step.session ≡ get_state key)
      × (out : ℕ) × Open step.memory step.session out
      × ((m : Buffer) (value : Bytes)
          → SameOutside out val_size m step.memory
          → Stands m out val_size value
          → m.size ≡ step.memory.size
          → Follows (next value)
              (record step.chain { world = world m (answered_session step.session) }))
  Follows (put key value rest) ch =
      (step : Stepped ch) × (step.session.pending_type ≡ put_state_request)
      × (asked step.session ≡ put_state key value)
      × Follows rest (record step.chain {
        world = world step.memory (record step.session { pending_type = 0 });
      })
