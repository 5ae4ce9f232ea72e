-- ===== src/System/Exchange/Sequence.antt =====
-- Transactions one after another on one board, with Fabric committing each write set in between.
use capstone_2025_team.Base.{◌≡◌, ◌≢◌, some, Bytes, List, [], ◌∷◌, length}
use capstone_2025_team.Platform.{Platform}
use capstone_2025_team.Message.{WrapperMessage, ProxyMessage, InvocationRequest}
use capstone_2025_team.Proxy.Context.{TeeCtx}
use capstone_2025_team.Proxy.Server.{ok, transaction_invocation}
use capstone_2025_team.Chaincode.Machine.{Layout}
use capstone_2025_team.System.{Host, board}
use capstone_2025_team.System.Exchange.Dialogue.{Ledger, onto, answer_of, puts_of, committed}
use capstone_2025_team.System.Exchange.Whole.{row_of, plan_of, Finds}
use capstone_2025_team.System.Exchange.Joint.{request_for}
use capstone_2025_team.Wrapper.{arrived, Shim, success, ChaincodeWrapper, invoke}
use capstone_2025_team.Wrapper.Laws.{Fabric}

-- A client's call: the module, the function, its first argument and the others.
pub record ClientCall : Type 0 where
  pub ccfile : Bytes
  pub function : Bytes
  pub first : Bytes
  pub others : List Bytes

abbrev pub request_of : ChaincodeWrapper → ClientCall → InvocationRequest
request_of t c = request_for t c.ccfile c.function c.first c.others

-- The ledger after a call alone, and what the calls answer one after another.
abbrev pub ledger_after : ChaincodeWrapper → Ledger → ClientCall → Ledger
ledger_after t ledger c = committed ledger (puts_of (plan_of (request_of t c)) ledger)

abbrev pub answers : ChaincodeWrapper → Ledger → List ClientCall → List Bytes
answers t ledger [] = []
answers t ledger (c ∷ calls) =
    answer_of (plan_of (request_of t c)) ledger ∷ answers t (ledger_after t ledger c) calls

-- Every call names a person, and the file of the bytecode.
abbrev pub AllNamed : Host → Bytes → ChaincodeWrapper → List ClientCall → Type 0
AllNamed host wasm t [] = Unit
AllNamed host wasm t (c ∷ calls) =
    (row_of (request_of t c) 1 ≢ []) × Finds host wasm (request_of t c) × AllNamed host wasm t calls

-- Fabric opens a stub on the committed ledger for a call, without writes.
pub record Peer (s : Shim) (fabric : Fabric s) : Type 0 where
  pub new_stub : Ledger → ClientCall → s.Stub
  pub params :
      (ledger : Ledger) (c : ClientCall)
      → s.get_function_and_parameters (new_stub ledger c)
        ≡ (c.ccfile, c.function ∷ c.first ∷ c.others)
  pub reads_committed :
      (ledger : Ledger) (c : ClientCall) → fabric.state (new_stub ledger c) ≡ ledger
  pub nothing_written :
      (ledger : Ledger) (c : ClientCall) → fabric.write_set (new_stub ledger c) ≡ []

module _ (p : Platform) (l : Layout) (host : Host) (s : Shim) (fabric : Fabric s)
    (peer : Peer s fabric) (t : ChaincodeWrapper) where
  -- A transaction in which both sides return: the call's answer, the proxy's context and the ledger
  -- with the write set committed.
  pub record Transacted (ctx : TeeCtx (board p l host)) (ledger : Ledger) (c : ClientCall)
      (text : Bytes) (ctx' : TeeCtx (board p l host)) (ledger' : Ledger) : Type 0 where
    pub stub : s.Stub
    pub to_proxy : List WrapperMessage
    pub to_wrapper : List ProxyMessage
    pub invoked :
        invoke s t (peer.new_stub ledger c) (length to_proxy) (arrived to_wrapper)
        ≡ (success text, stub, onto to_proxy [])
    pub served :
        transaction_invocation
          (board p l host)
          ctx
          (record { incoming = to_proxy; writable = length to_wrapper; sent = [] })
        ≡ some (ok, ctx', record { incoming = []; writable = 0; sent = onto to_wrapper [] })
    pub commits : ledger' ≡ committed ledger (fabric.write_set stub)

  -- Calls one after another.
  pub data Served : TeeCtx (board p l host) → Ledger → List ClientCall → List Bytes → Type 0 where
    at_end : {ctx : TeeCtx (board p l host)} {ledger : Ledger} → Served ctx ledger [] []
    then_on :
        {ctx ctx' : TeeCtx (board p l host)} {ledger ledger' : Ledger} {c : ClientCall}
        {calls : List ClientCall} {text : Bytes} {texts : List Bytes}
        → Transacted ctx ledger c text ctx' ledger'
        → Served ctx' ledger' calls texts
        → Served ctx ledger (c ∷ calls) (text ∷ texts)
