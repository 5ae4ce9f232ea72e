-- ===== src/System/Exchange/Joint.antt =====
-- Both sides of a transaction together: the wrapper with Fabric's ledger, and the proxy with the
-- board. Each side's messages are what the other side receives.
use capstone_2025_team.Base.{◌≡◌, none, Bytes, List, ◌∷◌}
use capstone_2025_team.Platform.{Platform}
use capstone_2025_team.Message.{InvocationRequest}
use capstone_2025_team.Chaincode.Plan.{Plan}
use capstone_2025_team.System.Exchange.Dialogue.{Ledger}
use capstone_2025_team.Wrapper.{Shim, ChaincodeWrapper}
use capstone_2025_team.Wrapper.Laws.{Fabric}

-- The request that the wrapper makes of the arguments.
abbrev pub request_for : ChaincodeWrapper → Bytes → Bytes → Bytes → List Bytes → InvocationRequest
request_for t ccfile function first others = record {
  chaincode_uuid = t.uuid;
  function_name = function;
  arguments = first ∷ others;
  aot_file = ccfile;
}

-- The wrapper, if the proxy speaks a plan of the request's.
module _ (s : Shim) (fabric : Fabric s) where
  -- What the wrapper is called with, and that nothing breaks the connection.
  pub record Called (stub : s.Stub) (ccfile function first : Bytes) (others : List Bytes)
      (ledger : Ledger) : Type 0 where
    pub params : s.get_function_and_parameters stub ≡ (ccfile, function ∷ first ∷ others)
    pub dialled : s.dial ≡ none
    pub opened_stream : s.open_stream ≡ none
    pub reads_ledger : fabric.state stub ≡ ledger
