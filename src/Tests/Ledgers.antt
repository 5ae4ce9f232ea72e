-- ===== src/Tests/Ledgers.antt =====
-- Several transactions at a concrete ledger.
use capstone_2025_team.Base.{◌≡◌, ◌≢◌, refl, some, none, Bytes, List, [], ◌∷◌, ◌++◌, codes}
use capstone_2025_team.Proxy.Arguments.{row_length}
use capstone_2025_team.System.Exchange.Dialogue.{Ledger}
use capstone_2025_team.System.Exchange.Sequence.{ClientCall, answers, Peer}
use capstone_2025_team.System.Exchange.Counting.{create_call, query_call}
use capstone_2025_team.Wrapper.{Try, fine, failed, Shim, ChaincodeWrapper}
use capstone_2025_team.Wrapper.Laws.{Fabric}
use capstone_2025_team.Tests.Plans.{nothing_stored}

-- A stub with its committed state, its call and its writes.
pub record Snapshot : Type 0 where
  pub ledger : Ledger
  pub call : ClientCall
  pub writes : List (Bytes × Bytes)

abbrev put_state_in : Snapshot → Bytes → Bytes → Try Snapshot
put_state_in stub [] value = failed (codes "key must not be an empty string")
put_state_in stub (c ∷ key) value =
    fine (record stub { writes = stub.writes ++ ((c ∷ key, value) ∷ []) })

abbrev shim : Shim
shim = record {
  Stub = Snapshot;
  get_function_and_parameters =
      λ stub. (stub.call.ccfile, stub.call.function ∷ stub.call.first ∷ stub.call.others);
  stub_get_state = λ stub key. fine (some (stub.ledger key));
  stub_put_state = put_state_in;
  decode_string = λ text. ([], none);
  dial = none;
  open_stream = none;
  send_error = codes "EOF";
  recv_error = codes "EOF";
}

put_lem :
    (stub : Snapshot) (key value : Bytes)
    → key ≢ []
    → (stub' : Snapshot) × (put_state_in stub key value ≡ fine stub')
      × (stub'.ledger ≡ stub.ledger)
      × (stub'.writes ≡ stub.writes ++ ((key, value) ∷ []))
put_lem stub [] value named = absurd (named refl)
put_lem stub (c ∷ key) value named = (_, refl, refl, refl)

abbrev fabric : Fabric shim
fabric = record {
  state = λ stub. stub.ledger;
  write_set = λ stub. stub.writes;
  reads = λ stub key. (some (stub.ledger key), refl, refl);
  puts = put_lem;
}

abbrev peer : Peer shim fabric
peer = record {
  new_stub = λ ledger c. record { ledger = ledger; call = c; writes = [] };
  params = λ ledger c. refl;
  reads_committed = λ ledger c. refl;
  nothing_written = λ ledger c. refl;
}

abbrev wrapper : ChaincodeWrapper
wrapper = record { uuid = [] }

abbrev calls : List ClientCall
calls =
    create_call (codes "c.aot") (codes "kim") (codes "5")
    ∷ create_call (codes "c.aot") (codes "kim") (codes "6")
    ∷ query_call (codes "c.aot") (codes "kim")
    ∷ []

-- The second create is refused.
answers_at_kim : answers wrapper nothing_stored calls ≡ codes "OK" ∷ codes "EXIST" ∷ codes "5" ∷ []
unfolding row_length
answers_at_kim = refl
