-- ===== src/Tests/Fabric.antt =====
-- The wrapper and the whole chaincode at concrete inputs.
use capstone_2025_team.Base.{
  ℕ, ◌≡◌, ◌≢◌, refl, none, Bytes, List, [], ◌∷◌, ◌++◌, arith, codes, length, ap,
}
use capstone_2025_team.Chaincode.Plan.{Plan, coffee_plan}
use capstone_2025_team.System.Exchange.Dialogue.{
  replies, spoken, onto, room_for, answer_of, puts_of,
}
use capstone_2025_team.Wrapper.{
  arrived, Try, fine, failed, Shim, success, ChaincodeWrapper, serve_requests,
}
use capstone_2025_team.Wrapper.Laws.{Fabric, Keyed, serve_requests-follows}
use capstone_2025_team.Tests.Plans.{nothing_stored}

abbrev put_state_in : List (Bytes × Bytes) → Bytes → Bytes → Try (List (Bytes × Bytes))
put_state_in stub [] value = failed (codes "key must not be an empty string")
put_state_in stub (c ∷ key) value = fine (stub ++ ((c ∷ key, value) ∷ []))

-- A ledger without any state.
abbrev empty_shim : Shim
empty_shim = record {
  Stub = List (Bytes × Bytes);
  get_function_and_parameters =
      λ stub. (codes "c.aot", codes "create" ∷ codes "kim" ∷ codes "5" ∷ []);
  stub_get_state = λ stub key. fine none;
  stub_put_state = put_state_in;
  decode_string = λ text. ([], none);
  dial = none;
  open_stream = none;
  send_error = codes "EOF";
  recv_error = codes "EOF";
}

put_lem :
    (stub : List (Bytes × Bytes)) (key value : Bytes)
    → key ≢ []
    → (stub' : List (Bytes × Bytes)) × (put_state_in stub key value ≡ fine stub')
      × (nothing_stored ≡ nothing_stored)
      × (stub' ≡ stub ++ ((key, value) ∷ []))
put_lem stub [] value named = absurd (named refl)
put_lem stub (c ∷ key) value named = (stub ++ ((c ∷ key, value) ∷ []), refl, refl, refl)

abbrev empty_fabric : Fabric empty_shim
empty_fabric = record {
  state = λ stub. nothing_stored;
  write_set = λ stub. stub;
  reads = λ stub key. (none, refl, refl);
  puts = put_lem;
}

abbrev kim : Plan
kim = coffee_plan (codes "create") (codes "kim") (codes "5")

kim-Keyed : Keyed kim
kim-Keyed [] = (λ nobody. omega (arith, ap (length {A = ℕ}) nobody), tt)
kim-Keyed (c ∷ value) = tt

serve_requests-follows_example :
    (stub : List (Bytes × Bytes)) × (serve_requests empty_shim []
        (room_for (replies kim nothing_stored) 0)
        []
        (arrived (spoken kim nothing_stored))
      ≡ (success (answer_of kim nothing_stored), stub, onto (replies kim nothing_stored) []))
    × (stub ≡ [] ++ puts_of kim nothing_stored)
serve_requests-follows_example =
    serve_requests-follows empty_shim empty_fabric kim nothing_stored [] 0 [] refl kim-Keyed

abbrev wrapper : ChaincodeWrapper
wrapper = record { uuid = [] }
