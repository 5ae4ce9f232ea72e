-- ===== src/System/Exchange/Dialogue.antt =====
-- A plan against a ledger: the messages of both sides, the answer, and the ledger after it.
use capstone_2025_team.Base.{ℕ, suc, Bytes, List, [], ◌∷◌, codes, same_bytes, if◌then◌else◌}
use capstone_2025_team.Session.{val_size}
use capstone_2025_team.Message.{
  WrapperMessage, ProxyMessage, get_state, put_state, response, get_state_response,
  put_state_response,
}
use capstone_2025_team.System.Ledger.{received}
use capstone_2025_team.Chaincode.Plan.{Plan, answer, ask, put}

-- The committed state of the ledger, which reads see; a key that is absent has the empty value, as the wrapper sends it.
abbrev pub Ledger : Type 0
Ledger = Bytes → Bytes

abbrev pub stored : Ledger → Bytes → Bytes → Ledger
stored ledger key value k = if same_bytes key k then value else ledger k

-- What the chaincode sees of the ledger.
abbrev pub value_seen : Ledger → Bytes → Bytes
value_seen ledger key = received (get_state_response (ledger key)) val_size

-- The wrapper's messages along a plan.
abbrev pub replies : Plan → Ledger → List WrapperMessage
replies (answer text) ledger = []
replies (ask key next) ledger =
    get_state_response (ledger key) ∷ replies (next (value_seen ledger key)) ledger
replies (put key value rest) ledger = put_state_response (codes "OK") ∷ replies rest ledger

-- The proxy's messages along it, in order.
abbrev pub spoken : Plan → Ledger → List ProxyMessage
spoken (answer text) ledger = response text ∷ []
spoken (ask key next) ledger = get_state key ∷ spoken (next (value_seen ledger key)) ledger
spoken (put key value rest) ledger = put_state key value ∷ spoken rest ledger

-- The messages newest first, on top of earlier ones, as each side keeps them.
abbrev pub onto {ℓ} : {A : Type ℓ} → List A → List A → List A
onto [] sent = sent
onto (msg ∷ msgs) sent = onto msgs (msg ∷ sent)

abbrev pub transcript : Plan → Ledger → List ProxyMessage → List ProxyMessage
transcript plan ledger sent = onto (spoken plan ledger) sent

-- Room for the messages of a list, and for n more.
abbrev pub room_for {ℓ} : {A : Type ℓ} → List A → ℕ → ℕ
room_for [] n = n
room_for (msg ∷ msgs) n = suc (room_for msgs n)

-- The writes that the proxy makes, on top of n.
abbrev pub writes : Plan → Ledger → ℕ → ℕ
writes plan ledger n = room_for (spoken plan ledger) n

-- What a plan answers, and what it writes, in order. The writes are committed after the end.
abbrev pub answer_of : Plan → Ledger → Bytes
answer_of (answer text) ledger = text
answer_of (ask key next) ledger = answer_of (next (value_seen ledger key)) ledger
answer_of (put key value rest) ledger = answer_of rest ledger

abbrev pub puts_of : Plan → Ledger → List (Bytes × Bytes)
puts_of (answer text) ledger = []
puts_of (ask key next) ledger = puts_of (next (value_seen ledger key)) ledger
puts_of (put key value rest) ledger = (key, value) ∷ puts_of rest ledger

abbrev pub committed : Ledger → List (Bytes × Bytes) → Ledger
committed ledger [] = ledger
committed ledger ((key, value) ∷ puts) = committed (stored ledger key value) puts
