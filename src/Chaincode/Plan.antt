-- ===== src/Chaincode/Plan.antt =====
-- What the coffee chaincode promises, without memories and steps: which ledger requests it makes,
-- and what it answers.
use capstone_2025_team.Base.{◌+◌, ◌%◌, Bytes, [], ◌∷◌, codes, same_bytes, if◌then◌else◌}
use capstone_2025_team.Chaincode.Decimal.{ulong_mod, s_atoul, s_ultoa_text}

-- A dialogue with the ledger: an answer, a read of a key, or a write of a key.
pub data Plan : Type 0 where
  answer : Bytes → Plan
  ask : Bytes → (Bytes → Plan) → Plan
  put : Bytes → Bytes → Plan → Plan

-- The first text if a value is empty, and a plan for a value that is there.
abbrev pub on_value : Plan → (Bytes → Plan) → Bytes → Plan
on_value absent present [] = absent
on_value absent present (c ∷ s) = present (c ∷ s)

-- The count is stored for a person that has none.
abbrev pub create_plan : Bytes → Bytes → Plan
create_plan person count =
    ask person (on_value (put person count (answer (codes "OK"))) (λ value. answer (codes "EXIST")))

-- The sum modulo 2 ^ 32, as the chaincode prints it.
abbrev pub sum_text : Bytes → Bytes → Bytes
sum_text value count = s_ultoa_text ((s_atoul value + s_atoul count) % ulong_mod) 256

abbrev pub add_plan : Bytes → Bytes → Plan
add_plan person count = ask person (
    on_value (answer (codes "EMPTY"))
      (λ value. put person (sum_text value count) (answer (codes "OK"))))

abbrev pub query_plan : Bytes → Plan
query_plan person = ask person (on_value (answer (codes "NOTFOUND")) answer)

-- The plan of a function's name, the person and the count.
abbrev pub coffee_plan : Bytes → Bytes → Bytes → Plan
coffee_plan function person count =
    if same_bytes function (codes "create")
    then create_plan person count
    else if same_bytes function (codes "add")
    then add_plan person count
    else if same_bytes function (codes "query")
    then query_plan person
    else answer (codes "ERROR")
