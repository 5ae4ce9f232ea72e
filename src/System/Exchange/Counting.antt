-- ===== src/System/Exchange/Counting.antt =====
-- A person's count over several transactions: created, added to, and queried.
use capstone_2025_team.Base.{ℕ, ◌+◌, ◌%◌, Bytes, [], ◌∷◌, codes, take}
use capstone_2025_team.Platform.{Platform}
use capstone_2025_team.Proxy.Arguments.Laws.{row_text}
use capstone_2025_team.Chaincode.Decimal.{ulong_mod, s_atoul}
use capstone_2025_team.Chaincode.Plan.{Plan}
use capstone_2025_team.System.Exchange.Sequence.{ClientCall}

-- What the chaincode gets of an argument.
abbrev pub cut : Bytes → Bytes
cut text = take 63 (row_text text)

-- The sum of two counts, as the chaincode's unsigned long has it.
abbrev pub sum_of : Bytes → Bytes → ℕ
sum_of count more = (s_atoul (cut count) + s_atoul (cut more)) % ulong_mod

-- The calls that create a person's count, add to it, and query it.
abbrev pub create_call : Bytes → Bytes → Bytes → ClientCall
create_call ccfile person count = record {
  ccfile = ccfile;
  function = codes "create";
  first = person;
  others = count ∷ [];
}

abbrev pub add_call : Bytes → Bytes → Bytes → ClientCall
add_call ccfile person more = record {
  ccfile = ccfile;
  function = codes "add";
  first = person;
  others = more ∷ [];
}

abbrev pub query_call : Bytes → Bytes → ClientCall
query_call ccfile person = record {
  ccfile = ccfile;
  function = codes "query";
  first = person;
  others = [];
}
