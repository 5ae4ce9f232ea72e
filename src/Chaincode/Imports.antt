-- ===== src/Chaincode/Imports.antt =====
-- The imports that the chaincode declares, and which entry of the TA's symbol table each finds. In
-- wasm32 an `int`, an `unsigned long` and a pointer are all i32.
use capstone_2025_team.Base.{
  Bool, true, false, ◌&&◌, ◌||◌, ℕ, zero, suc, List, [], ◌∷◌, Bytes, codes, same_bytes,
  if◌then◌else◌,
}
use capstone_2025_team.Native.Table.{NativeSymbol}

-- A declared import: its name, how many parameters it has, and whether it has a result.
pub record Import : Type 0 where
  pub name : Bytes
  pub parameters : ℕ
  pub has_result : Bool

abbrev declared : Bytes → ℕ → Bool → Import
declared name parameters has_result = record {
  name = name;
  parameters = parameters;
  has_result = has_result;
}

abbrev pub imports : List Import
imports =
    declared (codes "cc_get_function") 2 true
    ∷ declared (codes "cc_get_arg") 3 true
    ∷ declared (codes "cc_get_state") 4 true
    ∷ declared (codes "cc_put_state") 4 true
    ∷ declared (codes "cc_return_response") 2 false
    ∷ declared (codes "cc_log") 2 false
    ∷ declared (codes "debug_log") 1 true
    ∷ declared (codes "memset") 3 true
    ∷ declared (codes "memcpy") 3 true
    ∷ declared (codes "memmove") 3 true
    ∷ []

abbrev pub letters : ℕ → Bytes → Bytes
letters zero rest = rest
letters (suc n) rest = b'i' ∷ letters n rest

-- The type of an import as the table spells it.
abbrev pub signature_of : Import → Bytes
signature_of i = b'(' ∷ letters i.parameters (b')' ∷ (if i.has_result then b'i' ∷ [] else []))

abbrev pub finds : List NativeSymbol → Import → Bool
finds [] i = false
finds (s ∷ ss) i =
    (same_bytes s.name i.name && same_bytes s.signature (signature_of i)) || finds ss i

-- The imports that find no entry of their name and type.
abbrev pub unresolved : List NativeSymbol → List Import → List Bytes
unresolved symbols [] = []
unresolved symbols (i ∷ is) =
    let rest = unresolved symbols is in if finds symbols i then rest else i.name ∷ rest
