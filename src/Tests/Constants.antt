-- ===== src/Tests/Constants.antt =====
-- The constants of the headers against each other, and the imports against the symbol table.
use capstone_2025_team.Base.{◌≡◌, refl, some, [], ◌∷◌, codes}
use capstone_2025_team.Session.{value_at, val_size, arguments_size, key_value_size}
use capstone_2025_team.Headers.{
  ta_communication, proxy_communication, find, max_size, structures, sizes_of, size_of,
}
use capstone_2025_team.Native.Table.{chaincode_native_symbols, chaincode_native_symbols_size}
use capstone_2025_team.Chaincode.Imports.{imports, unresolved}

copies_agree : ta_communication ≡ proxy_communication
copies_agree = refl

value_found : find (codes "value") ta_communication.key_value ≡ some (value_at, val_size)
unfolding find
value_found = refl

key_value_sized : size_of ta_communication.key_value ≡ key_value_size
unfolding size_of
key_value_sized = refl

shared_sized : max_size 0 (sizes_of (structures proxy_communication)) ≡ arguments_size
unfolding max_size size_of
shared_sized = refl

-- Two imports are declared without the result that the table gives them.
void_imports :
    unresolved chaincode_native_symbols imports ≡ codes "cc_return_response" ∷ codes "cc_log" ∷ []
void_imports = refl

symbols_counted : chaincode_native_symbols_size ≡ 320
symbols_counted = refl
