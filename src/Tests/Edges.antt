-- ===== src/Tests/Edges.antt =====
-- The theorems on headers, digests, dumps and uuids at concrete inputs.
use capstone_2025_team.Base.{
  ℕ, zero, suc, ◌<◌, ◌≡◌, refl, some, none, codes, arith, replicate, true, false, Option, Bool,
  if◌then◌else◌, ◌==◌, [], get_or,
}
use capstone_2025_team.Memory.{Buffer, of_list, store}
use capstone_2025_team.Message.{InvocationRequest}
use capstone_2025_team.Headers.{Uuid}
use capstone_2025_team.Ta.Hash.{Digest, hash_wasm_bytecode}
use capstone_2025_team.Ta.Hash.Laws.{Sha256, Hashed, hash_wasm_bytecode-Hashed}
use capstone_2025_team.Ta.Debug.{print_bytes, print_byte_array}
use capstone_2025_team.Ta.Debug.Overrun.{Allocates, print_byte_array-overrun}
use capstone_2025_team.Proxy.Uuid.{set_uuid}
use capstone_2025_team.Proxy.Uuid.Laws.{IsBigEndian, byte_at, set_uuid-IsBigEndian}

-- A digest that is the first byte over and over. The handle is whether it is allocated.
abbrev plain : ℕ → ℕ → Digest
plain refusal n = record {
  Handle = Bool;
  allocate_operation = λ handle. if refusal == 0 then (0, true) else (refusal, handle);
  digest_do_final = λ handle wasm capacity. (0, replicate n (get_or wasm 0 0));
  left = λ hash. hash;
  free_operation = λ handle. handle;
}

plain-Sha256 : Sha256 (plain 0 32)
plain-Sha256 = record { digest_length = λ handle wasm capacity h. refl; frees = λ handle h. refl }

hash_wasm_bytecode-Hashed_example :
    (code : ℕ) × (hash' : Buffer) × (hash_wasm_bytecode
        (plain 0 32)
        false
        (codes "wasm")
        (of_list 32 [])
      ≡ some (code, hash'))
    × Hashed (plain 0 32) (replicate 32 b'w') (of_list 32 []) code hash'
unfolding of_list
hash_wasm_bytecode-Hashed_example =
    hash_wasm_bytecode-Hashed (plain 0 32) false (codes "wasm") (of_list 32 []) refl plain-Sha256
      refl

abbrev fresh : ℕ → Option Buffer
fresh n = some (of_list n [])

fresh-Allocates : Allocates fresh
unfolding of_list
fresh-Allocates n b h = ground arith

print_byte_array-overrun_example :
    (printed : Buffer) × (print_bytes (of_list 6 []) 6 0 (codes "ab") ≡ some (6, printed))
    × (store printed 6 0 ≡ none)
    × (print_byte_array fresh (codes "ab") ≡ none)
unfolding of_list
print_byte_array-overrun_example =
    print_byte_array-overrun fresh (codes "ab") (of_list 6 []) fresh-Allocates refl

abbrev request : InvocationRequest
request = record {
  chaincode_uuid = replicate 16 200;
  function_name = [];
  arguments = [];
  aot_file = [];
}

small : (i : ℕ) → byte_at request i < 256
small i = get_or-replicate i 16
  where
    get_or-replicate : (i n : ℕ) → get_or (replicate n 200) i 0 < 256
    get_or-replicate i zero = omega arith
    get_or-replicate zero (suc n) = omega arith
    get_or-replicate (suc i) (suc n) = get_or-replicate i n

set_uuid-IsBigEndian_example :
    (u : Uuid) × (set_uuid false request ≡ some u) × IsBigEndian request u
set_uuid-IsBigEndian_example = set_uuid-IsBigEndian request (omega arith) small
