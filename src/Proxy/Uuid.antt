-- ===== src/Proxy/Uuid.antt =====
-- `set_uuid`, which takes a TEEC_UUID from the bytes of the invocation request. Nothing calls it.
pub mod Laws
use capstone_2025_team.Base.{
  ℕ, ◌+◌, ◌-◌, ◌*◌, ◌%◌, ◌^◌, Bool, true, false, Option, none, some, List, [], ◌∷◌, Bytes, length,
  get_or, ltb, ◌==◌, ◌&&◌, if◌then◌else◌, ◌>>=◌, not,
}
use Prim.Native.Nat.{bit_or}
use capstone_2025_team.Message.{InvocationRequest}
use capstone_2025_team.Headers.{Uuid}

-- s[i] of a std::string: a NUL at its end, and nothing (`none`) behind it.
abbrev pub char_at : Bytes → ℕ → Option ℕ
char_at s i = if ltb (length s) i then none else some (get_or s i 0)

-- A `char` as a 32-bit word: one that is signed takes its sign along.
abbrev pub promoted : Bool → ℕ → ℕ
promoted char_signed c = if char_signed && not (ltb c 128) then 2 ^ 32 - 256 + c else c

-- c << k, in 32 bits.
abbrev pub shifted : Bool → ℕ → ℕ → ℕ
shifted char_signed c k = promoted char_signed c * 2 ^ k % 2 ^ 32

-- Whether `char` is signed is up to the target.
unfoldable pub set_uuid : Bool → InvocationRequest → Option Uuid
set_uuid char_signed req = do
  c0 ← char_at req.chaincode_uuid 0
  c1 ← char_at req.chaincode_uuid 1
  c2 ← char_at req.chaincode_uuid 2
  c3 ← char_at req.chaincode_uuid 3
  c4 ← char_at req.chaincode_uuid 4
  c5 ← char_at req.chaincode_uuid 5
  c6 ← char_at req.chaincode_uuid 6
  c7 ← char_at req.chaincode_uuid 7
  c8 ← char_at req.chaincode_uuid 8
  c9 ← char_at req.chaincode_uuid 9
  c10 ← char_at req.chaincode_uuid 10
  c11 ← char_at req.chaincode_uuid 11
  c12 ← char_at req.chaincode_uuid 12
  c13 ← char_at req.chaincode_uuid 13
  c14 ← char_at req.chaincode_uuid 14
  c15 ← char_at req.chaincode_uuid 15
  let s = char_signed
  some (record {
    time_low =
        bit_or (bit_or (bit_or (shifted s c0 24) (shifted s c1 16)) (shifted s c2 8))
          (shifted s c3 0);
    time_mid = bit_or (shifted s c4 8) (shifted s c5 0) % 2 ^ 16;
    time_hi_and_version = bit_or (shifted s c6 8) (shifted s c7 0) % 2 ^ 16;
    clock_seq_and_node = c8 ∷ c9 ∷ c10 ∷ c11 ∷ c12 ∷ c13 ∷ c14 ∷ c15 ∷ [];
  })
