-- ===== src/Proxy/Uuid/Laws.antt =====
-- With an unsigned `char` the fields are read big endian; with a signed one they may be lost.
use capstone_2025_team.Base.{
  ℕ, zero, suc, ◌+◌, ◌*◌, ◌-◌, ◌%◌, ◌^◌, ◌<◌, ◌≤◌, ◌≡◌, refl, Bool, true, false, some, [], ◌∷◌,
  Bytes, length, get_or, arith, bit_or-shifted,
}
use Prim.Native.Nat.{bit_or}
use capstone_2025_team.Message.{InvocationRequest}
use capstone_2025_team.Headers.{Uuid}
use capstone_2025_team.Proxy.Uuid.{char_at, shifted, set_uuid}

-- The byte at position i, and the number of two and of four bytes there, the highest first.
abbrev pub byte_at : InvocationRequest → ℕ → ℕ
byte_at req i = get_or req.chaincode_uuid i 0

abbrev pub two_at : InvocationRequest → ℕ → ℕ
two_at req i = byte_at req i * 256 + byte_at req (i + 1)

abbrev pub four_at : InvocationRequest → ℕ → ℕ
four_at req i = two_at req i * 65536 + two_at req (i + 2)

two_lem :
    (a b : ℕ)
    → a < 256
    → b < 256
    → bit_or (shifted false a 8) (shifted false b 0) % 2 ^ 16 ≡ a * 256 + b
two_lem a b h h' =
    let e : shifted false a 8 ≡ a * 2 ^ 8 = omega arith in
    let e' : shifted false b 0 ≡ b = omega arith in
    rw (e, e', bit_or-shifted 8 a b h') (omega arith)

four_lem :
    (a b c d : ℕ)
    → a < 256
    → b < 256
    → c < 256
    → d < 256
    → bit_or
        (bit_or (bit_or (shifted false a 24) (shifted false b 16)) (shifted false c 8))
        (shifted false d 0)
      ≡ (a * 256 + b) * 65536 + (c * 256 + d)
four_lem a b c d ha hb hc hd =
    let ea : shifted false a 24 ≡ a * 2 ^ 24 = omega arith in
    let eb : shifted false b 16 ≡ b * 2 ^ 16 = omega arith in
    let ec : shifted false c 8 ≡ c * 2 ^ 8 = omega arith in
    let ed : shifted false d 0 ≡ d = omega arith in
    let two : a * 2 ^ 24 + b * 2 ^ 16 ≡ (a * 256 + b) * 2 ^ 16 = omega arith in
    let three : (a * 256 + b) * 2 ^ 16 + c * 2 ^ 8 ≡ ((a * 256 + b) * 256 + c) * 2 ^ 8 =
      omega arith in
    rw
      (
        ea,
        eb,
        ec,
        ed,
        bit_or-shifted 24 a (b * 2 ^ 16) (omega arith),
        two,
        bit_or-shifted 16 (a * 256 + b) (c * 2 ^ 8) (omega arith),
        three,
        bit_or-shifted 8 ((a * 256 + b) * 256 + c) d (omega arith),
      )
      (omega arith)

char_at_lem : (s : Bytes) (i : ℕ) → i ≤ length s → char_at s i ≡ some (get_or s i 0)
char_at_lem s i h = ground arith

-- The fields, and the eight bytes that are left.
abbrev pub IsBigEndian : InvocationRequest → Uuid → Type 0
IsBigEndian req u =
    (u.time_low ≡ four_at req 0)
    × (u.time_mid ≡ two_at req 4)
    × (u.time_hi_and_version ≡ two_at req 6)
    × ((i : ℕ) → i < 8 → get_or u.clock_seq_and_node i 0 ≡ byte_at req (8 + i))

sign_extended : (c : ℕ) → 128 ≤ c → c < 256 → 2 ^ 32 - 128 ≤ shifted true c 0
sign_extended c h h' = ground arith

-- What is read from a uuid that is long enough.
abbrev pub taken : Bool → InvocationRequest → Uuid
taken s req = record {
  time_low =
      bit_or
        (bit_or (bit_or (shifted s (byte_at req 0) 24) (shifted s (byte_at req 1) 16))
          (shifted s (byte_at req 2) 8))
        (shifted s (byte_at req 3) 0);
  time_mid = bit_or (shifted s (byte_at req 4) 8) (shifted s (byte_at req 5) 0) % 2 ^ 16;
  time_hi_and_version = bit_or (shifted s (byte_at req 6) 8) (shifted s (byte_at req 7) 0) % 2 ^ 16;
  clock_seq_and_node =
      byte_at req 8
      ∷ byte_at req 9
      ∷ byte_at req 10
      ∷ byte_at req 11
      ∷ byte_at req 12
      ∷ byte_at req 13
      ∷ byte_at req 14
      ∷ byte_at req 15
      ∷ [];
}

set_uuid_lem :
    (s : Bool) (req : InvocationRequest)
    → 15 ≤ length req.chaincode_uuid
    → set_uuid s req ≡ some (taken s req)
unfolding set_uuid
set_uuid_lem s req long = simp (
  char_at_lem req.chaincode_uuid 0 (omega (arith, long)),
  char_at_lem req.chaincode_uuid 1 (omega (arith, long)),
  char_at_lem req.chaincode_uuid 2 (omega (arith, long)),
  char_at_lem req.chaincode_uuid 3 (omega (arith, long)),
  char_at_lem req.chaincode_uuid 4 (omega (arith, long)),
  char_at_lem req.chaincode_uuid 5 (omega (arith, long)),
  char_at_lem req.chaincode_uuid 6 (omega (arith, long)),
  char_at_lem req.chaincode_uuid 7 (omega (arith, long)),
  char_at_lem req.chaincode_uuid 8 (omega (arith, long)),
  char_at_lem req.chaincode_uuid 9 (omega (arith, long)),
  char_at_lem req.chaincode_uuid 10 (omega (arith, long)),
  char_at_lem req.chaincode_uuid 11 (omega (arith, long)),
  char_at_lem req.chaincode_uuid 12 (omega (arith, long)),
  char_at_lem req.chaincode_uuid 13 (omega (arith, long)),
  char_at_lem req.chaincode_uuid 14 (omega (arith, long)),
  char_at_lem req.chaincode_uuid 15 (omega (arith, long)),
)

last_bytes :
    (req : InvocationRequest) (i : ℕ)
    → i < 8
    → get_or (taken false req).clock_seq_and_node i 0 ≡ byte_at req (8 + i)
last_bytes req zero h = refl
last_bytes req (suc zero) h = refl
last_bytes req (suc (suc zero)) h = refl
last_bytes req (suc (suc (suc zero))) h = refl
last_bytes req (suc (suc (suc (suc zero)))) h = refl
last_bytes req (suc (suc (suc (suc (suc zero))))) h = refl
last_bytes req (suc (suc (suc (suc (suc (suc zero)))))) h = refl
last_bytes req (suc (suc (suc (suc (suc (suc (suc zero))))))) h = refl
last_bytes req (suc (suc (suc (suc (suc (suc (suc (suc i)))))))) h = absurd (omega (arith, h))

-- For a uuid of at least 15 bytes, each below 256, and an unsigned `char`: `set_uuid` gives the
-- fields as big-endian numbers of their bytes, and the last eight bytes in order; a missing
-- sixteenth byte counts as 0.
pub set_uuid-IsBigEndian :
    (req : InvocationRequest)
    → 15 ≤ length req.chaincode_uuid
    → ((i : ℕ) → byte_at req i < 256)
    → (u : Uuid) × (set_uuid false req ≡ some u) × IsBigEndian req u
set_uuid-IsBigEndian req long small = (
  taken false req,
  set_uuid_lem false req long,
  (
    four_lem (byte_at req 0) (byte_at req 1) (byte_at req 2) (byte_at req 3) (small 0) (small 1)
        (small 2) (small 3),
    two_lem (byte_at req 4) (byte_at req 5) (small 4) (small 5),
    two_lem (byte_at req 6) (byte_at req 7) (small 6) (small 7),
    last_bytes req,
  ),
)
