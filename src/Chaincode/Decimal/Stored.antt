-- ===== src/Chaincode/Decimal/Stored.antt =====
-- Printing to the memory and reading back from it.
use capstone_2025_team.Base.{
  ℕ, zero, suc, ◌+◌, ◌-◌, ◌%◌, ◌*◌, false, ◌<◌, ◌≤◌, ◌≡◌, refl, ◌∙◌, ap, some, [], ◌∷◌, Bytes,
  arith, length, inl, inr, Bool-cases, ◌==◌, if◌then◌else◌, length-take,
}
use capstone_2025_team.Memory.{Buffer, read, store}
use capstone_2025_team.Chaincode.Decimal.{
  ulong_mod, is_digit, s_atoul_from, s_atoul, s_atoul_at, s_ultoa_text, put_text, s_ultoa, digits,
}
use capstone_2025_team.Chaincode.Decimal.Laws.{atoul-ultoa, length-digits}

-- The memory holds the text at `out`, for the parse, and nothing in front of it changed.
abbrev pub Prints : Buffer → ℕ → Bytes → Buffer → Type 0
Prints m out s m' =
    (m'.size ≡ m.size)
    × ((a : ℕ) → a < out → m'.byte a ≡ m.byte a)
    × ((fuel v : ℕ)
        → 0 < out
        → length s < fuel
        → s_atoul_at fuel m' out v ≡ some (s_atoul_from v s))

stored : Buffer → ℕ → ℕ → Buffer
stored m out c = record { size = m.size; byte = λ a. if a == out then c else m.byte a }

store_lem : (m : Buffer) (out c : ℕ) → out < m.size → store m out c ≡ some (stored m out c)
unfolding store stored
store_lem m out c h = ground arith

byte-stored : (m : Buffer) (out c : ℕ) → (stored m out c).byte out ≡ c
unfolding stored
byte-stored m out c = ground arith

byte-stored_below : (m : Buffer) (out c a : ℕ) → a < out → (stored m out c).byte a ≡ m.byte a
unfolding stored
byte-stored_below m out c a h = ground arith

s_atoul_at-nul :
    (fuel : ℕ) (m : Buffer) (p v : ℕ)
    → 0 < p
    → 0 < fuel
    → p < m.size
    → m.byte p ≡ 0
    → s_atoul_at fuel m p v ≡ some v
unfolding s_atoul_at read
s_atoul_at-nul zero m p v q f h e = absurd (omega arith)
s_atoul_at-nul (suc fuel) m p v q f h e = ground arith

read_lem : (m : Buffer) (p : ℕ) → p < m.size → read m p ≡ some (m.byte p)
unfolding read
read_lem m p h = ground arith

s_atoul_at-cons :
    (fuel : ℕ) (m : Buffer) (p v c : ℕ) (s : Bytes)
    → 0 < p
    → p < m.size
    → m.byte p ≡ c
    → s_atoul_at fuel m (suc p) ((v * 10 + (c - b'0')) % ulong_mod)
      ≡ some (s_atoul_from ((v * 10 + (c - b'0')) % ulong_mod) s)
    → s_atoul_at (suc fuel) m p v ≡ some (s_atoul_from v (c ∷ s))
unfolding s_atoul_at s_atoul_from
s_atoul_at-cons fuel m p v c s q h e next = elim (Bool-cases (is_digit c)) [
  | inl digit ↦ rw (not_null, byte_read, digit) next
  | inr other ↦ rw (not_null, byte_read, other) refl
]
  where
    not_null : (p == 0) ≡ false
    not_null = ground arith

    byte_read : read m p ≡ some c
    byte_read = read_lem m p h ∙ ap some e

put_text-Prints :
    (m : Buffer) (out : ℕ) (s : Bytes)
    → out + length s < m.size
    → (m' : Buffer) × (put_text m out s ≡ some m') × Prints m out s m'
unfolding put_text s_atoul_from
put_text-Prints m out [] h = (
  stored m out 0,
  store_lem m out 0 (omega (arith, h)),
  (
    unfold stored in refl,
    byte-stored_below m out 0,
    λ fuel v some_out lt.
        s_atoul_at-nul fuel (stored m out 0) out v some_out (omega (arith, lt))
          (unfold stored in omega (arith, h)) (byte-stored m out 0),
  ),
)
put_text-Prints m out (c ∷ s) h =
    let m1 = stored m out c in
    let same : m1.size ≡ m.size = unfold stored in refl in
    let (m', run, (size, below, reads)) = put_text-Prints m1 (suc out) s (omega (arith, h, same)) in
    (
      m',
      rw (store_lem m out c (omega (arith, h))) run,
      (
        size ∙ same,
        λ a lt. below a (omega (arith, lt)) ∙ byte-stored_below m out c a lt,
        λ fuel v some_out lt.
            reads_on m' fuel v some_out lt (omega (arith, h, size, same))
              (below out (omega arith) ∙ byte-stored m out c) reads,
      ),
    )
  where
    reads_on :
        (m' : Buffer) (fuel v : ℕ)
        → 0 < out
        → length (c ∷ s) < fuel
        → out < m'.size
        → m'.byte out ≡ c
        → ((fuel v : ℕ)
            → 0 < suc out
            → length s < fuel
            → s_atoul_at fuel m' (suc out) v ≡ some (s_atoul_from v s))
        → s_atoul_at fuel m' out v ≡ some (s_atoul_from v (c ∷ s))
    reads_on m' zero v some_out lt room e reads = absurd (omega (arith, lt))
    reads_on m' (suc fuel) v some_out lt room e reads =
        s_atoul_at-cons fuel m' out v c s some_out room e
          (reads fuel ((v * 10 + (c - b'0')) % ulong_mod) (omega arith) (omega (arith, lt)))

pub length-s_ultoa_text : (v out_len : ℕ) → v < ulong_mod → length (s_ultoa_text v out_len) ≤ 10
unfolding s_ultoa_text
length-s_ultoa_text v out_len h = elim (Bool-cases (v == 0)) [
  | inl zero_value ↦ rw zero_value (omega arith)
  | inr positive ↦ rw positive (
      omega (
        arith,
        length-take (out_len - 1) (digits 32 v []),
        length-digits 32 10 v [] (omega (arith, h)),
      ))
]

pub s_ultoa_lem :
    (m : Buffer) (v out out_len : ℕ)
    → 0 < out
    → 10 < out_len
    → s_ultoa m v out out_len ≡ put_text m out (s_ultoa_text v out_len)
unfolding s_ultoa
s_ultoa_lem m v out out_len some_out room = ground arith

-- For v below 2 ^ 32, an output that is not NULL and has more than ten bytes in the memory, and
-- more than ten rounds of fuel: `s_ultoa` prints v without a fault, changes no byte in front of
-- the output, and `s_atoul` reads v back from there.
pub atoul_at-ultoa :
    (m : Buffer) (v out out_len fuel : ℕ)
    → v < ulong_mod
    → 0 < out
    → 10 < out_len
    → out + out_len ≤ m.size
    → 10 < fuel
    → (m' : Buffer) × (s_ultoa m v out out_len ≡ some m')
      × (m'.size ≡ m.size)
      × ((a : ℕ) → a < out → m'.byte a ≡ m.byte a)
      × (s_atoul_at fuel m' out 0 ≡ some v)
unfolding s_atoul
atoul_at-ultoa m v out out_len fuel h some_out room inside enough =
    let text = s_ultoa_text v out_len in
    let short = length-s_ultoa_text v out_len h in
    let (m', run, (size, below, reads)) = put_text-Prints m out text (omega (arith, short)) in
    (
      m',
      s_ultoa_lem m v out out_len some_out room ∙ run,
      size,
      below,
      reads fuel 0 some_out (omega (arith, short)) ∙ ap some (atoul-ultoa v out_len h room),
    )
