-- ===== src/Chaincode/Decimal.antt =====
-- `s_atoul` and `s_ultoa`. `unsigned long` has 32 bits in WebAssembly.
pub mod Laws
pub mod Stored
use capstone_2025_team.Base.{
  ℕ, zero, suc, ◌+◌, ◌-◌, ◌*◌, ◌/◌, ◌%◌, ◌^◌, Bool, true, false, ◌&&◌, ◌||◌, Option, none, some,
  List, [], ◌∷◌, ◌++◌, Bytes, leb, ltb, ◌==◌, if◌then◌else◌, ◌>>=◌, length, take,
}
use capstone_2025_team.Memory.{Buffer, read, store}

abbrev pub ulong_mod : ℕ
ulong_mod = 2 ^ 32

abbrev pub is_digit : ℕ → Bool
is_digit c = leb b'0' c && leb c b'9'

-- The loop of `s_atoul` over the bytes of a string: it stops at the first that is no digit.
unfoldable pub s_atoul_from : ℕ → Bytes → ℕ
s_atoul_from v [] = v
s_atoul_from v (c ∷ s) =
    let next = s_atoul_from ((v * 10 + (c - b'0')) % ulong_mod) s in if is_digit c then next else v

unfoldable pub s_atoul : Bytes → ℕ
unfolding s_atoul_from
s_atoul s = s_atoul_from 0 s

-- The same over the memory, with fuel; `none` is a read outside it or no fuel.
unfoldable pub s_atoul_at : ℕ → Buffer → ℕ → ℕ → Option ℕ
unfolding read
s_atoul_at zero m s v = none
s_atoul_at (suc fuel) m s v =
    let next = λ (c : ℕ). s_atoul_at fuel m (suc s) ((v * 10 + (c - b'0')) % ulong_mod) in
    if s == 0 then some v else (do c ← read m s; if is_digit c then next c else some v)

-- The first loop of `s_ultoa`, `while (v && i < 32)`: `left` is 32 - i, and the list is buf[0..i)
-- from its last element on, so that the second loop reads it from the front.
unfoldable pub digits : ℕ → ℕ → Bytes → Bytes
digits zero v buf = buf
digits (suc left) v buf =
    let more = digits left (v / 10) ((b'0' + v % 10) ∷ buf) in if v == 0 then buf else more

-- What `s_ultoa` writes in front of its NUL: at most out_len - 1 digits.
unfoldable pub s_ultoa_text : ℕ → ℕ → Bytes
s_ultoa_text v out_len = if v == 0 then b'0' ∷ [] else take (out_len - 1) (digits 32 v [])

-- while (...) out[k++] = ...; then out[k] = 0;
unfoldable pub put_text : Buffer → ℕ → Bytes → Option Buffer
unfolding store
put_text m out [] = store m out 0
put_text m out (c ∷ s) = do m' ← store m out c; put_text m' (suc out) s

-- `s_ultoa`. In one byte there is no room for the NUL of "0".
unfoldable pub s_ultoa : Buffer → ℕ → ℕ → ℕ → Option Buffer
unfolding s_ultoa_text put_text
s_ultoa m v out out_len =
    if out == 0 || out_len == 0
    then some m
    else if v == 0 && out_len == 1
    then store m out b'0'
    else put_text m out (s_ultoa_text v out_len)
