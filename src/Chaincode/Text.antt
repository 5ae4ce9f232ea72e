-- ===== src/Chaincode/Text.antt =====
-- `s_strlen`, `s_memset`, `s_memcpy` and `s_streq`, byte by byte over the linear memory.
pub mod Stands
use capstone_2025_team.Base.{
  ℕ, zero, suc, ◌+◌, ◌<◌, ◌≡◌, Bool, true, false, Option, none, some, Bytes, [], ◌∷◌, ◌==◌,
  if◌then◌else◌, ◌>>=◌, arith, length, not,
}
use capstone_2025_team.Memory.{Buffer, read, store, c_string}

-- `while (s && s[n]) n++`, with fuel; `none` is a read outside the memory or no fuel.
unfoldable pub s_strlen : ℕ → Buffer → ℕ → Option ℕ
unfolding read
s_strlen zero m s = none
s_strlen (suc fuel) m s =
    let rest = (do n ← s_strlen fuel m (suc s); some (suc n)) in
    if s == 0 then some 0 else (do c ← read m s; if c == 0 then some 0 else rest)

-- for (i = 0; i < n; i++) p[i] = v
unfoldable pub s_memset : Buffer → ℕ → ℕ → ℕ → Option Buffer
unfolding store
s_memset m p v zero = some m
s_memset m p v (suc n) = do m' ← store m p v; s_memset m' (suc p) v n

unfoldable pub s_memcpy : Buffer → ℕ → ℕ → ℕ → Option Buffer
unfolding store read
s_memcpy m dst src zero = some m
s_memcpy m dst src (suc n) = do
  c ← read m src
  m' ← store m dst c
  s_memcpy m' (suc dst) (suc src) n

-- The string at a against the bytes of a literal, which end in a NUL.
unfoldable pub s_streq : Buffer → ℕ → Bytes → Option Bool
unfolding read
s_streq m a [] = do c ← read m a; some (c == 0)
s_streq m a (b ∷ bs) = do
  c ← read m a
  let rest = s_streq m (suc a) bs
  if not (c == b) then some false else if c == 0 then some true else rest

-- With the NUL within k bytes, k + 1 rounds measure the string.
pub s_strlen_lem :
    (m : Buffer) (s k fuel : ℕ)
    → 0 < s
    → s + k < m.size
    → m.byte (s + k) ≡ 0
    → k < fuel
    → s_strlen fuel m s ≡ some (length (c_string m s k))
unfolding s_strlen
s_strlen_lem m s k zero q h e f = absurd (omega arith)
s_strlen_lem m s zero (suc fuel) q h e f = ground arith
s_strlen_lem m s (suc k) (suc fuel) q h e f = ground (arith, s_strlen_lem m (suc s) k fuel)
