-- ===== src/Memory.antt =====
-- The C memory objects of the program: an array of a known size, its reads, and the effect that
-- `memset` and `memmove` have on one. `read` faults outside the array. A pointer is a position.
pub mod Copies
pub mod Strings
use capstone_2025_team.Base.{
  ℕ, zero, suc, ◌+◌, ◌-◌, Bool, ◌&&◌, ◌≡◌, Option, none, some, List, [], ◌∷◌, Bytes, ltb, leb, ◌==◌,
  if◌then◌else◌, ◌>>=◌, get_or, length, until_nul, take,
}

pub record Buffer : Type 0 where
  pub size : ℕ
  pub byte : ℕ → ℕ

-- b[i]
unfoldable pub read : Buffer → ℕ → Option ℕ
read b i = if ltb i b.size then some (b.byte i) else none

-- b[i] = c
unfoldable pub store : Buffer → ℕ → ℕ → Option Buffer
store b i c =
    if ltb i b.size
    then some (record { size = b.size; byte = λ a. if a == i then c else b.byte a })
    else none

-- The n bytes at position p.
abbrev pub bytes : Buffer → ℕ → ℕ → Bytes
bytes b p zero = []
bytes b p (suc n) = b.byte p ∷ bytes b (suc p) n

-- The C string at position p, in an array of n bytes.
abbrev pub c_string : Buffer → ℕ → ℕ → Bytes
c_string b p n = until_nul (bytes b p n)

-- Whether a lies in the n bytes at p.
abbrev pub covers : ℕ → ℕ → ℕ → Bool
covers p n a = leb p a && ltb a (p + n)

-- The two agree at every byte outside the n at p.
abbrev pub SameOutside : ℕ → ℕ → Buffer → Buffer → Type 0
SameOutside p n b c =
    (a : ℕ) → (if covers p n a then 0 else b.byte a) ≡ (if covers p n a then 0 else c.byte a)

-- After `memset(b + p, c, n)`.
unfoldable pub filled : Buffer → ℕ → ℕ → ℕ → Buffer
filled b p c n = record { size = b.size; byte = λ a. if covers p n a then c else b.byte a }

-- After `memmove(d + p, s + q, n)`.
unfoldable pub moved : Buffer → ℕ → Buffer → ℕ → ℕ → Buffer
moved d p s q n = record {
  size = d.size;
  byte = λ a. if covers p n a then s.byte (q + (a - p)) else d.byte a;
}

-- An array that holds a list, with zeros behind it.
unfoldable pub of_list : ℕ → Bytes → Buffer
of_list n s = record { size = n; byte = λ a. get_or s a 0 }

-- `static size_t safe_strlen(const char *s, size_t max_len)`: it stops at a NUL or at max_len.
unfoldable pub safe_strlen : Buffer → ℕ → ℕ → Option ℕ
unfolding read
safe_strlen b p zero = some 0
safe_strlen b p (suc max_len) = do
  c ← read b p
  let rest = (do n ← safe_strlen b (suc p) max_len; some (suc n))
  if c == 0 then some 0 else rest

-- The C library's `memset`, `memcpy` and `strncpy`, which fault outside the arrays.
unfoldable pub memset : Buffer → ℕ → ℕ → ℕ → Option Buffer
unfolding filled
memset b p c n = if leb (p + n) b.size then some (filled b p c n) else none

unfoldable pub memcpy : Buffer → ℕ → Buffer → ℕ → ℕ → Option Buffer
unfolding moved
memcpy d p s q n = if leb (p + n) d.size && leb (q + n) s.size then some (moved d p s q n) else none

-- At most n bytes of the string, in front of its NUL, and zeros up to n.
unfoldable pub strncpy : Buffer → ℕ → Bytes → ℕ → Option Buffer
unfolding filled moved of_list
strncpy d p text n =
    let s = take n (until_nul text) in
    if leb (p + n) d.size
    then some (moved (filled d p 0 n) p (of_list (length s) s) 0 (length s))
    else none
