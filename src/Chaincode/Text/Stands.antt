-- ===== src/Chaincode/Text/Stands.antt =====
-- Strings that stand in the linear memory, and what the chaincode's helpers make of them.
use capstone_2025_team.Base.{
  ℕ, zero, suc, ◌+◌, ◌-◌, ◌*◌, ◌%◌, ◌<◌, ◌≤◌, ◌≡◌, refl, sym, ap, ◌∙◌, false, some, [], ◌∷◌, Bytes,
  arith, length, until_nul, NulFree, same_bytes, ◌==◌, if◌then◌else◌, inl, inr, Bool-cases,
}
use capstone_2025_team.Memory.{Buffer, c_string, SameOutside, read, store}
use capstone_2025_team.Memory.Copies.{Apart, bytes_ext}
use capstone_2025_team.Memory.Strings.{c_string_ended, c_string_whole}
use capstone_2025_team.Chaincode.Text.{s_strlen, s_memset, s_streq, s_strlen_lem}
use capstone_2025_team.Chaincode.Decimal.{
  ulong_mod, is_digit, s_atoul_from, s_atoul, s_atoul_at, put_text,
}

-- The string s stands in the k bytes at p, with its NUL.
abbrev pub Stands : Buffer → ℕ → ℕ → Bytes → Type 0
Stands m p k s = (c_string m p k ≡ s) × (length s < k) × (p + k ≤ m.size)

nul_at :
    (m : Buffer) (p k : ℕ) → length (c_string m p k) < k → m.byte (p + length (c_string m p k)) ≡ 0
nul_at m p zero h = absurd (omega (arith, h))
nul_at m p (suc k) h = ground (arith, nul_at m (suc p) k)

-- A string ends in its NUL.
pub Stands-ends :
    (m : Buffer) (p k : ℕ) (s : Bytes)
    → Stands m p k s
    → (m.byte (p + length s) ≡ 0) × (p + length s < m.size) × (c_string m p (length s) ≡ s)
Stands-ends m p k s (is, short, inside) =
    let short' : length (c_string m p k) < k = rw is short in
    (
      ap (λ t. m.byte (p + length t)) (sym is) ∙ nul_at m p k short',
      omega (arith, short, inside),
      ap (λ t. c_string m p (length t)) (sym is) ∙ c_string_whole m p k ∙ is,
    )

pub s_strlen-Stands :
    (m : Buffer) (p k : ℕ) (s : Bytes)
    → Stands m p k s
    → 0 < p
    → s_strlen (suc m.size) m p ≡ some (length s)
s_strlen-Stands m p k s stands some_p =
    let (ends, inside, whole) = Stands-ends m p k s stands in
    s_strlen_lem m p (length s) (suc m.size) some_p inside ends (omega (arith, inside))
    ∙ ap (λ t. some (length t)) whole

-- The first byte is a NUL exactly when the string is empty.
pub read-empty : (m : Buffer) (p k : ℕ) → Stands m p k [] → read m p ≡ some 0
unfolding read
read-empty m p zero stands = absurd (omega (arith, stands.1))
read-empty m p (suc k) stands = ground (arith, stands.0, stands.2)

pub read-cons :
    (m : Buffer) (p k c : ℕ) (s : Bytes)
    → Stands m p k (c ∷ s)
    → (read m p ≡ some c) × ((c == 0) ≡ false)
unfolding read
read-cons m p zero c s stands = absurd (omega (arith, stands.1))
read-cons m p (suc k) c s stands = (ground (arith, stands.0, stands.2), ground (arith, stands.0))

pub Stands-tail :
    (m : Buffer) (p k c : ℕ) (s : Bytes) → Stands m p (suc k) (c ∷ s) → Stands m (suc p) k s
Stands-tail m p k c s (is, short, inside) =
    (ground (arith, is), omega (arith, short), omega (arith, inside))

-- A write elsewhere leaves the string.
pub Stands-apart :
    (m m' : Buffer) (q n p k : ℕ) (s : Bytes)
    → m'.size ≡ m.size
    → SameOutside q n m' m
    → Apart q n p k
    → Stands m p k s
    → Stands m' p k s
Stands-apart m m' q n p k s size same apart (is, short, inside) = (
  ap until_nul (bytes_ext m' m p p k (λ i lt. ground (arith, same (p + i)))) ∙ is,
  short,
  rw size inside,
)

-- A filled range holds the byte; the rest stays.
abbrev pub Filled : Buffer → ℕ → ℕ → ℕ → Buffer → Type 0
Filled m p v n m' =
    (m'.size ≡ m.size) × SameOutside p n m' m × ((i : ℕ) → i < n → m'.byte (p + i) ≡ v)

store_first : Buffer → ℕ → ℕ → Buffer
store_first m p v = record { size = m.size; byte = λ a. if a == p then v else m.byte a }

store_first_lem : (m : Buffer) (p v : ℕ) → p < m.size → store m p v ≡ some (store_first m p v)
unfolding store store_first
store_first_lem m p v h = ground arith

store_first-outside :
    (m m' : Buffer) (p v n : ℕ)
    → SameOutside (suc p) n m' (store_first m p v)
    → SameOutside p (suc n) m' m
unfolding store_first
store_first-outside m m' p v n outside a = ground (arith, outside a)

pub s_memset-Filled :
    (m : Buffer) (p v n : ℕ)
    → p + n ≤ m.size
    → (m' : Buffer) × (s_memset m p v n ≡ some m') × Filled m p v n m'
unfolding s_memset
s_memset-Filled m p v zero h = (m, refl, (refl, (λ a. refl), λ i lt. absurd (omega (arith, lt))))
s_memset-Filled m p v (suc n) h =
    let m1 = store_first m p v in
    let same : m1.size ≡ m.size = unfold store_first in refl in
    let (m', run, (size, outside, filled)) =
      s_memset-Filled m1 (suc p) v n (omega (arith, h, same)) in
    (
      m',
      rw (store_first_lem m p v (omega (arith, h))) run,
      (
        size ∙ same,
        store_first-outside m m' p v n outside,
        λ i lt. filled_at m' i lt filled outside,
      ),
    )
  where
    filled_at :
        (m' : Buffer) (i : ℕ)
        → i < suc n
        → ((j : ℕ) → j < n → m'.byte (suc p + j) ≡ v)
        → SameOutside (suc p) n m' (store_first m p v)
        → m'.byte (p + i) ≡ v
    filled_at m' zero lt filled outside = unfold store_first in ground (arith, outside (p + 0))
    filled_at m' (suc i) lt filled outside = ground (arith, filled i)

-- A cleared array is an empty string.
pub Filled-empty :
    (m m' : Buffer) (p n : ℕ) → p + n ≤ m.size → 0 < n → Filled m p 0 n m' → Stands m' p n []
Filled-empty m m' p zero h some_len is = absurd (omega (arith, some_len))
Filled-empty m m' p (suc n) h some_len (size, outside, filled) =
    (ground (arith, filled 0), some_len, rw size h)

-- The comparison with a literal.
pub s_streq-Stands :
    (m : Buffer) (p k : ℕ) (s t : Bytes)
    → Stands m p k s
    → NulFree t
    → s_streq m p t ≡ some (same_bytes s t)
unfolding s_streq
s_streq-Stands m p k [] [] stands free = rw (read-empty m p k stands) refl
s_streq-Stands m p k [] (b ∷ t) stands free =
    let first = read-empty m p k stands in ground (arith, first, free.0)
s_streq-Stands m p k (c ∷ s) [] stands free =
    let (first, some_byte) = read-cons m p k c s stands in rw (first, some_byte) refl
s_streq-Stands m p zero (c ∷ s) (b ∷ t) stands free = absurd (omega (arith, stands.1))
s_streq-Stands m p (suc k) (c ∷ s) (b ∷ t) stands free =
    let (first, some_byte) = read-cons m p (suc k) c s stands in
    let rest = s_streq-Stands m (suc p) k s t (Stands-tail m p k c s stands) free.1 in
    elim (Bool-cases (c == b)) [
      | inl same ↦ rw (first, same, some_byte) rest
      | inr other ↦ rw (first, other) refl
    ]

nonzero : (p : ℕ) → 0 < p → (p == 0) ≡ false
nonzero p q = ground arith

-- The parse reads the string up to its first byte that is no digit.
s_atoul_at-from :
    (m : Buffer) (s : Bytes) (p k fuel v : ℕ)
    → Stands m p k s
    → length s < fuel
    → 0 < p
    → s_atoul_at fuel m p v ≡ some (s_atoul_from v s)
unfolding s_atoul_at s_atoul_from
s_atoul_at-from m s p k zero v stands enough q = absurd (omega (arith, enough))
s_atoul_at-from m [] p k (suc fuel) v stands enough q =
    rw (nonzero p q, read-empty m p k stands) refl
s_atoul_at-from m (c ∷ s) p zero (suc fuel) v stands enough q = absurd (omega (arith, stands.1))
s_atoul_at-from m (c ∷ s) p (suc k) (suc fuel) v stands enough q =
    let (first, some_byte) = read-cons m p (suc k) c s stands in
    let next =
      s_atoul_at-from m s (suc p) k fuel ((v * 10 + (c - b'0')) % ulong_mod)
        (Stands-tail m p k c s stands) (omega (arith, enough)) (omega arith) in
    elim (Bool-cases (is_digit c)) [
      | inl digit ↦ rw (nonzero p q, first, digit) next
      | inr other ↦ rw (nonzero p q, first, other) refl
    ]

pub s_atoul-Stands :
    (m : Buffer) (p k : ℕ) (s : Bytes)
    → Stands m p k s
    → 0 < p
    → s_atoul_at (suc m.size) m p 0 ≡ some (s_atoul s)
unfolding s_atoul
s_atoul-Stands m p k s stands some_p =
    s_atoul_at-from m s p k (suc m.size) 0 stands (omega (arith, stands.1, stands.2)) some_p

-- A text is put with its NUL, and the rest of the memory stays.
pub put_text-Stands :
    (s : Bytes) (m : Buffer) (p : ℕ)
    → NulFree s
    → p + length s < m.size
    → (m' : Buffer) × (put_text m p s ≡ some m')
      × (m'.size ≡ m.size)
      × SameOutside p (suc (length s)) m' m
      × Stands m' p (suc (length s)) s
unfolding put_text
put_text-Stands [] m p free h =
    let m1 = store_first m p 0 in
    (
      m1,
      store_first_lem m p 0 (omega (arith, h)),
      unfold store_first in refl,
      store_first-outside m m1 p 0 0 (λ a. refl),
      (unfold store_first in ground arith, omega arith, unfold store_first in omega (arith, h)),
    )
put_text-Stands (c ∷ s) m p free h =
    let m1 = store_first m p c in
    let same : m1.size ≡ m.size = unfold store_first in refl in
    let (m', run, size, outside, stands) =
      put_text-Stands s m1 (suc p) free.1 (omega (arith, h, same)) in
    (
      m',
      rw (store_first_lem m p c (omega (arith, h))) run,
      size ∙ same,
      store_first-outside m m' p c (suc (length s)) outside,
      (headed m' outside stands.0, omega arith, omega (arith, h, size, same)),
    )
  where
    headed :
        (m' : Buffer)
        → SameOutside (suc p) (suc (length s)) m' (store_first m p c)
        → c_string m' (suc p) (suc (length s)) ≡ s
        → c_string m' p (suc (suc (length s))) ≡ c ∷ s
    headed m' outside is = unfold store_first in ground (arith, outside p, is, free.0)

pub Stands-wider :
    (m : Buffer) (p k n : ℕ) (s : Bytes) → k ≤ n → p + n ≤ m.size → Stands m p k s → Stands m p n s
Stands-wider m p k n s wider inside stands =
    let (ends, room, whole) = Stands-ends m p k s stands in
    (
      c_string_ended m p (length s) n ends (omega (arith, wider, stands.1)) ∙ whole,
      omega (arith, wider, stands.1),
      inside,
    )

-- Two writes inside one range.
pub SameOutside-trans :
    (m m1 m2 : Buffer) (p k n : ℕ)
    → k ≤ n
    → SameOutside p k m2 m1
    → SameOutside p n m1 m
    → SameOutside p n m2 m
SameOutside-trans m m1 m2 p k n wider later earlier a = ground (arith, later a, earlier a)
