-- ===== src/Base/Lists.antt =====
-- Lists of bytes measured by native numbers, under the library's names; texts as byte lists.
use Prim.Native.Nat.{ℕ, zero, suc, ◌+◌, ◌≤◌, min}
use Prim.Native.Char.{code}
use Prim.Native.String.{String}
use mathlib.Core.List.{List, [], ◌∷◌, ◌++◌}
use mathlib.Core.Bool.{Bool, true, false, ◌&&◌}
use mathlib.Core.Logic.{◌≢◌}
use mathlib.Core.Path.{◌≡◌, refl, ap}
use native.Mathlib.Omega.{arith}
use capstone_2025_team.Base.Tests.{◌==◌, if◌then◌else◌}

module _ {ℓ} {A : Type ℓ} where
  abbrev pub length : List A → ℕ
  length [] = 0
  length (x ∷ xs) = suc (length xs)

  abbrev pub take : ℕ → List A → List A
  take zero xs = []
  take (suc n) [] = []
  take (suc n) (x ∷ xs) = x ∷ take n xs

  abbrev pub drop : ℕ → List A → List A
  drop zero xs = xs
  drop (suc n) [] = []
  drop (suc n) (x ∷ xs) = drop n xs

  abbrev pub replicate : ℕ → A → List A
  replicate zero a = []
  replicate (suc n) a = a ∷ replicate n a

  abbrev pub get_or : List A → ℕ → A → A
  get_or [] i d = d
  get_or (x ∷ xs) zero d = x
  get_or (x ∷ xs) (suc i) d = get_or xs i d

  pub get_or-beyond : (xs : List A) (i : ℕ) (d : A) → length xs ≤ i → get_or xs i d ≡ d
  get_or-beyond [] i d h = refl
  get_or-beyond (x ∷ xs) zero d h = absurd (omega arith)
  get_or-beyond (x ∷ xs) (suc i) d h = get_or-beyond xs i d (omega arith)

  pub length-append : (xs ys : List A) → length (xs ++ ys) ≡ length xs + length ys
  length-append [] ys = omega arith
  length-append (x ∷ xs) ys = omega (arith, length-append xs ys)

  pub length-replicate : (n : ℕ) (a : A) → length (replicate n a) ≡ n
  length-replicate zero a = refl
  length-replicate (suc n) a = ap suc (length-replicate n a)

  pub take-of-le : (n : ℕ) (xs : List A) → length xs ≤ n → take n xs ≡ xs
  take-of-le zero [] h = refl
  take-of-le zero (x ∷ xs) h = absurd (omega arith)
  take-of-le (suc n) [] h = refl
  take-of-le (suc n) (x ∷ xs) h = ap (λ t. x ∷ t) (take-of-le n xs (omega arith))

  pub length-take : (n : ℕ) (xs : List A) → length (take n xs) ≡ min n (length xs)
  length-take zero xs = omega arith
  length-take (suc n) [] = omega arith
  length-take (suc n) (x ∷ xs) = omega (arith, length-take n xs)

abbrev pub Bytes : Type 0
Bytes = List ℕ

-- The bytes of an ASCII text.
abbrev pub codes : String → Bytes
codes String.[] = []
codes (String.◌∷◌ c s) = code c ∷ codes s

-- The bytes in front of the first NUL: what C's string functions see of an array.
abbrev pub until_nul : Bytes → Bytes
until_nul [] = []
until_nul (c ∷ s) = let rest = until_nul s in if c == 0 then [] else c ∷ rest

-- No byte is NUL.
abbrev pub NulFree : Bytes → Type 0
NulFree [] = Unit {0}
NulFree (c ∷ s) = (c ≢ 0) × NulFree s

pub until_nul-NulFree : (s : Bytes) → NulFree (until_nul s)
until_nul-NulFree [] = tt
until_nul-NulFree (c ∷ s) = ground (arith, until_nul-NulFree s)

pub until_nul-zeros : (s : Bytes) (k : ℕ) → until_nul (s ++ replicate k 0) ≡ until_nul s
until_nul-zeros [] zero = refl
until_nul-zeros [] (suc k) = refl
until_nul-zeros (c ∷ s) k = ground (arith, until_nul-zeros s k)

pub until_nul_of_NulFree : (s : Bytes) → NulFree s → until_nul s ≡ s
until_nul_of_NulFree [] h = refl
until_nul_of_NulFree (c ∷ s) h = ground (arith, until_nul_of_NulFree s h.1)

pub take-NulFree : (n : ℕ) (s : Bytes) → NulFree s → NulFree (take n s)
take-NulFree zero s h = tt
take-NulFree (suc n) [] h = tt
take-NulFree (suc n) (c ∷ s) h = (h.0, take-NulFree n s h.1)

pub length-until_nul : (s : Bytes) → length (until_nul s) ≤ length s
length-until_nul [] = omega arith
length-until_nul (c ∷ s) = ground (arith, length-until_nul s)

pub take-until_nul : (n : ℕ) (s : Bytes) → until_nul (take n s) ≡ take n (until_nul s)
take-until_nul zero s = refl
take-until_nul (suc n) [] = refl
take-until_nul (suc n) (c ∷ s) = ground (arith, take-until_nul n s)

-- strcmp(s, t) == 0
abbrev pub same_bytes : Bytes → Bytes → Bool
same_bytes [] [] = true
same_bytes [] (c ∷ t) = false
same_bytes (a ∷ s) [] = false
same_bytes (a ∷ s) (c ∷ t) = a == c && same_bytes s t
