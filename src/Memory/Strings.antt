-- ===== src/Memory/Strings.antt =====
-- C strings in arrays: what `safe_strlen` returns, and what a copied string reads as.
use capstone_2025_team.Base.{
  ℕ, none, zero, suc, ◌+◌, ◌-◌, ◌≤◌, ◌<◌, ◌≡◌, refl, ap, ◌∙◌, sym, some, ◌∷◌, arith, ◌==◌,
  Bool-cases, inl, inr, length, take, until_nul, until_nul-zeros, take-until_nul,
}
use capstone_2025_team.Memory.{Buffer, bytes, c_string, filled, moved, safe_strlen}
use capstone_2025_team.Memory.Copies.{take-bytes, bytes-moved-filled}

-- Inside the array, `safe_strlen` counts the bytes in front of the first NUL.
pub safe_strlen_lem :
    (b : Buffer) (p n : ℕ) → p + n ≤ b.size → safe_strlen b p n ≡ some (length (c_string b p n))
unfolding safe_strlen
safe_strlen_lem b p zero h = refl
safe_strlen_lem b p (suc n) h = ground (arith, safe_strlen_lem b (suc p) n)

-- A NUL at position p + k ends the count, whatever the bound.
pub safe_strlen_terminated :
    (b : Buffer) (p k n : ℕ)
    → p + k < b.size
    → b.byte (p + k) ≡ 0
    → safe_strlen b p n ≡ some (length (take n (c_string b p k)))
unfolding safe_strlen
safe_strlen_terminated b p zero zero h e = refl
safe_strlen_terminated b p zero (suc n) h e = ground arith
safe_strlen_terminated b p (suc k) zero h e = refl
safe_strlen_terminated b p (suc k) (suc n) h e =
    ground (arith, safe_strlen_terminated b (suc p) k n)

-- The bytes of a string are those in front of its NUL.
bytes-c_string : (b : Buffer) (p n : ℕ) → bytes b p (length (c_string b p n)) ≡ c_string b p n
bytes-c_string b p zero = refl
bytes-c_string b p (suc n) = elim (Bool-cases (b.byte p == 0)) [
  | inl e ↦ rw e
  | inr e ↦ rw e (ap (λ t. b.byte p ∷ t) (bytes-c_string b (suc p) n))
]

-- A string copied into a zeroed array reads as that string.
pub c_string-moved-filled :
    (d : Buffer) (p n : ℕ) (s : Buffer) (q k : ℕ)
    → k ≤ n
    → c_string (moved (filled d p 0 n) p s q k) p n ≡ c_string s q k
c_string-moved-filled d p n s q k h =
    ap until_nul (bytes-moved-filled d p n s q k h) ∙ until_nul-zeros (bytes s q k) (n - k)

-- A shorter look at a string sees its first bytes.
pub c_string-take : (b : Buffer) (p k n : ℕ) → k ≤ n → c_string b p k ≡ take k (c_string b p n)
c_string-take b p k n h = ap until_nul (sym (take-bytes k b p n h)) ∙ take-until_nul k (bytes b p n)

-- The bytes at the front of a string are a string of that length.
pub c_string_prefix :
    (b : Buffer) (p k n : ℕ)
    → c_string b p (length (take n (c_string b p k))) ≡ take n (c_string b p k)
c_string_prefix b p zero zero = refl
c_string_prefix b p zero (suc n) = refl
c_string_prefix b p (suc k) zero = refl
c_string_prefix b p (suc k) (suc n) = ground (arith, c_string_prefix b (suc p) k n)

-- A string cut at n bytes is at most n long, and no longer than its array.
pub length-take-c_string :
    (b : Buffer) (p k n : ℕ)
    → (length (take n (c_string b p k)) ≤ n) × (length (take n (c_string b p k)) ≤ k)
length-take-c_string b p zero zero = omega arith
length-take-c_string b p zero (suc n) = omega arith
length-take-c_string b p (suc k) zero = omega arith
length-take-c_string b p (suc k) (suc n) = ground (arith, length-take-c_string b (suc p) k n)

-- A string outside its array cannot be looked at.
pub safe_strlen_outside : (b : Buffer) (p n : ℕ) → b.size ≤ p → 0 < n → safe_strlen b p n ≡ none
unfolding safe_strlen
safe_strlen_outside b p zero h h' = absurd (omega arith)
safe_strlen_outside b p (suc n) h h' = ground arith

-- A NUL ends the string, however far one looks.
pub c_string_ended :
    (b : Buffer) (p k n : ℕ) → b.byte (p + k) ≡ 0 → k < n → c_string b p n ≡ c_string b p k
c_string_ended b p k zero e h = absurd (omega arith)
c_string_ended b p zero (suc n) e h = ground arith
c_string_ended b p (suc k) (suc n) e h = ground (arith, c_string_ended b (suc p) k n)

pub length-c_string : (b : Buffer) (p n : ℕ) → length (c_string b p n) ≤ n
length-c_string b p zero = omega arith
length-c_string b p (suc n) = ground (arith, length-c_string b (suc p) n)

-- Looking no further than its length shows the whole string.
pub c_string_whole :
    (b : Buffer) (p n : ℕ) → c_string b p (length (c_string b p n)) ≡ c_string b p n
c_string_whole b p zero = refl
c_string_whole b p (suc n) = ground (arith, c_string_whole b (suc p) n)
