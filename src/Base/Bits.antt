-- ===== src/Base/Bits.antt =====
-- `bit_or` at variables: its lowest digit, and numbers whose digits do not meet.
use Prim.Native.Nat.{
  ℕ, zero, suc, ◌+◌, ◌*◌, ◌/◌, ◌%◌, ◌^◌, ◌≤◌, ◌<◌, max, digits, bit_or, bit_or-bitwise,
}
use mathlib.Core.Path.{◌≡◌, refl, sym, ap, ◌∙◌}
use native.Mathlib.Nat.{pow-suc, pow-succ', mul_assoc}
use native.Mathlib.Omega.{arith}

abbrev or_digits : ℕ → ℕ → ℕ → ℕ
or_digits n a b = digits (λ b. b) max n a b

-- More rounds than the first number has digits change nothing.
or_digits-rounds : (n m a b : ℕ) → a ≤ n → a ≤ m → or_digits n a b ≡ or_digits m a b
or_digits-rounds zero zero a b h h' = refl
or_digits-rounds zero (suc m) zero b h h' = refl
or_digits-rounds zero (suc m) (suc a) b h h' = absurd (omega arith)
or_digits-rounds (suc n) zero zero b h h' = refl
or_digits-rounds (suc n) zero (suc a) b h h' = absurd (omega arith)
or_digits-rounds (suc n) (suc m) zero b h h' = refl
or_digits-rounds (suc n) (suc m) (suc a) b h h' =
    omega (arith, or_digits-rounds n m (suc a / 2) (b / 2) (omega arith) (omega arith))

pub zero-bit_or : (b : ℕ) → bit_or 0 b ≡ b
zero-bit_or b = bit_or-bitwise 0 b

pub bit_or_step : (a b : ℕ) → bit_or a b ≡ bit_or (a / 2) (b / 2) * 2 + max (a % 2) (b % 2)
bit_or_step zero b = omega (arith, zero-bit_or b, zero-bit_or (b / 2))
bit_or_step (suc a) b = omega (
  arith,
  bit_or-bitwise (suc a) b,
  bit_or-bitwise (suc a / 2) (b / 2),
  or_digits-rounds a (suc a / 2) (suc a / 2) (b / 2) (omega arith) (omega arith),
)

bit_or-zero_below : (n a : ℕ) → a ≤ n → bit_or a 0 ≡ a
bit_or-zero_below n zero h = zero-bit_or 0
bit_or-zero_below zero (suc a) h = absurd (omega arith)
bit_or-zero_below (suc n) (suc a) h =
    omega (arith, bit_or_step (suc a) 0, bit_or-zero_below n (suc a / 2) (omega arith))

pub bit_or-zero : (a : ℕ) → bit_or a 0 ≡ a
bit_or-zero a = bit_or-zero_below a a (omega arith)

bit_or-doubled : (y b : ℕ) → bit_or y (b / 2) ≡ y + b / 2 → bit_or (y * 2) b ≡ y * 2 + b
bit_or-doubled y b ih =
    let half : y * 2 / 2 ≡ y = omega arith in omega (arith, rw half at (bit_or_step (y * 2) b), ih)

-- The second number has its digits below those of the first.
pub bit_or-shifted : (k a b : ℕ) → b < 2 ^ k → bit_or (a * 2 ^ k) b ≡ a * 2 ^ k + b
bit_or-shifted zero a b h =
    let e : b ≡ 0 = omega (arith, h) in rw e (bit_or-zero (a * 1) ∙ omega arith)
bit_or-shifted (suc k) a b h =
    rw double (bit_or-doubled (a * 2 ^ k) b (bit_or-shifted k a (b / 2) (omega (arith, h, power))))
  where
    power : 2 ^ suc k ≡ 2 * 2 ^ k
    power = pow-succ' 2 k

    double : a * 2 ^ suc k ≡ a * 2 ^ k * 2
    double = ap (λ p. a * p) (pow-suc 2 k) ∙ sym (mul_assoc a (2 ^ k) 2)

bit_or-above_below : (n a b : ℕ) → b ≤ n → b ≤ bit_or a b
bit_or-above_below zero a zero h = omega arith
bit_or-above_below zero a (suc b) h = absurd (omega arith)
bit_or-above_below (suc n) a zero h = omega arith
bit_or-above_below (suc n) a (suc b) h =
    omega (arith, bit_or_step a (suc b), bit_or-above_below n (a / 2) (suc b / 2) (omega arith))

pub bit_or-above : (a b : ℕ) → b ≤ bit_or a b
bit_or-above a b = bit_or-above_below b a b (omega arith)
