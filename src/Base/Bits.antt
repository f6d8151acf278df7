-- ===== src/Base/Bits.antt =====
-- `bit_or` of a number shifted left and one that fits below the shift is their sum.
use Prim.Native.Nat.{bit_or, digits, bit_or-bitwise, max}
use Prim.Native.Nat.{ℕ, zero, suc, ◌+◌, ◌*◌, ◌/◌, ◌%◌, ◌^◌, ◌≤◌, ◌<◌}
use mathlib.Core.Path.{◌≡◌, refl, ◌∙◌}
use native.Mathlib.Nat.{two-pow-succ}
use native.Mathlib.Omega.{arith}

abbrev or_digits : ℕ → ℕ → ℕ → ℕ
or_digits n a b = digits (λ b. b) max n a b

-- The count of digits to go does not matter once it reaches the first number.
or_digits_fuel : (n m a b : ℕ) → a ≤ n → a ≤ m → or_digits n a b ≡ or_digits m a b
or_digits_fuel zero zero a b p q = refl
or_digits_fuel zero (suc m) zero b p q = refl
or_digits_fuel zero (suc m) (suc a) b p q = absurd (omega arith)
or_digits_fuel (suc n) zero zero b p q = refl
or_digits_fuel (suc n) zero (suc a) b p q = absurd (omega arith)
or_digits_fuel (suc n) (suc m) zero b p q = refl
or_digits_fuel (suc n) (suc m) (suc a) b p q =
    omega (arith, or_digits_fuel n m (suc a / 2) (b / 2) (omega arith) (omega arith))

zero-bit_or : (b : ℕ) → bit_or 0 b ≡ b
zero-bit_or b = bit_or-bitwise 0 b

bit_or_step : (a b : ℕ) → bit_or a b ≡ bit_or (a / 2) (b / 2) * 2 + max (a % 2) (b % 2)
bit_or_step zero b = omega (arith, zero-bit_or b, zero-bit_or (b / 2))
bit_or_step (suc a) b = omega (
  arith,
  bit_or-bitwise (suc a) b,
  bit_or-bitwise (suc a / 2) (b / 2),
  or_digits_fuel a (suc a / 2) (suc a / 2) (b / 2) (omega arith) (omega arith),
)

bit_or-zero_fuel : (n a : ℕ) → a ≤ n → bit_or a 0 ≡ a
bit_or-zero_fuel n zero h = refl
bit_or-zero_fuel zero (suc a) h = absurd (omega arith)
bit_or-zero_fuel (suc n) (suc a) h =
    omega (arith, bit_or_step (suc a) 0, bit_or-zero_fuel n (suc a / 2) (omega arith))

bit_or_halves : (a h : ℕ) (b : ℕ) → a ≡ 2 * h → bit_or a b ≡ bit_or h (b / 2) * 2 + b % 2
bit_or_halves a h b e =
    let half : a / 2 ≡ h = omega arith in
    let even : a % 2 ≡ 0 = omega arith in bit_or_step a b ∙ rw (half, even) (omega arith)

pub bit_or-shift : (k h l : ℕ) → l < 2 ^ k → bit_or (h * 2 ^ k) l ≡ h * 2 ^ k + l
bit_or-shift zero h l lt =
    let none_left : l ≡ 0 = omega arith in
    rw none_left (omega (arith, bit_or-zero_fuel (h * 1) (h * 1) (omega arith)))
bit_or-shift (suc k) h l lt =
    let e : h * 2 ^ suc k ≡ 2 * (h * 2 ^ k) = rw (two-pow-succ k) (grind arith) in
    bit_or_halves (h * 2 ^ suc k) (h * 2 ^ k) l e
    ∙ rw (bit_or-shift k h (l / 2) (omega (arith, two-pow-succ k))) (omega arith)
