-- ===== src/Base/Xor.antt =====
-- `bit_xor` by the lowest digits, and that it undoes itself.
use Prim.Native.Nat.{bit_xor, digits, bit_xor-bitwise, differ}
use Prim.Native.Nat.{ℕ, zero, suc, ◌+◌, ◌*◌, ◌/◌, ◌%◌, ◌≤◌, ◌<◌}
use mathlib.Core.Path.{◌≡◌, refl, ◌∙◌}
use native.Mathlib.Omega.{arith}

abbrev xor_digits : ℕ → ℕ → ℕ → ℕ
xor_digits n a b = digits (λ b. b) differ n a b

-- The count of digits to go does not matter once it reaches the first number.
xor_digits_fuel : (n m a b : ℕ) → a ≤ n → a ≤ m → xor_digits n a b ≡ xor_digits m a b
xor_digits_fuel zero zero a b p q = refl
xor_digits_fuel zero (suc m) zero b p q = refl
xor_digits_fuel zero (suc m) (suc a) b p q = absurd (omega arith)
xor_digits_fuel (suc n) zero zero b p q = refl
xor_digits_fuel (suc n) zero (suc a) b p q = absurd (omega arith)
xor_digits_fuel (suc n) (suc m) zero b p q = refl
xor_digits_fuel (suc n) (suc m) (suc a) b p q =
    omega (arith, xor_digits_fuel n m (suc a / 2) (b / 2) (omega arith) (omega arith))

abbrev Digit : ℕ → Type 0
Digit a = a < 2

differ_zero : (b : ℕ) → Digit b → differ 0 b ≡ b
differ_zero zero h = refl
differ_zero (suc zero) h = refl
differ_zero (suc (suc b)) h = absurd (omega arith)

differ-Digit : (a b : ℕ) → Digit a → Digit b → Digit (differ a b)
differ-Digit zero zero h k = omega arith
differ-Digit zero (suc zero) h k = omega arith
differ-Digit (suc zero) zero h k = omega arith
differ-Digit (suc zero) (suc zero) h k = omega arith
differ-Digit (suc (suc a)) b h k = absurd (omega arith)
differ-Digit a (suc (suc b)) h k = absurd (omega arith)

differ-differ : (a b : ℕ) → Digit a → Digit b → differ (differ a b) b ≡ a
differ-differ zero zero h k = refl
differ-differ zero (suc zero) h k = refl
differ-differ (suc zero) zero h k = refl
differ-differ (suc zero) (suc zero) h k = refl
differ-differ (suc (suc a)) b h k = absurd (omega arith)
differ-differ a (suc (suc b)) h k = absurd (omega arith)

zero-bit_xor : (b : ℕ) → bit_xor 0 b ≡ b
zero-bit_xor b = bit_xor-bitwise 0 b

bit_xor_step : (a b : ℕ) → bit_xor a b ≡ bit_xor (a / 2) (b / 2) * 2 + differ (a % 2) (b % 2)
bit_xor_step zero b =
    omega (arith, zero-bit_xor b, zero-bit_xor (b / 2), differ_zero (b % 2) (omega arith))
bit_xor_step (suc a) b = omega (
  arith,
  bit_xor-bitwise (suc a) b,
  bit_xor-bitwise (suc a / 2) (b / 2),
  xor_digits_fuel a (suc a / 2) (suc a / 2) (b / 2) (omega arith) (omega arith),
)

halves : (n q r : ℕ) → n ≡ q * 2 + r → Digit r → (n / 2 ≡ q) × (n % 2 ≡ r)
halves n q r e h = (omega arith, omega arith)

-- Both numbers below the fuel.
bit_xor_fuel : (n a b : ℕ) → a ≤ n → b ≤ n → bit_xor (bit_xor a b) b ≡ a
bit_xor_fuel zero zero zero p q = refl
bit_xor_fuel zero (suc a) b p q = absurd (omega arith)
bit_xor_fuel zero zero (suc b) p q = absurd (omega arith)
bit_xor_fuel (suc n) a b p q =
    let low = differ-Digit (a % 2) (b % 2) (omega arith) (omega arith) in
    let (half, rest) = halves (bit_xor a b) _ _ (bit_xor_step a b) low in
    let inner = bit_xor_fuel n (a / 2) (b / 2) (omega arith) (omega arith) in
    let lowest = differ-differ (a % 2) (b % 2) (omega arith) (omega arith) in
    bit_xor_step (bit_xor a b) b ∙ rw (half, rest, inner, lowest) (omega arith)

pub bit_xor-bit_xor : (a b : ℕ) → bit_xor (bit_xor a b) b ≡ a
bit_xor-bit_xor a b = bit_xor_fuel (a + b) a b (omega arith) (omega arith)
