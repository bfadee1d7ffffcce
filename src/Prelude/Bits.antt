-- ===== src/Prelude/Bits.antt =====
-- The exclusive or of two numbers with no digit in common is their sum.
use Prim.Native.Nat.{
  ℕ, zero, suc, ◌+◌, ◌*◌, ◌/◌, ◌%◌, ◌^◌, ◌≤◌, ◌<◌, bit_xor, digits, bit_xor-bitwise, differ,
}
use mathlib.Core.Path.{◌≡◌, refl, ◌∙◌}
use native.Mathlib.Nat.{pow-suc}
use native.Mathlib.Omega.{arith}

abbrev xor_digits : ℕ → ℕ → ℕ → ℕ
xor_digits n a b = digits (λ b. b) differ n a b

xor_digits_fuel : (n m a b : ℕ) → a ≤ n → a ≤ m → xor_digits n a b ≡ xor_digits m a b
xor_digits_fuel zero zero a b p q = refl
xor_digits_fuel zero (suc m) zero b p q = refl
xor_digits_fuel zero (suc m) (suc a) b p q = absurd (omega arith)
xor_digits_fuel (suc n) zero zero b p q = refl
xor_digits_fuel (suc n) zero (suc a) b p q = absurd (omega arith)
xor_digits_fuel (suc n) (suc m) zero b p q = refl
xor_digits_fuel (suc n) (suc m) (suc a) b p q =
    omega (arith, xor_digits_fuel n m (suc a / 2) (b / 2) (omega arith) (omega arith))

pub zero-bit_xor : (b : ℕ) → bit_xor 0 b ≡ b
zero-bit_xor b = bit_xor-bitwise 0 b

differ-zero : (x : ℕ) → differ x 0 ≡ x
differ-zero zero = refl
differ-zero (suc x) = refl

-- The lowest digit, where the second number is even or the first is.
bit_xor_step : (a b : ℕ) → bit_xor a b ≡ bit_xor (a / 2) (b / 2) * 2 + differ (a % 2) (b % 2)
bit_xor_step zero b = omega (arith, zero-bit_xor b, zero-bit_xor (b / 2))
bit_xor_step (suc a) b = omega (
  arith,
  bit_xor-bitwise (suc a) b,
  bit_xor-bitwise (suc a / 2) (b / 2),
  xor_digits_fuel a (suc a / 2) (suc a / 2) (b / 2) (omega arith) (omega arith),
)

bit_xor-zero_fuel : (n a : ℕ) → a ≤ n → bit_xor a 0 ≡ a
bit_xor-zero_fuel n zero h = zero-bit_xor 0
bit_xor-zero_fuel zero (suc a) h = absurd (omega arith)
bit_xor-zero_fuel (suc n) (suc a) h = omega (
  arith,
  bit_xor_step (suc a) 0,
  bit_xor-zero_fuel n (suc a / 2) (omega arith),
  differ-zero (suc a % 2),
)

double_shift : (k hi : ℕ) → hi * 2 ^ suc k ≡ hi * 2 ^ k * 2
double_shift k hi = rw (pow-suc 2 k) (grind arith)

-- The digits of `even * 2` are those of `even`, one place up.
bit_xor-even : (even lo : ℕ) → bit_xor (even * 2) lo ≡ bit_xor even (lo / 2) * 2 + lo % 2
bit_xor-even even lo =
    let half : even * 2 / 2 ≡ even = omega arith in
    let low : even * 2 % 2 ≡ 0 = omega arith in bit_xor_step (even * 2) lo ∙ rw (half, low)

-- A field shifted up by k digits, and a field below it.
pub bit_xor-disjoint : (k hi lo : ℕ) → lo < 2 ^ k → bit_xor (hi * 2 ^ k) lo ≡ hi * 2 ^ k + lo
bit_xor-disjoint zero hi lo h =
    let e : lo ≡ 0 = omega arith in
    rw e (omega (arith, bit_xor-zero_fuel (hi * 2 ^ 0) (hi * 2 ^ 0) (omega arith)))
bit_xor-disjoint (suc k) hi lo h = rw (double_shift k hi) (
    omega (
      arith,
      bit_xor-even (hi * 2 ^ k) lo,
      bit_xor-disjoint k hi (lo / 2) (omega (arith, pow-suc 2 k)),
    ))
