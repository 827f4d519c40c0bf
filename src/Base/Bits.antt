-- ===== src/Base/Bits.antt =====
-- The bitwise or of fields that do not overlap is their sum.
use Prim.Native.Nat.{
  ℕ, zero, suc, ◌+◌, ◌*◌, ◌/◌, ◌%◌, ◌^◌, ◌≤◌, ◌<◌, max, digits, bit_or, bit_or-bitwise,
}
use mathlib.Core.Path.{◌≡◌, refl, ap}
use native.Mathlib.Nat.{pow-suc}
use native.Mathlib.Omega.{arith}

abbrev or_digits : ℕ → ℕ → ℕ → ℕ
or_digits fuel x y = digits (λ d. d) max fuel x y

or_digits_enough : (f g x y : ℕ) → x ≤ f → x ≤ g → or_digits f x y ≡ or_digits g x y
or_digits_enough zero zero x y p q = refl
or_digits_enough zero (suc g) zero y p q = refl
or_digits_enough zero (suc g) (suc x) y p q = absurd (omega arith)
or_digits_enough (suc f) zero zero y p q = refl
or_digits_enough (suc f) zero (suc x) y p q = absurd (omega arith)
or_digits_enough (suc f) (suc g) zero y p q = refl
or_digits_enough (suc f) (suc g) (suc x) y p q =
    omega (arith, or_digits_enough f g (suc x / 2) (y / 2) (omega arith) (omega arith))

zero-bit_or : (y : ℕ) → bit_or 0 y ≡ y
zero-bit_or y = bit_or-bitwise 0 y

bit_or_halves : (x y : ℕ) → bit_or x y ≡ 2 * bit_or (x / 2) (y / 2) + max (x % 2) (y % 2)
bit_or_halves zero y = omega (arith, zero-bit_or y, zero-bit_or (y / 2))
bit_or_halves (suc x) y = omega (
  arith,
  bit_or-bitwise (suc x) y,
  bit_or-bitwise (suc x / 2) (y / 2),
  or_digits_enough x (suc x / 2) (suc x / 2) (y / 2) (omega arith) (omega arith),
)

bit_or-zero_fuel : (fuel x : ℕ) → x ≤ fuel → bit_or x 0 ≡ x
bit_or-zero_fuel fuel zero h = refl
bit_or-zero_fuel zero (suc x) h = absurd (omega arith)
bit_or-zero_fuel (suc fuel) (suc x) h =
    omega (arith, bit_or_halves (suc x) 0, bit_or-zero_fuel fuel (suc x / 2) (omega arith))

double_shift : (hi k : ℕ) → hi * 2 ^ suc k ≡ 2 * (hi * 2 ^ k)
double_shift hi k = omega (arith, ap (λ (p : ℕ). hi * p) (pow-suc 2 k))

pub bit_or-add : (k hi lo : ℕ) → lo < 2 ^ k → bit_or (hi * 2 ^ k) lo ≡ hi * 2 ^ k + lo
bit_or-add zero hi lo h = ground (arith, bit_or-zero_fuel hi hi)
bit_or-add (suc k) hi lo h = ground (
  arith,
  bit_or_halves (hi * 2 ^ suc k) lo,
  double_shift hi k,
  pow-suc 2 k,
  bit_or-add k hi (lo / 2),
)

bit_or_comm_fuel : (fuel x y : ℕ) → x + y ≤ fuel → bit_or x y ≡ bit_or y x
bit_or_comm_fuel fuel zero y h = omega (arith, zero-bit_or y, bit_or-zero_fuel y y)
bit_or_comm_fuel zero (suc x) y h = absurd (omega arith)
bit_or_comm_fuel (suc fuel) (suc x) y h = omega (
  arith,
  bit_or_halves (suc x) y,
  bit_or_halves y (suc x),
  bit_or_comm_fuel fuel (suc x / 2) (y / 2) (omega arith),
)

pub bit_or_comm : (x y : ℕ) → bit_or x y ≡ bit_or y x
bit_or_comm x y = bit_or_comm_fuel (x + y) x y (omega arith)
