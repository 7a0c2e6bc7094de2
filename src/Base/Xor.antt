-- ===== src/Base/Xor.antt =====
-- `bit_xor` at variables, from its definition by binary digits.
use Prim.Native.Nat.{bit_xor, digits, bitwise, differ, bit_xor-bitwise}
use Prim.Native.Nat.{ℕ, zero, suc, ◌+◌, ◌*◌, ◌/◌, ◌%◌, ◌^◌, ◌≤◌, ◌<◌}
use mathlib.Core.Path.{◌≡◌, refl, ap}
use native.Mathlib.Omega.{arith}
use native.Mathlib.Nat.{le_refl, pow-suc}

abbrev same : ℕ → ℕ
same b = b

-- More fuel than the first number makes no difference.
differ_fuel : (n m a b : ℕ) → a ≤ n → a ≤ m → digits same differ n a b ≡ digits same differ m a b
differ_fuel zero zero a b p q = refl
differ_fuel zero (suc m) zero b p q = refl
differ_fuel zero (suc m) (suc a) b p q = absurd (omega arith)
differ_fuel (suc n) zero zero b p q = refl
differ_fuel (suc n) zero (suc a) b p q = absurd (omega arith)
differ_fuel (suc n) (suc m) zero b p q = refl
differ_fuel (suc n) (suc m) (suc a) b p q =
    rw (differ_fuel n m (suc a / 2) (b / 2) (omega arith) (omega arith))

differ-suc :
    (a b : ℕ)
    → bitwise same differ (suc a) b
      ≡ bitwise same differ (suc a / 2) (b / 2) * 2 + differ (suc a % 2) (b % 2)
differ-suc a b =
    omega (arith, differ_fuel a (suc a / 2) (suc a / 2) (b / 2) (omega arith) (le_refl _))

differ-digit : (a b : ℕ) → a < 2 → b < 2 → differ a b ≡ (a + b) % 2
differ-digit zero b h k = omega arith
differ-digit (suc zero) zero h k = refl
differ-digit (suc zero) (suc zero) h k = refl
differ-digit (suc zero) (suc (suc b)) h k = absurd (omega arith)
differ-digit (suc (suc a)) b h k = absurd (omega arith)

-- One equation for the lowest digit.
pub bit_xor_step : (a b : ℕ) → bit_xor a b ≡ bit_xor (a / 2) (b / 2) * 2 + (a % 2 + b % 2) % 2
bit_xor_step zero b = simp bit_xor-bitwise (omega arith)
bit_xor_step (suc a) b =
    simp bit_xor-bitwise
      (omega (arith, differ-suc a b, differ-digit (suc a % 2) (b % 2) (omega arith) (omega arith)))

-- A number below 2 ^ k has k digits.
pub bit_xor-lt : (k a b : ℕ) → a < 2 ^ k → b < 2 ^ k → bit_xor a b < 2 ^ k
bit_xor-lt zero zero zero h k = omega arith
bit_xor-lt zero zero (suc b) h k = absurd (omega arith)
bit_xor-lt zero (suc a) b h k = absurd (omega arith)
bit_xor-lt (suc k) a b h g = omega (
  arith,
  bit_xor_step a b,
  pow-suc 2 k,
  bit_xor-lt k (a / 2) (b / 2) (omega (arith, pow-suc 2 k)) (omega (arith, pow-suc 2 k)),
)

pub bit_xor_self : (k a : ℕ) → a < 2 ^ k → bit_xor a a ≡ 0
bit_xor_self zero zero h = refl
bit_xor_self zero (suc a) h = absurd (omega arith)
bit_xor_self (suc k) a h =
    omega (arith, bit_xor_step a a, bit_xor_self k (a / 2) (omega (arith, pow-suc 2 k)))

bit_xor-zero_fuel : (n a : ℕ) → a ≤ n → bit_xor a 0 ≡ a
bit_xor-zero_fuel n zero h = refl
bit_xor-zero_fuel zero (suc a) h = absurd (omega arith)
bit_xor-zero_fuel (suc n) (suc a) h =
    omega (arith, bit_xor_step (suc a) 0, bit_xor-zero_fuel n (suc a / 2) (omega arith))

pub bit_xor-zero : (a : ℕ) → bit_xor a 0 ≡ a
bit_xor-zero a = bit_xor-zero_fuel a a (omega arith)

double : (h k : ℕ) → h * 2 ^ suc k ≡ 2 * (h * 2 ^ k)
double h k = omega (arith, ap (λ (t : ℕ). h * t) (pow-suc 2 k))

-- The low digits cancel, and the high ones stay.
pub bit_xor-low : (k h l : ℕ) → l < 2 ^ k → bit_xor (h * 2 ^ k + l) l ≡ h * 2 ^ k
bit_xor-low zero h zero lt = rw bit_xor-zero (omega arith)
bit_xor-low zero h (suc l) lt = absurd (omega arith)
bit_xor-low (suc k) h l lt = ground (
  arith,
  bit_xor_step (h * 2 ^ suc k + l) l,
  double h k,
  pow-suc 2 k,
  bit_xor-low k h (l / 2) (omega (arith, pow-suc 2 k)),
)

digit_back : (x y : ℕ) → x < 2 → y < 2 → ((x + y) % 2 + y) % 2 ≡ x
digit_back x y h k = omega arith

-- The same number twice cancels, on either side.
pub bit_xor_cancel : (k a b : ℕ) → a < 2 ^ k → b < 2 ^ k → bit_xor (bit_xor a b) b ≡ a
bit_xor_cancel zero zero zero h g = refl
bit_xor_cancel zero zero (suc b) h g = absurd (omega arith)
bit_xor_cancel zero (suc a) b h g = absurd (omega arith)
bit_xor_cancel (suc k) a b h g = ground (
  arith,
  bit_xor_step a b,
  bit_xor_step (bit_xor a b) b,
  bit_xor_cancel k (a / 2) (b / 2) (omega (arith, pow-suc 2 k)) (omega (arith, pow-suc 2 k)),
)

pub bit_xor_comm : (k a b : ℕ) → a < 2 ^ k → b < 2 ^ k → bit_xor a b ≡ bit_xor b a
bit_xor_comm zero zero zero h g = refl
bit_xor_comm zero zero (suc b) h g = absurd (omega arith)
bit_xor_comm zero (suc a) b h g = absurd (omega arith)
bit_xor_comm (suc k) a b h g = omega (
  arith,
  bit_xor_step a b,
  bit_xor_step b a,
  bit_xor_comm k (a / 2) (b / 2) (omega (arith, pow-suc 2 k)) (omega (arith, pow-suc 2 k)),
)

-- The highest of 16 digits.
pub bit_xor-top : (a b : ℕ) → a < 2 ^ 15 → 2 ^ 15 ≤ b → b < 2 ^ 16 → 2 ^ 15 ≤ bit_xor a b
bit_xor-top a b h lo hi = high 15 a b h lo (omega arith)
  where
    high : (k a b : ℕ) → a < 2 ^ k → 2 ^ k ≤ b → b < 2 ^ suc k → 2 ^ k ≤ bit_xor a b
    high zero zero (suc zero) h lo hi = omega arith
    high zero zero zero h lo hi = absurd (omega arith)
    high zero zero (suc (suc b)) h lo hi = absurd (omega arith)
    high zero (suc a) b h lo hi = absurd (omega arith)
    high (suc k) a b h lo hi = omega (
      arith,
      pow-suc 2 k,
      pow-suc 2 (suc k),
      bit_xor_step a b,
      high k (a / 2) (b / 2) (omega (arith, pow-suc 2 k)) (omega (arith, pow-suc 2 k))
          (omega (arith, pow-suc 2 k, pow-suc 2 (suc k))),
    )
