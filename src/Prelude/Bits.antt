-- ===== src/Prelude/Bits.antt =====
-- `&`, `|` and `^` of unsigned words, as arithmetic on binary digits.
use Prim.Native.Nat.{
  ℕ, zero, suc, ◌+◌, ◌-◌, ◌*◌, ◌/◌, ◌%◌, ◌^◌, ◌≤◌, ◌<◌, min, max, bit_and, bit_or, bit_xor, digits,
  differ, bit_and-bitwise, bit_or-bitwise, bit_xor-bitwise,
}
use mathlib.Core.Path.{◌≡◌, refl, ap}
use native.Mathlib.Nat.{pow-suc, one-le-pow, div-add-mod}
use native.Mathlib.Omega.{arith}

-- What the three operations share: a rule for the lowest digit.
pub record IsDigitwise (op f : ℕ → ℕ → ℕ) : Type 0 where
  pub step : (a b : ℕ) → op a b ≡ op (a / 2) (b / 2) * 2 + f (a % 2) (b % 2)
  pub bit : (a b : ℕ) → f (a % 2) (b % 2) ≤ 1

module _ (z : ℕ → ℕ) (f : ℕ → ℕ → ℕ) where
  -- Any fuel that covers the first number gives the same digits.
  digits_enough : (n m a b : ℕ) → a ≤ n → a ≤ m → digits z f n a b ≡ digits z f m a b
  digits_enough zero zero a b p q = refl
  digits_enough zero (suc m) zero b p q = refl
  digits_enough (suc n) zero zero b p q = refl
  digits_enough (suc n) (suc m) zero b p q = refl
  digits_enough zero m (suc a) b p q = absurd (omega arith)
  digits_enough (suc n) zero (suc a) b p q = absurd (omega arith)
  digits_enough (suc n) (suc m) (suc a) b p q =
      ap (λ d. d * 2 + f (suc a % 2) (b % 2))
        (digits_enough n m (suc a / 2) (b / 2) (omega arith) (omega arith))

differ-zero : (b : ℕ) → differ 0 b ≡ b
differ-zero b = refl

pub xor_step : (a b : ℕ) → bit_xor a b ≡ bit_xor (a / 2) (b / 2) * 2 + differ (a % 2) (b % 2)
xor_step zero b = omega (arith, bit_xor-bitwise 0 b, bit_xor-bitwise 0 (b / 2), differ-zero (b % 2))
xor_step (suc a) b = omega (
  arith,
  bit_xor-bitwise (suc a) b,
  bit_xor-bitwise (suc a / 2) (b / 2),
  digits_enough (λ y. y) differ a (suc a / 2) (suc a / 2) (b / 2) (omega arith) (omega arith),
)

pub and_step : (a b : ℕ) → bit_and a b ≡ bit_and (a / 2) (b / 2) * 2 + min (a % 2) (b % 2)
and_step zero b = omega (arith, bit_and-bitwise 0 b, bit_and-bitwise 0 (b / 2))
and_step (suc a) b = omega (
  arith,
  bit_and-bitwise (suc a) b,
  bit_and-bitwise (suc a / 2) (b / 2),
  digits_enough (λ _. 0) min a (suc a / 2) (suc a / 2) (b / 2) (omega arith) (omega arith),
)

pub or_step : (a b : ℕ) → bit_or a b ≡ bit_or (a / 2) (b / 2) * 2 + max (a % 2) (b % 2)
or_step zero b = omega (arith, bit_or-bitwise 0 b, bit_or-bitwise 0 (b / 2))
or_step (suc a) b = omega (
  arith,
  bit_or-bitwise (suc a) b,
  bit_or-bitwise (suc a / 2) (b / 2),
  digits_enough (λ y. y) max a (suc a / 2) (suc a / 2) (b / 2) (omega arith) (omega arith),
)

module _ (op f : ℕ → ℕ → ℕ) (d : IsDigitwise op f) where
  op-zero : op 0 0 ≡ 0
  op-zero = omega (arith, d.step 0 0)

  double : (q k : ℕ) → q * 2 ^ suc k ≡ q * 2 ^ k * 2
  double q k = omega (arith, ap (λ (t : ℕ). q * t) (pow-suc 2 k))

  -- The operation works on high and low parts apart.
  pub split_at :
      (k p q r s : ℕ)
      → r < 2 ^ k
      → s < 2 ^ k
      → op (p * 2 ^ k + r) (q * 2 ^ k + s) ≡ op p q * 2 ^ k + op r s
  split_at zero p q r s hr hs = ground (arith, op-zero)
  split_at (suc k) p q r s hr hs = ground (
    arith,
    d.step (p * 2 ^ suc k + r) (q * 2 ^ suc k + s),
    d.step r s,
    double p k,
    double q k,
    double (op p q) k,
    pow-suc 2 k,
    split_at k p q (r / 2) (s / 2),
  )

  pub op-lt : (k a b : ℕ) → a < 2 ^ k → b < 2 ^ k → op a b < 2 ^ k
  op-lt zero a b ha hb = ground (arith, op-zero)
  op-lt (suc k) a b ha hb =
      ground (arith, pow-suc 2 k, d.step a b, d.bit a b, op-lt k (a / 2) (b / 2))

differ_bits :
    (x y : ℕ) → x ≤ 1 → y ≤ 1 → (differ x y ≤ 1) × (differ (differ x y) y ≡ x) × (differ x 0 ≡ x)
differ_bits zero zero p q = omega arith
differ_bits zero (suc zero) p q = omega arith
differ_bits (suc zero) zero p q = omega arith
differ_bits (suc zero) (suc zero) p q = omega arith
differ_bits (suc (suc x)) y p q = absurd (omega arith)
differ_bits x (suc (suc y)) p q = absurd (omega arith)

differ-le : (a b : ℕ) → differ (a % 2) (b % 2) ≤ 1
differ-le a b = (differ_bits (a % 2) (b % 2) (omega arith) (omega arith)).0

pub xor_digits : IsDigitwise bit_xor differ
xor_digits = record { step = xor_step; bit = differ-le }

pub and_digits : IsDigitwise bit_and min
and_digits = record { step = and_step; bit = λ a b. omega arith }

pub or_digits : IsDigitwise bit_or max
or_digits = record { step = or_step; bit = λ a b. omega arith }

pub zero-bit_or : (b : ℕ) → bit_or 0 b ≡ b
zero-bit_or b = bit_or-bitwise 0 b

bit_or-zero_below : (n a : ℕ) → a ≤ n → bit_or a 0 ≡ a
bit_or-zero_below zero a h = ground (arith, zero-bit_or 0)
bit_or-zero_below (suc n) zero h = zero-bit_or 0
bit_or-zero_below (suc n) (suc a) h =
    omega (arith, or_step (suc a) 0, bit_or-zero_below n (suc a / 2) (omega arith))

pub bit_or-zero : (a : ℕ) → bit_or a 0 ≡ a
bit_or-zero a = bit_or-zero_below a a (omega arith)

bit_and-zero_below : (n a : ℕ) → a ≤ n → bit_and a 0 ≡ 0
bit_and-zero_below zero a h = ground (arith, bit_and-bitwise 0 0)
bit_and-zero_below (suc n) zero h = bit_and-bitwise 0 0
bit_and-zero_below (suc n) (suc a) h =
    omega (arith, and_step (suc a) 0, bit_and-zero_below n (suc a / 2) (omega arith))

pub bit_and-zero : (a : ℕ) → bit_and a 0 ≡ 0
bit_and-zero a = bit_and-zero_below a a (omega arith)

-- `x << k | r` is a sum where `r` fits in `k` bits.
pub bit_or_shifted : (k q r : ℕ) → r < 2 ^ k → bit_or (q * 2 ^ k) r ≡ q * 2 ^ k + r
bit_or_shifted k q r h =
    let base : bit_or (q * 2 ^ k + 0) (0 * 2 ^ k + r) ≡ bit_or q 0 * 2 ^ k + bit_or 0 r =
      split_at bit_or max or_digits k q 0 0 r (omega arith) h in
    ground (arith, base, bit_or-zero q, zero-bit_or r)

bit_and_full : (k r : ℕ) → r < 2 ^ k → bit_and r (2 ^ k - 1) ≡ r
bit_and_full zero r h = ground (arith, op-zero bit_and min and_digits)
bit_and_full (suc k) r h =
    ground (arith, pow-suc 2 k, one-le-pow k 2, and_step r (2 ^ suc k - 1), bit_and_full k (r / 2))

-- `x & (1 << k - 1)` is the remainder.
pub bit_and_ones : (k a : ℕ) → bit_and a (2 ^ k - 1) ≡ a % 2 ^ k
bit_and_ones k a = ground (
  arith,
  one-le-pow k 2,
  div-add-mod a (2 ^ k),
  split_at bit_and min and_digits k (a / 2 ^ k) 0 (a % 2 ^ k) (2 ^ k - 1),
  bit_and-zero (a / 2 ^ k),
  bit_and_full k (a % 2 ^ k),
)

pub xor_cancel : (k a b : ℕ) → a < 2 ^ k → b < 2 ^ k → bit_xor (bit_xor a b) b ≡ a
xor_cancel zero a b ha hb = ground (arith, op-zero bit_xor differ xor_digits)
xor_cancel (suc k) a b ha hb = ground (
  arith,
  pow-suc 2 k,
  xor_step a b,
  xor_step (bit_xor a b) b,
  differ_bits (a % 2) (b % 2),
  xor_cancel k (a / 2) (b / 2),
)

-- The same with the low part first.
pub bit_or_low : (k q r : ℕ) → r < 2 ^ k → bit_or r (q * 2 ^ k) ≡ q * 2 ^ k + r
bit_or_low k q r h =
    let base : bit_or (0 * 2 ^ k + r) (q * 2 ^ k + 0) ≡ bit_or 0 q * 2 ^ k + bit_or r 0 =
      split_at bit_or max or_digits k 0 q r 0 h (omega arith) in
    ground (arith, base, zero-bit_or q, bit_or-zero r)

pub bit_xor-lt : (k a b : ℕ) → a < 2 ^ k → b < 2 ^ k → bit_xor a b < 2 ^ k
bit_xor-lt = op-lt bit_xor differ xor_digits

pub bit_xor_split :
    (k p q r s : ℕ)
    → r < 2 ^ k
    → s < 2 ^ k
    → bit_xor (p * 2 ^ k + r) (q * 2 ^ k + s) ≡ bit_xor p q * 2 ^ k + bit_xor r s
bit_xor_split = split_at bit_xor differ xor_digits
