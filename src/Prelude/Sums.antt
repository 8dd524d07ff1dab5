-- ===== src/Prelude/Sums.antt =====
-- The sum of a function's values below a bound.
use Prim.Native.Nat.{ℕ, zero, suc, ◌+◌, ◌≤◌, ◌<◌}
use mathlib.Core.Path.{◌≡◌, refl, ap}
use mathlib.Core.Logic.{◌≢◌}
use native.Mathlib.Omega.{arith}
use native.Mathlib.Decide.{ℕ_discrete}

abbrev pub sum_below : (ℕ → ℕ) → ℕ → ℕ
sum_below f zero = 0
sum_below f (suc n) = sum_below f n + f n

pub sum_below-same :
    (f g : ℕ → ℕ) (n : ℕ) → ((i : ℕ) → i < n → f i ≡ g i) → sum_below f n ≡ sum_below g n
sum_below-same f g zero e = refl
sum_below-same f g (suc n) e =
    omega (arith, sum_below-same f g n (λ i lt. e i (omega (arith, lt))), e n (omega arith))

-- A change at one place changes the sum by as much.
pub sum_below-change :
    (f g : ℕ → ℕ) (i n : ℕ)
    → i < n
    → ((j : ℕ) → j ≢ i → f j ≡ g j)
    → sum_below f n + g i ≡ sum_below g n + f i
sum_below-change f g i zero lt e = absurd (omega (arith, lt))
sum_below-change f g i (suc n) lt e = elim (ℕ_discrete i n) [
  | yes same ↦
      (let rest =
          sum_below-same f g n (λ j below. e j (λ h. absurd (omega (arith, below, h, same)))) in
        let at_f = ap f same in let at_g = ap g same in omega (arith, rest, at_f, at_g))
  | no ne ↦
      (let other = e n (λ h. ne (omega (arith, h))) in
        omega (arith, other, sum_below-change f g i n (omega (arith, lt, ne)) e))
]

pub sum_below-zero : (f : ℕ → ℕ) (n : ℕ) → ((i : ℕ) → f i ≡ 0) → sum_below f n ≡ 0
sum_below-zero f zero e = refl
sum_below-zero f (suc n) e = omega (arith, sum_below-zero f n e, e n)

pub sum_below-ge : (f : ℕ → ℕ) (i n : ℕ) → i < n → f i ≤ sum_below f n
sum_below-ge f i zero lt = absurd (omega (arith, lt))
sum_below-ge f i (suc n) lt = elim (ℕ_discrete i n) [
  | yes e ↦ (let at = ap f e in omega (arith, at))
  | no ne ↦ omega (arith, sum_below-ge f i n (omega (arith, lt, ne)))
]
