-- ===== src/Prelude/Table.antt =====
-- Two functions agree on a short range when an evaluation says so.
use Prim.Native.Nat.{ℕ, zero, suc, ◌<◌}
use mathlib.Core.Path.{◌≡◌}
use mathlib.Core.Bool.{Bool, true, ◌&&◌}
use native.Mathlib.Omega.{arith}
use uio.Prelude.Tests.{◌==◌}

module _ (f g : ℕ → ℕ) where
  unfoldable pub agree : ℕ → Bool
  agree zero = true
  agree (suc n) = f n == g n && agree n

  pub agree-eq : (n x : ℕ) → agree n ≡ true → x < n → f x ≡ g x
  unfolding agree
  agree-eq zero x h lt = absurd (omega arith)
  agree-eq (suc n) x h lt = ground (arith, agree-eq n x)
