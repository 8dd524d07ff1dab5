-- ===== src/Prelude/Store.antt =====
-- A map from numbers as a function, changed at one key.
use Prim.Native.Nat.{ℕ}
use mathlib.Core.Path.{◌≡◌}
use mathlib.Core.Logic.{◌≢◌}
use mathlib.Core.Bool.{true, false}
use native.Mathlib.Omega.{arith}
use native.Mathlib.Decide.{ℕ_discrete}
use uio.Prelude.Tests.{◌==◌, if◌then◌else◌}

abbrev pub store : {A : Type 0} → (ℕ → A) → ℕ → A → ℕ → A
store f i x j = if i == j then x else f j

pub store-same : {A : Type 0} (f : ℕ → A) (i : ℕ) (x : A) → store f i x i ≡ x
store-same f i x = ground arith

pub store-other : {A : Type 0} (f : ℕ → A) (i j : ℕ) (x : A) → i ≢ j → store f i x j ≡ f j
store-other f i j x ne = ground arith

-- A property of every entry, after a change at one key.
pub store-elim {ℓ} :
    {A : Type 0} (P : A → Type ℓ) (f : ℕ → A) (i j : ℕ) (x : A)
    → (i ≡ j → P x)
    → (i ≢ j → P (f j))
    → P (store f i x j)
store-elim P f i j x at_i elsewhere = elim (ℕ_discrete i j) [
  | yes e ↦ (let same : (i == j) ≡ true = ground arith in rw same (at_i e))
  | no ne ↦ (let other : (i == j) ≡ false = ground arith in rw other (elsewhere ne))
]
