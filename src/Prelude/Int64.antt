-- ===== src/Prelude/Int64.antt =====
-- Go's `int64` as its two's-complement bit pattern: a number below 2 ^ 64.
use Prim.Native.Nat.{ℕ, ◌+◌, ◌-◌, ◌/◌, ◌%◌, ◌^◌}
use mathlib.Core.Bool.{Bool}
use uio.Prelude.Tests.{ltb, leb, if◌then◌else◌}

abbrev pub modulus : ℕ
modulus = 2 ^ 64

abbrev pub half : ℕ
half = 2 ^ 63

abbrev pub add64 : ℕ → ℕ → ℕ
add64 a b = (a + b) % modulus

abbrev pub sub64 : ℕ → ℕ → ℕ
sub64 a b = (a + (modulus - b)) % modulus

-- The signed order is the unsigned one, shifted by half the range.
abbrev pub slt : ℕ → ℕ → Bool
slt a b = ltb ((a + half) % modulus) ((b + half) % modulus)

abbrev pub sle : ℕ → ℕ → Bool
sle a b = leb ((a + half) % modulus) ((b + half) % modulus)

-- Division by a positive constant, towards zero.
abbrev pub quot : ℕ → ℕ → ℕ
quot a d = if ltb a half then a / d else (modulus - (modulus - a) / d) % modulus
