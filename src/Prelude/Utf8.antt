-- ===== src/Prelude/Utf8.antt =====
-- Go's `utf8.Valid`: what the reader of a byte still expects, byte by byte.
use Prim.Native.Nat.{ℕ, zero, suc}
use mathlib.Core.Bool.{Bool, false, ◌&&◌}
use mathlib.Core.Option.{Option, none, some}
use mathlib.Core.List.{List, [], ◌∷◌}
use uio.Prelude.Tests.{ltb, leb, ◌==◌, if◌then◌else◌}

-- How many continuation bytes are due, and the range of the next one.
pub record Expect : Type 0 where
  pub due : ℕ
  pub low : ℕ
  pub high : ℕ

abbrev pub expect : ℕ → ℕ → ℕ → Option Expect
expect n low high = some (record { due = n; low = low; high = high })

abbrev within : ℕ → ℕ → ℕ → Bool
within b low high = leb low b && leb b high

-- The first byte of a character; overlong forms, surrogates and values past U+10FFFF are out.
first_byte : ℕ → Option Expect
first_byte b =
    if ltb b 0x80
    then expect 0 0 0
    else if within b 0xc2 0xdf
    then expect 1 0x80 0xbf
    else if b == 0xe0
    then expect 2 0xa0 0xbf
    else if b == 0xed
    then expect 2 0x80 0x9f
    else if within b 0xe1 0xef
    then expect 2 0x80 0xbf
    else if b == 0xf0
    then expect 3 0x90 0xbf
    else if within b 0xf1 0xf3
    then expect 3 0x80 0xbf
    else if b == 0xf4
    then expect 3 0x80 0x8f
    else none

advance : ℕ → ℕ → ℕ → ℕ → Option Expect
unfolding first_byte
advance zero low high b = first_byte b
advance (suc n) low high b = if within b low high then expect n 0x80 0xbf else none

valid_from : Expect → List ℕ → Bool
unfolding advance
valid_from s [] = s.due == 0
valid_from s (b ∷ p) = elim (advance s.due s.low s.high b) [
  | none ↦ false
  | some t ↦ valid_from t p
]

unfoldable pub valid_utf8 : List ℕ → Bool
unfolding valid_from
valid_utf8 p = valid_from (record { due = 0; low = 0; high = 0 }) p
