-- ===== src/Timewheel/Summary.antt =====
-- The summary of internal/timewheel/wheel.go: one bit for each slot of the ring, in words of 64. A
-- word is its bits.
pub mod First
use uio.Prelude.Store.{store}
use uio.Prelude.{
  ℕ, zero, suc, ◌+◌, ◌-◌, ◌*◌, ◌/◌, ◌%◌, Bool, true, false, not, ◌&&◌, Option, none, some, ltb,
  ◌==◌, if◌then◌else◌,
}

abbrev pub Word : Type 0
Word = ℕ → Bool

abbrev pub Summary : Type 0
Summary = ℕ → Word

abbrev pub put_bit : Summary → ℕ → Bool → Summary
put_bit s slot b = store s (slot / 64) (store (s (slot / 64)) (slot % 64) b)

abbrev pub set_summary : Summary → ℕ → Summary
set_summary s slot = put_bit s slot true

abbrev pub clear_summary : Summary → ℕ → Summary
clear_summary s slot = put_bit s slot false

-- The lowest bit of a word from `b` on that is set, 64 when there is none.
abbrev pub lowest_from : ℕ → ℕ → Word → ℕ
lowest_from zero b w = 64
lowest_from (suc k) b w = let rest = lowest_from k (suc b) w in if w b then b else rest

-- `bits.TrailingZeros64`.
unfoldable pub trailing_zeros64 : Word → ℕ
trailing_zeros64 w = lowest_from 64 0 w

abbrev pub is_zero : Word → Bool
is_zero w = trailing_zeros64 w == 64

abbrev pub shift_right : Word → ℕ → Word
shift_right w n i = ltb (i + n) 64 && w (i + n)

-- The bits below `n`.
abbrev pub low_bits : Word → ℕ → Word
low_bits w n i = ltb i n && w i

-- The words after the first, cyclically, on fuel.
unfoldable pub scan : ℕ → Summary → ℕ → ℕ → ℕ → Option ℕ
scan zero s words first_word word = none
scan (suc fuel) s words first_word word =
    let rest = scan fuel s words first_word ((word + 1) % words) in
    if word == first_word
    then none
    else if not (is_zero (s word))
    then some (word * 64 + trailing_zeros64 (s word))
    else rest

abbrev pub word_count : ℕ → ℕ
word_count buckets = (buckets - 1) / 64 + 1

unfoldable pub first_occupied : Summary → ℕ → ℕ → Option ℕ
first_occupied s buckets start =
    let first_word = start / 64 in
    let bit = start % 64 in
    let above = shift_right (s first_word) bit in
    let below = low_bits (s first_word) bit in
    let words = word_count buckets in
    if not (is_zero above)
    then some (first_word * 64 + bit + trailing_zeros64 above)
    else elim (scan words s words first_word ((first_word + 1) % words)) [
      | some slot ↦ some slot
      | none ↦
          if not (bit == 0) && not (is_zero below)
          then some (first_word * 64 + trailing_zeros64 below)
          else none
    ]
