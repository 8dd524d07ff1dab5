-- ===== src/Uws/Frame/Bits.antt =====
-- The masks of the two header bytes, as arithmetic.
use uio.Prelude.Table.{agree, agree-eq}
use uio.Prelude.Bits.{bit_or_low, bit_or_shifted, bit_and_ones, zero-bit_or}
use uio.Prelude.{
  ℕ, ◌+◌, ◌-◌, ◌*◌, ◌/◌, ◌%◌, ◌<◌, ◌≡◌, refl, Bool, true, false, arith, bit_and, bit_or,
  if◌then◌else◌,
}
use uio.Uws.Frame.{Frame, first_byte, has_bit, valid_opcode}

pub and_0x80 : (b : ℕ) → b < 256 → bit_and b 0x80 ≡ b / 128 * 128
unfolding agree
and_0x80 b h = agree-eq (λ x. bit_and x 0x80) (λ x. x / 128 * 128) 256 b refl h

pub and_0x40 : (b : ℕ) → b < 256 → bit_and b 0x40 ≡ b / 64 % 2 * 64
unfolding agree
and_0x40 b h = agree-eq (λ x. bit_and x 0x40) (λ x. x / 64 % 2 * 64) 256 b refl h

pub and_0x30 : (b : ℕ) → b < 256 → bit_and b 0x30 ≡ b / 16 % 4 * 16
unfolding agree
and_0x30 b h = agree-eq (λ x. bit_and x 0x30) (λ x. x / 16 % 4 * 16) 256 b refl h

pub and_0x0f : (b : ℕ) → bit_and b 0x0f ≡ b % 16
and_0x0f b = bit_and_ones 4 b

pub and_0x7f : (b : ℕ) → bit_and b 0x7f ≡ b % 128
and_0x7f b = bit_and_ones 7 b

pub or_0x80 : (b : ℕ) → b < 128 → bit_or 0x80 b ≡ 128 + b
or_0x80 b h = omega (arith, bit_or_shifted 7 1 b h)

or_high : (b : ℕ) → b < 128 → bit_or b 0x80 ≡ b + 128
or_high b h = omega (arith, bit_or_low 7 1 b h)

or_0x40 : (b : ℕ) → b < 256 → bit_or b 0x40 ≡ b + (1 - b / 64 % 2) * 64
unfolding agree
or_0x40 b h = agree-eq (λ x. bit_or x 0x40) (λ x. x + (1 - x / 64 % 2) * 64) 256 b refl h

-- The first byte as a sum.
pub first_byte-sum :
    (f : Frame)
    → f.opcode < 16
    → first_byte f ≡ (if f.fin then 128 else 0) + ((if f.rsv1 then 64 else 0) + f.opcode)
first_byte-sum f h = ground (arith, or_high f.opcode, or_0x40 f.opcode, or_0x40 (f.opcode + 128))

-- What a reader of that byte sees.
pub first_byte-flags :
    (f : Frame)
    → f.opcode < 16
    → (has_bit (first_byte f) 0x80 ≡ f.fin)
      × (has_bit (first_byte f) 0x40 ≡ f.rsv1)
      × (has_bit (first_byte f) 0x30 ≡ false)
      × (bit_and (first_byte f) 0x0f ≡ f.opcode)
first_byte-flags f h = ground (
  arith,
  first_byte-sum f h,
  and_0x80 (first_byte f),
  and_0x40 (first_byte f),
  and_0x30 (first_byte f),
  and_0x0f (first_byte f),
)

pub valid_opcode-lt : (op : ℕ) → valid_opcode op ≡ true → op < 16
unfolding valid_opcode
valid_opcode-lt op h = ground arith

-- What a reader of the second byte sees, for a length code.
pub second_byte-flags :
    (masked : Bool) (code : ℕ)
    → code < 128
    → (has_bit (bit_or (if masked then 0x80 else 0) code) 0x80 ≡ masked)
      × (bit_and (bit_or (if masked then 0x80 else 0) code) 0x7f ≡ code)
second_byte-flags true code h =
    ground (arith, or_0x80 code, and_0x80 (128 + code), and_0x7f (128 + code))
second_byte-flags false code h = ground (arith, zero-bit_or code, and_0x80 code, and_0x7f code)
