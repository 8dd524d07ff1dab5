-- ===== src/Prelude/Bytes.antt =====
-- Bytes are numbers below 256. The big-endian readers and writers of Go's encoding/binary, and the
-- little-endian word of eight bytes.
use Prim.Native.Nat.{ℕ, zero, suc, ◌+◌, ◌*◌, ◌/◌, ◌%◌, ◌^◌, ◌<◌}
use mathlib.Core.Path.{◌≡◌}
use mathlib.Core.List.{List, [], ◌∷◌}
use native.Mathlib.Omega.{arith}
use uio.Prelude.Lists.{All, get_or}

abbrev pub IsByte : ℕ → Type 0
IsByte b = b < 256

abbrev pub AreBytes : List ℕ → Type 0
AreBytes = All IsByte

-- `binary.BigEndian.Uint16(b[i:])` and so on; the callers check the length before.
abbrev pub byte_at : List ℕ → ℕ → ℕ
byte_at b i = get_or b i 0

abbrev pub uint16 : List ℕ → ℕ → ℕ
uint16 b i = byte_at b i * 256 + byte_at b (1 + i)

abbrev pub uint32 : List ℕ → ℕ → ℕ
uint32 b i = uint16 b i * 2 ^ 16 + uint16 b (2 + i)

abbrev pub uint64 : List ℕ → ℕ → ℕ
uint64 b i = uint32 b i * 2 ^ 32 + uint32 b (4 + i)

abbrev pub put_uint16 : ℕ → List ℕ → List ℕ
put_uint16 v rest = v / 256 % 256 ∷ v % 256 ∷ rest

abbrev pub put_uint32 : ℕ → List ℕ → List ℕ
put_uint32 v rest = put_uint16 (v / 2 ^ 16) (put_uint16 v rest)

abbrev pub put_uint64 : ℕ → List ℕ → List ℕ
put_uint64 v rest = put_uint32 (v / 2 ^ 32) (put_uint32 v rest)

pub uint16-put : (v : ℕ) (rest : List ℕ) → v < 2 ^ 16 → uint16 (put_uint16 v rest) 0 ≡ v
uint16-put v rest h = omega arith

pub uint32-put : (v : ℕ) (rest : List ℕ) → v < 2 ^ 32 → uint32 (put_uint32 v rest) 0 ≡ v
uint32-put v rest h = omega arith

pub uint64-put : (v : ℕ) (rest : List ℕ) → v < 2 ^ 64 → uint64 (put_uint64 v rest) 0 ≡ v
uint64-put v rest h = omega arith

pub byte_at-IsByte : (b : List ℕ) (i : ℕ) → AreBytes b → IsByte (byte_at b i)
byte_at-IsByte [] i v = omega arith
byte_at-IsByte (x ∷ b) zero v = v.0
byte_at-IsByte (x ∷ b) (suc i) v = byte_at-IsByte b i v.1
