-- ===== src/Composite/Interface.antt =====
-- What the composite buffer uses of bytes.Buffer and of the block pool.
use uio.Prelude.{ℕ, ◌-◌, ◌≤◌, ◌<◌, ◌≡◌, List, [], ◌++◌, length, drop}

pub record Blocks : Type 1 where
  pub Block : Type 0
  pub bytes : Block → List ℕ
  pub available : Block → ℕ
  pub write_block : Block → List ℕ → Block
  pub discard_block : Block → ℕ → Block
  pub read_block : Block → ℕ → Block
  pub get_block : ℕ → Block

-- The documented behaviour of those calls.
pub record Documented (io : Blocks) : Type 0 where
  pub write_bytes : (b : io.Block) (p : List ℕ) → io.bytes (io.write_block b p) ≡ io.bytes b ++ p
  pub write_available :
      (b : io.Block) (p : List ℕ)
      → length p ≤ io.available b
      → io.available (io.write_block b p) ≡ io.available b - length p
  pub discard_bytes :
      (b : io.Block) (n : ℕ)
      → 0 < n
      → n ≤ length (io.bytes b)
      → io.bytes (io.discard_block b n) ≡ drop n (io.bytes b)
  pub read_bytes : (b : io.Block) (n : ℕ) → io.bytes (io.read_block b n) ≡ drop n (io.bytes b)
  pub get_bytes : (n : ℕ) → io.bytes (io.get_block n) ≡ []
  pub get_available : (n : ℕ) → n ≤ io.available (io.get_block n)
