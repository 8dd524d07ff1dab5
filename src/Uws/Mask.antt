-- ===== src/Uws/Mask.antt =====
-- uws/internal/frame/mask.go: the repeating four-byte mask, a word at a time. A function returns the
-- payload that the code leaves in place.
pub mod Words
pub mod Ascii
use uio.Prelude.Bytes.{byte_at}
use uio.Prelude.{
  ℕ, zero, suc, ◌+◌, ◌-◌, ◌*◌, ◌/◌, ◌%◌, ◌^◌, Bool, List, [], ◌∷◌, ◌++◌, ◌&&◌, ◌==◌, length, take,
  drop, ltb, not, if◌then◌else◌, bit_and, bit_or, bit_xor,
}

-- `binary.LittleEndian.Uint64`, on a list of its eight bytes, and `PutUint64`.
abbrev pub le : List ℕ → ℕ
le [] = 0
le (b ∷ bs) = le bs * 2 ^ 8 + b

abbrev pub put_le : ℕ → ℕ → List ℕ
put_le zero v = []
put_le (suc n) v = v % 2 ^ 8 ∷ put_le n (v / 2 ^ 8)

-- The assembly routine of the amd64 build and the processor flag that guards it.
pub record Avx2 : Type 0 where
  pub use_avx2 : Bool
  pub mask : List ℕ → ℕ → List ℕ

abbrev pub word_unmask_threshold : ℕ
word_unmask_threshold = 16

abbrev pub vector_unmask_threshold : ℕ
vector_unmask_threshold = 128

-- The byte loop, from index `i` on.
unfoldable pub unmask_bytes : List ℕ → ℕ → ℕ → List ℕ → List ℕ
unmask_bytes key offset i [] = []
unmask_bytes key offset i (b ∷ p) =
    bit_xor b (byte_at key (bit_and (offset + i) 3)) ∷ unmask_bytes key offset (suc i) p

unfoldable pub mask_word : ℕ → List ℕ → List ℕ
mask_word key64 p = put_le 8 (bit_xor (le (take 8 p)) key64)

-- `for len(payload) >= 8`, on fuel, and then `after`.
unfoldable pub unmask_words : ℕ → ℕ → (List ℕ → List ℕ) → List ℕ → List ℕ
unmask_words zero key64 after p = after p
unmask_words (suc fuel) key64 after p =
    let rest = unmask_words fuel key64 after (drop 8 p) in
    if ltb (length p) 8 then after p else mask_word key64 p ++ rest

-- `for len(payload) >= 32`, four words in each round.
unfoldable pub unmask_blocks : ℕ → ℕ → (List ℕ → List ℕ) → List ℕ → List ℕ
unmask_blocks zero key64 after p = after p
unmask_blocks (suc fuel) key64 after p =
    let rest = unmask_blocks fuel key64 after (drop 32 p) in
    if ltb (length p) 32
    then after p
    else mask_word key64 p
      ++ (mask_word key64 (drop 8 p)
          ++ (mask_word key64 (drop 16 p) ++ (mask_word key64 (drop 24 p) ++ rest)))

unfoldable pub key_word : List ℕ → ℕ → ℕ
key_word key offset =
    let key32 =
      bit_or
        (bit_or (bit_or (byte_at key offset) (byte_at key (bit_and (offset + 1) 3) * 2 ^ 8))
          (byte_at key (bit_and (offset + 2) 3) * 2 ^ 16))
        (byte_at key (bit_and (offset + 3) 3) * 2 ^ 24) in
    bit_or key32 (key32 * 2 ^ 32)

-- `n &^ 31` on 64 bits.
abbrev pub whole_vectors : ℕ → ℕ
whole_vectors n = bit_and n (2 ^ 64 - 32)

-- The loops that follow the vector part.
abbrev pub unmask_tail : List ℕ → ℕ → ℕ → List ℕ → List ℕ
unmask_tail key offset key64 p =
    unmask_blocks (length p) key64
      (λ q. unmask_words (length q) key64 (unmask_bytes key offset 0) q) p

unfoldable pub unmask : Avx2 → List ℕ → List ℕ → ℕ → List ℕ
unmask avx payload key offset' =
    let offset = bit_and offset' 3 in
    if ltb (length payload) word_unmask_threshold
    then unmask_bytes key offset 0 payload
    else let key64 = key_word key offset in
      if avx.use_avx2 && not (ltb (length payload) vector_unmask_threshold)
      then (let n = whole_vectors (length payload) in
          avx.mask (take n payload) key64 ++ unmask_tail key offset key64 (drop n payload))
      else unmask_tail key offset key64 payload

-- The routine that also reports a high bit: the payload masked, and whether a byte of it had one.
pub record Avx2Ascii : Type 0 where
  pub use_avx2 : Bool
  pub mask_ascii : List ℕ → ℕ → List ℕ × Bool

-- `UnmaskASCII`'s loops, from the bits seen so far: the payload, and the bits seen at the end.
unfoldable pub ascii_bytes : List ℕ → ℕ → ℕ → List ℕ → List ℕ × ℕ
ascii_bytes key seen i [] = ([], seen)
ascii_bytes key seen i (b ∷ p) =
    let c = bit_xor b (byte_at key (bit_and i 3)) in
    let (rest, all) = ascii_bytes key (bit_or seen c) (suc i) p in (c ∷ rest, all)

-- A masked word, as a number.
abbrev pub word_at : ℕ → ℕ → List ℕ → ℕ
word_at key64 n p = bit_xor (le (take 8 (drop n p))) key64

unfoldable pub ascii_words : ℕ → List ℕ → ℕ → ℕ → List ℕ → List ℕ × ℕ
ascii_words zero key key64 seen p = ascii_bytes key seen 0 p
ascii_words (suc fuel) key key64 seen p =
    let w = word_at key64 0 p in
    let (rest, all) = ascii_words fuel key key64 (bit_or seen w) (drop 8 p) in
    if ltb (length p) 8 then ascii_bytes key seen 0 p else (put_le 8 w ++ rest, all)

unfoldable pub ascii_blocks : ℕ → List ℕ → ℕ → ℕ → List ℕ → List ℕ × ℕ
ascii_blocks zero key key64 seen p = ascii_words (length p) key key64 seen p
ascii_blocks (suc fuel) key key64 seen p =
    let w0 = word_at key64 0 p in
    let w1 = word_at key64 8 p in
    let w2 = word_at key64 16 p in
    let w3 = word_at key64 24 p in
    let words = bit_or (bit_or (bit_or w0 w1) w2) w3 in
    let (rest, all) = ascii_blocks fuel key key64 (bit_or seen words) (drop 32 p) in
    if ltb (length p) 32
    then ascii_words (length p) key key64 seen p
    else (put_le 8 w0 ++ (put_le 8 w1 ++ (put_le 8 w2 ++ (put_le 8 w3 ++ rest))), all)

-- The payload that the code leaves in place, and the result.
unfoldable pub unmask_ascii : Avx2Ascii → List ℕ → List ℕ → List ℕ × Bool
unmask_ascii avx payload key =
    if ltb (length payload) word_unmask_threshold
    then (let (p, seen) = ascii_bytes key 0 0 payload in (p, ltb seen 0x80))
    else let key32 = le (take 4 key) in
      let key64 = bit_or key32 (key32 * 2 ^ 32) in
      let n = whole_vectors (length payload) in
      let (head, high) = avx.mask_ascii (take n payload) key64 in
      if avx.use_avx2 && not (ltb (length payload) vector_unmask_threshold)
      then (let (p, seen) =
            ascii_blocks (length payload) key key64 (if high then 0x80 else 0) (drop n payload) in
          (head ++ p, bit_and seen 0x8080808080808080 == 0))
      else (let (p, seen) = ascii_blocks (length payload) key key64 0 payload in
          (p, bit_and seen 0x8080808080808080 == 0))
