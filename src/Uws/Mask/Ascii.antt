-- ===== src/Uws/Mask/Ascii.antt =====
-- `UnmaskASCII` unmasks as `Unmask` does.
use uio.Prelude.{
  ℕ, zero, suc, ◌+◌, ◌≡◌, refl, ap, ap₂, List, [], ◌∷◌, ◌++◌, length, drop, ltb, Bool-cases, inl,
  inr, bit_and, bit_or, bit_xor, arith,
}
use uio.Prelude.Bytes.{byte_at}
use uio.Uws.Mask.{
  put_le, mask_word, unmask_bytes, unmask_words, unmask_blocks, ascii_bytes, ascii_words,
  ascii_blocks, word_at,
}

ascii_bytes-unmask_bytes :
    (key : List ℕ) (seen i : ℕ) (p : List ℕ) → (ascii_bytes key seen i p).0 ≡ unmask_bytes key 0 i p
unfolding ascii_bytes unmask_bytes
ascii_bytes-unmask_bytes key seen i [] = refl
ascii_bytes-unmask_bytes key seen i (b ∷ p) =
    let start : i ≡ 0 + i = omega arith in
    ap₂ ◌∷◌ (ap (λ j. bit_xor b (byte_at key (bit_and j 3))) start)
      (ascii_bytes-unmask_bytes key (bit_or seen (bit_xor b (byte_at key (bit_and i 3)))) (suc i) p)

ascii_words-unmask_words :
    (fuel : ℕ) (key : List ℕ) (key64 seen : ℕ) (p : List ℕ)
    → (ascii_words fuel key key64 seen p).0 ≡ unmask_words fuel key64 (unmask_bytes key 0 0) p
unfolding ascii_words unmask_words mask_word
ascii_words-unmask_words zero key key64 seen p = ascii_bytes-unmask_bytes key seen 0 p
ascii_words-unmask_words (suc fuel) key key64 seen p = elim (Bool-cases (ltb (length p) 8)) [
  | inl e ↦ rw e (ascii_bytes-unmask_bytes key seen 0 p)
  | inr e ↦ rw e (
      ap (λ q. put_le 8 (word_at key64 0 p) ++ q)
        (ascii_words-unmask_words fuel key key64 (bit_or seen (word_at key64 0 p)) (drop 8 p)))
]

-- The loops of `UnmaskASCII` leave the payload that the loops of `unmask` leave from offset 0 with the
-- same word key, whatever bits were seen before.
ascii_blocks-unmask_blocks :
    (fuel : ℕ) (key : List ℕ) (key64 seen : ℕ) (p : List ℕ)
    → (ascii_blocks fuel key key64 seen p).0
      ≡ unmask_blocks fuel key64 (λ q. unmask_words (length q) key64 (unmask_bytes key 0 0) q) p
unfolding ascii_blocks unmask_blocks mask_word
ascii_blocks-unmask_blocks zero key key64 seen p =
    ascii_words-unmask_words (length p) key key64 seen p
ascii_blocks-unmask_blocks (suc fuel) key key64 seen p =
    let w0 = word_at key64 0 p in
    let w1 = word_at key64 8 p in
    let w2 = word_at key64 16 p in
    let w3 = word_at key64 24 p in
    elim (Bool-cases (ltb (length p) 32)) [
      | inl e ↦ rw e (ascii_words-unmask_words (length p) key key64 seen p)
      | inr e ↦ rw e (
          ap (λ q. put_le 8 w0 ++ (put_le 8 w1 ++ (put_le 8 w2 ++ (put_le 8 w3 ++ q))))
            (ascii_blocks-unmask_blocks fuel key key64
              (bit_or seen (bit_or (bit_or (bit_or w0 w1) w2) w3)) (drop 32 p)))
    ]
