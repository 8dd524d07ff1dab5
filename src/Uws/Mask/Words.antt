-- ===== src/Uws/Mask/Words.antt =====
-- The word loops of `unmask` are the byte loop.
use uio.Prelude.Bytes.{AreBytes, IsByte, byte_at, byte_at-IsByte}
use uio.Prelude.Bits.{and_step, bit_and_ones, bit_or_low, bit_xor_split, bit_xor-lt, xor_cancel}
use uio.Prelude.{
  ℕ, zero, suc, ◌+◌, ◌-◌, ◌*◌, ◌/◌, ◌%◌, ◌^◌, ◌≤◌, ◌<◌, ◌≡◌, refl, ap, ap₂, sym, ◌∙◌, List, [], ◌∷◌,
  ◌++◌, arith, length, take, drop, ltb, Bool-cases, inl, inr, ◌&&◌, not, bit_and, bit_or, bit_xor,
  take-append-drop, subst, length-take, length-drop, ltb→le, All-take, All-drop, drop-drop,
}
use uio.Uws.Mask.{
  le, put_le, Avx2, unmask_bytes, mask_word, unmask_words, unmask_blocks, key_word, whole_vectors,
  unmask_tail, unmask,
}

-- The specification: byte `i` of the payload is xored with byte `i % 4` of the key.
unfoldable pub xor_from : List ℕ → ℕ → List ℕ → List ℕ
xor_from key i [] = []
xor_from key i (b ∷ p) = bit_xor b (byte_at key (i % 4)) ∷ xor_from key (suc i) p

-- The next `n` bytes of the repeated key.
abbrev key_stream : List ℕ → ℕ → ℕ → List ℕ
key_stream key zero i = []
key_stream key (suc n) i = byte_at key (i % 4) ∷ key_stream key n (suc i)

pub record IsKey (key : List ℕ) : Type 0 where
  pub size : length key ≡ 4
  pub bytes : AreBytes key

xor_from-append :
    (key : List ℕ) (i : ℕ) (p q : List ℕ)
    → xor_from key i (p ++ q) ≡ xor_from key i p ++ xor_from key (length p + i) q
unfolding xor_from
xor_from-append key i [] q = ap (λ j. xor_from key j q) (omega arith)
xor_from-append key i (b ∷ p) q =
    let shift : length p + suc i ≡ suc (length p) + i = omega arith in
    ap (◌∷◌ (bit_xor b (byte_at key (i % 4))))
      (xor_from-append key (suc i) p q ∙ ap (λ j. xor_from key (suc i) p ++ xor_from key j q) shift)

-- Whole periods of the key make no difference.
xor_from-period :
    (key : List ℕ) (i j : ℕ) (p : List ℕ) → i % 4 ≡ j % 4 → xor_from key i p ≡ xor_from key j p
unfolding xor_from
xor_from-period key i j [] h = refl
xor_from-period key i j (b ∷ p) h =
    ap₂ ◌∷◌ (ap (λ k. bit_xor b (byte_at key k)) h)
      (xor_from-period key (suc i) (suc j) p (omega arith))

unmask_bytes-eq :
    (key : List ℕ) (offset i : ℕ) (p : List ℕ)
    → unmask_bytes key offset i p ≡ xor_from key (offset + i) p
unfolding unmask_bytes xor_from
unmask_bytes-eq key offset i [] = refl
unmask_bytes-eq key offset i (b ∷ p) =
    ap₂ ◌∷◌ (ap (λ k. bit_xor b (byte_at key k)) (bit_and_ones 2 (offset + i)))
      (unmask_bytes-eq key offset (suc i) p ∙ xor_from-period key _ _ p (omega arith))

low_part : (x y : ℕ) → y < 256 → (x * 2 ^ 8 + y) / 2 ^ 8 ≡ x
low_part x y h = omega arith

-- A word xored at once is its bytes xored one by one.
put_le-xor :
    (key : List ℕ) (i : ℕ) (p : List ℕ)
    → AreBytes p
    → AreBytes (key_stream key (length p) i)
    → put_le (length p) (bit_xor (le p) (le (key_stream key (length p) i))) ≡ xor_from key i p
unfolding xor_from
put_le-xor key i [] hp hk = refl
put_le-xor key i (b ∷ p) hp hk =
    let small : bit_xor b (byte_at key (i % 4)) < 256 = bit_xor-lt 8 _ _ hp.0 hk.0 in
    rw
      (bit_xor_split 8 (le p) (le (key_stream key (length p) (suc i))) b (byte_at key (i % 4)) hp.0
        hk.0)
      (ap₂ ◌∷◌ (omega arith) (
        rw
          (low_part (bit_xor (le p) (le (key_stream key (length p) (suc i))))
            (bit_xor b (byte_at key (i % 4))) small)
          (put_le-xor key (suc i) p hp.1 hk.1)))

key_stream-AreBytes : (key : List ℕ) (n i : ℕ) → AreBytes key → AreBytes (key_stream key n i)
key_stream-AreBytes key zero i h = tt
key_stream-AreBytes key (suc n) i h =
    (byte_at-IsByte key (i % 4) h, key_stream-AreBytes key n (suc i) h)

module _ (key : List ℕ) (k : IsKey key) (i key64 : ℕ) (word : key64 ≡ le (key_stream key 8 i)) where
  mask_word-eq :
      (p : List ℕ) → AreBytes p → 8 ≤ length p → mask_word key64 p ≡ xor_from key i (take 8 p)
  unfolding mask_word
  mask_word-eq p hp h =
      let e : length (take 8 p) ≡ 8 = omega (arith, length-take 8 p) in
      rw word (
        subst
          (λ n.
            put_le n (bit_xor (le (take 8 p)) (le (key_stream key n i)))
            ≡ xor_from key i (take 8 p))
          e
          (put_le-xor key i (take 8 p) (All-take IsByte 8 p hp)
            (key_stream-AreBytes key _ i k.bytes)))

  -- Masking the first `n` bytes, a whole number of periods, and then the rest.
  xor_from-split :
      (n : ℕ) (p : List ℕ)
      → n % 4 ≡ 0
      → n ≤ length p
      → xor_from key i (take n p) ++ xor_from key i (drop n p) ≡ xor_from key i p
  xor_from-split n p m h =
      let e : length (take n p) ≡ n = omega (arith, length-take n p) in
      ap (λ q. xor_from key i (take n p) ++ q)
        (xor_from-period key i (length (take n p) + i) (drop n p) (omega arith))
      ∙ sym (xor_from-append key i (take n p) (drop n p))
      ∙ ap (xor_from key i) (take-append-drop n p)

  abbrev Masks : (List ℕ → List ℕ) → Type 0
  Masks after = (q : List ℕ) → AreBytes q → after q ≡ xor_from key i q

  -- One word in place, with what follows it already masked.
  step_word :
      (n : ℕ) (p rest : List ℕ)
      → AreBytes p
      → n + 8 ≤ length p
      → rest ≡ xor_from key i (drop (n + 8) p)
      → mask_word key64 (drop n p) ++ rest ≡ xor_from key i (drop n p)
  step_word n p rest hp h e =
      let len : 8 ≤ length (drop n p) = omega (arith, length-drop n p) in
      ap₂ ◌++◌ (mask_word-eq (drop n p) (All-drop IsByte n p hp) len)
        (e ∙ ap (xor_from key i) (sym (drop-drop 8 n p)))
      ∙ xor_from-split 8 (drop n p) refl len

  unmask_words-eq :
      (fuel : ℕ) (after : List ℕ → List ℕ) → Masks after → Masks (unmask_words fuel key64 after)
  unfolding unmask_words
  unmask_words-eq zero after ha p hp = ha p hp
  unmask_words-eq (suc fuel) after ha p hp = elim (Bool-cases (ltb (length p) 8)) [
    | inl e ↦ rw e (ha p hp)
    | inr e ↦ rw e (
        step_word 0 p _ hp (ltb→le (length p) 8 e)
          (unmask_words-eq fuel after ha (drop 8 p) (All-drop IsByte 8 p hp)))
  ]

  block :
      (p rest : List ℕ)
      → AreBytes p
      → 32 ≤ length p
      → rest ≡ xor_from key i (drop 32 p)
      → mask_word key64 p
          ++ (mask_word key64 (drop 8 p)
              ++ (mask_word key64 (drop 16 p) ++ (mask_word key64 (drop 24 p) ++ rest)))
        ≡ xor_from key i p
  block p rest hp h e = step_word 0 p _ hp (omega arith) (
      step_word 8 p _ hp (omega arith)
        (step_word 16 p _ hp (omega arith) (step_word 24 p rest hp (omega arith) e)))

  unmask_blocks-eq :
      (fuel : ℕ) (after : List ℕ → List ℕ) → Masks after → Masks (unmask_blocks fuel key64 after)
  unfolding unmask_blocks
  unmask_blocks-eq zero after ha p hp = ha p hp
  unmask_blocks-eq (suc fuel) after ha p hp = elim (Bool-cases (ltb (length p) 32)) [
    | inl e ↦ rw e (ha p hp)
    | inr e ↦ rw e (
        block p _ hp (ltb→le (length p) 32 e)
          (unmask_blocks-eq fuel after ha (drop 32 p) (All-drop IsByte 32 p hp)))
  ]

  unmask_tail-eq : (offset : ℕ) → offset % 4 ≡ i % 4 → Masks (unmask_tail key offset key64)
  unmask_tail-eq offset m p hp =
      unmask_blocks-eq (length p) _
        (λ q hq.
          unmask_words-eq (length q) _
            (λ r _.
              unmask_bytes-eq key offset 0 r ∙ xor_from-period key (offset + 0) i r (omega arith))
            q hq)
        p hp

-- The word that `unmask` builds from four bytes of the key.
word_of_four :
    (a b c d : ℕ)
    → a < 256
    → b < 256
    → c < 256
    → d < 256
    → let low = bit_or (bit_or (bit_or a (b * 2 ^ 8)) (c * 2 ^ 16)) (d * 2 ^ 24) in
      bit_or low (low * 2 ^ 32) ≡ le (a ∷ b ∷ c ∷ d ∷ a ∷ b ∷ c ∷ d ∷ [])
word_of_four a b c d ha hb hc hd =
    let two = b * 2 ^ 8 + a in
    let three = c * 2 ^ 16 + two in
    let four = d * 2 ^ 24 + three in
    rw
      (
        bit_or_low 8 b a ha,
        bit_or_low 16 c two (omega arith),
        bit_or_low 24 d three (omega arith),
        bit_or_low 32 four four (omega arith),
      )
      (omega arith)

key_at : {key : List ℕ} → IsKey key → (i : ℕ) → byte_at key i < 256
key_at {key} k i = byte_at-IsByte key i k.bytes

key_word-eq :
    (key : List ℕ) (offset : ℕ)
    → IsKey key
    → offset < 4
    → key_word key offset ≡ le (key_stream key 8 offset)
unfolding key_word
key_word-eq key zero k h = word_of_four _ _ _ _ (key_at k 0) (key_at k 1) (key_at k 2) (key_at k 3)
key_word-eq key (suc zero) k h =
    word_of_four _ _ _ _ (key_at k 1) (key_at k 2) (key_at k 3) (key_at k 0)
key_word-eq key (suc (suc zero)) k h =
    word_of_four _ _ _ _ (key_at k 2) (key_at k 3) (key_at k 0) (key_at k 1)
key_word-eq key (suc (suc (suc zero))) k h =
    word_of_four _ _ _ _ (key_at k 3) (key_at k 0) (key_at k 1) (key_at k 2)
key_word-eq key (suc (suc (suc (suc offset)))) k h = absurd (omega arith)

-- Xor with the bytes of a 64-bit word, lowest first, over and over.
unfoldable pub xor_repeated : ℕ → List ℕ → List ℕ
xor_repeated w [] = []
xor_repeated w (b ∷ p) = bit_xor b (w % 2 ^ 8) ∷ xor_repeated (w / 2 ^ 8 + w % 2 ^ 8 * 2 ^ 56) p

-- What the assembly routine is documented to do on whole vectors.
abbrev pub MasksVectors : Avx2 → Type 0
MasksVectors avx =
    (p : List ℕ) (key64 : ℕ)
    → length p % 32 ≡ 0
    → key64 < 2 ^ 64
    → avx.mask p key64 ≡ xor_repeated key64 p

rotate-le :
    (a b c d e f g h a' : ℕ)
    → a < 256
    → a ≡ a'
    → let w = le (a ∷ b ∷ c ∷ d ∷ e ∷ f ∷ g ∷ h ∷ []) in
      (w % 2 ^ 8 ≡ a) × (w / 2 ^ 8 + w % 2 ^ 8 * 2 ^ 56 ≡ le (b ∷ c ∷ d ∷ e ∷ f ∷ g ∷ h ∷ a' ∷ []))
rotate-le a b c d e f g h a' ha same = (omega arith, omega arith)

xor_repeated-cons :
    (w v b k : ℕ) (p q : List ℕ)
    → w % 2 ^ 8 ≡ k
    → w / 2 ^ 8 + w % 2 ^ 8 * 2 ^ 56 ≡ v
    → xor_repeated v p ≡ q
    → xor_repeated w (b ∷ p) ≡ bit_xor b k ∷ q
unfolding xor_repeated
xor_repeated-cons w v b k p q low high rest =
    ap₂ ◌∷◌ (ap (bit_xor b) low) (ap (λ u. xor_repeated u p) high ∙ rest)

xor_repeated-eq :
    (key : List ℕ) (i : ℕ) (p : List ℕ)
    → AreBytes key
    → xor_repeated (le (key_stream key 8 i)) p ≡ xor_from key i p
unfolding xor_from xor_repeated
xor_repeated-eq key i [] k = refl
xor_repeated-eq key i (b ∷ p) k =
    let j : i % 4 ≡ suc (suc (suc (suc (suc (suc (suc (suc i))))))) % 4 = omega arith in
    let turn = rotate-le _ _ _ _ _ _ _ _ _ (byte_at-IsByte key (i % 4) k) (ap (byte_at key) j) in
    xor_repeated-cons _ _ b _ p _ turn.0 turn.1 (xor_repeated-eq key (suc i) p k)

whole_vectors-eq : (n : ℕ) → n < 2 ^ 63 → whole_vectors n ≡ n / 32 * 32
whole_vectors-eq n h = omega (
  arith,
  and_step n (2 ^ 64 - 32),
  and_step (n / 2) (2 ^ 63 - 16),
  and_step (n / 2 / 2) (2 ^ 62 - 8),
  and_step (n / 2 / 2 / 2) (2 ^ 61 - 4),
  and_step (n / 2 / 2 / 2 / 2) (2 ^ 60 - 2),
  bit_and_ones 59 (n / 2 / 2 / 2 / 2 / 2),
)

vectors :
    (avx : Avx2) (p key : List ℕ) (offset : ℕ)
    → MasksVectors avx
    → IsKey key
    → AreBytes p
    → length p < 2 ^ 63
    → offset < 4
    → avx.mask (take (whole_vectors (length p)) p) (key_word key offset)
        ++ unmask_tail key offset (key_word key offset) (drop (whole_vectors (length p)) p)
      ≡ xor_from key offset p
vectors avx p key offset hv k hp len small =
    let n = whole_vectors (length p) in
    let n-eq : n ≡ length p / 32 * 32 = whole_vectors-eq (length p) len in
    let word : key_word key offset ≡ le (key_stream key 8 offset) =
      key_word-eq key offset k small in
    let ks : AreBytes (key_stream key 8 offset) = key_stream-AreBytes key 8 offset k.bytes in
    let fits : key_word key offset < 2 ^ 64 = omega arith in
    let short : length (take n p) % 32 ≡ 0 = omega (arith, length-take n p) in
    ap₂ ◌++◌
      (hv (take n p) (key_word key offset) short fits
        ∙ ap (λ w. xor_repeated w (take n p)) word
        ∙ xor_repeated-eq key offset (take n p) k.bytes)
      (unmask_tail-eq key k offset (key_word key offset) word offset refl (drop n p)
        (All-drop IsByte n p hp))
    ∙ xor_from-split key k offset (key_word key offset) word n p (omega arith) (omega arith)

-- The word and vector loops are the byte loop of the protocol: byte `i` of the payload is xored with
-- byte `offset + i` of the repeated key. This holds for a key of four bytes, a payload of bytes shorter
-- than 2 ^ 63, any offset, and a vector routine that masks whole vectors as documented.
pub unmask-eq-xor_from :
    (avx : Avx2) (payload key : List ℕ) (offset : ℕ)
    → MasksVectors avx
    → IsKey key
    → AreBytes payload
    → length payload < 2 ^ 63
    → unmask avx payload key offset ≡ xor_from key offset payload
unfolding unmask
unmask-eq-xor_from avx payload key offset' hv k hp len =
    let offset = bit_and offset' 3 in
    let small : offset < 4 = omega (arith, bit_and_ones 2 offset') in
    let same : offset % 4 ≡ offset' % 4 = omega (arith, bit_and_ones 2 offset') in
    let word = key_word-eq key offset k small in
    let tail : (q : List ℕ)
        → AreBytes q
        → unmask_tail key offset (key_word key offset) q ≡ xor_from key offset q =
      unmask_tail-eq key k offset (key_word key offset) word offset refl in
    let slow : xor_from key offset payload ≡ xor_from key offset' payload =
      xor_from-period key offset offset' payload same in
    elim (Bool-cases (ltb (length payload) 16)) [
      | inl e ↦
          rw e
            (unmask_bytes-eq key offset 0 payload ∙ xor_from-period key _ _ payload (omega arith))
      | inr e ↦ elim (Bool-cases (avx.use_avx2 && not (ltb (length payload) 128))) [
        | inl f ↦ rw (e, f) (vectors avx payload key offset hv k hp len small ∙ slow)
        | inr f ↦ rw (e, f) (tail payload hp ∙ slow)
      ]
    ]

-- Masking twice with the same key and offset gives the payload back.
pub xor_from-twice :
    (key : List ℕ) (i : ℕ) (p : List ℕ)
    → IsKey key
    → AreBytes p
    → xor_from key i (xor_from key i p) ≡ p
unfolding xor_from
xor_from-twice key i [] k hp = refl
xor_from-twice key i (b ∷ p) k hp =
    ap₂ ◌∷◌ (xor_cancel 8 b (byte_at key (i % 4)) hp.0 (key_at k (i % 4)))
      (xor_from-twice key (suc i) p k hp.1)

pub length-xor_from : (key : List ℕ) (i : ℕ) (p : List ℕ) → length (xor_from key i p) ≡ length p
unfolding xor_from
length-xor_from key i [] = refl
length-xor_from key i (b ∷ p) = ap suc (length-xor_from key (suc i) p)

pub xor_from-AreBytes :
    (key : List ℕ) (i : ℕ) (p : List ℕ) → IsKey key → AreBytes p → AreBytes (xor_from key i p)
unfolding xor_from
xor_from-AreBytes key i [] k hp = tt
xor_from-AreBytes key i (b ∷ p) k hp =
    (bit_xor-lt 8 b _ hp.0 (key_at k (i % 4)), xor_from-AreBytes key (suc i) p k hp.1)
