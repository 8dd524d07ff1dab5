-- ===== src/Timewheel/Summary/First.antt =====
-- The scan finds the first occupied slot from a slot on, cyclically.
use native.Mathlib.Nat.{mod-eq_of_lt, mod_self}
use uio.Prelude.{
  ℕ, zero, suc, ◌+◌, ◌-◌, ◌*◌, ◌/◌, ◌%◌, ◌≡◌, ◌≢◌, refl, ap, sym, ◌∙◌, Bool, true, false, not, ◌&&◌,
  Option, none, some, ltb, leb, ◌==◌, if◌then◌else◌, arith, ◌≤◌, ◌<◌, if-elim, Bool-cases, inl, inr,
  ℕ_discrete,
}
use uio.Timewheel.Summary.{
  Word, Summary, lowest_from, trailing_zeros64, is_zero, shift_right, low_bits, scan, word_count,
  first_occupied,
}

-- The lowest bit that is set, and 64 for no bit.
pub record IsLowest (w : Word) (t : ℕ) : Type 0 where
  pub below : t ≤ 64
  pub here : t < 64 → w t ≡ true
  pub clear : (i : ℕ) → i < t → i < 64 → w i ≡ false

lowest_from-IsLowest :
    (k b : ℕ) (w : Word)
    → k + b ≡ 64
    → ((i : ℕ) → i < b → w i ≡ false)
    → IsLowest w (lowest_from k b w)
lowest_from-IsLowest zero b w e clear = record {
  below = omega arith;
  here = λ h. absurd (omega (arith, h));
  clear = λ i h q. clear i (omega (arith, q, e));
}
lowest_from-IsLowest (suc k) b w e clear =
    if-elim (IsLowest w) (w b) b (lowest_from k (suc b) w)
      (λ h. record { below = omega (arith, e); here = λ q. h; clear = λ i q r. clear i q })
      (λ h. lowest_from-IsLowest k (suc b) w (omega (arith, e)) (λ i q. elim (ℕ_discrete i b) [
        | yes f ↦ ap w f ∙ h
        | no ne ↦ clear i (omega (arith, q, ne))
      ]))

pub trailing_zeros64-IsLowest : (w : Word) → IsLowest w (trailing_zeros64 w)
unfolding trailing_zeros64
trailing_zeros64-IsLowest w = lowest_from-IsLowest 64 0 w refl (λ i h. absurd (omega (arith, h)))

-- How far a slot is from `start`, going up and around.
abbrev pub distance : ℕ → ℕ → ℕ → ℕ
distance buckets start slot = if leb start slot then slot - start else slot + buckets - start

-- The nearest occupied slot, or none when no slot is occupied.
abbrev pub IsFirst : (ℕ → Bool) → ℕ → ℕ → Option ℕ → Type 0
IsFirst occupied buckets start none = (slot : ℕ) → occupied slot ≡ false
IsFirst occupied buckets start (some r) =
    occupied r ≡ true
    × ((slot : ℕ) → occupied slot ≡ true → distance buckets start r ≤ distance buckets start slot)

module _ (s : Summary) (occupied : ℕ → Bool) (buckets start : ℕ)
    (bits : (slot : ℕ) → s (slot / 64) (slot % 64) ≡ occupied slot)
    (inside : (slot : ℕ) → occupied slot ≡ true → slot < buckets) (start_lt : start < buckets) where
  abbrev first_word : ℕ
  first_word = start / 64

  abbrev words : ℕ
  words = word_count buckets

  -- How many words after the first a word comes, the first itself last.
  abbrev turns : ℕ → ℕ
  turns word = if ltb first_word word then word - first_word else word + words - first_word

  bit_at : (word i : ℕ) → i < 64 → s word i ≡ occupied (word * 64 + i)
  bit_at word i h =
      let q : (word * 64 + i) / 64 ≡ word = omega (arith, h) in
      let r : (word * 64 + i) % 64 ≡ i = omega (arith, h) in
      sym (ap (λ x. s x i) q) ∙ (sym (ap (s ((word * 64 + i) / 64)) r) ∙ bits (word * 64 + i))

  abbrev Nothing : Type 0
  Nothing = (slot : ℕ) → occupied slot ≡ true → slot / 64 ≡ first_word → slot < start

  abbrev Found : Option ℕ → Type 0
  Found none = (slot : ℕ) → occupied slot ≡ true → slot / 64 ≡ first_word
  Found (some r) = IsFirst occupied buckets start (some r)

  in_words : (slot : ℕ) → occupied slot ≡ true → slot / 64 < words
  in_words slot o = omega (arith, inside slot o)

  in_first : (slot : ℕ) → occupied slot ≡ true → words ≤ turns (slot / 64) → slot / 64 ≡ first_word
  in_first slot o h = ground (arith, in_words slot o, h, start_lt)

  next_word :
      (word : ℕ) → word < words → (word + 1) % words ≡ (if word + 1 == words then 0 else word + 1)
  next_word word lt = elim (ℕ_discrete (word + 1) words) [
    | yes e ↦ (ap (λ x. x % words) e ∙ (mod_self words ∙ ground (arith, e)))
    | no ne ↦ (mod-eq_of_lt (omega (arith, lt, ne)) ∙ ground (arith, ne))
  ]

  -- An occupied slot of a word with no bits.
  zero_word : (word : ℕ) → (w : Word) → trailing_zeros64 w ≡ 64 → (i : ℕ) → i < 64 → w i ≡ false
  zero_word word w e i h = (trailing_zeros64-IsLowest w).clear i (omega (arith, e, h)) h

  clash : false ≡ true → ⊥
  clash h = cc

  -- An occupied slot is not below the lowest bit of its word.
  at_least : {w : Word} (word slot t : ℕ) → w (slot % 64) ≡ true → IsLowest w t → t ≤ slot % 64
  at_least word slot t o low = elim (Bool-cases (ltb (slot % 64) t)) [
    | inl e ↦ absurd (clash (sym (low.clear (slot % 64) (ground (arith, e)) (omega arith)) ∙ o))
    | inr e ↦ ground (arith, e)
  ]

  nearest :
      (word t : ℕ)
      → word < words
      → word ≢ first_word
      → Nothing
      → word * 64 + t < buckets
      → t < 64
      → (slot : ℕ) → occupied slot ≡ true
      → turns word ≤ turns (slot / 64)
      → (slot / 64 ≡ word → t ≤ slot % 64)
      → distance buckets start (word * 64 + t) ≤ distance buckets start slot
  nearest word t lt ne clear r_lt t_lt slot o ahead low = ground (
    arith,
    lt,
    ne,
    clear slot o,
    r_lt,
    t_lt,
    in_words slot o,
    inside slot o,
    start_lt,
    ahead,
    low,
  )

  found_at :
      (word : ℕ)
      → Nothing
      → word < words
      → word ≢ first_word
      → ((slot : ℕ) → occupied slot ≡ true → turns word ≤ turns (slot / 64))
      → trailing_zeros64 (s word) ≢ 64
      → IsFirst occupied buckets start (some (word * 64 + trailing_zeros64 (s word)))
  found_at word clear lt ne ahead some_bit =
      let t = trailing_zeros64 (s word) in
      let low = trailing_zeros64-IsLowest (s word) in
      let t_lt : t < 64 = omega (arith, low.below, some_bit) in
      let on = sym (bit_at word t t_lt) ∙ low.here t_lt in
      (
        on,
        λ slot o.
            nearest word t lt ne clear (inside (word * 64 + t) on) t_lt slot o (ahead slot o)
              (λ e. at_least word slot t (sym (ap (λ x. s x (slot % 64)) e) ∙ (bits slot ∙ o)) low),
      )

  further :
      (word slot : ℕ)
      → word < words
      → word ≢ first_word
      → occupied slot ≡ true
      → turns word ≤ turns (slot / 64)
      → trailing_zeros64 (s word) ≡ 64
      → turns ((word + 1) % words) ≤ turns (slot / 64)
  further word slot lt ne o ahead none_here = elim (ℕ_discrete (slot / 64) word) [
    | yes e ↦
        (let off = zero_word word (s word) none_here (slot % 64) (omega arith) in
          absurd (clash (sym off ∙ (sym (ap (λ x. s x (slot % 64)) e) ∙ (bits slot ∙ o)))))
    | no other ↦ ground (arith, next_word word lt, in_words slot o, start_lt, ahead, other, ne, lt)
  ]

  scan-Found :
      (fuel word : ℕ)
      → Nothing
      → word < words
      → words ≤ turns word + fuel
      → ((slot : ℕ) → occupied slot ≡ true → turns word ≤ turns (slot / 64))
      → Found (scan fuel s words first_word word)
  unfolding scan
  scan-Found zero word clear lt le ahead =
      λ slot o. in_first slot o (omega (arith, le, ahead slot o))
  scan-Found (suc fuel) word clear lt le ahead =
      if-elim Found (word == first_word) none _
        (λ e slot o. in_first slot o (ground (arith, e, ahead slot o)))
        (λ e.
          if-elim Found (not (is_zero (s word))) (some (word * 64 + trailing_zeros64 (s word))) _
            (λ f. found_at word clear lt (ground (arith, e)) ahead (ground (arith, f)))
            (λ f.
              let next = next_word word lt in
              scan-Found fuel ((word + 1) % words) clear (ground (arith, next, lt))
                (ground (arith, next, le, e, lt))
                (λ slot o.
                  further word slot lt (ground (arith, e)) o (ahead slot o) (ground (arith, f)))))

  abbrev above : Word
  above = shift_right (s first_word) (start % 64)

  abbrev below : Word
  below = low_bits (s first_word) (start % 64)

  -- An occupied slot of the first word, seen from the start.
  above_at :
      (slot : ℕ)
      → occupied slot ≡ true
      → slot / 64 ≡ first_word
      → start ≤ slot
      → above (slot - start) ≡ true
  above_at slot o e le =
      let i : slot - start + start % 64 ≡ slot % 64 = omega (arith, e, le) in
      let on : s first_word (slot - start + start % 64) ≡ true =
        ap (s first_word) i ∙ (ap (λ x. s x (slot % 64)) (sym e) ∙ (bits slot ∙ o)) in
      ground (arith, on, i)

  below_at :
      (slot : ℕ)
      → occupied slot ≡ true
      → slot / 64 ≡ first_word
      → slot < start
      → below (slot % 64) ≡ true
  below_at slot o e lt =
      let on : s first_word (slot % 64) ≡ true =
        ap (λ x. s x (slot % 64)) (sym e) ∙ (bits slot ∙ o) in
      ground (arith, on, e, lt)

  -- The lowest bit of the word `w` does not come after a bit of it.
  lowest_le : (w : Word) (i : ℕ) → i < 64 → w i ≡ true → trailing_zeros64 w ≤ i
  lowest_le w i h on = elim (Bool-cases (leb (trailing_zeros64 w) i)) [
    | inl e ↦ ground (arith, e)
    | inr e ↦
        absurd (clash (sym ((trailing_zeros64-IsLowest w).clear i (ground (arith, e)) h) ∙ on))
  ]

  from_above :
      trailing_zeros64 above ≢ 64
      → IsFirst occupied buckets start
          (some (first_word * 64 + start % 64 + trailing_zeros64 above))
  from_above some_bit =
      let t = trailing_zeros64 above in
      let low = trailing_zeros64-IsLowest above in
      let t_lt : t < 64 = omega (arith, low.below, some_bit) in
      let set = low.here t_lt in
      let fits : t + start % 64 < 64 = ground (arith, set) in
      let bit_on : s first_word (t + start % 64) ≡ true = ground (arith, set) in
      let place : first_word * 64 + (t + start % 64) ≡ first_word * 64 + start % 64 + t =
        omega arith in
      let on = sym (ap occupied place) ∙ (sym (bit_at first_word (t + start % 64) fits) ∙ bit_on) in
      (
        on,
        λ slot o.
            near t slot o (inside (first_word * 64 + start % 64 + t) on) fits
              (λ e le. lowest_le above (slot - start) (omega (arith, e)) (above_at slot o e le)),
      )
    where
      near :
          (t slot : ℕ)
          → occupied slot ≡ true
          → first_word * 64 + start % 64 + t < buckets
          → t + start % 64 < 64
          → (slot / 64 ≡ first_word → start ≤ slot → t ≤ slot - start)
          → distance buckets start (first_word * 64 + start % 64 + t) ≤ distance buckets start slot
      near t slot o r_lt fits low = ground (arith, inside slot o, start_lt, r_lt, fits, low)

  from_below :
      Nothing
      → ((slot : ℕ) → occupied slot ≡ true → slot / 64 ≡ first_word)
      → trailing_zeros64 below ≢ 64
      → IsFirst occupied buckets start (some (first_word * 64 + trailing_zeros64 below))
  from_below clear only some_bit =
      let t = trailing_zeros64 below in
      let low = trailing_zeros64-IsLowest below in
      let t_lt : t < 64 = omega (arith, low.below, some_bit) in
      let set = low.here t_lt in
      let fits : t < start % 64 = ground (arith, set) in
      let bit_on : s first_word t ≡ true = ground (arith, set) in
      let on = sym (bit_at first_word t t_lt) ∙ bit_on in
      (
        on,
        λ slot o. near t slot o fits (
            lowest_le below (slot % 64) (omega arith)
              (below_at slot o (only slot o) (clear slot o (only slot o)))),
      )
    where
      near :
          (t slot : ℕ)
          → occupied slot ≡ true
          → t < start % 64
          → t ≤ slot % 64
          → distance buckets start (first_word * 64 + t) ≤ distance buckets start slot
      near t slot o fits low =
          ground (arith, inside slot o, start_lt, fits, low, only slot o, clear slot o)

  -- When the bits of the summary are the occupied slots, and these and `start` are slots of the ring,
  -- the scan returns the occupied slot that comes first from `start` on, going around the ring, and
  -- none exactly when no slot is occupied.
  pub first_occupied-IsFirst : IsFirst occupied buckets start (first_occupied s buckets start)
  unfolding first_occupied
  first_occupied-IsFirst =
      if-elim (IsFirst occupied buckets start) (not (is_zero above))
        (some (first_word * 64 + start % 64 + trailing_zeros64 above)) _
        (λ e. from_above (ground (arith, e)))
        (λ e.
          let clear : Nothing = λ slot o f. quiet slot o f (ground (arith, e)) in
          let next = next_word first_word (omega (arith, start_lt)) in
          after clear (scan words s words first_word ((first_word + 1) % words)) (
            scan-Found words ((first_word + 1) % words) clear (ground (arith, next, start_lt))
              (ground (arith, next, start_lt))
              (λ slot o. ground (arith, next, start_lt, in_words slot o))))
    where
      quiet :
          (slot : ℕ)
          → occupied slot ≡ true
          → slot / 64 ≡ first_word
          → trailing_zeros64 above ≡ 64
          → slot < start
      quiet slot o f none_above = elim (Bool-cases (ltb slot start)) [
        | inl h ↦ ground (arith, h)
        | inr h ↦ absurd (
            omega (
              arith,
              none_above,
              lowest_le above (slot - start) (omega (arith, f))
                  (above_at slot o f (ground (arith, h))),
            ))
      ]

      after :
          Nothing
          → (found : Option ℕ) → Found found
          → IsFirst occupied buckets start (elim found [
            | some slot ↦ some slot
            | none ↦
                if not (start % 64 == 0) && not (is_zero below)
                then some (first_word * 64 + trailing_zeros64 below)
                else none
          ])
      after clear (some r) f = f
      after clear none only =
          if-elim (IsFirst occupied buckets start) (not (start % 64 == 0) && not (is_zero below)) _
            _ (λ e. from_below clear only (ground (arith, e)))
            (λ e slot. elim (Bool-cases (occupied slot)) [
              | inl o ↦ absurd (
                  omega (
                    arith,
                    late slot o (only slot o) (clear slot o (only slot o)) e (
                        lowest_le below (slot % 64) (omega arith)
                          (below_at slot o (only slot o) (clear slot o (only slot o)))),
                  ))
              | inr o ↦ o
            ])
        where
          late :
              (slot : ℕ)
              → occupied slot ≡ true
              → slot / 64 ≡ first_word
              → slot < start
              → (not (start % 64 == 0) && not (is_zero below)) ≡ false
              → trailing_zeros64 below ≤ slot % 64
              → 1 ≤ 0
          late slot o f lt e low = ground (arith, f, lt, e, low)
