-- ===== src/Uws/Frame/RoundTrip.antt =====
-- `ParseFrame` reads back what `Append` writes.
use uio.Prelude.Bytes.{AreBytes, byte_at, uint16-put, uint64-put, put_uint16, put_uint64}
use uio.Prelude.Result.{ok}
use uio.Prelude.{
  ℕ, ◌+◌, ◌-◌, ◌^◌, ◌≤◌, ◌<◌, ◌≡◌, refl, ap, sym, ◌∙◌, Bool, true, false, Option, none, List, [],
  ◌∷◌, ◌++◌, append_assoc, arith, length, take, drop, ltb, leb, le→ltb, ltb→lt, ltb→le, leb→le, ◌/◌,
  ◌%◌, if◌then◌else◌, bit_or, Bool-cases, inl, inr, length-append, length-drop, drop-drop,
  take-length, drop-length,
}
use uio.Uws.Mask.{Avx2, unmask}
use uio.Uws.Mask.Words.{
  MasksVectors, IsKey, xor_from, unmask-eq-xor_from, xor_from-twice, length-xor_from,
  xor_from-AreBytes,
}
use uio.Uws.Frame.{
  Frame, ParserConfig, parsed, parser_expect_mask, parser_allow_rsv1, parser_max_frame_payload,
  max_int, valid_opcode, validate_close_payload, close, payload_length, extended_size,
  parse_payload, parse_announced, announced, refuses_prefix, parse_frame, append_header, append,
  first_byte, length_bytes,
}
use uio.Uws.Frame.Bits.{and_0x80, first_byte-flags, second_byte-flags, valid_opcode-lt}

-- A frame that the receiver's configuration admits.
pub record IsSendable (cfg : Option ParserConfig) (f : Frame) : Type 0 where
  pub opcode_ok : valid_opcode f.opcode ≡ true
  pub control : 8 ≤ f.opcode → (f.fin ≡ true) × (f.rsv1 ≡ false) × (length f.payload < 126)
  pub rsv1_ok : f.rsv1 ≡ true → parser_allow_rsv1 cfg ≡ true
  pub masked_eq : f.masked ≡ parser_expect_mask cfg
  pub fits : length f.payload ≤ parser_max_frame_payload cfg
  pub fits_int : length f.payload + 14 ≤ max_int
  pub close_ok : f.opcode ≡ close → validate_close_payload f.payload ≡ none

abbrev plain : Avx2 → Bool → List ℕ → List ℕ → List ℕ
plain avx masked k body = if masked then unmask avx body k 0 else body

abbrev key_size : Bool → ℕ
key_size masked = if masked then 4 else 0

parse_payload-eq :
    (avx : Avx2) (src : List ℕ) (cfg : Option ParserConfig) (f : Frame) (start : ℕ)
    (k body rest : List ℕ)
    → start ≤ length src
    → drop start src ≡ k ++ (body ++ rest)
    → length k ≡ key_size f.masked
    → length body ≤ parser_max_frame_payload cfg
    → length body + (start + key_size f.masked) ≤ max_int
    → (f.opcode ≡ close → validate_close_payload (plain avx f.masked k body) ≡ none)
    → parse_payload avx src cfg f (start + key_size f.masked) (length body)
      ≡ parsed
          (record f { payload = plain avx f.masked k body })
          (start + key_size f.masked + length body)
unfolding parse_payload
parse_payload-eq avx src cfg f start k body rest len split hk max int closing =
    let e1 : drop (start + key_size f.masked) src ≡ body ++ rest =
      sym (drop-drop (key_size f.masked) start src)
      ∙ ap (drop (key_size f.masked)) split
      ∙ ap (λ m. drop m (k ++ (body ++ rest))) (sym hk)
      ∙ drop-length k (body ++ rest) in
    let e2 : take (length body) (drop (start + key_size f.masked) src) ≡ body =
      ap (take (length body)) e1 ∙ take-length body rest in
    let total : length src ≡ start + (length k + (length body + length rest)) = omega (
      arith,
      ap length split,
      length-drop start src,
      length-append k (body ++ rest),
      length-append body rest,
    ) in
    let back : start + key_size f.masked - key_size f.masked ≡ start = omega arith in
    let e3 : take (key_size f.masked) (drop (start + key_size f.masked - key_size f.masked) src)
        ≡ k =
      ap (λ m. take (key_size f.masked) (drop m src)) back
      ∙ ap (take (key_size f.masked)) split
      ∙ ap (λ m. take m (k ++ (body ++ rest))) (sym hk)
      ∙ take-length k (body ++ rest) in
    ground (arith, e2, e3)

abbrev mask_bit : Bool → ℕ
mask_bit masked = if masked then 0x80 else 0

-- The receiver's view of a frame: its header, and its payload taken from the input.
abbrev received : Frame → List ℕ → Frame
received f p = record f { borrowed = true; payload = p }

announced-eq :
    (f : Frame) (code : ℕ)
    → f.opcode < 16
    → code < 128
    → announced (first_byte f) (bit_or (mask_bit f.masked) code) ≡ received f []
announced-eq f code h hc = ground (arith, first_byte-flags f h, second_byte-flags f.masked code hc)

accepts-prefix :
    (cfg : Option ParserConfig) (f : Frame) (code : ℕ)
    → IsSendable cfg f
    → (8 ≤ f.opcode → code < 126)
    → refuses_prefix cfg (first_byte f) (received f []) code ≡ false
unfolding refuses_prefix
accepts-prefix cfg f code v small =
    let h : f.opcode < 16 = valid_opcode-lt f.opcode v.opcode_ok in
    ground (arith, first_byte-flags f h)

parse_announced-eq :
    (avx : Avx2) (src : List ℕ) (cfg : Option ParserConfig) (f : Frame) (code : ℕ)
    (k body rest : List ℕ)
    → IsSendable cfg f
    → (8 ≤ f.opcode → code < 126)
    → payload_length src code ≡ ok (length body)
    → 2 + extended_size code ≤ length src
    → drop (2 + extended_size code) src ≡ k ++ (body ++ rest)
    → length k ≡ key_size f.masked
    → length body ≡ length f.payload
    → plain avx f.masked k body ≡ f.payload
    → parse_announced avx src cfg (first_byte f) (received f []) code
      ≡ parsed (received f f.payload) (2 + extended_size code + key_size f.masked + length body)
unfolding parse_announced
parse_announced-eq avx src cfg f code k body rest v small n len split hk hb back =
    let header : 2 + extended_size code + key_size f.masked ≤ length src = omega (
      arith,
      ap length split,
      length-drop (2 + extended_size code) src,
      length-append k (body ++ rest),
    ) in
    let extended : extended_size code ≤ 8 = ground arith in
    let closing : f.opcode ≡ close → validate_close_payload (plain avx f.masked k body) ≡ none =
      λ e. ap validate_close_payload back ∙ v.close_ok e in
    let total = 2 + extended_size code + key_size f.masked + length body in
    let body-eq =
      parse_payload-eq avx src cfg (received f []) (2 + extended_size code) k body rest len split hk
        (omega (arith, v.fits)) (ground (arith, v.fits_int)) closing in
    rw (accepts-prefix cfg f code v small, le→ltb (length src) _ header, n)
      (body-eq ∙ ap (λ p. parsed (received f p) total) back)

parse_frame-eq :
    (avx : Avx2) (src : List ℕ) (cfg : Option ParserConfig) (f : Frame) (code : ℕ)
    (k body rest : List ℕ)
    → IsSendable cfg f
    → code < 128
    → (8 ≤ f.opcode → code < 126)
    → byte_at src 0 ≡ first_byte f
    → byte_at src 1 ≡ bit_or (mask_bit f.masked) code
    → payload_length src code ≡ ok (length body)
    → 2 + extended_size code ≤ length src
    → drop (2 + extended_size code) src ≡ k ++ (body ++ rest)
    → length k ≡ key_size f.masked
    → length body ≡ length f.payload
    → plain avx f.masked k body ≡ f.payload
    → parse_frame avx src cfg
      ≡ parsed (received f f.payload) (2 + extended_size code + key_size f.masked + length body)
unfolding parse_frame
parse_frame-eq avx src cfg f code k body rest v hc small b0 b1 n len split hk hb back =
    let h : f.opcode < 16 = valid_opcode-lt f.opcode v.opcode_ok in
    rw
      (
        le→ltb (length src) 2 (omega arith),
        b0,
        b1,
        announced-eq f code h hc,
        (second_byte-flags f.masked code hc).1,
      )
      (parse_announced-eq avx src cfg f code k body rest v small n len split hk hb back)

-- The three ways to write a length.
length_bytes-append :
    (f : Frame) (xs ys : List ℕ) → length_bytes f xs ++ ys ≡ length_bytes f (xs ++ ys)
length_bytes-append f xs ys = ground arith

-- The encoded frame, followed by the rest of the input.
stream-eq :
    (avx : Avx2) (f : Frame) (key rest : List ℕ)
    → append avx [] f key ++ rest
      ≡ first_byte f
        ∷ length_bytes f (
            (if f.masked then key else [])
            ++ ((if f.masked then unmask avx f.payload key 0 else f.payload) ++ rest))
unfolding append append_header
stream-eq avx f key rest =
    let k = if f.masked then key else [] in
    let body = if f.masked then unmask avx f.payload key 0 else f.payload in
    ap (◌∷◌ (first_byte f))
      (append_assoc (length_bytes f k) body rest ∙ length_bytes-append f k (body ++ rest))

abbrev length_code : ℕ → ℕ
length_code n = if ltb n 126 then n else if leb n (2 ^ 16 - 1) then 126 else 127

module _ (avx : Avx2) (cfg : Option ParserConfig) (f : Frame) (k body rest : List ℕ)
    (v : IsSendable cfg f) (hk : length k ≡ key_size f.masked) (hb : length body ≡ length f.payload)
    (back : plain avx f.masked k body ≡ f.payload) where
  payload_length-short :
      (src : List ℕ)
      → length f.payload < 126
      → payload_length src (length f.payload) ≡ ok (length body)
  unfolding payload_length
  payload_length-short src h = ground arith

  payload_length-medium :
      (b0 b1 : ℕ) (xs : List ℕ)
      → 126 ≤ length f.payload
      → length f.payload < 2 ^ 16
      → payload_length (b0 ∷ b1 ∷ put_uint16 (length f.payload) xs) 126 ≡ ok (length body)
  unfolding payload_length
  payload_length-medium b0 b1 xs lo hi =
      rw (uint16-put (length f.payload) xs hi, le→ltb (length f.payload) 126 lo, hb)

  payload_length-long :
      (b0 b1 : ℕ) (xs : List ℕ)
      → 65536 ≤ length f.payload
      → length f.payload < 2 ^ 63
      → payload_length (b0 ∷ b1 ∷ put_uint64 (length f.payload) xs) 127 ≡ ok (length body)
  unfolding payload_length
  payload_length-long b0 b1 xs lo hi =
      let n = length f.payload in
      ground (
        arith,
        and_0x80 (n / 2 ^ 32 / 2 ^ 16 / 256 % 256),
        uint64-put n xs (omega arith),
        le→ltb n 65536 lo,
      )

  stream : List ℕ
  stream = first_byte f ∷ length_bytes f (k ++ (body ++ rest))

  parse-stream :
      parse_frame avx stream cfg
      ≡ parsed
          (received f f.payload)
          (2 + extended_size (length_code (length f.payload)) + key_size f.masked + length body)
  unfolding stream
  parse-stream = elim (Bool-cases (ltb (length f.payload) 126)) [
    | inl e ↦ rw e (
        let small : length f.payload < 126 = ltb→lt _ _ e in
        let plain_code : extended_size (length f.payload) ≡ 0 = ground arith in
        parse_frame-eq avx _ cfg f (length f.payload) k body rest v (omega arith) (λ _. small) refl
          refl (payload_length-short _ small) (omega (arith, plain_code))
          (ap
            (λ m. drop (2 + m) (
              first_byte f ∷ bit_or (mask_bit f.masked) (length f.payload) ∷ (k ++ (body ++ rest))))
            plain_code)
          hk hb back)
    | inr e ↦
        (let big : 126 ≤ length f.payload = ltb→le _ _ e in
          let data_frame : (code : ℕ) → 8 ≤ f.opcode → code < 126 =
            λ _ h. absurd (omega (arith, (v.control h).2)) in
          elim (Bool-cases (leb (length f.payload) (2 ^ 16 - 1))) [
            | inl g ↦
                rw (e, g)
                  (parse_frame-eq avx _ cfg f 126 k body rest v (omega arith) (data_frame 126) refl
                    refl (payload_length-medium _ _ _ big (omega (arith, leb→le _ _ g)))
                    (omega arith) refl hk hb back)
            | inr g ↦
                rw (e, g)
                  (parse_frame-eq avx _ cfg f 127 k body rest v (omega arith) (data_frame 127) refl
                    refl (payload_length-long _ _ _ (ground arith) (omega (arith, v.fits_int)))
                    (omega arith) refl hk hb back)
          ])
  ]

length-length_bytes :
    (f : Frame) (xs : List ℕ)
    → length (length_bytes f xs) ≡ 1 + extended_size (length_code (length f.payload)) + length xs
length-length_bytes f xs = ground arith

module _ (avx : Avx2) (cfg : Option ParserConfig) (f : Frame) (key : List ℕ) (hv : MasksVectors avx)
    (hk : IsKey key) (hp : AreBytes f.payload) (v : IsSendable cfg f) where
  body_of : List ℕ
  body_of = if f.masked then unmask avx f.payload key 0 else f.payload

  masked-eq : (p : List ℕ) → AreBytes p → length p < 2 ^ 63 → unmask avx p key 0 ≡ xor_from key 0 p
  masked-eq p bytes len = unmask-eq-xor_from avx p key 0 hv hk bytes len

  unmask-twice :
      (length (unmask avx f.payload key 0) ≡ length f.payload)
      × (unmask avx (unmask avx f.payload key 0) key 0 ≡ f.payload)
  unmask-twice =
      let len : length f.payload < 2 ^ 63 = omega (arith, v.fits_int) in
      let e = masked-eq f.payload hp len in
      let size = length-xor_from key 0 f.payload in
      (
        ap length e ∙ size,
        ap (λ p. unmask avx p key 0) e
            ∙ masked-eq (xor_from key 0 f.payload) (xor_from-AreBytes key 0 f.payload hk hp)
                (omega (arith, size))
            ∙ xor_from-twice key 0 f.payload hk hp,
      )

  body-facts :
      (length body_of ≡ length f.payload)
      × (length (if f.masked then key else []) ≡ key_size f.masked)
      × (plain avx f.masked (if f.masked then key else []) body_of ≡ f.payload)
  unfolding body_of
  body-facts = ground (arith, unmask-twice, hk.size)

  length-append-frame :
      length (append avx [] f key)
      ≡ 2 + extended_size (length_code (length f.payload)) + key_size f.masked + length body_of
  unfolding append append_header body_of
  length-append-frame =
      let k = if f.masked then key else [] in
      omega (
        arith,
        length-append (first_byte f ∷ length_bytes f k)
            (if f.masked then unmask avx f.payload key 0 else f.payload),
        length-length_bytes f k,
        body-facts.1,
      )

  -- A receiver whose configuration admits the frame parses an appended frame, whatever follows it in the
  -- input: it gets the same flags, opcode and unmasked payload, and consumes exactly the frame's bytes.
  -- This holds on every length encoding, masked or not, with a key of four bytes, a payload of bytes that
  -- leaves room for the header in an `int`, and a vector routine that behaves as documented.
  pub parse-append :
      (rest : List ℕ)
      → parse_frame avx (append avx [] f key ++ rest) cfg
        ≡ parsed (record f { borrowed = true }) (length (append avx [] f key))
  unfolding stream body_of
  parse-append rest =
      let facts = body-facts in
      ap (λ s. parse_frame avx s cfg) (stream-eq avx f key rest)
      ∙ parse-stream avx cfg f (if f.masked then key else []) body_of rest v facts.1 facts.0 facts.2
      ∙ ap (parsed (record f { borrowed = true })) (sym length-append-frame)
