-- ===== src/Umux/Frame/Codec.antt =====
-- What the codec of umux/frame.go accepts, and that it is a bijection there.
use uio.Prelude.Bytes.{
  AreBytes, byte_at-IsByte, IsByte, byte_at, uint16, uint32, put_uint16, put_uint32,
}
use uio.Prelude.Result.{ok}
use uio.Prelude.Bits.{and_step, bit_and_ones}
use uio.Prelude.{
  ℕ, ◌+◌, ◌*◌, ◌/◌, ◌^◌, ◌≤◌, ◌<◌, zero, suc, ap₂, ◌≡◌, ◌≢◌, ◌↔◌, refl, none, some, List, [], ◌∷◌,
  arith, sym, ap, ◌∙◌, le→ltb, length, drop,
}
use uio.Umux.Frame.{
  FrameHeader, read_header, decode_header, encode_header, validate_frame, undefined_flags,
  type_syn_metadata, type_data, type_window_update, type_go_away, flag_syn,
}

-- The fields fit their widths and name a defined type and defined flags.
pub record IsHeader (h : FrameHeader) : Type 0 where
  pub version_eq : h.version ≡ 0
  pub typ_le : h.typ ≤ 4
  pub flags_lt : h.flags < 16
  pub stream_id_lt : h.stream_id < 2 ^ 32
  pub length_lt : h.length < 2 ^ 32

undefined_flags_lem : (x : ℕ) → x < 2 ^ 16 → undefined_flags x ≡ x / 16 * 16
undefined_flags_lem x h = omega (
  arith,
  and_step x 0xfff0,
  and_step (x / 2) 0x7ff8,
  and_step (x / 2 / 2) 0x3ffc,
  and_step (x / 2 / 2 / 2) 0x1ffe,
  bit_and_ones 12 (x / 2 / 2 / 2 / 2),
)

-- A header with version 0, a known type, defined flags and fields of their widths is read back from
-- what `encodeHeader` wrote, whatever follows the twelve bytes.
pub decode-encode :
    (dst : List ℕ) (h : FrameHeader) {b : List ℕ}
    → IsHeader h
    → encode_header dst h ≡ some b
    → decode_header b ≡ ok h
unfolding decode_header encode_header
decode-encode dst h v e = ground (arith, undefined_flags_lem h.flags)

-- `decode_header` inverted: the header is the one read, and it passed each test.
decode_header-ok :
    (b : List ℕ) {h : FrameHeader}
    → decode_header b ≡ ok h
    → (12 ≤ length b)
      × (h ≡ read_header b)
      × (byte_at b 0 ≡ 0)
      × (byte_at b 1 ≤ 4)
      × (undefined_flags (uint16 b 2) ≡ 0)
unfolding decode_header
decode_header-ok b e = ground arith

-- A header that `decodeHeader` returns for a list of bytes has version 0, a known type, defined flags
-- and fields of their widths.
decode-IsHeader : (b : List ℕ) {h : FrameHeader} → AreBytes b → decode_header b ≡ ok h → IsHeader h
unfolding decode_header
decode-IsHeader b v e =
    let at : (i : ℕ) → byte_at b i < 256 = λ i. byte_at-IsByte b i v in
    ground (
      arith,
      decode_header-ok b e,
      undefined_flags_lem (uint16 b 2) (omega (arith, at 2, at 3)),
      at 2,
      at 3,
      at 4,
      at 5,
      at 6,
      at 7,
      at 8,
      at 9,
      at 10,
      at 11,
    )

uncons_at : (i : ℕ) (b : List ℕ) → i < length b → drop i b ≡ byte_at b i ∷ drop (suc i) b
uncons_at i [] h = absurd (omega arith)
uncons_at zero (x ∷ b) h = refl
uncons_at (suc i) (x ∷ b) h = uncons_at i b (omega arith)

put-uint16 :
    (x y : ℕ) (rest : List ℕ) → IsByte x → IsByte y → put_uint16 (x * 256 + y) rest ≡ x ∷ y ∷ rest
put-uint16 x y rest hx hy = ap₂ (λ p q. p ∷ q ∷ rest) (omega arith) (omega arith)

unroll :
    (b : List ℕ)
    → 12 ≤ length b
    → b
      ≡ byte_at b 0
        ∷ byte_at b 1
        ∷ byte_at b 2
        ∷ byte_at b 3
        ∷ byte_at b 4
        ∷ byte_at b 5
        ∷ byte_at b 6
        ∷ byte_at b 7
        ∷ byte_at b 8
        ∷ byte_at b 9
        ∷ byte_at b 10
        ∷ byte_at b 11
        ∷ drop 12 b
unroll b h = ground (
  arith,
  uncons_at 0 b,
  uncons_at 1 b,
  uncons_at 2 b,
  uncons_at 3 b,
  uncons_at 4 b,
  uncons_at 5 b,
  uncons_at 6 b,
  uncons_at 7 b,
  uncons_at 8 b,
  uncons_at 9 b,
  uncons_at 10 b,
  uncons_at 11 b,
)

put-uint32 :
    (b : List ℕ) (i : ℕ) (rest : List ℕ)
    → AreBytes b
    → put_uint32 (uint32 b i) rest
      ≡ byte_at b i ∷ byte_at b (1 + i) ∷ byte_at b (2 + i) ∷ byte_at b (1 + (2 + i)) ∷ rest
put-uint32 b i rest v = ground (
  arith,
  byte_at-IsByte b i v,
  byte_at-IsByte b (1 + i) v,
  byte_at-IsByte b (2 + i) v,
  byte_at-IsByte b (1 + (2 + i)) v,
)

encode-read :
    (b : List ℕ)
    → AreBytes b
    → 12 ≤ length b
    → byte_at b 0 ≡ 0
    → encode_header b (read_header b) ≡ some b
unfolding encode_header
encode-read b v len zero_version =
    rw
      (
        le→ltb (length b) 12 len,
        put-uint32 b 8 (drop 12 b) v,
        put-uint32 b 4 _ v,
        put-uint16 (byte_at b 2) (byte_at b 3) _ (byte_at-IsByte b 2 v) (byte_at-IsByte b 3 v),
      )
      (ap some (ap₂ ◌∷◌ (sym zero_version) refl ∙ sym (unroll b len)))

-- Writing a decoded header back over the bytes it came from changes nothing: the encoding is unique.
pub encode-decode :
    (b : List ℕ) {h : FrameHeader}
    → AreBytes b
    → decode_header b ≡ ok h
    → encode_header b h ≡ some b
encode-decode b {h} v e =
    let r : (12 ≤ length b)
        × (h ≡ read_header b)
        × (byte_at b 0 ≡ 0)
        × (byte_at b 1 ≤ 4)
        × (undefined_flags (uint16 b 2) ≡ 0) =
      decode_header-ok b e in
    rw r.1 (encode-read b v r.0 r.2)

-- The bounds that the session relies on when it acts on an admitted frame.
abbrev pub Admits : FrameHeader → ℕ → ℕ → Type 0
Admits h max_data max_meta =
    (h.typ ≡ type_data → h.length ≤ max_data)
    × (h.typ ≡ type_window_update → h.stream_id ≢ 0)
    × (h.typ ≡ type_go_away → h.stream_id ≡ 0)
    × (h.typ ≡ type_syn_metadata
        → (h.flags ≡ flag_syn) × (h.stream_id ≢ 0) × (4 ≤ h.length) × (h.length ≤ max_meta + 4))

-- `validateFrame` passes a header exactly when it is within the bounds of its type: a data frame within
-- the largest data frame, a window update on a stream, a go-away on none, and a stream opening with
-- metadata that has SYN alone, a stream, and a length of 4 to 4 more than the largest metadata.
pub validate_frame_iff :
    (h : FrameHeader) (max_data max_meta : ℕ)
    → (validate_frame h max_data max_meta ≡ none) ↔ Admits h max_data max_meta
unfolding validate_frame
validate_frame_iff h max_data max_meta = ground arith
