-- ===== src/Uws/Frame.antt =====
-- uws/internal/frame/frame.go: one wire frame, parsed from and appended to a byte slice. The text
-- of a protocol error is not modelled, nor that unmasking writes into the input.
pub mod Bits
pub mod RoundTrip
use uio.Prelude.Bytes.{byte_at, uint16, uint64, put_uint16, put_uint64}
use uio.Prelude.Result.{Result, ok, err}
use uio.Prelude.Utf8.{valid_utf8}
use uio.Prelude.{
  ℕ, ◌+◌, ◌-◌, ◌^◌, Bool, true, false, not, ◌&&◌, ◌||◌, Option, none, some, List, [], ◌∷◌, ◌++◌,
  length, take, drop, ltb, leb, ◌==◌, if◌then◌else◌, bit_and, bit_or,
}
use uio.Uws.Mask.{Avx2, unmask}

pub data WireError : Type 0 where
  protocol message_too_big invalid_utf8 : WireError

abbrev pub continuation : ℕ
continuation = 0x0

abbrev pub text : ℕ
text = 0x1

abbrev pub binary : ℕ
binary = 0x2

abbrev pub close : ℕ
close = 0x8

abbrev pub ping : ℕ
ping = 0x9

abbrev pub pong : ℕ
pong = 0xa

pub record Frame : Type 0 where
  pub fin : Bool
  pub rsv1 : Bool
  pub opcode : ℕ
  pub masked : Bool
  pub borrowed : Bool
  pub payload : List ℕ

pub record ParserConfig : Type 0 where
  pub expect_mask : Bool
  pub allow_rsv1 : Bool
  pub max_frame_payload : ℕ

abbrev pub max_int : ℕ
max_int = 2 ^ 63 - 1

-- A nil configuration is `none`.
abbrev pub parser_expect_mask : Option ParserConfig → Bool
parser_expect_mask none = false
parser_expect_mask (some cfg) = cfg.expect_mask

abbrev pub parser_allow_rsv1 : Option ParserConfig → Bool
parser_allow_rsv1 none = false
parser_allow_rsv1 (some cfg) = cfg.allow_rsv1

abbrev pub parser_max_frame_payload : Option ParserConfig → ℕ
parser_max_frame_payload none = max_int
parser_max_frame_payload (some cfg) =
    if cfg.max_frame_payload == 0 then max_int else cfg.max_frame_payload

unfoldable pub valid_opcode : ℕ → Bool
valid_opcode op =
    op == continuation
    || (op == text || (op == binary || (op == close || (op == ping || op == pong))))

abbrev pub is_control : ℕ → Bool
is_control op = leb 8 op

unfoldable pub valid_close_code : ℕ → Bool
valid_close_code code =
    (leb 1000 code && leb code 1003)
    || ((leb 1007 code && leb code 1014) || (leb 3000 code && leb code 4999))

-- `none` is the nil error.
unfoldable pub validate_close_payload : List ℕ → Option WireError
validate_close_payload payload =
    if length payload == 0
    then none
    else if length payload == 1
    then some protocol
    else if not (valid_close_code (uint16 payload 0))
    then some protocol
    else if not (valid_utf8 (drop 2 payload))
    then some invalid_utf8
    else none

unfoldable pub close_code : List ℕ → ℕ
close_code payload = if ltb (length payload) 2 then 1005 else uint16 payload 0

-- `b & mask != 0`
abbrev pub has_bit : ℕ → ℕ → Bool
has_bit b mask = not (bit_and b mask == 0)

pub data ParseResult : Type 0 where
  incomplete : ParseResult
  failed : WireError → ParseResult
  parsed : Frame → ℕ → ParseResult

-- The size of the extended length that follows a length code.
abbrev pub extended_size : ℕ → ℕ
extended_size code = if code == 126 then 2 else if code == 127 then 8 else 0

unfoldable pub payload_length : List ℕ → ℕ → Result WireError ℕ
payload_length src code =
    if code == 126
    then (if ltb (uint16 src 2) 126 then err protocol else ok (uint16 src 2))
    else if code == 127
    then (if has_bit (byte_at src 2) 0x80
        then err protocol
        else if ltb (uint64 src 2) 65536
        then err protocol
        else ok (uint64 src 2))
    else ok code

-- The rest of `ParseFrame`, once the payload's length is known. `frame` has the header's fields.
unfoldable pub parse_payload : Avx2 → List ℕ → Option ParserConfig → Frame → ℕ → ℕ → ParseResult
parse_payload avx src cfg frame header_size n =
    if ltb (parser_max_frame_payload cfg) n || ltb (max_int - header_size) n
    then failed message_too_big
    else let total = header_size + n in
      if ltb (length src) total
      then incomplete
      else let mask_key =
          if frame.masked then take 4 (drop (header_size - 4) src) else 0 ∷ 0 ∷ 0 ∷ 0 ∷ [] in
        let raw = take n (drop header_size src) in
        let payload = if frame.masked then unmask avx raw mask_key 0 else raw in
        elim (if frame.opcode == close then validate_close_payload payload else none) [
          | some e ↦ failed e
          | none ↦ parsed (record frame { payload = payload }) total
        ]

-- The frame that the first two bytes announce; `ParseFrame` returns borrowed payloads.
abbrev pub announced : ℕ → ℕ → Frame
announced b0 b1 = record {
  fin = has_bit b0 0x80;
  rsv1 = has_bit b0 0x40;
  opcode = bit_and b0 0x0f;
  masked = has_bit b1 0x80;
  borrowed = true;
  payload = [];
}

-- The two tests for equality of flags.
abbrev pub differ_flags : Bool → Bool → Bool
differ_flags a b = if a then not b else b

-- The checks of the first two bytes.
unfoldable pub refuses_prefix : Option ParserConfig → ℕ → Frame → ℕ → Bool
refuses_prefix cfg b0 f code =
    has_bit b0 0x30
    || ((f.rsv1 && not (parser_allow_rsv1 cfg))
        || (not (valid_opcode f.opcode)
            || (differ_flags f.masked (parser_expect_mask cfg)
                || (leb 8 f.opcode && (not f.fin || (leb 126 code || f.rsv1))))))

-- `ParseFrame` once the first two bytes are read.
unfoldable pub parse_announced : Avx2 → List ℕ → Option ParserConfig → ℕ → Frame → ℕ → ParseResult
parse_announced avx src cfg b0 f length_code =
    if refuses_prefix cfg b0 f length_code
    then failed protocol
    else let header_size = 2 + extended_size length_code + (if f.masked then 4 else 0) in
      if ltb (length src) header_size then incomplete else elim (payload_length src length_code) [
        | err e ↦ failed e
        | ok n ↦ parse_payload avx src cfg f header_size n
      ]

unfoldable pub parse_frame : Avx2 → List ℕ → Option ParserConfig → ParseResult
parse_frame avx src cfg =
    if ltb (length src) 2
    then incomplete
    else let b0 = byte_at src 0 in
      let b1 = byte_at src 1 in parse_announced avx src cfg b0 (announced b0 b1) (bit_and b1 0x7f)

abbrev pub first_byte : Frame → ℕ
first_byte f =
    let fin_set = if f.fin then bit_or f.opcode 0x80 else f.opcode in
    if f.rsv1 then bit_or fin_set 0x40 else fin_set

-- What `AppendHeader` appends between the first byte and the mask key.
abbrev pub length_bytes : Frame → List ℕ → List ℕ
length_bytes f rest =
    let n = length f.payload in
    let mask_bit = if f.masked then 0x80 else 0 in
    if ltb n 126
    then bit_or mask_bit n ∷ rest
    else if leb n (2 ^ 16 - 1)
    then bit_or mask_bit 126 ∷ put_uint16 n rest
    else bit_or mask_bit 127 ∷ put_uint64 n rest

unfoldable pub append_header : List ℕ → Frame → List ℕ → List ℕ
append_header dst f mask_key =
    dst ++ (first_byte f ∷ length_bytes f (if f.masked then mask_key else []))

unfoldable pub append : Avx2 → List ℕ → Frame → List ℕ → List ℕ
append avx dst f mask_key =
    append_header dst f mask_key
    ++ (if f.masked then unmask avx f.payload mask_key 0 else f.payload)
