-- ===== src/Uws/Parser/Header.antt =====
-- The incremental parser refuses the headers that `ParseFrame` refuses.
use uio.Prelude.Bytes.{byte_at}
use uio.Prelude.Result.{ok, err}
use uio.Prelude.{
  ℕ, ◌-◌, ◌<◌, ◌≡◌, refl, ◌∙◌, ◌||◌, Option, none, some, List, ltb, if◌then◌else◌, bit_and, arith,
}
use uio.Uws.Frame.{
  ParserConfig, WireError, protocol, message_too_big, announced, refuses_prefix, payload_length,
  parser_max_frame_payload, max_int,
}
use uio.Uws.Parser.{
  Parser, with_prefix, prefix_error, prepared, prepare_header, read_length, exceeds_limit,
  finish_header,
}

prepared-error : (q : Parser) (code : ℕ) (o : Option WireError) → (prepared q code o).1 ≡ o
prepared-error q code none = refl
prepared-error q code (some e) = refl

prefix_error-eq :
    (p : Parser) (b0 b1 : ℕ)
    → prefix_error (with_prefix p b0 b1) b0 (bit_and b1 0x7f) ≡ (
        if refuses_prefix p.cfg b0 (announced b0 b1) (bit_and b1 0x7f) then some protocol else none)
unfolding prefix_error refuses_prefix
prefix_error-eq p b0 b1 = ground arith

-- `prepareHeader` refuses the first two bytes exactly when `ParseFrame` does, with the same error.
pub prepare_header-refuses_prefix :
    (p : Parser)
    → let b0 = byte_at p.header 0 in
      let b1 = byte_at p.header 1 in
      (prepare_header p).1 ≡ (
        if refuses_prefix p.cfg b0 (announced b0 b1) (bit_and b1 0x7f) then some protocol else none)
unfolding prepare_header
prepare_header-refuses_prefix p =
    prepared-error (with_prefix p (byte_at p.header 0) (byte_at p.header 1))
      (bit_and (byte_at p.header 1) 0x7f)
      (prefix_error (with_prefix p (byte_at p.header 0) (byte_at p.header 1)) (byte_at p.header 0)
        (bit_and (byte_at p.header 1) 0x7f))
    ∙ prefix_error-eq p (byte_at p.header 0) (byte_at p.header 1)

-- The error that `ParseFrame` finds in a whole header, given its length code.
abbrev pub header_error : Option ParserConfig → List ℕ → ℕ → ℕ → Option WireError
header_error cfg src header_size code = elim (payload_length src code) [
  | err e ↦ some e
  | ok n ↦
      if ltb (parser_max_frame_payload cfg) n || ltb (max_int - header_size) n
      then some message_too_big
      else none
]

-- `finishHeader` on a whole header, whose second byte gave a short payload's length, refuses it
-- exactly when `ParseFrame` does, with the same error.
pub finish_header-header_error :
    (p : Parser)
    → let code = bit_and (byte_at p.header 1) 0x7f in
      (code < 126 → p.payload_len ≡ code)
      → code < 128
      → (finish_header p).1 ≡ header_error p.cfg p.header p.header_need code
unfolding finish_header payload_length read_length exceeds_limit
finish_header-header_error p short small = ground arith
