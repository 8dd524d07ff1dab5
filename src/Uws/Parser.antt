-- ===== src/Uws/Parser.antt =====
-- uws/internal/frame/frame.go: the incremental parser, which keeps a frame that spans inputs. The
-- pooled memory of its payload is not modelled. The sink's answer may depend on all the frames that
-- it was given, this one last.
pub mod Header
pub mod Progress
use uio.Prelude.Bytes.{byte_at, uint16, uint64}
use uio.Prelude.{
  ℕ, zero, suc, ◌+◌, ◌-◌, ◌^◌, Bool, true, false, not, ◌&&◌, ◌||◌, Option, none, some, List, [],
  ◌∷◌, ◌++◌, length, take, drop, min, ltb, leb, ◌==◌, if◌then◌else◌, bit_and,
}
use uio.Uws.Mask.{Avx2, unmask}
use uio.Uws.Frame.{
  Frame, ParserConfig, WireError, protocol, message_too_big, ParseResult, parse_frame, failed,
  parsed, incomplete, has_bit, valid_opcode, parser_expect_mask, parser_allow_rsv1,
  parser_max_frame_payload, max_int, differ_flags, close, validate_close_payload,
}

-- `header` is the part of the array that is filled, and `payload` is `none` while it is nil.
pub record Parser : Type 0 where
  pub cfg : Option ParserConfig
  pub header : List ℕ
  pub header_need : ℕ
  pub fin : Bool
  pub rsv1 : Bool
  pub opcode : ℕ
  pub masked : Bool
  pub payload_len : ℕ
  pub payload_read : ℕ
  pub mask_key : List ℕ
  pub mask_offset : ℕ
  pub payload : Option (List ℕ)
  pub pooled : Bool

abbrev pub reset_state : Parser → Parser
reset_state p = record {
  cfg = p.cfg;
  header = [];
  header_need = 2;
  fin = false;
  rsv1 = false;
  opcode = 0;
  masked = false;
  payload_len = 0;
  payload_read = 0;
  mask_key = 0 ∷ 0 ∷ 0 ∷ 0 ∷ [];
  mask_offset = 0;
  payload = none;
  pooled = false;
}

unfoldable pub init : Parser → Option ParserConfig → Parser
init p cfg = record (reset_state p) { cfg = cfg }

-- A parser that `NewParser` makes, whose other fields `Reset` sets.
unfoldable pub new_parser : ParserConfig → Parser
new_parser cfg = record {
  cfg = some cfg;
  header = [];
  header_need = 2;
  fin = false;
  rsv1 = false;
  opcode = 0;
  masked = false;
  payload_len = 0;
  payload_read = 0;
  mask_key = 0 ∷ 0 ∷ 0 ∷ 0 ∷ [];
  mask_offset = 0;
  payload = none;
  pooled = false;
}

abbrev pub at_frame_boundary : Parser → Bool
at_frame_boundary p = length p.header == 0

-- The fields that the first two bytes set before any check.
abbrev pub with_prefix : Parser → ℕ → ℕ → Parser
with_prefix p b0 b1 = record p {
  fin = has_bit b0 0x80;
  rsv1 = has_bit b0 0x40;
  opcode = bit_and b0 0x0f;
  masked = has_bit b1 0x80;
}

unfoldable pub prefix_error : Parser → ℕ → ℕ → Option WireError
prefix_error p b0 code =
    if has_bit b0 0x30
    then some protocol
    else if p.rsv1 && not (parser_allow_rsv1 p.cfg)
    then some protocol
    else if not (valid_opcode p.opcode)
    then some protocol
    else if differ_flags p.masked (parser_expect_mask p.cfg)
    then some protocol
    else if leb 8 p.opcode && p.rsv1
    then some protocol
    else if leb 8 p.opcode && (not p.fin || leb 126 code)
    then some protocol
    else none

-- The length of the header, and the payload's length where the second byte gives it.
abbrev pub with_need : Parser → ℕ → Parser
with_need p code =
    let key = if p.masked then 4 else 0 in
    if code == 126
    then record p { header_need = 4 + key }
    else if code == 127
    then record p { header_need = 10 + key }
    else record p { header_need = 2 + key; payload_len = code }

abbrev pub prepared : Parser → ℕ → Option WireError → Parser × Option WireError
prepared q code (some e) = (q, some e)
prepared q code none = (with_need q code, none)

unfoldable pub prepare_header : Parser → Parser × Option WireError
prepare_header p =
    let b0 = byte_at p.header 0 in
    let b1 = byte_at p.header 1 in
    let code = bit_and b1 0x7f in
    let q = with_prefix p b0 b1 in prepared q code (prefix_error q b0 code)

-- The payload's length, which a length code of 126 or 127 puts behind the second byte.
unfoldable pub read_length : Parser → ℕ → Parser × Option WireError
read_length p code =
    if code == 126
    then (let q = record p { payload_len = uint16 p.header 2 } in
        (q, if ltb (uint16 p.header 2) 126 then some protocol else none))
    else if code == 127
    then (let q = record p { payload_len = uint64 p.header 2 } in
        if has_bit (byte_at p.header 2) 0x80
        then (p, some protocol)
        else (q, if ltb (uint64 p.header 2) 65536 then some protocol else none))
    else (p, none)

abbrev mask_start : ℕ → ℕ
mask_start code = if code == 126 then 4 else if code == 127 then 10 else 2

-- The payload starts out empty; only one that is not to stay empty takes pooled memory.
abbrev pub with_payload : Parser → ℕ → Parser
with_payload p code = record p {
  mask_key = if p.masked then take 4 (drop (mask_start code) p.header) else p.mask_key;
  payload = some [];
  pooled = ltb 0 p.payload_len;
  payload_read = 0;
  mask_offset = 0;
}

unfoldable pub exceeds_limit : Parser → Bool
exceeds_limit p =
    ltb (parser_max_frame_payload p.cfg) p.payload_len
    || ltb (max_int - p.header_need) p.payload_len

abbrev pub checked_length : Parser → ℕ → Option WireError → Parser × Option WireError
checked_length q code (some e) = (q, some e)
checked_length q code none =
    if exceeds_limit q then (q, some message_too_big) else (with_payload q code, none)

unfoldable pub finish_header : Parser → Parser × Option WireError
finish_header p =
    let code = bit_and (byte_at p.header 1) 0x7f in
    let (q, error) = read_length p code in checked_length q code error

pub data FeedError : Type 0 where
  wire : WireError → FeedError
  from_sink : FeedError

-- Where the loop stands: the parser, the bytes consumed and the frames delivered.
pub record Fed : Type 0 where
  pub parser : Parser
  pub consumed : ℕ
  pub frames : List Frame

-- What one round of the loop does: go on, or return with an error or none.
pub data Round : Type 0 where
  again : Fed → Round
  return_with : Fed → Option FeedError → Round

abbrev pub Sink : Type 0
Sink = List Frame → Bool

-- `sink.AcceptFrame`, with what the loop does on each answer.
abbrev pub deliver : Sink → Fed → Frame → Round
deliver refuses s f =
    let t = record s { frames = s.frames ++ (f ∷ []) } in
    if refuses t.frames then return_with t (some from_sink) else again t

abbrev bytes_in : Option (List ℕ) → List ℕ
bytes_in none = []
bytes_in (some p) = p

abbrev pub is_nil : Option (List ℕ) → Bool
is_nil none = true
is_nil (some p) = false

unfoldable pub frame_of : Parser → Frame
frame_of p = record {
  fin = p.fin;
  rsv1 = p.rsv1;
  opcode = p.opcode;
  masked = p.masked;
  borrowed = p.pooled;
  payload = bytes_in p.payload;
}

-- The check of a close frame.
unfoldable pub close_error : Frame → Option WireError
close_error f = if f.opcode == close then validate_close_payload f.payload else none

abbrev pub deliver_checked : Sink → Fed → Frame → Option WireError → Round
deliver_checked refuses s f (some e) = return_with s (some (wire e))
deliver_checked refuses s f none = deliver refuses s f

-- The end of a round: the frame is complete.
unfoldable pub emit : Sink → Fed → Round
emit refuses s =
    let f = frame_of s.parser in
    deliver_checked refuses (record s { parser = reset_state s.parser }) f (close_error f)

-- The payload's part of a round, given the input that is left.
unfoldable pub take_payload : Avx2 → Sink → Fed → List ℕ → Round
take_payload avx refuses s src =
    let p = s.parser in
    let remaining = p.payload_len - p.payload_read in
    let n = min (length src) remaining in
    let q = record p {
      payload = some (bytes_in p.payload ++ unmask avx (take n src) p.mask_key p.mask_offset);
      mask_offset = bit_and (p.mask_offset + n) 3;
      payload_read = p.payload_read + n;
    } in
    let t = record s { parser = q; consumed = s.consumed + n } in
    if ltb 0 remaining
    then (if ltb q.payload_read q.payload_len then again t else emit refuses t)
    else emit refuses s

-- The second of the two places that finish a header, and what follows.
unfoldable pub take_body : Avx2 → Sink → Fed → List ℕ → Round
take_body avx refuses s src =
    let p = s.parser in
    let (q, error) = finish_header p in
    if ltb (length p.header) p.header_need
    then again s
    else if is_nil p.payload && p.payload_len == 0
    then elim error [
      | some e ↦ return_with (record s { parser = q }) (some (wire e))
      | none ↦ take_payload avx refuses (record s { parser = q }) src
    ]
    else take_payload avx refuses s src

-- The first of the two places that finish a header.
unfoldable pub finish_early : Avx2 → Sink → Fed → List ℕ → Round
finish_early avx refuses s src =
    let p = s.parser in
    let (q, error) = finish_header p in
    if is_nil p.payload && ltb 0 p.payload_len
    then elim error [
      | some e ↦ return_with (record s { parser = q }) (some (wire e))
      | none ↦ take_body avx refuses (record s { parser = q }) src
    ]
    else take_body avx refuses s src

-- After the header's bytes were copied.
unfoldable pub after_copy : Avx2 → Sink → Fed → List ℕ → Round
after_copy avx refuses s src =
    let p = s.parser in
    let (q, error) = prepare_header p in
    let t = record s { parser = q } in
    if ltb (length p.header) p.header_need
    then again s
    else if p.header_need == 2
    then elim error [
      | some e ↦ return_with t (some (wire e))
      | none ↦
          if ltb (length q.header) q.header_need then again t else finish_early avx refuses t src
    ]
    else finish_early avx refuses s src

-- The part of a round that does not parse a frame directly.
unfoldable pub take_header : Avx2 → Sink → Fed → List ℕ → Round
take_header avx refuses s src =
    let p = s.parser in
    let n = min (p.header_need - length p.header) (length src) in
    let t = record s {
      parser = record p { header = p.header ++ take n src };
      consumed = s.consumed + n;
    } in
    if ltb (length p.header) p.header_need
    then after_copy avx refuses t (drop n src)
    else take_body avx refuses s src

-- What a round makes of `ParseFrame`'s answer.
abbrev pub after_parse : Avx2 → Sink → Fed → List ℕ → ParseResult → Round
after_parse avx refuses s src (failed e) = return_with s (some (wire e))
after_parse avx refuses s src (parsed f size) =
    deliver refuses (record s { consumed = s.consumed + size }) f
after_parse avx refuses s src incomplete = take_header avx refuses s src

-- One round of `feedTo`, on the input that is left.
unfoldable pub round : Avx2 → Sink → Bool → Fed → List ℕ → Round
round avx refuses finish s src =
    if length s.parser.header == 0
    then (if finish
        then return_with s none
        else after_parse avx refuses s src (parse_frame avx src s.parser.cfg))
    else take_header avx refuses s src

-- `feedTo`, on fuel; `none` when it runs out.
unfoldable pub feed_from : ℕ → Avx2 → Sink → Bool → List ℕ → Fed → Option (Fed × Option FeedError)
feed_from zero avx refuses finish src s =
    if ltb s.consumed (length src) then none else some (s, none)
feed_from (suc fuel) avx refuses finish src s =
    if ltb s.consumed (length src)
    then elim (round avx refuses finish s (drop s.consumed src)) [
      | again t ↦ feed_from fuel avx refuses finish src t
      | return_with t error ↦ some (t, error)
    ]
    else some (s, none)

unfoldable pub feed_to : Avx2 → Sink → Bool → Parser → List ℕ → Option (Fed × Option FeedError)
feed_to avx refuses finish p src =
    feed_from (length src) avx refuses finish src (record { parser = p; consumed = 0; frames = [] })
