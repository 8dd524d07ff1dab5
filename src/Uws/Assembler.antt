-- ===== src/Uws/Assembler.antt =====
-- uws/internal/frame/frame.go: joining the data frames of a fragmented message. What a callback
-- receives is the outcome; the error that the callback returns is passed on as it is.
pub mod Laws
use uio.Prelude.Utf8.{valid_utf8}
use uio.Prelude.{
  ℕ, ◌+◌, ◌-◌, Bool, true, false, not, ◌&&◌, ◌||◌, Option, none, some, List, [], ◌∷◌, ◌++◌, length,
  ltb, leb, ◌==◌, if◌then◌else◌,
}
use uio.Uws.Frame.{
  Frame, WireError, protocol, message_too_big, invalid_utf8, continuation, text, binary, max_int,
}

pub record Message : Type 0 where
  pub opcode : ℕ
  pub payload : List ℕ
  pub compressed : Bool
  pub borrowed : Bool

pub record AssemblerConfig : Type 0 where
  pub max_message : ℕ
  pub max_compressed_payload : ℕ
  pub validate_utf8 : Bool

pub record Assembler : Type 0 where
  pub cfg : Option AssemblerConfig
  pub fragmented : Bool
  pub opcode : ℕ
  pub compressed : Bool
  pub payload : List ℕ

pub data Outcome : Type 0 where
  to_control : Frame → Outcome
  to_message : Message → Outcome
  kept : Outcome
  refused : WireError → Outcome
  nil_callback : Outcome

abbrev or_max : ℕ → ℕ
or_max n = if n == 0 then max_int else n

abbrev pub assembler_max_message : Option AssemblerConfig → ℕ
assembler_max_message none = max_int
assembler_max_message (some c) = or_max c.max_message

abbrev pub assembler_max_compressed_payload : Option AssemblerConfig → ℕ
assembler_max_compressed_payload none = max_int
assembler_max_compressed_payload (some c) = or_max c.max_compressed_payload

abbrev pub assembler_validate_utf8 : Option AssemblerConfig → Bool
assembler_validate_utf8 none = true
assembler_validate_utf8 (some c) = c.validate_utf8

abbrev pub reset : Assembler → Assembler
reset a = record a { fragmented = false; opcode = 0; compressed = false; payload = [] }

unfoldable pub init : Assembler → Option AssemblerConfig → Assembler
init a cfg = record (reset a) { cfg = cfg }

unfoldable pub new_assembler_with_limits : ℕ → ℕ → Assembler
new_assembler_with_limits max_message max_compressed_payload = record {
  cfg = some (record {
    max_message = max_message;
    max_compressed_payload = max_compressed_payload;
    validate_utf8 = true;
  });
  fragmented = false;
  opcode = 0;
  compressed = false;
  payload = [];
}

unfoldable pub new_assembler : ℕ → Assembler
new_assembler max_message = new_assembler_with_limits max_message max_message

abbrev pub at_message_boundary : Assembler → Bool
at_message_boundary a = not a.fragmented

-- The bound on the payload of one message.
abbrev pub limit : Option AssemblerConfig → Bool → ℕ
limit cfg compressed =
    if compressed then assembler_max_compressed_payload cfg else assembler_max_message cfg

abbrev pub exceeds_payload_limit : Assembler → ℕ → Bool → Bool
exceeds_payload_limit a incoming compressed =
    let current = length a.payload in
    ltb (limit a.cfg compressed) current || ltb (limit a.cfg compressed - current) incoming

abbrev pub emit_message : Option AssemblerConfig → Message → Outcome
emit_message cfg m =
    if assembler_validate_utf8 cfg
      && (m.opcode == text && (not m.compressed && not (valid_utf8 m.payload)))
    then refused invalid_utf8
    else to_message m

-- Whether each callback is set.
pub record Callbacks : Type 0 where
  pub on_control : Bool
  pub on_message : Bool

abbrev accept_control : Callbacks → Frame → Outcome
accept_control cb f =
    if f.rsv1 then refused protocol else if not cb.on_control then nil_callback else to_control f

abbrev pub whole : Frame → Message
whole f = record {
  opcode = f.opcode;
  payload = f.payload;
  compressed = f.rsv1;
  borrowed = f.borrowed;
}

unfoldable pub accept_single : Frame → Option AssemblerConfig → Callbacks → Outcome
accept_single f cfg cb =
    if leb 8 f.opcode
    then accept_control cb f
    else if not cb.on_message
    then nil_callback
    else if not (f.opcode == text) && not (f.opcode == binary)
    then refused protocol
    else if not f.fin
    then refused protocol
    else if exceeds_payload_limit
        (record { cfg = cfg; fragmented = false; opcode = 0; compressed = false; payload = [] })
        (length f.payload) f.rsv1
    then refused message_too_big
    else emit_message cfg (whole f)

accept_first : Assembler → Frame → Assembler × Outcome
accept_first a f =
    if a.fragmented
    then (a, refused protocol)
    else if exceeds_payload_limit a (length f.payload) f.rsv1
    then (a, refused message_too_big)
    else if f.fin
    then (a, emit_message a.cfg (whole f))
    else (
      record a { fragmented = true; opcode = f.opcode; compressed = f.rsv1; payload = f.payload },
      kept,
    )

accept_continuation : Assembler → Frame → Assembler × Outcome
accept_continuation a f =
    if not a.fragmented
    then (a, refused protocol)
    else if f.rsv1
    then (a, refused protocol)
    else if exceeds_payload_limit a (length f.payload) a.compressed
    then (a, refused message_too_big)
    else let payload = a.payload ++ f.payload in
      if not f.fin then (record a { payload = payload }, kept) else (
        reset a,
        emit_message a.cfg (record {
          opcode = a.opcode;
          payload = payload;
          compressed = a.compressed;
          borrowed = false;
        }),
      )

unfoldable pub accept : Assembler → Frame → Callbacks → Assembler × Outcome
unfolding accept_first accept_continuation
accept a f cb =
    if leb 8 f.opcode
    then (a, accept_control cb f)
    else if not cb.on_message
    then (a, nil_callback)
    else if f.opcode == text || f.opcode == binary
    then accept_first a f
    else if f.opcode == continuation
    then accept_continuation a f
    else (a, refused protocol)

-- Frames in order, with the outcome of each.
unfoldable pub run : Assembler → List Frame → Callbacks → Assembler × List Outcome
run a [] cb = (a, [])
run a (f ∷ fs) cb = let (b, o) = accept a f cb in let (c, os) = run b fs cb in (c, o ∷ os)
