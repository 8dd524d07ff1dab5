-- ===== src/Umux/Frame.antt =====
-- umux/frame.go: the twelve-byte frame header and the bounds of each frame type.
pub mod Codec
use uio.Prelude.Bytes.{byte_at, uint16, uint32, put_uint16, put_uint32}
use uio.Prelude.Result.{Result, ok, err}
use uio.Prelude.{
  ℕ, ◌-◌, ◌^◌, Bool, true, false, not, Option, none, some, List, [], ◌∷◌, ◌||◌, length, drop, ltb,
  ◌==◌, if◌then◌else◌, bit_and,
}

abbrev pub proto_version : ℕ
proto_version = 0

abbrev pub header_size : ℕ
header_size = 12

abbrev pub type_data : ℕ
type_data = 0

abbrev pub type_window_update : ℕ
type_window_update = 1

abbrev pub type_ping : ℕ
type_ping = 2

abbrev pub type_go_away : ℕ
type_go_away = 3

abbrev pub type_syn_metadata : ℕ
type_syn_metadata = 4

abbrev pub flag_syn : ℕ
flag_syn = 1

abbrev pub flag_ack : ℕ
flag_ack = 2

abbrev pub flag_fin : ℕ
flag_fin = 4

abbrev pub flag_rst : ℕ
flag_rst = 8

-- SYN, ACK, FIN and RST.
abbrev pub all_flags : ℕ
all_flags = 15

abbrev pub go_away_normal : ℕ
go_away_normal = 0

abbrev pub go_away_protocol : ℕ
go_away_protocol = 1

abbrev pub go_away_internal : ℕ
go_away_internal = 2

pub data FrameError : Type 0 where
  frame_short bad_version bad_type bad_flags bad_length : FrameError

pub record FrameHeader : Type 0 where
  pub version : ℕ
  pub typ : ℕ
  pub flags : ℕ
  pub stream_id : ℕ
  pub length : ℕ

-- `x &^ allFlags` on uint16.
abbrev pub undefined_flags : ℕ → ℕ
undefined_flags x = bit_and x (2 ^ 16 - 1 - all_flags)

abbrev pub read_header : List ℕ → FrameHeader
read_header b = record {
  version = byte_at b 0;
  typ = byte_at b 1;
  flags = uint16 b 2;
  stream_id = uint32 b 4;
  length = uint32 b 8;
}

unfoldable pub decode_header : List ℕ → Result FrameError FrameHeader
decode_header b =
    if ltb (length b) header_size
    then err frame_short
    else let h = read_header b in
      if not (h.version == proto_version)
      then err bad_version
      else if ltb type_syn_metadata h.typ
      then err bad_type
      else if not (undefined_flags h.flags == 0)
      then err bad_flags
      else ok h

-- `none` is the run-time panic on a destination of less than twelve bytes.
unfoldable pub encode_header : List ℕ → FrameHeader → Option (List ℕ)
encode_header dst h =
    if ltb (length dst) header_size
    then none
    else some (
        proto_version
        ∷ h.typ
        ∷ put_uint16 h.flags (put_uint32 h.stream_id (put_uint32 h.length (drop header_size dst))))

-- `none` is the nil error.
unfoldable pub validate_frame : FrameHeader → ℕ → ℕ → Option FrameError
validate_frame h max_data max_meta =
    if h.typ == type_data
    then (if ltb max_data h.length then some bad_length else none)
    else if h.typ == type_window_update
    then (if h.stream_id == 0 then some bad_flags else none)
    else if h.typ == type_go_away
    then (if not (h.stream_id == 0) then some bad_flags else none)
    else if h.typ == type_syn_metadata
    then (if not (h.flags == flag_syn) || h.stream_id == 0
        then some bad_flags
        else if ltb h.length 4 || ltb max_meta (h.length - 4)
        then some bad_length
        else none)
    else none
