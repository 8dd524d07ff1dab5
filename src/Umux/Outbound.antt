-- ===== src/Umux/Outbound.antt =====
-- umux/session.go and umux/stream.go: what a session sends. Control frames go first, then one frame
-- of each stream in turn, and a stream's FIN goes behind its data. A stream that the session's table
-- does not hold is not `live`. The transport's answer may depend on all that it accepted before.
pub mod Flush
pub mod Queues
pub mod Invariant
pub mod Fins
pub mod Frames
pub mod Order
pub mod Steps
pub mod Writers
pub mod Runs
pub mod Drain
pub mod Framing
pub mod Owned
use uio.Prelude.Int64.{sle, slt}
use uio.Prelude.Store.{store}
use uio.Prelude.{
  ℕ, zero, suc, ◌+◌, ◌-◌, ◌^◌, ◌%◌, Bool, true, false, not, ◌&&◌, ◌||◌, Option, none, some, List,
  [], ◌∷◌, ◌++◌, length, take, drop, min, ltb, ◌==◌, if◌then◌else◌,
}
use uio.Umux.Window as Window
use uio.Umux.Window.{SendWindow}
use uio.Umux.Frame.{
  FrameHeader, encode_header, type_data, type_window_update, flag_fin, proto_version,
}

pub data FinState : Type 0 where
  fin_none fin_queued fin_sent : FinState

pub data Cause : Type 0 where
  closed_error net_closed stream_reset outbound_overflow eof : Cause
  other_cause : ℕ → Cause

-- The part of a stream that its writers and the session's flush share.
pub record Sender : Type 0 where
  pub live : Bool
  pub opening : Bool
  pub closed_local : Bool
  pub closed_err : Option Cause
  pub local_fin : Bool
  pub send_win : SendWindow
  pub out : List (List ℕ)
  pub queued : Bool
  pub fin_state : FinState

-- A frame as the transport gets it, with the stream that it is of.
pub data Sent : Type 0 where
  control_frame : List ℕ → Sent
  data_frame : ℕ → List ℕ → Sent
  fin_frame : ℕ → Sent

pub record Outbound : Type 0 where
  pub streams : ℕ → Sender
  pub control : List (List ℕ)
  pub pending : List ℕ
  pub has_conn : Bool
  pub closed : Bool
  pub go_away_sent : Bool
  pub go_away_flushed : Bool
  pub hears_drains : Bool
  pub fin_flushed : List ℕ
  pub drained : List ℕ
  pub wire : List Sent

abbrev pub put_stream : Outbound → ℕ → Sender → Outbound
put_stream s id st = record s { streams = store s.streams id st }

-- A header in twelve bytes of its own.
abbrev pub header_bytes : FrameHeader → List ℕ
header_bytes h = elim (encode_header (0 ∷ 0 ∷ 0 ∷ 0 ∷ 0 ∷ 0 ∷ 0 ∷ 0 ∷ 0 ∷ 0 ∷ 0 ∷ 0 ∷ []) h) [
  | none ↦ []
  | some b ↦ b
]

unfoldable pub send_control : Outbound → ℕ → ℕ → ℕ → ℕ → Outbound
send_control s typ flags sid len = if s.closed then s else record s {
  control =
      s.control
      ++ (header_bytes (record {
        version = proto_version;
        typ = typ;
        flags = flags;
        stream_id = sid;
        length = len;
      })
          ∷ []);
}

-- A stream joins the end of the round-robin queue unless it is on it.
abbrev pub schedule : Outbound → ℕ → Sender → Outbound
schedule s id st =
    if st.queued
    then put_stream s id st
    else record (put_stream s id (record st { queued = true })) { pending = s.pending ++ (id ∷ []) }

abbrev pub is_none : FinState → Bool
is_none fin_none = true
is_none fin_queued = false
is_none fin_sent = false

abbrev pub is_queued : FinState → Bool
is_queued fin_none = false
is_queued fin_queued = true
is_queued fin_sent = false

unfoldable pub enqueue_fin : Outbound → ℕ → Outbound
enqueue_fin s id =
    let st = s.streams id in
    if not (is_none st.fin_state) || not st.live
    then s
    else schedule s id (record st { fin_state = fin_queued })

unfoldable pub enqueue : Outbound → ℕ → List ℕ → Outbound × Bool
enqueue s id frame =
    let st = s.streams id in
    if not st.live
    then (s, false)
    else (schedule s id (record st { out = st.out ++ (frame ∷ []) }), true)

-- A data frame of the first `chunk` bytes of `p`.
abbrev pub chunk_frame : ℕ → ℕ → List ℕ → List ℕ
chunk_frame id chunk p =
    header_bytes (record {
      version = proto_version;
      typ = type_data;
      flags = 0;
      stream_id = id;
      length = chunk % 2 ^ 32;
    })
    ++ take chunk p

-- `frameData`'s loop, on fuel: whether the session took every frame.
unfoldable pub frame_data : ℕ → ℕ → Outbound → ℕ → List ℕ → Outbound × Bool
frame_data zero max_frame s id p = (s, true)
frame_data (suc fuel) max_frame s id p =
    let chunk = min (length p) max_frame in
    let (t, held) = enqueue s id (chunk_frame id chunk p) in
    let rest = frame_data fuel max_frame t id (drop chunk p) in
    if length p == 0 then (s, true) else if held then rest else (t, false)

abbrev pub or_closed : Option Cause → Cause
or_closed none = closed_error
or_closed (some e) = e

-- `Stream.Write`: the bytes taken, and the error. The request of a flush is the caller's next step.
unfoldable pub write : Outbound → ℕ → List ℕ → ℕ → Outbound × ℕ × Option Cause
write s id p max_frame =
    let st = s.streams id in
    let avail = st.send_win.avail in
    let n = if slt avail (length p) then avail else length p in
    let taken = put_stream s id (record st { send_win = (Window.take st.send_win n).0 }) in
    let (t, held) = frame_data n max_frame taken id (take n p) in
    if length p == 0
    then (s, 0, none)
    else if st.closed_local || st.opening
    then (s, 0, some (or_closed st.closed_err))
    else if st.local_fin
    then (s, 0, some closed_error)
    else if sle avail 0
    then (s, 0, some outbound_overflow)
    else if not held
    then (t, n, some closed_error)
    else if ltb n (length p)
    then (t, n, some outbound_overflow)
    else (t, n, none)

-- `Stream.WriteOwned` of a buffer that is not nil: all of it or nothing.
unfoldable pub write_owned : Outbound → ℕ → List ℕ → ℕ → Outbound × ℕ × Option Cause
write_owned s id p max_frame =
    let st = s.streams id in
    let n = length p in
    let taken = put_stream s id (record st { send_win = (Window.take st.send_win n).0 }) in
    let (t, held) = frame_data n max_frame taken id p in
    if n == 0
    then (s, 0, none)
    else if st.closed_local || (st.opening || st.local_fin)
    then (s, 0, some (or_closed st.closed_err))
    else if slt st.send_win.avail n
    then (s, 0, some outbound_overflow)
    else (t, n, if held then none else some closed_error)

-- The part of `CloseWrite` under the write lock; the error when the stream is closed.
unfoldable pub close_write : Outbound → ℕ → Outbound × Option Cause
close_write s id =
    let st = s.streams id in
    if st.closed_local
    then (s, some net_closed)
    else if st.local_fin
    then (s, none)
    else (enqueue_fin (put_stream s id (record st { local_fin = true })) id, none)

-- A stream leaves the table and drops its queue, as `removeStream` and both aborts do.
unfoldable pub drop_out : Outbound → ℕ → Outbound
drop_out s id =
    put_stream s id
      (record (s.streams id) { live = false; out = []; queued = false; fin_state = fin_none })
