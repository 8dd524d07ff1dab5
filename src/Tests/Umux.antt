-- ===== src/Tests/Umux.antt =====
-- Tests for umux/window.go and umux/frame.go.
use uio.Prelude.Result.{ok, err}
use uio.Prelude.{false, ℕ, ◌+◌, ◌-◌, ◌^◌, ◌<◌, ◌≡◌, ◌↔◌, refl, none, some, List, [], ◌∷◌, arith}
use uio.Umux.Window.{
  RecvWindow, new_send_window, reset, take, grant, new_recv_window, retune, on_data, consume,
  exceeded, invalid,
}
use uio.Umux.Window.Credit.{
  Link, Step, Reach, write, arrive, read, credit, here, next, start, consume-total, no_overrun,
  no_overgrant, never_stalls,
}
use uio.Umux.Inbound.{Inbound, append, append_owned, own, make_room, set_owned}
use uio.Umux.Inbound as Queue
use uio.Umux.Inbound.Bytes as Unread
use uio.Umux.Inbound.Bytes.{append-run, consume-run}
use uio.Umux.Frame.{
  FrameHeader, decode_header, encode_header, validate_frame, frame_short, bad_version, bad_length,
}
use uio.Umux.Frame.Codec.{Admits, decode-encode, encode-decode, validate_frame_iff}

-- The receiver's window is resolved to 2 ^ 18, so a grant is earned at a quarter of that.
abbrev fresh : Link
fresh = start 8 300000

fresh_windows :
    (fresh.sender ≡ record { avail = 262144; ceiling = 262144 })
    × (fresh.receiver ≡ record { size = 262144; buffered = 0; consumed = 0; grant = 65536 })
unfolding start reset new_send_window retune new_recv_window
fresh_windows = (refl, refl)

overrun : (on_data fresh.receiver 262145).1 ≡ some exceeded
unfolding on_data start retune new_recv_window
overrun = refl

negative_grant : (grant fresh.sender (2 ^ 64 - 1)).1 ≡ some invalid
unfolding grant start reset new_send_window
negative_grant = refl

-- Bytes written, arrived, read, and granted back.
abbrev written : Link
written = record fresh { sender = (take fresh.sender 70000).0; frames = 70000 ∷ [] }

abbrev arrived : Link
arrived = record written { frames = []; receiver = (on_data written.receiver 70000).0 }

abbrev consumed : Link
consumed = record arrived { receiver = (consume arrived.receiver 70000).0; grants = 70000 ∷ [] }

abbrev credited : Link
credited = record consumed { sender = (grant consumed.sender 70000).0; grants = [] }

written-Step : Step fresh written
unfolding start take reset new_send_window
written-Step = write fresh 70000 (omega arith) (omega arith) refl

consumed-Step : Step arrived consumed
unfolding start on_data consume retune new_recv_window
consumed-Step = read arrived 70000 (omega arith)

written-Reach : Reach fresh written
written-Reach = next here written-Step

consumed-Reach : Reach fresh consumed
consumed-Reach = next (next written-Reach (arrive written 70000 [] refl)) consumed-Step

credited-Reach : Reach fresh credited
credited-Reach = next consumed-Reach (credit consumed 70000 [] refl)

no_overrun_example : (on_data written.receiver 70000).1 ≡ none
no_overrun_example = no_overrun 8 300000 (omega arith) (omega arith) written-Reach refl

no_overgrant_example : (grant consumed.sender 70000).1 ≡ none
no_overgrant_example = no_overgrant 8 300000 (omega arith) (omega arith) consumed-Reach refl

never_stalls_example : (0 < credited.sender.avail) × (262144 < credited.sender.avail + 65536)
unfolding start on_data consume retune new_recv_window
never_stalls_example =
    never_stalls 8 300000 (omega arith) (omega arith) credited-Reach refl refl refl

abbrev unread : RecvWindow
unread = record { size = 8; buffered = 5; consumed = 1; grant = 2 }

consume_total_run :
    ((consume unread 3).0.size ≡ 8)
    × ((consume unread 3).0.grant ≡ 2)
    × ((consume unread 3).0.consumed < 2)
    × ((consume unread 3).0.buffered + (consume unread 3).0.consumed + (consume unread 3).1 ≡ 6)
consume_total_run =
    consume-total unread 3 (omega arith) (omega arith) (omega arith) (omega arith) (omega arith)
      (omega arith)

-- SYN on stream 7, with 258 bytes.
abbrev syn : FrameHeader
syn = record { version = 0; typ = 0; flags = 1; stream_id = 7; length = 258 }

abbrev wire : List ℕ
wire = 0 ∷ 0 ∷ 0 ∷ 1 ∷ 0 ∷ 0 ∷ 0 ∷ 7 ∷ 0 ∷ 0 ∷ 1 ∷ 2 ∷ []

short_header : decode_header (0 ∷ 0 ∷ []) ≡ err frame_short
unfolding decode_header
short_header = refl

wrong_version : decode_header (9 ∷ 0 ∷ 0 ∷ 1 ∷ 0 ∷ 0 ∷ 0 ∷ 7 ∷ 0 ∷ 0 ∷ 1 ∷ 2 ∷ []) ≡ err bad_version
unfolding decode_header
wrong_version = refl

too_long : validate_frame syn 257 0 ≡ some bad_length
unfolding validate_frame
too_long = refl

decoded : decode_header wire ≡ ok syn
unfolding decode_header
decoded = refl

encoded : encode_header wire syn ≡ some wire
unfolding encode_header
encoded = refl

decode-encode_example : decode_header wire ≡ ok syn
decode-encode_example =
    decode-encode wire syn
      (record {
        version_eq = refl;
        typ_le = omega arith;
        flags_lt = omega arith;
        stream_id_lt = omega arith;
        length_lt = omega arith;
      })
      encoded

encode-decode_example : encode_header wire syn ≡ some wire
encode-decode_example = encode-decode wire (omega arith) decoded

validate_frame_iff_example : (validate_frame syn 300 0 ≡ none) ↔ Admits syn 300 0
validate_frame_iff_example = validate_frame_iff syn 300 0

-- What Go's `append` allocates, at its least.
abbrev exact : ℕ → ℕ → ℕ
exact old need = need

-- One byte of three was consumed, in an arena of four.
abbrev owned : Inbound
owned = record {
  run = 2 ∷ 3 ∷ [];
  borrowed = false;
  arena = 1 ∷ 2 ∷ 3 ∷ [];
  arena_cap = 4;
  off = 1;
  borrows = 0;
}

owned-Inv : Unread.Inv owned
owned-Inv = record { tail = λ o. refl; off_le = λ o. omega arith; fits = λ o. omega arith }

-- Two more bytes move the run to the start of the arena.
moved :
    append exact owned (4 ∷ 5 ∷ []) 2
    ≡ record owned { run = 2 ∷ 3 ∷ 4 ∷ 5 ∷ []; arena = 2 ∷ 3 ∷ 4 ∷ 5 ∷ []; off = 0 }
unfolding append append_owned own make_room
moved = refl

append-run_example :
    ((append exact owned (4 ∷ 5 ∷ []) 2).run ≡ 2 ∷ 3 ∷ 4 ∷ 5 ∷ [])
    × ((append exact owned (4 ∷ 5 ∷ []) 2).borrowed ≡ false)
    × Unread.Inv (append exact owned (4 ∷ 5 ∷ []) 2)
append-run_example =
    append-run exact owned (4 ∷ 5 ∷ []) 2 (λ c n. omega arith) owned-Inv (omega arith)

consume_run : ((Queue.consume owned 2).run ≡ []) × Unread.Inv (Queue.consume owned 2)
consume_run = consume-run owned 2 owned-Inv (omega arith)
