-- ===== src/Tests/Session.antt =====
-- Tests for umux/session.go and umux/stream.go.
use uio.Prelude.{
  ◌^◌, not, ℕ, suc, ◌+◌, ◌*◌, ◌<◌, ◌≤◌, ◌≡◌, refl, true, false, none, some, [], ◌∷◌, ◌++◌, length,
  ltb, leb, ◌||◌, if◌then◌else◌, arith,
}
use uio.Umux.Window.{SendWindow, take, new_recv_window, retune, on_data, exceeded}
use uio.Umux.Window as Window
use uio.Umux.Frame.{encode_header, flag_syn, flag_ack, flag_rst}
use uio.Umux.Inbound as Unread
use uio.Umux.Outbound.{
  outbound_overflow, eof, Sender, fin_none, data_frame, fin_frame, Outbound, enqueue, enqueue_fin,
  frame_data, write, write_owned, close_write,
}
use uio.Umux.Outbound.Flush.{Transport, accepted, overflow, flush, flush_from, flush_round}
use uio.Umux.Outbound.Queues.{mem, fin_last, frames_of, has_work, flow, StreamInv}
use uio.Umux.Outbound.Runs.{
  IsNew, Reach, starts, steps, writes, half_closes, flushes, Reach-Inv, stream_order,
}
use uio.Umux.Outbound.Order.{flush_keeps}
use uio.Umux.Outbound.Framing.{Wrote, write-Wrote}
use uio.Umux.Outbound.Owned.{WroteOwned, write_owned-WroteOwned}
use uio.Umux.Outbound.Drain.{work, flush_sends_all}
use uio.Umux.Opening.{
  Table, new_table, open_stream, accept_check, accept_admit, admit, check_peer_stream_id, too_many,
  protocol_error,
}
use uio.Umux.Opening.Sessions as Opening
use uio.Umux.Opening.Sessions.{opens, checks, admits, numbers_apart}
use uio.Umux.Inbox.{
  Inbox, new_inbox, push_data, reserve_inbound, exhausted_budget, read, release_inbound, low_water,
  send_window_update,
}
use uio.Umux.Inbox.Budget.{mark, total}
use uio.Umux.Inbox.Refusals.{push_data-error}
use uio.Umux.Inbox.Runs.{Run, here, next, pushes, exhausts, reads, arrivals, departures}
use uio.Umux.Inbox.Account.{Run-Ok, received_in_order, account_exact, held_is_woken}

abbrev idle_sender : Sender
idle_sender = record {
  live = true;
  opening = false;
  closed_local = false;
  closed_err = none;
  local_fin = false;
  send_win = record { avail = 8; ceiling = 8 };
  out = [];
  queued = false;
  fin_state = fin_none;
}

abbrev session : Outbound
session = record {
  streams = λ id. idle_sender;
  control = [];
  pending = [];
  has_conn = true;
  closed = false;
  go_away_sent = false;
  go_away_flushed = false;
  hears_drains = true;
  fin_flushed = [];
  drained = [];
  wire = [];
}

-- A connection with room for one frame, and one that takes all.
abbrev narrow : Transport
narrow w f = if ltb (length w) 1 then accepted else overflow

abbrev wide : Transport
wide w f = accepted

-- Three bytes in frames of two, another stream's byte, and the end of the first stream.
abbrev queued : Outbound
queued = (close_write (write (write session 1 (7 ∷ 8 ∷ 9 ∷ []) 2).0 3 (5 ∷ []) 2).0 1).0

queued_pending : queued.pending ≡ 1 ∷ 3 ∷ []
unfolding write close_write frame_data enqueue enqueue_fin take encode_header
queued_pending = refl

-- The streams take turns, and the FIN goes behind the data.
sent_in_turns :
    ((flush wide queued).0.wire
      ≡ data_frame 1 (0 ∷ 0 ∷ 0 ∷ 0 ∷ 0 ∷ 0 ∷ 0 ∷ 1 ∷ 0 ∷ 0 ∷ 0 ∷ 2 ∷ 7 ∷ 8 ∷ [])
        ∷ data_frame 3 (0 ∷ 0 ∷ 0 ∷ 0 ∷ 0 ∷ 0 ∷ 0 ∷ 3 ∷ 0 ∷ 0 ∷ 0 ∷ 1 ∷ 5 ∷ [])
        ∷ data_frame 1 (0 ∷ 0 ∷ 0 ∷ 0 ∷ 0 ∷ 0 ∷ 0 ∷ 1 ∷ 0 ∷ 0 ∷ 0 ∷ 1 ∷ 9 ∷ [])
        ∷ fin_frame 1
        ∷ [])
    × ((flush narrow queued).0.pending ≡ 3 ∷ 1 ∷ [])
unfolding write close_write frame_data enqueue enqueue_fin take encode_header flush flush_from
    flush_round
sent_in_turns = (refl, refl)

-- The credit is eight bytes.
short_write :
    ((write session 1 (1 ∷ 2 ∷ 3 ∷ 4 ∷ 5 ∷ 6 ∷ 7 ∷ 8 ∷ 9 ∷ []) 4).1 ≡ 8)
    × ((write session 1 (1 ∷ 2 ∷ 3 ∷ 4 ∷ 5 ∷ 6 ∷ 7 ∷ 8 ∷ 9 ∷ []) 4).2 ≡ some outbound_overflow)
    × ((write queued 1 (1 ∷ []) 4).1 ≡ 0)
unfolding write close_write frame_data enqueue enqueue_fin take encode_header
short_write = (refl, refl, refl)

write-Wrote_example :
    Wrote 1 4
      (1 ∷ 2 ∷ 3 ∷ 4 ∷ 5 ∷ 6 ∷ 7 ∷ 8 ∷ 9 ∷ [])
      8
      []
      (write session 1 (1 ∷ 2 ∷ 3 ∷ 4 ∷ 5 ∷ 6 ∷ 7 ∷ 8 ∷ 9 ∷ []) 4)
write-Wrote_example =
    write-Wrote session 1 (1 ∷ 2 ∷ 3 ∷ 4 ∷ 5 ∷ 6 ∷ 7 ∷ 8 ∷ 9 ∷ []) 4 (omega arith) (omega arith)
      (omega arith) refl refl refl refl (omega arith) (omega arith) (omega arith)

write_owned-WroteOwned_example :
    WroteOwned 1 2 (7 ∷ 8 ∷ 9 ∷ []) session (write_owned session 1 (7 ∷ 8 ∷ 9 ∷ []) 2)
write_owned-WroteOwned_example =
    write_owned-WroteOwned session 1 (7 ∷ 8 ∷ 9 ∷ []) 2 (omega arith) (omega arith) (omega arith)
      refl (omega arith) (omega arith)

session-IsNew : IsNew session
session-IsNew = record {
  fresh = λ id. record { no_out = refl; not_queued = refl; no_fin = refl };
  no_pending = refl;
  no_wire = refl;
}

queued-Reach : Reach queued
queued-Reach =
    steps (steps (steps (starts session-IsNew) (writes 1 (7 ∷ 8 ∷ 9 ∷ []) 2)) (writes 3 (5 ∷ []) 2))
      (half_closes 1)

stream_order_example :
    let s = (flush narrow queued).0 in
    fin_last 1 s.wire ≡ true × (has_work (s.streams 1) ≡ true → mem 1 s.pending ≡ true)
stream_order_example = stream_order (flush narrow queued).0 1 (steps queued-Reach (flushes narrow))

flush_keeps_example :
    let (t, broken) = flush narrow queued in
    StreamInv 1 (t.streams 1) t.pending t.wire × (broken ≡ false → flow 1 t ≡ flow 1 queued)
flush_keeps_example = flush_keeps narrow queued 1 (Reach-Inv queued-Reach)

work_of_queued : (queued.has_conn ≡ true) × (queued.closed ≡ false) × (work queued ≡ 5)
unfolding write close_write frame_data enqueue enqueue_fin take encode_header
work_of_queued = (refl, refl, refl)

flush_sends_all_example :
    let (t, broken) = flush wide queued in
    broken ≡ false
    × t.control ≡ []
    × has_work (t.streams 1) ≡ false
    × frames_of 1 t.wire ≡ flow 1 queued
flush_sends_all_example =
    flush_sends_all wide (λ w f. refl) queued 1 queued-Reach work_of_queued.0 work_of_queued.1
      (omega (arith, work_of_queued.2))

-- What Go's `append` allocates, for the tests.
abbrev doubled : ℕ → ℕ → ℕ
doubled c n = c * 2 + n

doubled-enough : (c n : ℕ) → n ≤ doubled c n
doubled-enough c n = omega arith

-- A window of four bytes, a budget of six.
abbrev inbox : Inbox
inbox = new_inbox 4 6 true

abbrev one_frame : Inbox
one_frame = (push_data doubled inbox 1 (1 ∷ 2 ∷ 3 ∷ 4 ∷ []) 4 false true).0

abbrev two_frames : Inbox
two_frames = (push_data doubled one_frame 3 (5 ∷ 6 ∷ 7 ∷ []) 3 true false).0

abbrev held_inbox : Inbox
held_inbox = (exhausted_budget two_frames).0

frames_fit :
    ((push_data doubled inbox 1 (1 ∷ 2 ∷ 3 ∷ 4 ∷ []) 4 false true).1 ≡ none)
    × ((push_data doubled one_frame 3 (5 ∷ 6 ∷ 7 ∷ []) 3 true false).1 ≡ none)
    × (one_frame.pending_bytes ≡ 4)
    × (held_inbox.read_held ≡ true)
unfolding push_data reserve_inbound exhausted_budget on_data new_recv_window retune Unread.append
    Unread.append_owned Unread.own Unread.make_room Unread.set_owned Unread.set_borrowed
frames_fit = (refl, refl, refl, refl)

held_inbox-Run : Run doubled 8 inbox held_inbox
held_inbox-Run =
    next
      (next
        (next here (
          pushes 1 (1 ∷ 2 ∷ 3 ∷ 4 ∷ []) 4 false true (omega arith) (omega arith) (omega arith)
            (omega arith) frames_fit.0))
        (pushes 3 (5 ∷ 6 ∷ 7 ∷ []) 3 true false (omega arith) (omega arith) (omega arith)
          (omega (arith, frames_fit.2)) frames_fit.1))
      exhausts

received_in_order_example :
    arrivals 1 held_inbox-Run ≡ departures 1 held_inbox-Run ++ (held_inbox.streams 1).unread.run
received_in_order_example =
    received_in_order doubled doubled-enough 8 4 6 true (omega arith) (omega arith) held_inbox 1
      held_inbox-Run

account_exact_example :
    held_inbox.pending_bytes ≡ total held_inbox.streams 8
    × ((id : ℕ) → length (held_inbox.streams id).unread.run ≤ held_inbox.window_size)
    × (held_inbox.read_held ≡ true → mark held_inbox < held_inbox.pending_bytes)
account_exact_example =
    account_exact doubled doubled-enough 8 4 6 true (omega arith) (omega arith) held_inbox
      held_inbox-Run

held_is_woken_example :
    let t = (read held_inbox 1 4).0 in
    ((id : ℕ) × 0 < length (held_inbox.streams id).unread.run)
    × (t.read_held ≡ false → held_inbox.wakes < t.wakes)
held_is_woken_example =
    held_is_woken doubled doubled-enough 8 4 6 true (omega arith) (omega arith) held_inbox
      (read held_inbox 1 4).0 held_inbox-Run (reads 1 4 (omega arith)) frames_fit.3

-- One more byte than the window.
push_data-error_example : (push_data doubled held_inbox 1 (9 ∷ []) 1 false false).1 ≡ (
    if (held_inbox.streams 1).closed_local
      || leb (length (held_inbox.streams 1).unread.run + 1) held_inbox.window_size
    then none
    else some exceeded)
push_data-error_example =
    push_data-error doubled held_inbox 1 (9 ∷ []) 1 false false
      (Run-Ok doubled doubled-enough 8 4 6 true (omega arith) (omega arith) held_inbox
        held_inbox-Run)
      (omega arith)

-- Four bytes read: the session is at its mark and goes on, and a grant is sent.
read_wakes :
    ((read held_inbox 1 4).0.wakes ≡ 1)
    × ((read held_inbox 1 4).0.updates ≡ (1, 4) ∷ [])
    × ((read held_inbox 1 4).1 ≡ 1 ∷ 2 ∷ 3 ∷ 4 ∷ [])
    × ((read (read held_inbox 3 9).0 3 1).2 ≡ some eof)
unfolding read release_inbound low_water send_window_update push_data reserve_inbound
    exhausted_budget on_data new_recv_window retune Window.consume Unread.consume Unread.append
    Unread.append_owned Unread.own Unread.make_room Unread.set_owned Unread.set_borrowed
read_wakes = (refl, refl, refl, refl)

-- A client that opened a stream and accepted one of the server's, with room for two.
abbrev opened : Table
opened = (open_stream (new_table true 2 none) false).0

abbrev checked : Table
checked = (accept_check opened 2 false).0

abbrev both : Table
both = (accept_admit checked true false).0

two_streams :
    (both.streams ≡ 2 ∷ 1 ∷ [])
    × (both.sent ≡ (flag_syn, 1) ∷ (flag_ack, 2) ∷ [])
    × ((open_stream both false).1 ≡ too_many)
    × ((accept_check both 4 false).0.sent ≡ (flag_syn, 1) ∷ (flag_ack, 2) ∷ (flag_rst, 4) ∷ [])
    × ((accept_check opened 3 false).1 ≡ protocol_error)
unfolding open_stream accept_check accept_admit admit check_peer_stream_id
two_streams = (refl, refl, refl, refl, refl)

-- An open that comes between the check and the admission: one stream more than the limit.
abbrev crowded : Table
crowded = (accept_admit (open_stream checked false).0 true false).0

three_streams : (crowded.streams ≡ 2 ∷ 3 ∷ 1 ∷ []) × (crowded.max_streams ≡ 2)
unfolding open_stream accept_check accept_admit admit check_peer_stream_id
three_streams = (refl, refl)

opens_fit : checked.next_id + 2 < 2 ^ 32
unfolding open_stream accept_check check_peer_stream_id
opens_fit = omega (arith, next_is_three)
  where
    next_is_three : checked.next_id ≡ 3
    next_is_three = refl

numbers_apart_example :
    length crowded.streams ≤ suc crowded.max_streams
    × mem crowded.next_id crowded.streams ≡ false
    × check_peer_stream_id (not crowded.client) crowded.next_id ≡ true
    × check_peer_stream_id crowded.client crowded.next_id ≡ false
unfolding open_stream
numbers_apart_example = numbers_apart true 2 none crowded (
    Opening.steps
      (Opening.steps
        (Opening.steps (Opening.steps Opening.starts (opens false (omega arith)))
          (checks 2 false (omega arith) refl))
        (opens false (opens_fit)))
      (admits true false))
