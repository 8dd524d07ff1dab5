-- ===== src/Umux/Inbox.antt =====
-- umux/stream.go and umux/session.go: what a session received. A stream's unread bytes, its window
-- and the budget that its session's streams share. The part of a stream that its writers use is
-- in Umux.Outbound. Numbers of type `int64` are bit patterns.
pub mod Stream
pub mod Budget
pub mod Change
pub mod Operations
pub mod Resets
pub mod Arrivals
pub mod Refusals
pub mod Runs
pub mod Account
use uio.Prelude.Int64.{add64, sub64, sle, slt, quot}
use uio.Prelude.Store.{store}
use uio.Prelude.{
  ℕ, suc, ◌%◌, ◌^◌, Bool, true, false, not, ◌&&◌, ◌||◌, Option, none, some, List, [], ◌∷◌, ◌++◌,
  length, take, drop, min, ltb, ◌==◌, if◌then◌else◌,
}
use uio.Umux.Window as Window
use uio.Umux.Window.{RecvWindow, WindowError, new_recv_window, retune, on_data}
use uio.Umux.Inbound as Inbound
use uio.Umux.Inbound.{set_borrowed, append, own, drop_all}
use uio.Umux.Outbound.{Cause, eof}

-- The part of a stream that its readers use.
pub record Receiver : Type 0 where
  pub closed_local : Bool
  pub closed_err : Option Cause
  pub close_delivered : Bool
  pub peer_fin : Bool
  pub unread : Inbound.Inbound
  pub recv_win : RecvWindow

-- `wakes` counts the calls of the transport's `Wake` that these operations make; `updates` are the
-- window updates handed to the sending side, `closes` the `OnClose` callbacks queued, `closed`
-- whether the transport is gone.
pub record Inbox : Type 0 where
  pub streams : ℕ → Receiver
  pub pending_bytes : ℕ
  pub read_held : Bool
  pub window_size : ℕ
  pub session_window : ℕ
  pub has_handler : Bool
  pub closed : Bool
  pub wakes : ℕ
  pub updates : List (ℕ × ℕ)
  pub closes : List (ℕ × Cause)

-- A stream as `newStream` makes it, and a session that received nothing.
abbrev pub new_receiver : ℕ → Receiver
new_receiver our_window = record {
  closed_local = false;
  closed_err = none;
  close_delivered = false;
  peer_fin = false;
  unread = record { run = []; borrowed = false; arena = []; arena_cap = 0; off = 0; borrows = 0 };
  recv_win = new_recv_window our_window;
}

abbrev pub new_inbox : ℕ → ℕ → Bool → Inbox
new_inbox window_size session_window has_handler = record {
  streams = λ id. new_receiver window_size;
  pending_bytes = 0;
  read_held = false;
  window_size = window_size;
  session_window = session_window;
  has_handler = has_handler;
  closed = false;
  wakes = 0;
  updates = [];
  closes = [];
}

abbrev pub put_stream : Inbox → ℕ → Receiver → Inbox
put_stream s id st = record s { streams = store s.streams id st }

unfoldable pub reserve_inbound : Inbox → ℕ → Inbox
reserve_inbound s n = record s { pending_bytes = add64 s.pending_bytes n }

-- One window of headroom, and at least half the budget.
unfoldable pub low_water : ℕ → ℕ → ℕ
low_water budget window =
    let low = sub64 budget window in if slt low (quot budget 2) then quot budget 2 else low

unfoldable pub release_inbound : Inbox → ℕ → Inbox
release_inbound s n =
    let left = sub64 s.pending_bytes n in
    let pending = if slt left 0 then 0 else left in
    if s.read_held && sle pending (low_water s.session_window s.window_size)
    then record s { pending_bytes = pending; read_held = false; wakes = suc s.wakes }
    else record s { pending_bytes = pending }

-- Whether the session must hold its reads.
unfoldable pub exhausted_budget : Inbox → Inbox × Bool
exhausted_budget s =
    if sle s.pending_bytes s.session_window
    then (s, false)
    else (record s { read_held = true }, true)

unfoldable pub held_reads : Inbox → Inbox × Bool
held_reads s =
    if not s.read_held
    then (s, false)
    else if sle s.pending_bytes (low_water s.session_window s.window_size)
    then (record s { read_held = false }, false)
    else (s, true)

-- A payload joins what is unread: in place when nothing is and the bytes are the transport's.
abbrev pub receive : (ℕ → ℕ → ℕ) → Inbound.Inbound → List ℕ → ℕ → Bool → Inbound.Inbound
receive grown b payload p_cap borrowed =
    if length b.run == 0 && borrowed then set_borrowed b payload else append grown b payload p_cap

abbrev pub is_some : Option WindowError → Bool
is_some none = false
is_some (some e) = true

-- `pushData` without the half-close timer; `p_cap` is the capacity of the payload's slice.
unfoldable pub push_data :
    (ℕ → ℕ → ℕ) → Inbox → ℕ → List ℕ → ℕ → Bool → Bool → Inbox × Option WindowError
push_data grown s id payload p_cap fin borrowed =
    let st = s.streams id in
    let n = length payload in
    let r = if ltb 0 n then reserve_inbound s n else s in
    let (w, err) = on_data st.recv_win n in
    let got = record st { recv_win = w; unread = receive grown st.unread payload p_cap borrowed } in
    let filled = if ltb 0 n then got else st in
    if st.closed_local
    then (release_inbound r n, none)
    else if ltb 0 n && is_some err
    then (release_inbound (put_stream r id (record st { recv_win = w })) n, err)
    else (put_stream r id (record filled { peer_fin = filled.peer_fin || fin }), none)

-- The peer announced its window, as `establish` and `acceptStream` hear it.
unfoldable pub tune : Inbox → ℕ → ℕ → Inbox
tune s id peer_window =
    let st = s.streams id in
    put_stream s id (record st { recv_win = retune st.recv_win peer_window })

unfoldable pub own_inbound : (ℕ → ℕ → ℕ) → Inbox → ℕ → Inbox
own_inbound grown s id =
    let st = s.streams id in put_stream s id (record st { unread = own grown st.unread })

unfoldable pub send_window_update : Inbox → ℕ → ℕ → Inbox
send_window_update s id delta =
    if sle delta 0 then s else record s { updates = s.updates ++ ((id, delta % 2 ^ 32) ∷ []) }

-- `n` unread bytes of a stream are used.
abbrev pub use_bytes : Inbox → ℕ → ℕ → Inbox
use_bytes s id n =
    let st = s.streams id in
    let (w, grant) = Window.consume st.recv_win n in
    let used = put_stream s id (record st { unread = Inbound.consume st.unread n; recv_win = w }) in
    let freed = release_inbound used n in
    if slt 0 grant then send_window_update freed id grant else freed

abbrev pub or_eof : Option Cause → Cause
or_eof none = eof
or_eof (some e) = e

-- `Read` into `room` bytes: the bytes read and the error. Finishing the stream is the caller's next
-- step.
unfoldable pub read : Inbox → ℕ → ℕ → Inbox × List ℕ × Option Cause
read s id room =
    let st = s.streams id in
    let run = st.unread.run in
    let n = min room (length run) in
    if room == 0
    then (s, [], none)
    else if ltb 0 (length run)
    then (use_bytes s id n, take n run, none)
    else if st.closed_local
    then (s, [], some (or_eof st.closed_err))
    else if st.peer_fin
    then (s, [], some eof)
    else (s, [], none)

-- A negative count, or one beyond what is unread, discards all of it.
unfoldable pub discard : Inbox → ℕ → ℕ → Inbox × ℕ
discard s id n =
    let held = length (s.streams id).unread.run in
    let k = if slt n 0 || slt held n then held else n in (use_bytes s id k, k)

-- `deliverClose` with `queueClose`: the transport is woken to run `OnClose`, unless the session is
-- closed and runs it at once.
unfoldable pub deliver_close : Inbox → ℕ → Cause → Inbox
deliver_close s id err =
    let st = s.streams id in
    let told = put_stream s id (record st { close_delivered = true }) in
    let heard = record told { closes = s.closes ++ ((id, err) ∷ []) } in
    if st.close_delivered
    then s
    else if s.has_handler
    then (if s.closed then heard else record heard { wakes = suc heard.wakes })
    else told

-- `resetLocal`, which `resetRemote` repeats.
unfoldable pub reset_stream : Inbox → ℕ → Cause → Inbox
reset_stream s id err =
    let st = s.streams id in
    let closed =
      put_stream s id
        (record st { closed_local = true; closed_err = some err; unread = drop_all st.unread }) in
    if st.closed_local
    then s
    else deliver_close (release_inbound closed (length st.unread.run)) id err
