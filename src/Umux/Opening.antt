-- ===== src/Umux/Opening.antt =====
-- umux/session.go: how streams enter and leave the session's table. The table is the list of its
-- numbers, which are `uint32`. Each function is one stretch under the session's lock: what the
-- configured `Accept` does and whether a flush fails are arguments, and other calls may come between
-- the stretches. `vetting` is the number that acceptStream checked and did not admit yet, and
-- `backlog` the room of the accept queue, none with a handler.
pub mod Numbers
pub mod Sessions
use uio.Prelude.{
  ℕ, ◌+◌, ◌%◌, ◌^◌, Bool, true, false, not, ◌&&◌, ◌||◌, Option, none, some, List, [], ◌∷◌, ◌++◌,
  length, leb, ◌==◌, if◌then◌else◌,
}
use uio.Umux.Frame.{flag_syn, flag_ack, flag_rst}
use uio.Umux.Outbound.Queues.{mem}

pub record Table : Type 0 where
  pub client : Bool
  pub closed : Bool
  pub go_away : Bool
  pub max_streams : ℕ
  pub next_id : ℕ
  pub streams : List ℕ
  pub open_wait : List ℕ
  pub vetting : Option ℕ
  pub backlog : Option ℕ
  pub accepted : List ℕ
  pub sent : List (ℕ × ℕ)

-- How a call ended: nil, the errors, a stream for the caller or the handler, and a check that passed.
-- After a flush that failed the call goes on with `remove_stream`, and where the accept queue had no
-- room for an admitted stream, with `abort_stream`.
pub data Outcome : Type 0 where
  nothing flush_error protocol_error closed_session going_away too_many vetted_next : Outcome
  stream : ℕ → Outcome

abbrev pub new_table : Bool → ℕ → Option ℕ → Table
new_table client max_streams backlog = record {
  client = client;
  closed = false;
  go_away = false;
  max_streams = max_streams;
  next_id = if client then 1 else 2;
  streams = [];
  open_wait = [];
  vetting = none;
  backlog = backlog;
  accepted = [];
  sent = [];
}

-- A number in a map, which holds it once.
abbrev pub insert : ℕ → List ℕ → List ℕ
insert id ids = if mem id ids then ids else id ∷ ids

abbrev pub remove : ℕ → List ℕ → List ℕ
remove id [] = []
remove id (i ∷ is) = let rest = remove id is in if i == id then rest else i ∷ rest

-- The control frames are noted by their flags and their stream.
abbrev pub send : Table → ℕ → ℕ → Table
send t flags id = if t.closed then t else record t { sent = t.sent ++ ((flags, id) ∷ []) }

unfoldable pub remove_stream : Table → ℕ → Table
remove_stream t id = record t { streams = remove id t.streams; open_wait = remove id t.open_wait }

unfoldable pub abort_stream : Table → ℕ → Table
abort_stream t id =
    let gone = record t { streams = remove id t.streams; open_wait = remove id t.open_wait } in
    if mem id t.streams then send gone flag_rst id else gone

-- `open` until it waits for the answer.
unfoldable pub open_stream : Table → Bool → Table × Outcome
open_stream t broken =
    let id = t.next_id in
    let opened =
      send
        (record t {
          next_id = (id + 2) % 2 ^ 32;
          streams = insert id t.streams;
          open_wait = insert id t.open_wait;
        })
        flag_syn id in
    if t.closed
    then (t, closed_session)
    else if t.go_away
    then (t, going_away)
    else if leb t.max_streams (length t.streams)
    then (t, too_many)
    else if broken
    then (opened, flush_error)
    else (opened, stream id)

-- Whether the peer may open the number.
unfoldable pub check_peer_stream_id : Bool → ℕ → Bool
check_peer_stream_id client id =
    if client
    then (if not (id % 2 == 0) then false else not (id == 0))
    else if id % 2 == 0
    then false
    else not (id == 0)

abbrev pub refuse : Table → ℕ → Bool → Table × Outcome
refuse t id broken = (send t flag_rst id, if broken then flush_error else nothing)

abbrev pub backlog_full : Option ℕ → List ℕ → Bool
backlog_full none accepted = false
backlog_full (some room) accepted = leb room (length accepted)

-- `acceptStream` until it unlocks for `Accept`.
unfoldable pub accept_check : Table → ℕ → Bool → Table × Outcome
unfolding check_peer_stream_id
accept_check t id broken =
    if not (check_peer_stream_id t.client id)
    then (t, protocol_error)
    else if t.closed
    then (t, nothing)
    else if t.go_away
    then refuse t id broken
    else if leb t.max_streams (length t.streams)
    then refuse t id broken
    else if mem id t.streams
    then (t, protocol_error)
    else if backlog_full t.backlog t.accepted
    then refuse t id broken
    else (record t { vetting = some id }, vetted_next)

-- The stream is refused, or it enters the table and is acknowledged; `vetted` is whether `Accept`
-- takes it.
unfoldable pub admit : Table → ℕ → Bool → Bool → Table × Outcome
admit t id vetted broken =
    let admitted = send (record t { streams = insert id t.streams }) flag_ack id in
    if not vetted
    then refuse t id broken
    else if t.closed
    then (t, nothing)
    else if t.go_away
    then refuse t id broken
    else if broken
    then (admitted, flush_error)
    else (admitted, stream id)

abbrev pub admit_next : Option ℕ → Table → Bool → Bool → Table × Outcome
admit_next none t vetted broken = (t, nothing)
admit_next (some id) t vetted broken = admit (record t { vetting = none }) id vetted broken

-- `acceptStream` from its answer of `Accept` until the stream is acknowledged.
unfoldable pub accept_admit : Table → Bool → Bool → Table × Outcome
accept_admit t vetted broken = admit_next t.vetting t vetted broken

abbrev pub queue_stream : Option ℕ → Table → ℕ → Table × Outcome
queue_stream none t id = (t, stream id)
queue_stream (some room) t id =
    if t.closed
    then (t, nothing)
    else if leb room (length t.accepted)
    then (t, too_many)
    else (record t { accepted = t.accepted ++ (id ∷ []) }, stream id)

-- The admitted stream goes to the handler or to the accept queue.
unfoldable pub hand_over : Table → ℕ → Table × Outcome
hand_over t id = queue_stream t.backlog t id

-- `handleAck`, which ends the wait of an open.
unfoldable pub handle_ack : Table → ℕ → Table
handle_ack t id = record t { open_wait = remove id t.open_wait }
