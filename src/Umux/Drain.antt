-- ===== src/Umux/Drain.antt =====
-- umux/shutdown.go: how a session that shuts down settles its streams, with what Session.Close,
-- removeStream, abortStream, flush and onTransportClose do to the drain. Whether a flush left no
-- control frame at the start of a round, and whether it failed, are arguments.
pub mod Settled
pub mod Once
use uio.Prelude.{
  ℕ, Bool, true, false, not, ◌&&◌, ◌||◌, Option, none, some, List, [], ◌∷◌, ◌++◌, length, ◌==◌,
  if◌then◌else◌,
}
use uio.Umux.Opening.{Table, remove_stream, abort_stream, open_stream, accept_check, accept_admit}
use uio.Umux.Outbound.Queues.{mem}

-- An error, nil for none. `ctx_error` and `transport_error` are those of the caller and the transport.
pub data Cause : Type 0 where
  nil shutdown_timeout closed_error flush_failed end_of_file : Cause
  ctx_error transport_error : ℕ → Cause

-- `ended` is `drainErr` once `drainClosed`; `closes` are the calls of the transport's CloseWith.
pub record Drain : Type 0 where
  pub table : Table
  pub go_away_sent : Bool
  pub go_away_flushed : Bool
  pub draining : Bool
  pub ended : Option Cause
  pub closes : List Cause

-- The result of a flush.
pub record Flush : Type 0 where
  pub emptied : Bool
  pub broken : Bool

abbrev pub or_else : Cause → Cause → Cause
or_else nil other = other
or_else c other = c

abbrev pub is_none : Option Cause → Bool
is_none none = true
is_none (some c) = false

abbrev pub is_nil : List ℕ → Bool
is_nil [] = true
is_nil (id ∷ ids) = false

unfoldable pub finish_drain : Drain → Cause → Drain
finish_drain d cause =
    if not d.draining || not (is_none d.ended) then d else record d { ended = some cause }

abbrev pub close_with : Drain → Cause → Drain
close_with d cause = record d { closes = d.closes ++ (cause ∷ []) }

abbrev pub close_if_broken : Drain → Flush → Drain
close_if_broken d f = if f.broken then close_with d flush_failed else d

-- What `flushLocked` does to the drain.
abbrev pub flushed : Drain → Flush → Drain
flushed d f =
    if not d.table.closed && (d.go_away_sent && f.emptied)
    then record d { go_away_flushed = true }
    else d

unfoldable pub maybe_finish : Drain → Drain
unfolding finish_drain
maybe_finish d =
    if d.draining
      && (is_none d.ended && (not d.table.closed && (is_nil d.table.streams && d.go_away_flushed)))
    then close_with (finish_drain d nil) nil
    else d

-- `Shutdown` until it waits; the answer is that of a session that is closed already.
unfoldable pub shutdown : Drain → Flush → Drain × Bool
unfolding maybe_finish
shutdown d f =
    let started = record d {
      draining = true;
      table = record (d.table) { go_away = true };
      go_away_sent = true;
    } in
    if d.draining
    then (d, false)
    else if d.table.closed
    then (d, true)
    else (maybe_finish (close_if_broken (flushed started f) f), false)

-- `abortStream` and `removeStream`.
unfoldable pub abort : Drain → ℕ → Flush → Drain
unfolding maybe_finish
abort d id f =
    let gone = record d { table = abort_stream d.table id } in
    maybe_finish (if mem id d.table.streams then close_if_broken (flushed gone f) f else gone)

unfoldable pub leave : Drain → ℕ → Drain
unfolding maybe_finish
leave d id = maybe_finish (record d { table = remove_stream d.table id })

unfoldable pub abort_all : Drain → List ℕ → (ℕ → Flush) → Drain
abort_all d [] f = d
abort_all d (id ∷ ids) f = abort_all (abort d id (f id)) ids f

-- `forceDrain`, when the caller's context ends.
unfoldable pub force_drain : Drain → Cause → (ℕ → Flush) → Drain
unfolding finish_drain
force_drain d cause f =
    if not d.draining || not (is_none d.ended)
    then d
    else close_with (abort_all (finish_drain d shutdown_timeout) d.table.streams f) cause

unfoldable pub flush_session : Drain → Flush → Drain
unfolding maybe_finish
flush_session d f = maybe_finish (close_if_broken (flushed d f) f)

-- `Session.Close`.
unfoldable pub close_session : Drain → Cause → Flush → Drain
unfolding finish_drain
close_session d cause f =
    let away = record d { table = record (d.table) { go_away = true }; go_away_sent = true } in
    let ending = finish_drain (flushed away f) (or_else cause closed_error) in
    if d.table.closed
    then d
    else close_with ending (if f.broken then flush_failed else or_else cause closed_error)

unfoldable pub handle_go_away : Drain → Drain
handle_go_away d = record d { table = record (d.table) { go_away = true } }

unfoldable pub transport_close : Drain → Cause → Drain
unfolding finish_drain
transport_close d cause =
    let ending =
      finish_drain (record d { table = record (d.table) { closed = true } })
        (or_else cause end_of_file) in
    if d.table.closed
    then d
    else record ending { table = record (ending.table) { streams = []; open_wait = [] } }

-- A stream is opened or admitted only while no drain runs, so that only a refusal's flush counts here.
-- `leave_step` follows when the flush of an opened or an admitted stream failed, and `abort_step` when
-- the accept queue is full.
pub data Step : Type 0 where
  shutdown_step : Flush → Step
  force_step : Cause → (ℕ → Flush) → Step
  leave_step : ℕ → Step
  abort_step : ℕ → Flush → Step
  flush_step : Flush → Step
  close_step : Cause → Flush → Step
  go_away_step : Step
  transport_step : Cause → Step
  open_step : Bool → Step
  check_step : ℕ → Flush → Step
  admit_step : Bool → Flush → Step

abbrev pub step : Drain → Step → Drain
step d (shutdown_step f) = (shutdown d f).0
step d (force_step cause f) = force_drain d cause f
step d (leave_step id) = leave d id
step d (abort_step id f) = abort d id f
step d (flush_step f) = flush_session d f
step d (close_step cause f) = close_session d cause f
step d go_away_step = handle_go_away d
step d (transport_step cause) = transport_close d cause
step d (open_step broken) = record d { table = (open_stream d.table broken).0 }
step d (check_step id f) = flushed (record d { table = (accept_check d.table id f.broken).0 }) f
step d (admit_step vetted f) =
    flushed (record d { table = (accept_admit d.table vetted f.broken).0 }) f

unfoldable pub steps : Drain → List Step → Drain
steps d [] = d
steps d (s ∷ ss) = steps (step d s) ss

abbrev pub new_drain : Table → Drain
new_drain t = record {
  table = t;
  go_away_sent = false;
  go_away_flushed = false;
  draining = false;
  ended = none;
  closes = [];
}
