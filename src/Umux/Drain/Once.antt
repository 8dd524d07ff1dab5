-- ===== src/Umux/Drain/Once.antt =====
-- How a drain ended never changes.
use uio.Prelude.{
  ℕ, ◌≡◌, refl, ap, ◌∙◌, Bool, true, false, not, ◌&&◌, ◌||◌, some, List, [], ◌∷◌, if◌then◌else◌,
  arith, if-elim,
}
use uio.Umux.Drain.{
  Drain, Flush, Cause, nil, closed_error, flush_failed, end_of_file, or_else, is_none, is_nil,
  finish_drain, close_with, close_if_broken, flushed, maybe_finish, shutdown, abort, leave,
  force_drain, flush_session, close_session, handle_go_away, transport_close, step, steps, Step,
  shutdown_step, force_step, leave_step, abort_step, flush_step, close_step, go_away_step,
  transport_step, open_step, check_step, admit_step,
}
use uio.Umux.Opening.{remove_stream, abort_stream, accept_check, accept_admit}
use uio.Umux.Outbound.Queues.{mem}

-- A later drain that ended as an earlier one did, if that had ended.
abbrev pub Stays : Drain → Drain → Type 0
Stays d r = is_none d.ended ≡ false → r.ended ≡ d.ended

finish_drain-Stays : (d : Drain) (c : Cause) → Stays d (finish_drain d c)
unfolding finish_drain
finish_drain-Stays d c h =
    if-elim (λ (r : Drain). r.ended ≡ d.ended) (not d.draining || not (is_none d.ended)) d
      (record d { ended = some c }) (λ k. refl) (λ k. absurd (ground (arith, h, k)))

maybe_finish-Stays : (d : Drain) → Stays d (maybe_finish d)
unfolding maybe_finish
maybe_finish-Stays d h =
    if-elim (λ (r : Drain). r.ended ≡ d.ended)
      (d.draining
        && (is_none d.ended
            && (not d.table.closed && (is_nil d.table.streams && d.go_away_flushed))))
      (close_with (finish_drain d nil) nil) d (λ k. finish_drain-Stays d nil h) (λ k. refl)

flushed-ended : (d : Drain) (f : Flush) → (flushed d f).ended ≡ d.ended
flushed-ended d f =
    if-elim (λ (r : Drain). r.ended ≡ d.ended) (not d.table.closed && (d.go_away_sent && f.emptied))
      (record d { go_away_flushed = true }) d (λ h. refl) (λ h. refl)

close_if_broken-ended : (d : Drain) (f : Flush) → (close_if_broken d f).ended ≡ d.ended
close_if_broken-ended d f =
    if-elim (λ (r : Drain). r.ended ≡ d.ended) f.broken (close_with d flush_failed) d (λ h. refl)
      (λ h. refl)

-- A finish after steps that do not end the drain.
finished-Stays : (d r : Drain) → r.ended ≡ d.ended → Stays d (maybe_finish r)
finished-Stays d r e h = maybe_finish-Stays r (ap is_none e ∙ h) ∙ e

flushed_through : (d : Drain) (f : Flush) → (close_if_broken (flushed d f) f).ended ≡ d.ended
flushed_through d f = close_if_broken-ended (flushed d f) f ∙ flushed-ended d f

abort-Stays : (d : Drain) (id : ℕ) (f : Flush) → Stays d (abort d id f)
unfolding abort
abort-Stays d id f =
    let gone = record d { table = abort_stream d.table id } in
    let all = close_if_broken (flushed gone f) f in
    finished-Stays d (if mem id d.table.streams then all else gone) (
      if-elim (λ (r : Drain). r.ended ≡ d.ended) (mem id d.table.streams) all gone
        (λ h. flushed_through gone f) (λ h. refl))

shutdown-Stays : (d : Drain) (f : Flush) → Stays d (shutdown d f).0
unfolding shutdown
shutdown-Stays d f h =
    let start = record d {
      draining = true;
      table = record (d.table) { go_away = true };
      go_away_sent = true;
    } in
    let done = maybe_finish (close_if_broken (flushed start f) f) in
    let rest : Drain × Bool = if d.table.closed then (d, true) else (done, false) in
    if-elim (λ (r : Drain × Bool). r.0.ended ≡ d.ended) d.draining (d, false) rest (λ k. refl)
      (λ k.
        if-elim (λ (r : Drain × Bool). r.0.ended ≡ d.ended) d.table.closed (d, true) (done, false)
          (λ c. refl)
          (λ c. finished-Stays d (close_if_broken (flushed start f) f) (flushed_through start f) h))

force_drain-Stays : (d : Drain) (c : Cause) (f : ℕ → Flush) → Stays d (force_drain d c f)
unfolding force_drain
force_drain-Stays d c f h =
    if-elim (λ (r : Drain). r.ended ≡ d.ended) (not d.draining || not (is_none d.ended)) d _
      (λ k. refl) (λ k. absurd (ground (arith, h, k)))

close_session-Stays : (d : Drain) (c : Cause) (f : Flush) → Stays d (close_session d c f)
unfolding close_session
close_session-Stays d c f h =
    let away = record d { table = record (d.table) { go_away = true }; go_away_sent = true } in
    let e = flushed-ended away f in
    if-elim (λ (r : Drain). r.ended ≡ d.ended) d.table.closed d _ (λ k. refl)
      (λ k. finish_drain-Stays (flushed away f) (or_else c closed_error) (ap is_none e ∙ h) ∙ e)

transport_close-Stays : (d : Drain) (c : Cause) → Stays d (transport_close d c)
unfolding transport_close
transport_close-Stays d c h =
    if-elim (λ (r : Drain). r.ended ≡ d.ended) d.table.closed d _ (λ k. refl)
      (λ k.
        finish_drain-Stays (record d { table = record (d.table) { closed = true } })
          (or_else c end_of_file) h)

step-Stays : (d : Drain) (s : Step) → Stays d (step d s)
unfolding leave flush_session handle_go_away
step-Stays d (shutdown_step f) h = shutdown-Stays d f h
step-Stays d (force_step c f) h = force_drain-Stays d c f h
step-Stays d (leave_step id) h =
    finished-Stays d (record d { table = remove_stream d.table id }) refl h
step-Stays d (abort_step id f) h = abort-Stays d id f h
step-Stays d (flush_step f) h =
    finished-Stays d (close_if_broken (flushed d f) f) (flushed_through d f) h
step-Stays d (close_step c f) h = close_session-Stays d c f h
step-Stays d go_away_step h = refl
step-Stays d (transport_step c) h = transport_close-Stays d c h
step-Stays d (open_step broken) h = refl
step-Stays d (check_step id f) h =
    flushed-ended (record d { table = (accept_check d.table id f.broken).0 }) f
step-Stays d (admit_step vetted f) h =
    flushed-ended (record d { table = (accept_admit d.table vetted f.broken).0 }) f

-- From a drain that has ended, whatever steps follow, the way it ended stays the same.
pub steps-Stays :
    (d : Drain) (ss : List Step) → is_none d.ended ≡ false → (steps d ss).ended ≡ d.ended
unfolding steps
steps-Stays d [] h = refl
steps-Stays d (s ∷ ss) h =
    let e = step-Stays d s h in steps-Stays (step d s) ss (ap is_none e ∙ h) ∙ e
