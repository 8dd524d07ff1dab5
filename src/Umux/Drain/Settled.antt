-- ===== src/Umux/Drain/Settled.antt =====
-- A drain ends once, and it ends well only when every stream has left.
use uio.Prelude.{
  ℕ, ◌≡◌, refl, ap, ◌∙◌, Bool, true, false, not, ◌&&◌, ◌||◌, Option, none, some, List, [], ◌∷◌,
  if◌then◌else◌, arith, if-elim,
}
use uio.Umux.Drain.{
  Drain, Flush, Cause, nil, shutdown_timeout, closed_error, flush_failed, end_of_file, ctx_error,
  transport_error, or_else, is_none, is_nil, finish_drain, close_with, close_if_broken, flushed,
  maybe_finish, shutdown, abort, leave, abort_all, force_drain, flush_session, close_session,
  handle_go_away, transport_close, step, steps, Step, shutdown_step, force_step, leave_step,
  abort_step, flush_step, close_step, go_away_step, transport_step, open_step, check_step,
  admit_step, new_drain,
}
use uio.Umux.Opening.{
  Table, Outcome, closed_session, going_away, protocol_error, nothing, check_peer_stream_id, remove,
  remove_stream, abort_stream, open_stream, accept_check, accept_admit, admit, admit_next, refuse,
}
use uio.Umux.Outbound.Queues.{mem}

-- Whether the drain ended with nil.
abbrev pub is_settled : Option Cause → Bool
is_settled none = false
is_settled (some nil) = true
is_settled (some c) = false

pub record Inv (d : Drain) : Type 0 where
  pub refusing : d.draining ≡ true → d.table.go_away ≡ true
  pub started : is_none d.ended ≡ false → d.draining ≡ true
  pub settled : is_settled d.ended ≡ true → is_nil d.table.streams ≡ true × d.go_away_flushed ≡ true

remove-is_nil : (id : ℕ) (ids : List ℕ) → is_nil ids ≡ true → is_nil (remove id ids) ≡ true
remove-is_nil id [] h = refl
remove-is_nil id (i ∷ is) h = absurd (ground (arith, h))

maybe_finish-Inv : (d : Drain) → Inv d → Inv (maybe_finish d)
unfolding maybe_finish finish_drain
maybe_finish-Inv d v =
    if-elim (λ (r : Drain). Inv r)
      (d.draining
        && (is_none d.ended
            && (not d.table.closed && (is_nil d.table.streams && d.go_away_flushed))))
      (close_with (finish_drain d nil) nil) d
      (λ h.
        if-elim (λ (r : Drain). Inv (close_with r nil)) (not d.draining || not (is_none d.ended)) d
          (record d { ended = some nil }) (λ k. absurd (ground (arith, h, k)))
          (λ k. record {
            refusing = v.refusing;
            started = λ n. (ground (arith, h));
            settled = λ n. ((ground (arith, h)), (ground (arith, h)));
          }))
      (λ h. v)

flushed-Inv : (d : Drain) (f : Flush) → Inv d → Inv (flushed d f)
flushed-Inv d f v =
    if-elim (λ (r : Drain). Inv r) (not d.table.closed && (d.go_away_sent && f.emptied))
      (record d { go_away_flushed = true }) d
      (λ h. record {
        refusing = v.refusing;
        started = v.started;
        settled = λ s. ((v.settled s).0, refl);
      })
      (λ h. v)

close_with-Inv : (d : Drain) (c : Cause) → Inv d → Inv (close_with d c)
close_with-Inv d c v = record { refusing = v.refusing; started = v.started; settled = v.settled }

close_if_broken-Inv : (d : Drain) (f : Flush) → Inv d → Inv (close_if_broken d f)
close_if_broken-Inv d f v =
    if-elim (λ (r : Drain). Inv r) f.broken (close_with d flush_failed) d
      (λ h. close_with-Inv d flush_failed v) (λ h. v)

-- A change of the table that keeps the refusal and brings no stream when there is none.
table-Inv :
    (d : Drain) (t : Table)
    → (d.table.go_away ≡ true → t.go_away ≡ true)
    → (d.table.go_away ≡ true → is_nil d.table.streams ≡ true → is_nil t.streams ≡ true)
    → Inv d
    → Inv (record d { table = t })
table-Inv d t away stays v = record {
  refusing = λ h. away (v.refusing h);
  started = v.started;
  settled = λ s.
      (let old = v.settled s in (stays (v.refusing (v.started (not_none d.ended s))) old.0, old.1));
}
  where
    not_none : (e : Option Cause) → is_settled e ≡ true → is_none e ≡ false
    not_none none s = absurd (ground (arith, s))
    not_none (some c) s = refl

finish_drain-Inv :
    (d : Drain) (c : Cause) → is_settled (some c) ≡ false → Inv d → Inv (finish_drain d c)
unfolding finish_drain
finish_drain-Inv d c h v =
    if-elim (λ (r : Drain). Inv r) (not d.draining || not (is_none d.ended)) d
      (record d { ended = some c }) (λ k. v)
      (λ k. record {
        refusing = v.refusing;
        started = λ n. (ground (arith, k));
        settled = λ s. absurd (ground (arith, s, h));
      })

shutdown-Inv : (d : Drain) (f : Flush) → Inv d → Inv (shutdown d f).0
unfolding shutdown
shutdown-Inv d f v =
    let start = record d {
      draining = true;
      table = record (d.table) { go_away = true };
      go_away_sent = true;
    } in
    let done = maybe_finish (close_if_broken (flushed start f) f) in
    let rest : Drain × Bool = if d.table.closed then (d, true) else (done, false) in
    if-elim (λ (r : Drain × Bool). Inv r.0) d.draining (d, false) rest (λ h. v)
      (λ h.
        if-elim (λ (r : Drain × Bool). Inv r.0) d.table.closed (d, true) (done, false) (λ k. v)
          (λ k. maybe_finish-Inv (close_if_broken (flushed start f) f) (
            close_if_broken-Inv (flushed start f) f (
              flushed-Inv start f
                (record { refusing = λ x. refl; started = λ x. refl; settled = v.settled })))))

abort_table :
    (t : Table) (id : ℕ)
    → (t.go_away ≡ true → (abort_stream t id).go_away ≡ true)
      × (is_nil t.streams ≡ true → is_nil (abort_stream t id).streams ≡ true)
unfolding abort_stream
abort_table t id =
    ((λ h. ground (arith, h)), (λ h. (let r = remove-is_nil id t.streams h in ground (arith, r))))

abort-Inv : (d : Drain) (id : ℕ) (f : Flush) → Inv d → Inv (abort d id f)
unfolding abort
abort-Inv d id f v =
    let gone = record d { table = abort_stream d.table id } in
    let t = abort_table d.table id in
    let g = table-Inv d (abort_stream d.table id) t.0 (λ a. t.1) v in
    maybe_finish-Inv (if mem id d.table.streams then close_if_broken (flushed gone f) f else gone) (
      if-elim (λ (r : Drain). Inv r) (mem id d.table.streams) (close_if_broken (flushed gone f) f)
        gone (λ h. close_if_broken-Inv (flushed gone f) f (flushed-Inv gone f g)) (λ h. g))

abort_all-Inv : (d : Drain) (ids : List ℕ) (f : ℕ → Flush) → Inv d → Inv (abort_all d ids f)
unfolding abort_all
abort_all-Inv d [] f v = v
abort_all-Inv d (id ∷ ids) f v = abort_all-Inv (abort d id (f id)) ids f (abort-Inv d id (f id) v)

force_drain-Inv : (d : Drain) (c : Cause) (f : ℕ → Flush) → Inv d → Inv (force_drain d c f)
unfolding force_drain
force_drain-Inv d c f v =
    let all = abort_all (finish_drain d shutdown_timeout) d.table.streams f in
    if-elim (λ (r : Drain). Inv r) (not d.draining || not (is_none d.ended)) d (close_with all c)
      (λ h. v)
      (λ h. close_with-Inv all c (
        abort_all-Inv (finish_drain d shutdown_timeout) d.table.streams f
          (finish_drain-Inv d shutdown_timeout refl v)))

or_else-settled :
    (c other : Cause)
    → is_settled (some other) ≡ false
    → is_settled (some (or_else c other)) ≡ false
or_else-settled nil other h = h
or_else-settled shutdown_timeout other h = refl
or_else-settled closed_error other h = refl
or_else-settled flush_failed other h = refl
or_else-settled end_of_file other h = refl
or_else-settled (ctx_error n) other h = refl
or_else-settled (transport_error n) other h = refl

close_session-Inv : (d : Drain) (c : Cause) (f : Flush) → Inv d → Inv (close_session d c f)
unfolding close_session
close_session-Inv d c f v =
    let away = record d { table = record (d.table) { go_away = true }; go_away_sent = true } in
    let ending = finish_drain (flushed away f) (or_else c closed_error) in
    let last = if f.broken then flush_failed else or_else c closed_error in
    if-elim (λ (r : Drain). Inv r) d.table.closed d (close_with ending last) (λ h. v)
      (λ h. close_with-Inv ending last (
        finish_drain-Inv (flushed away f) (or_else c closed_error)
          (or_else-settled c closed_error refl)
          (flushed-Inv away f
            (record { refusing = λ x. refl; started = v.started; settled = v.settled }))))

transport_close-Inv : (d : Drain) (c : Cause) → Inv d → Inv (transport_close d c)
unfolding transport_close
transport_close-Inv d c v =
    let shut = record d { table = record (d.table) { closed = true } } in
    let ending = finish_drain shut (or_else c end_of_file) in
    let none_left = record (ending.table) { streams = []; open_wait = [] } in
    if-elim (λ (r : Drain). Inv r) d.table.closed d (record ending { table = none_left }) (λ h. v)
      (λ h.
        table-Inv ending none_left (λ a. a) (λ a e. refl)
          (finish_drain-Inv shut (or_else c end_of_file) (or_else-settled c end_of_file refl)
            (record { refusing = v.refusing; started = v.started; settled = v.settled })))

open_table : (t : Table) (broken : Bool) → t.go_away ≡ true → (open_stream t broken).0 ≡ t
unfolding open_stream
open_table t broken h =
    if-elim (λ (r : Table × Outcome). r.0 ≡ t) t.closed (t, closed_session) _ (λ k. refl)
      (λ k.
        if-elim (λ (r : Table × Outcome). r.0 ≡ t) t.go_away (t, going_away) _ (λ a. refl)
          (λ a. absurd (ground (arith, a, h))))

-- A table that refuses keeps its streams.
abbrev Refused : Table → Table × Outcome → Type 0
Refused t r = r.0.go_away ≡ true × r.0.streams ≡ t.streams

refuse-Refused :
    (t : Table) (id : ℕ) (broken : Bool) → t.go_away ≡ true → Refused t (refuse t id broken)
refuse-Refused t id broken h = (ground (arith, h), ground arith)

check_table :
    (t : Table) (id : ℕ) (broken : Bool) → t.go_away ≡ true → Refused t (accept_check t id broken)
unfolding accept_check
check_table t id broken h =
    if-elim (Refused t) (not (check_peer_stream_id t.client id)) (t, protocol_error) _
      (λ k. (h, refl))
      (λ k.
        if-elim (Refused t) t.closed (t, nothing) _ (λ c. (h, refl))
          (λ c.
            if-elim (Refused t) t.go_away (refuse t id broken) _ (λ a. refuse-Refused t id broken h)
              (λ a. absurd (ground (arith, a, h)))))

admit_table :
    (o : Option ℕ) (t : Table) (vetted broken : Bool)
    → t.go_away ≡ true
    → Refused t (admit_next o t vetted broken)
unfolding admit
admit_table none t vetted broken h = (h, refl)
admit_table (some id) t vetted broken h =
    let u = record t { vetting = none } in
    if-elim (Refused t) (not vetted) (refuse u id broken) _ (λ k. refuse-Refused u id broken h)
      (λ k.
        if-elim (Refused t) t.closed (u, nothing) _ (λ c. (h, refl))
          (λ c.
            if-elim (Refused t) t.go_away (refuse u id broken) _ (λ a. refuse-Refused u id broken h)
              (λ a. absurd (ground (arith, a, h)))))

pub step-Inv : (d : Drain) (s : Step) → Inv d → Inv (step d s)
unfolding leave flush_session handle_go_away remove_stream accept_admit
step-Inv d (shutdown_step f) v = shutdown-Inv d f v
step-Inv d (force_step c f) v = force_drain-Inv d c f v
step-Inv d (leave_step id) v =
    maybe_finish-Inv (record d { table = remove_stream d.table id })
      (table-Inv d (remove_stream d.table id) (λ a. a) (λ a e. remove-is_nil id d.table.streams e)
        v)
step-Inv d (abort_step id f) v = abort-Inv d id f v
step-Inv d (flush_step f) v =
    maybe_finish-Inv (close_if_broken (flushed d f) f)
      (close_if_broken-Inv (flushed d f) f (flushed-Inv d f v))
step-Inv d (close_step c f) v = close_session-Inv d c f v
step-Inv d go_away_step v =
    table-Inv d (record (d.table) { go_away = true }) (λ a. refl) (λ a e. e) v
step-Inv d (transport_step c) v = transport_close-Inv d c v
step-Inv d (open_step broken) v =
    table-Inv d (open_stream d.table broken).0
      (λ a. ap (λ t. t.go_away) (open_table d.table broken a) ∙ a)
      (λ a e. ap (λ t. is_nil t.streams) (open_table d.table broken a) ∙ e) v
step-Inv d (check_step id f) v =
    let t = (accept_check d.table id f.broken).0 in
    flushed-Inv (record d { table = t }) f
      (table-Inv d t (λ a. (check_table d.table id f.broken a).0)
        (λ a e. ap is_nil (check_table d.table id f.broken a).1 ∙ e) v)
step-Inv d (admit_step vetted f) v =
    let t = (accept_admit d.table vetted f.broken).0 in
    let kept = admit_table d.table.vetting d.table vetted f.broken in
    flushed-Inv (record d { table = t }) f
      (table-Inv d t (λ a. (kept a).0) (λ a e. ap is_nil (kept a).1 ∙ e) v)

-- From a session where `Inv` holds, it holds after any steps: a session that drains has `goAway` set,
-- only one that drains has an ended drain, and when the drain ended with nil, no stream is left and the
-- flag that the GoAway was flushed is set.
pub steps-Inv : (d : Drain) (ss : List Step) → Inv d → Inv (steps d ss)
unfolding steps
steps-Inv d [] v = v
steps-Inv d (s ∷ ss) v = steps-Inv (step d s) ss (step-Inv d s v)

pub new_drain-Inv : (t : Table) → Inv (new_drain t)
new_drain-Inv t = record {
  refusing = λ h. absurd (ground (arith, h));
  started = λ h. absurd (ground (arith, h));
  settled = λ h. absurd (ground (arith, h));
}
