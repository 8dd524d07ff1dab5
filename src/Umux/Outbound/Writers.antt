-- ===== src/Umux/Outbound/Writers.antt =====
-- Writes, half-closes and removals keep the order of a stream's frames.
use uio.Prelude.Store.{store-elim}
use uio.Prelude.{
  ℕ, ◌≡◌, refl, true, false, not, ◌||◌, Option, none, some, List, [], length, take, ltb, ◌==◌,
  if◌then◌else◌, arith, if-elim, Bool-cases, inl, inr,
}
use uio.Prelude.Int64.{slt, sle}
use uio.Umux.Outbound.{
  or_closed, Cause, closed_error, outbound_overflow, Sender, fin_none, Outbound, is_none,
  put_stream, send_control, frame_data, write, write_owned, close_write, drop_out,
}
use uio.Umux.Window as Window
use uio.Umux.Window.{SendWindow}
use uio.Umux.Outbound.Queues.{StreamInv}
use uio.Umux.Outbound.Invariant.{Inv}
use uio.Umux.Outbound.Steps.{put_stream-Inv, enqueue_fin-Inv, frame_data-Inv}

-- The invariant of a stream does not name its window.
window-StreamInv :
    (s : Outbound) (i : ℕ) (w : SendWindow)
    → Inv s
    → StreamInv i (record (s.streams i) { send_win = w }) s.pending s.wire
window-StreamInv s i w v =
    let u = v i in
    record {
      fin_local = u.fin_local;
      sent_empty = u.sent_empty;
      work_queued = u.work_queued;
      queued_pending = u.queued_pending;
      dead_idle = u.dead_idle;
      last = u.last;
      over = u.over;
    }

-- A stream that did not end its direction has no FIN yet.
fin-open :
    (s : Outbound) (i : ℕ)
    → Inv s
    → (s.streams i).local_fin ≡ false
    → is_none (s.streams i).fin_state ≡ true
fin-open s i v e = elim (Bool-cases (is_none (s.streams i).fin_state)) [
  | inl f ↦ f
  | inr f ↦ (let closed = (v i).fin_local f in absurd cc)
]

Kept : Outbound × ℕ × Option Cause → Type 0
Kept r = Inv r.0

-- Data queued after credit was taken.
taken-Inv :
    (fuel max_frame : ℕ) (s : Outbound) (i : ℕ) (w : SendWindow) (p : List ℕ)
    → Inv s
    → (s.streams i).local_fin ≡ false
    → Inv (frame_data fuel max_frame (put_stream s i (record (s.streams i) { send_win = w })) i p).0
taken-Inv fuel max_frame s i w p v e =
    let st = record (s.streams i) { send_win = w } in
    frame_data-Inv fuel max_frame (put_stream s i st) i p
      (put_stream-Inv s i st v (window-StreamInv s i w v))
      (store-elim (λ x. is_none x.fin_state ≡ true) s.streams i i st (λ f. fin-open s i v e)
        (λ ne. absurd (ne refl)))

pub write-Inv :
    (s : Outbound) (i : ℕ) (p : List ℕ) (max_frame : ℕ) → Inv s → Inv (write s i p max_frame).0
unfolding write Kept
write-Inv s i p max_frame v =
    let st = s.streams i in
    let n = if slt st.send_win.avail (length p) then st.send_win.avail else length p in
    let taken =
      frame_data n max_frame
        (put_stream s i (record st { send_win = (Window.take st.send_win n).0 })) i (take n p) in
    let held : Outbound × ℕ × Option Cause =
      if not taken.1
      then (taken.0, n, some closed_error)
      else if ltb n (length p)
      then (taken.0, n, some outbound_overflow)
      else (taken.0, n, none) in
    let credited : Outbound × ℕ × Option Cause =
      if sle st.send_win.avail 0 then (s, 0, some outbound_overflow) else held in
    let unended : Outbound × ℕ × Option Cause =
      if st.local_fin then (s, 0, some closed_error) else credited in
    let opened : Outbound × ℕ × Option Cause =
      if st.closed_local || st.opening then (s, 0, some (or_closed st.closed_err)) else unended in
    if-elim Kept (length p == 0) (s, 0, none) opened (λ e. v)
      (λ e.
        if-elim Kept (st.closed_local || st.opening) (s, 0, some (or_closed st.closed_err)) unended
          (λ f. v)
          (λ f.
            if-elim Kept st.local_fin (s, 0, some closed_error) credited (λ g. v)
              (λ g.
                if-elim Kept (sle st.send_win.avail 0) (s, 0, some outbound_overflow) held (λ h. v)
                  (λ h.
                    let w =
                      taken-Inv n max_frame s i (Window.take st.send_win n).0 (take n p) v g in
                    if-elim Kept (not taken.1) (taken.0, n, some closed_error) _ (λ k. w)
                      (λ k.
                        if-elim Kept (ltb n (length p)) (taken.0, n, some outbound_overflow)
                          (taken.0, n, none) (λ l. w) (λ l. w))))))

pub write_owned-Inv :
    (s : Outbound) (i : ℕ) (p : List ℕ) (max_frame : ℕ)
    → Inv s
    → Inv (write_owned s i p max_frame).0
unfolding write_owned Kept
write_owned-Inv s i p max_frame v =
    let st = s.streams i in
    let w = (Window.take st.send_win (length p)).0 in
    let taken = frame_data (length p) max_frame (put_stream s i (record st { send_win = w })) i p in
    let held : Outbound × ℕ × Option Cause =
      (taken.0, length p, if taken.1 then none else some closed_error) in
    let credited : Outbound × ℕ × Option Cause =
      if slt st.send_win.avail (length p) then (s, 0, some outbound_overflow) else held in
    let shut = st.closed_local || (st.opening || st.local_fin) in
    if-elim Kept (length p == 0) (s, 0, none)
      (if shut then (s, 0, some (or_closed st.closed_err)) else credited) (λ e. v)
      (λ e.
        if-elim Kept shut (s, 0, some (or_closed st.closed_err)) credited (λ f. v)
          (λ f.
            if-elim Kept (slt st.send_win.avail (length p)) (s, 0, some outbound_overflow) held
              (λ g. v) (λ g. taken-Inv (length p) max_frame s i w p v (open_local st f))))
  where
    open_local :
        (st : Sender)
        → (st.closed_local || (st.opening || st.local_fin)) ≡ false
        → st.local_fin ≡ false
    open_local st f = ground arith

pub close_write-Inv : (s : Outbound) (i : ℕ) → Inv s → Inv (close_write s i).0
unfolding close_write
close_write-Inv s i v =
    let st = s.streams i in
    if-elim (λ (r : Outbound × Option Cause). Inv r.0) st.closed_local _ _ (λ e. v)
      (λ e.
        if-elim (λ (r : Outbound × Option Cause). Inv r.0) st.local_fin _ _ (λ f. v)
          (λ f.
            enqueue_fin-Inv (put_stream s i (record st { local_fin = true })) i
              (put_stream-Inv s i (record st { local_fin = true }) v
                (let u = v i in
                  record {
                    fin_local = λ b. refl;
                    sent_empty = u.sent_empty;
                    work_queued = u.work_queued;
                    queued_pending = u.queued_pending;
                    dead_idle = u.dead_idle;
                    last = u.last;
                    over = u.over;
                  }))
              (store-elim (λ x. x.local_fin ≡ true) s.streams i i (record st { local_fin = true })
                (λ g. refl) (λ ne. absurd (ne refl)))))

pub drop_out-Inv : (s : Outbound) (i : ℕ) → Inv s → Inv (drop_out s i)
unfolding drop_out
drop_out-Inv s i v =
    put_stream-Inv s i
      (record (s.streams i) { live = false; out = []; queued = false; fin_state = fin_none }) v
      (record {
        fin_local = λ b. absurd cc;
        sent_empty = λ b. refl;
        work_queued = λ b. b;
        queued_pending = λ b. absurd cc;
        dead_idle = λ b. refl;
        last = (v i).last;
        over = λ b l. absurd cc;
      })

pub send_control-Inv :
    (s : Outbound) (typ flags sid len : ℕ) → Inv s → Inv (send_control s typ flags sid len)
unfolding send_control
send_control-Inv s typ flags sid len v =
    if-elim (λ (t : Outbound). Inv t) s.closed _ _ (λ e. v) (λ e. v)
