-- ===== src/Umux/Outbound/Runs.antt =====
-- Writers, closers, removals and flushes in any order.
use uio.Prelude.{
  ℕ, ◌≡◌, refl, ap, ◌∙◌, sym, Bool, true, false, not, ◌||◌, Option, List, [], length, ◌==◌,
}
use uio.Umux.Window.{SendWindow}
use uio.Umux.Outbound.{
  Cause, Sender, FinState, is_none, is_queued, fin_none, Outbound, put_stream, send_control, write,
  write_owned, close_write, drop_out,
}
use uio.Umux.Outbound.Flush.{Transport, flush}
use uio.Umux.Outbound.Queues.{mem, ended, fin_last, has_work, StreamInv}
use uio.Umux.Outbound.Invariant.{Inv}
use uio.Umux.Outbound.Order.{flush_keeps}
use uio.Umux.Outbound.Steps.{put_stream-Inv}
use uio.Umux.Outbound.Writers.{
  write-Inv, write_owned-Inv, close_write-Inv, drop_out-Inv, send_control-Inv,
}

-- A stream that has queued nothing.
pub record IsFresh (st : Sender) : Type 0 where
  pub no_out : st.out ≡ []
  pub not_queued : st.queued ≡ false
  pub no_fin : st.fin_state ≡ fin_none

-- What the rest of the session may change of a stream: its window and how it ended.
abbrev pub noted : Sender → Bool → Bool → Option Cause → SendWindow → Sender
noted st opening closed_local closed_err w = record st {
  opening = opening;
  closed_local = closed_local;
  closed_err = closed_err;
  send_win = w;
}

-- What the rest of the session may change of itself: the connection and the announced end.
abbrev pub switched : Outbound → Bool → Bool → Bool → Bool → Outbound
switched s has_conn closed go_away_sent hears_drains = record s {
  has_conn = has_conn;
  closed = closed;
  go_away_sent = go_away_sent;
  hears_drains = hears_drains;
}

-- One step of a session's sending side. A number whose FIN went is not given to another stream.
pub data Step : Outbound → Outbound → Type 0 where
  opens :
      {s : Outbound} (id : ℕ) (st : Sender)
      → IsFresh st
      → ended id s.wire ≡ false
      → Step s (put_stream s id st)
  writes : {s : Outbound} (id : ℕ) (p : List ℕ) (max_frame : ℕ) → Step s (write s id p max_frame).0
  writes_owned :
      {s : Outbound} (id : ℕ) (p : List ℕ) (max_frame : ℕ) → Step s (write_owned s id p max_frame).0
  half_closes : {s : Outbound} (id : ℕ) → Step s (close_write s id).0
  leaves : {s : Outbound} (id : ℕ) → Step s (drop_out s id)
  controls : {s : Outbound} (typ flags sid len : ℕ) → Step s (send_control s typ flags sid len)
  notes :
      {s : Outbound} (id : ℕ) (opening closed_local : Bool) (e : Option Cause) (w : SendWindow)
      → Step s (put_stream s id (noted (s.streams id) opening closed_local e w))
  switches :
      {s : Outbound} (has_conn closed go_away_sent hears_drains : Bool)
      → Step s (switched s has_conn closed go_away_sent hears_drains)
  flushes : {s : Outbound} (transport : Transport) → Step s (flush transport s).0

-- A session that has sent nothing.
pub record IsNew (s : Outbound) : Type 0 where
  pub fresh : (id : ℕ) → IsFresh (s.streams id)
  pub no_pending : s.pending ≡ []
  pub no_wire : s.wire ≡ []

pub data Reach : Outbound → Type 0 where
  starts : {s : Outbound} → IsNew s → Reach s
  steps : {s t : Outbound} → Reach s → Step s t → Reach t

fresh-StreamInv :
    (id : ℕ) (st : Sender) (s : Outbound)
    → IsFresh st
    → fin_last id s.wire ≡ true
    → ended id s.wire ≡ false
    → StreamInv id st s.pending s.wire
fresh-StreamInv id st s f l e = record {
  fin_local = λ b. absurd (false_is_not_true (sym b ∙ ap is_none f.no_fin));
  sent_empty = λ b. f.no_out;
  work_queued =
      λ b. absurd (false_is_not_true (sym (idle st.out st.fin_state f.no_out f.no_fin) ∙ b));
  queued_pending = λ b. absurd (false_is_not_true (sym f.not_queued ∙ b));
  dead_idle = λ b. f.not_queued;
  last = l;
  over = λ b live. absurd (false_is_not_true (sym e ∙ b));
}
  where
    false_is_not_true : false ≡ true → ⊥
    false_is_not_true h = cc

    idle :
        (out : List (List ℕ)) (fin : FinState)
        → out ≡ []
        → fin ≡ fin_none
        → (not (length out == 0) || is_queued fin) ≡ false
    idle out fin a b = rw (a, b) refl

new-Inv : (s : Outbound) → IsNew s → Inv s
new-Inv s n id =
    fresh-StreamInv id (s.streams id) s (n.fresh id) (ap (fin_last id) n.no_wire)
      (ap (ended id) n.no_wire)

Step-Inv : {s t : Outbound} → Inv s → Step s t → Inv t
Step-Inv {s = s} v (opens id st f e) =
    put_stream-Inv s id st v (fresh-StreamInv id st s f (v id).last e)
Step-Inv {s = s} v (writes id p max_frame) = write-Inv s id p max_frame v
Step-Inv {s = s} v (writes_owned id p max_frame) = write_owned-Inv s id p max_frame v
Step-Inv {s = s} v (half_closes id) = close_write-Inv s id v
Step-Inv {s = s} v (leaves id) = drop_out-Inv s id v
Step-Inv {s = s} v (controls typ flags sid len) = send_control-Inv s typ flags sid len v
Step-Inv {s = s} v (notes id opening closed_local e w) =
    put_stream-Inv s id (noted (s.streams id) opening closed_local e w) v (
      let u = v id in
      record {
        fin_local = u.fin_local;
        sent_empty = u.sent_empty;
        work_queued = u.work_queued;
        queued_pending = u.queued_pending;
        dead_idle = u.dead_idle;
        last = u.last;
        over = u.over;
      })
Step-Inv {s = s} v (switches has_conn closed go_away_sent hears_drains) = v
Step-Inv {s = s} v (flushes transport) = λ id. (flush_keeps transport s id v).0

pub Reach-Inv : {s : Outbound} → Reach s → Inv s
Reach-Inv {s = s} (starts n) = new-Inv s n
Reach-Inv (steps r st) = Step-Inv (Reach-Inv r) st

-- However writers, half-closes, removals and flushes follow each other and whatever the transport
-- answers, as long as no number whose FIN went is given to a new stream: the wire holds no data
-- frame and no second FIN of a stream behind its FIN (window updates and resets are control frames,
-- which may follow), and a stream that has data or a FIN to send waits in the round-robin
-- queue.
pub stream_order :
    (s : Outbound) (id : ℕ)
    → Reach s
    → fin_last id s.wire ≡ true × (has_work (s.streams id) ≡ true → mem id s.pending ≡ true)
stream_order s id r = let v = Reach-Inv r id in (v.last, λ w. v.queued_pending (v.work_queued w))
